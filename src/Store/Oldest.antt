-- ===== src/Store/Oldest.antt =====
-- Which sessions `#pruneTerminatedSessions` takes away.
use base_layer.Base.{
  ℕ, zero, suc, ◌≤◌, Bool, true, false, not, Option, none, some, List, [], ◌∷◌, String, ◌==◌, ◌≡◌,
  refl, sym, ◌∙◌, arith, subst, Memᴰ, ◌⊎◌, inl, inr, Bool-cases, if◌then◌else◌, includes, filter,
  take, drop, nat_eq, mem-filter, filter-mem, eq_iff, leb, leb→le,
}
use base_layer.Base.Int.{ℤ, sub_ℕ, pos_part, neg_part}
use base_layer.Base.Dict.{lookup, values, mem-lookup, lookup-mem}
use base_layer.Base.Sort.{sort, not_after, mem-sort, sort-mem}
use base_layer.Base.Sort.Order.{IsSorted, IsOrder, sort-IsSorted}
use base_layer.Types.{StateFile, SessionRecord}
use base_layer.Store.Commit.{
  is_terminated, ended, latest_ended_first, terminated_sessions, drop_sessions,
  prune_terminated_sessions,
}
use base_layer.Store.Events.{SessionsKeyed}
use base_layer.Store.Retention.{ids, mem-gone, drop_sessions-Keyed, lookup-drop_sessions}

module _ {A : Type 0} where
  mem-drop : (n : ℕ) (xs : List A) {a : A} → Memᴰ a (drop n xs) → Memᴰ a xs
  mem-drop zero xs m = m
  mem-drop (suc n) [] m = m
  mem-drop (suc n) (x ∷ xs) m = Memᴰ.tail (mem-drop n xs m)

  mem-split : (n : ℕ) (xs : List A) {a : A} → Memᴰ a xs → Memᴰ a (take n xs) ⊎ Memᴰ a (drop n xs)
  mem-split zero xs m = inr m
  mem-split (suc n) [] m = inr m
  mem-split (suc n) (x ∷ xs) (Memᴰ.head e) = inl (Memᴰ.head e)
  mem-split (suc n) (x ∷ xs) (Memᴰ.tail m) = elim (mem-split n xs m) [
    | inl t ↦ inl (Memᴰ.tail t)
    | inr d ↦ inr d
  ]

  sorted-split :
      (cmp : A → A → ℤ) (n : ℕ) (xs : List A) {a b : A}
      → IsSorted cmp xs
      → Memᴰ a (take n xs)
      → Memᴰ b (drop n xs)
      → not_after cmp a b ≡ true
  sorted-split cmp zero xs w m k = elim m [ ]
  sorted-split cmp (suc n) [] w m k = elim m [ ]
  sorted-split cmp (suc n) (x ∷ xs) {a} {b} (h, w) (Memᴰ.head e) k =
      subst (λ z. not_after cmp z b ≡ true) (sym e) (h b (mem-drop n xs k))
  sorted-split cmp (suc n) (x ∷ xs) (h, w) (Memᴰ.tail m) k = sorted-split cmp n xs w m k

sub_ℕ-sign : (a b : ℕ) → leb (pos_part (sub_ℕ a b)) (neg_part (sub_ℕ a b)) ≡ leb a b
sub_ℕ-sign a b = ground arith

not_after-ended : (x y : SessionRecord) → not_after latest_ended_first x y ≡ leb (ended y) (ended x)
not_after-ended x y = sub_ℕ-sign (ended y) (ended x)

latest_ended_first-IsOrder : IsOrder latest_ended_first
latest_ended_first-IsOrder = record {
  trans = λ a b c h k.
      not_after-ended a c
      ∙ leb-trans (ended c) (ended b) (ended a) (sym (not_after-ended b c) ∙ k)
          (sym (not_after-ended a b) ∙ h);
  total =
      λ a b h. not_after-ended b a ∙ leb-total (ended b) (ended a) (sym (not_after-ended a b) ∙ h);
}
  where
    leb-trans : (a b c : ℕ) → leb a b ≡ true → leb b c ≡ true → leb a c ≡ true
    leb-trans a b c h k = ground arith

    leb-total : (a b : ℕ) → leb a b ≡ false → leb b a ≡ true
    leb-total a b h = ground arith

ids-includes :
    (xs : List SessionRecord) (id : String)
    → includes (ids xs) id ≡ true
    → (x : SessionRecord) × Memᴰ x xs × (x.session_id ≡ id)
unfolding includes
ids-includes [] id h = absurd (ground arith)
ids-includes (x ∷ xs) id h = elim (Bool-cases (x.session_id == id)) [
  | inl e ↦ (x, Memᴰ.head refl, (eq_iff x.session_id id).0 e)
  | inr e ↦ let (y, m, k) = ids-includes xs id (rw e at h) in (y, Memᴰ.tail m, k)
]

module _ (retention : ℕ) (s : StateFile) (w : SessionsKeyed s.sessions) where
  abbrev dead : List SessionRecord
  dead = sort latest_ended_first (filter is_terminated (values s.sessions))

  abbrev out : List SessionRecord
  out = drop retention dead

  mem-dead :
      {x : SessionRecord} → Memᴰ x dead → Memᴰ x (values s.sessions) × (is_terminated x ≡ true)
  mem-dead m =
      mem-filter is_terminated (values s.sessions)
        (mem-sort latest_ended_first (filter is_terminated (values s.sessions)) m)

  dead-mem : {x : SessionRecord} → Memᴰ x (values s.sessions) → is_terminated x ≡ true → Memᴰ x dead
  dead-mem m e = sort-mem latest_ended_first _ (filter-mem is_terminated (values s.sessions) m e)

  -- A session that a deletion of `out` takes away is in `out`.
  gone-mem :
      (id : String) (v : SessionRecord)
      → lookup id s.sessions ≡ some v
      → lookup id (drop_sessions out s).sessions ≡ none
      → Memᴰ v out
  gone-mem id v found gone = elim (Bool-cases (includes (ids out) id)) [
    | inl t ↦
        let (x, m, same) = ids-includes out id t in
        let stored = mem-lookup _ s.sessions w (mem-dead (mem-drop retention dead m)).0 in
        let e : x ≡ v = one (rw same at stored) found in subst (λ z. Memᴰ z out) e m
    | inr t ↦ absurd (kept (sym (lookup-drop_sessions out s id) ∙ gone) t found)
  ]
    where
      one : {o : Option SessionRecord} {x y : SessionRecord} → o ≡ some x → o ≡ some y → x ≡ y
      one p q = ground arith

      kept :
          {b : Bool} {o : Option SessionRecord} {x : SessionRecord}
          → (if b then none else o) ≡ none
          → b ≡ false
          → o ≡ some x
          → ⊥
      kept p q r = ground arith

  -- A terminated session that is left is one of the first.
  left-mem :
      {y : SessionRecord}
      → Memᴰ y (values (drop_sessions out s).sessions)
      → is_terminated y ≡ true
      → Memᴰ y (take retention dead)
  left-mem {y} m t =
      elim (mem-split retention dead (dead-mem (lookup-mem y.session_id s.sessions found.1) t)) [
        | inl k ↦ k
        | inr k ↦ absurd (clash (mem-gone out k) found.0)
      ]
    where
      stays_found :
          {b : Bool} {o : Option SessionRecord}
          → (if b then none else o) ≡ some y
          → (b ≡ false) × (o ≡ some y)
      stays_found h = ground arith

      found : (includes (ids out) y.session_id ≡ false) × (lookup y.session_id s.sessions ≡ some y)
      found = stays_found (
          sym (lookup-drop_sessions out s y.session_id)
          ∙ mem-lookup _ (drop_sessions out s).sessions (drop_sessions-Keyed out s w) m)

      clash : {b : Bool} → not b ≡ false → b ≡ false → ⊥
      clash p q = ground arith

-- Where sessions stand under their own ids, pruning takes away terminated sessions only.
pub prune-only_terminated :
    (retention : ℕ) (s : StateFile) (id : String) (v : SessionRecord)
    → SessionsKeyed s.sessions
    → lookup id s.sessions ≡ some v
    → lookup id (prune_terminated_sessions retention s).sessions ≡ none
    → is_terminated v ≡ true
unfolding prune_terminated_sessions terminated_sessions
prune-only_terminated retention s id v w found gone = elim (Bool-cases (nat_eq retention 0)) [
  | inl t ↦ absurd (clash found (rw t at gone))
  | inr t ↦
      (mem-dead retention s w (
        mem-drop retention (dead retention s w)
          (gone-mem retention s w id v found (rw t at gone)))).1
]
  where
    clash : {o : Option SessionRecord} → o ≡ some v → o ≡ none → ⊥
    clash p q = ground arith

-- Where sessions stand under their own ids, a session that pruning takes away ended no later than any
-- terminated session that it leaves.
pub prune-oldest :
    (retention : ℕ) (s : StateFile) (id : String) (v y : SessionRecord)
    → SessionsKeyed s.sessions
    → lookup id s.sessions ≡ some v
    → lookup id (prune_terminated_sessions retention s).sessions ≡ none
    → Memᴰ y (values (prune_terminated_sessions retention s).sessions)
    → is_terminated y ≡ true
    → ended v ≤ ended y
unfolding prune_terminated_sessions terminated_sessions
prune-oldest retention s id v y w found gone left dead_y = elim (Bool-cases (nat_eq retention 0)) [
  | inl t ↦ absurd (clash found (rw t at gone))
  | inr t ↦ leb→le _ _ (
      sym (not_after-ended y v)
      ∙ sorted-split latest_ended_first retention (dead retention s w)
          (sort-IsSorted latest_ended_first-IsOrder _)
          (left-mem retention s w (rw t at left) dead_y)
          (gone-mem retention s w id v found (rw t at gone)))
]
  where
    clash : {o : Option SessionRecord} → o ≡ some v → o ≡ none → ⊥
    clash p q = ground arith
