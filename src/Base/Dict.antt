-- ===== src/Base/Dict.antt =====
-- A JavaScript object used as a dictionary, in the order of insertion: assigning to a key that is
-- there keeps its place, a new key goes to the end, `delete` of a missing key does nothing. Ids are
-- host names and UUIDs, never array indices, which an object would list first.
use Prim.Native.String.{String}
use mathlib.Core.Path.{◌≡◌, refl, sym, ap, ◌∙◌, subst}
use mathlib.Core.Bool.{Bool, true, ◌&&◌, not}
use mathlib.Core.Logic.{inl, inr}
use mathlib.Core.Option.{Option, none, some}
use mathlib.Core.List.{List, [], ◌∷◌, ◌++◌, map, Memᴰ}
use native.Mathlib.Omega.{arith}
use text.Mathlib.Text.{◌==◌}
use text.Mathlib.TextEquality.{eq_iff}
use base_layer.Base.Tests.{if◌then◌else◌, Bool-cases}
use base_layer.Base.Lists.{all, count}

abbrev pub Dict {ℓ} : Type ℓ → Type ℓ
Dict V = List (String × V)

module _ {ℓ} {V : Type ℓ} where
  -- `d[key]`
  unfoldable pub lookup : String → Dict V → Option V
  lookup k [] = none
  lookup k ((j, v) ∷ d) = if j == k then some v else lookup k d

  -- `d[key] = v`
  unfoldable pub insert : String → V → Dict V → Dict V
  insert k v [] = (k, v) ∷ []
  insert k v ((j, w) ∷ d) = if j == k then (j, v) ∷ d else (j, w) ∷ insert k v d

  -- `delete d[key]`
  unfoldable pub erase : String → Dict V → Dict V
  erase k [] = []
  erase k ((j, w) ∷ d) = let rest = erase k d in if j == k then rest else (j, w) ∷ rest

  -- `Object.values(d)`
  abbrev pub values : Dict V → List V
  values d = map (λ e. e.1) d

  -- The loop over `Object.entries(d)` that deletes the entries that pass a test.
  unfoldable pub remove_if : (V → Bool) → Dict V → Dict V
  remove_if p [] = []
  remove_if p ((j, w) ∷ d) = let rest = remove_if p d in if p w then rest else (j, w) ∷ rest

  pub lookup-insert :
      (k j : String) (v : V) (d : Dict V)
      → lookup j (insert k v d) ≡ (if k == j then some v else lookup j d)
  unfolding lookup insert
  lookup-insert k j v [] = refl
  lookup-insert k j v ((i, w) ∷ d) =
      ground (arith, eq_iff k j, eq_iff i k, eq_iff i j, lookup-insert k j v d)

  pub lookup-erase :
      (k j : String) (d : Dict V) → lookup j (erase k d) ≡ (if k == j then none else lookup j d)
  unfolding lookup erase
  lookup-erase k j [] = ground arith
  lookup-erase k j ((i, w) ∷ d) =
      ground (arith, eq_iff k j, eq_iff i k, eq_iff i j, lookup-erase k j d)

  -- A value that is looked up is among the values.
  pub lookup-mem : (k : String) (d : Dict V) {v : V} → lookup k d ≡ some v → Memᴰ v (values d)
  unfolding lookup
  lookup-mem k [] h = absurd (ground arith)
  lookup-mem k ((j, w) ∷ d) h = elim (Bool-cases (j == k)) [
    | inl e ↦ Memᴰ.head (ground arith)
    | inr e ↦ Memᴰ.tail (lookup-mem k d (rw e at h))
  ]

  -- A new key goes to the end.
  pub values-insert_new :
      (k : String) (v : V) (d : Dict V)
      → lookup k d ≡ none
      → values (insert k v d) ≡ values d ++ (v ∷ [])
  unfolding lookup insert
  values-insert_new k v [] h = refl
  values-insert_new k v ((j, w) ∷ d) h = elim (Bool-cases (j == k)) [
    | inl e ↦ absurd (ground arith)
    | inr e ↦ rw e (ap (◌∷◌ w) (values-insert_new k v d (rw e at h)))
  ]

  -- A key that is not there is not there after deletions.
  pub lookup-remove_if :
      (p : V → Bool) (k : String) (d : Dict V) → lookup k d ≡ none → lookup k (remove_if p d) ≡ none
  unfolding lookup remove_if
  lookup-remove_if p k [] h = refl
  lookup-remove_if p k ((j, w) ∷ d) h = ground (arith, lookup-remove_if p k d)

  -- Every entry has a property.
  abbrev pub Entries : (String → V → Type 0) → Dict V → Type 0
  Entries P [] = Unit {0}
  Entries P ((j, w) ∷ d) = P j w × Entries P d

module _ {ℓ} {V : Type ℓ} (P : String → V → Type 0) where
  pub insert-Entries :
      (k : String) (v : V) (d : Dict V)
      → ((j : String) → j ≡ k → P j v)
      → Entries P d
      → Entries P (insert k v d)
  unfolding insert
  insert-Entries k v [] h w = (h k refl, tt)
  insert-Entries k v ((j, x) ∷ d) h (p, w) = elim (Bool-cases (j == k)) [
    | inl e ↦ rw e (h j ((eq_iff j k).0 e), w)
    | inr e ↦ rw e (p, insert-Entries k v d h w)
  ]

  pub erase-Entries : (k : String) (d : Dict V) → Entries P d → Entries P (erase k d)
  unfolding erase
  erase-Entries k [] w = tt
  erase-Entries k ((j, x) ∷ d) (p, w) = elim (Bool-cases (j == k)) [
    | inl e ↦ rw e (erase-Entries k d w)
    | inr e ↦ rw e (p, erase-Entries k d w)
  ]

  pub remove_if-Entries : (q : V → Bool) (d : Dict V) → Entries P d → Entries P (remove_if q d)
  unfolding remove_if
  remove_if-Entries q [] w = tt
  remove_if-Entries q ((j, x) ∷ d) (p, w) = elim (Bool-cases (q x)) [
    | inl e ↦ rw e (remove_if-Entries q d w)
    | inr e ↦ rw e (p, remove_if-Entries q d w)
  ]

  pub lookup-Entries : (k : String) (d : Dict V) {v : V} → Entries P d → lookup k d ≡ some v → P k v
  unfolding lookup
  lookup-Entries k [] w h = absurd (ground arith)
  lookup-Entries k ((j, x) ∷ d) {v} (p, w) h = elim (Bool-cases (j == k)) [
    | inl e ↦ same ((eq_iff j k).0 e) (ground arith) p
    | inr e ↦ lookup-Entries k d w (rw e at h)
  ]
    where
      same : j ≡ k → x ≡ v → P j x → P k v
      same a b r = subst (λ z. P z v) a (subst (P j) b r)

module _ {ℓ} {V : Type ℓ} (test : V → Bool) where
  -- `all` on the values, entry by entry.
  pub all-Entries : (d : Dict V) → all test (values d) ≡ true → Entries (λ _ v. test v ≡ true) d
  all-Entries [] h = tt
  all-Entries ((j, x) ∷ d) h = (ground arith, all-Entries d (ground arith))

  pub Entries-all : (d : Dict V) → Entries (λ _ v. test v ≡ true) d → all test (values d) ≡ true
  Entries-all [] w = refl
  Entries-all ((j, x) ∷ d) (p, w) = ground (arith, Entries-all d w)

module _ {ℓ} {V : Type ℓ} (key : V → String) where
  -- Every value stands under its own key, and no key twice.
  abbrev pub Keyed : Dict V → Type ℓ
  Keyed [] = Unit {ℓ}
  Keyed ((k, v) ∷ d) = (key v ≡ k) × (lookup k d ≡ none) × Keyed d

  pub insert-Keyed : (v : V) (d : Dict V) → Keyed d → Keyed (insert (key v) v d)
  unfolding insert lookup
  insert-Keyed v [] w = (refl, refl, tt)
  insert-Keyed v ((k, x) ∷ d) (own, fresh, w) = elim (Bool-cases (k == key v)) [
    | inl e ↦ rw e (sym ((eq_iff k (key v)).0 e), fresh, w)
    | inr e ↦ rw e (
      own,
      lookup-insert (key v) k v d ∙ ground (arith, eq_iff k (key v), eq_iff (key v) k),
      insert-Keyed v d w,
    )
  ]

  pub erase-Keyed : (k : String) (d : Dict V) → Keyed d → Keyed (erase k d)
  unfolding erase
  erase-Keyed k [] w = tt
  erase-Keyed k ((j, x) ∷ d) (own, fresh, w) = elim (Bool-cases (j == k)) [
    | inl e ↦ rw e (erase-Keyed k d w)
    | inr e ↦ rw e (own, lookup-erase k j d ∙ ground arith, erase-Keyed k d w)
  ]

  -- A value that is looked up has the key.
  pub lookup-key : (k : String) (d : Dict V) {v : V} → Keyed d → lookup k d ≡ some v → key v ≡ k
  unfolding lookup
  lookup-key k [] w h = absurd (ground arith)
  lookup-key k ((j, x) ∷ d) {v} (own, fresh, w) h = elim (Bool-cases (j == k)) [
    | inl t ↦ let e : x ≡ v = ground arith in ap key (sym e) ∙ own ∙ (eq_iff j k).0 t
    | inr t ↦ lookup-key k d w (rw t at h)
  ]

  -- A value that is there is looked up under its key.
  pub mem-lookup : (d : Dict V) {v : V} → Keyed d → Memᴰ v (values d) → lookup (key v) d ≡ some v
  unfolding lookup
  mem-lookup [] w m = elim m [ ]
  mem-lookup ((k, x) ∷ d) {v} (own, fresh, w) (Memᴰ.head e) =
      let t : (k == key v) ≡ true = (eq_iff k (key v)).1 (sym own ∙ ap key (sym e)) in
      rw t (ap some (sym e))
  mem-lookup ((k, x) ∷ d) {v} (own, fresh, w) (Memᴰ.tail m) = elim (Bool-cases (k == key v)) [
    | inl t ↦ absurd (clash (mem-lookup d w m) (rw (← (eq_iff k (key v)).0 t) fresh))
    | inr t ↦ rw t (mem-lookup d w m)
  ]
    where
      clash : lookup (key v) d ≡ some v → lookup (key v) d ≡ none → ⊥
      clash p q = ground arith

  -- `delete` takes away exactly the values of the key.
  pub count-erase :
      (p : V → Bool) (k : String) (d : Dict V)
      → Keyed d
      → count p (values (erase k d)) ≡ count (λ v. p v && not (k == key v)) (values d)
  unfolding erase
  count-erase p k [] w = refl
  count-erase p k ((j, x) ∷ d) (own, fresh, w) =
      rw (← own) (ground (arith, count-erase p k d w, eq_iff (key x) k, eq_iff k (key x)))
