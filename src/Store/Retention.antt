-- ===== src/Store/Retention.antt =====
-- `#pruneTerminatedSessions`: how many terminated sessions stay, and which.
use base_layer.Base.{
  ℕ, zero, suc, ◌+◌, ◌≤◌, ◌<◌, Bool, false, ◌&&◌, not, none, List, [], ◌∷◌, String, ◌≡◌, refl, ap,
  ◌∙◌, arith, Memᴰ, if◌then◌else◌, map, includes, count, filter, take, drop, length, nat_eq,
  length-take, eq_iff,
}
use base_layer.Base.Dict.{lookup, values, lookup-erase, count-erase, erase-Keyed}
use base_layer.Base.Sort.{sort, count-sort}
use base_layer.Types.{StateFile, SessionRecord}
use base_layer.Store.Writes.{drop_session}
use base_layer.Store.Commit.{
  is_terminated, latest_ended_first, terminated_sessions, drop_sessions, prune_terminated_sessions,
}
use base_layer.Store.Events.{SessionsKeyed}

abbrev pub ids : List SessionRecord → List String
ids sessions = map (λ x. SessionRecord.session_id x) sessions

-- How many sessions of the state have terminated.
abbrev pub terminated_count : StateFile → ℕ
terminated_count s = count is_terminated (values s.sessions)

count-same :
    {A : Type 0} (p q : A → Bool) (xs : List A) → ((x : A) → p x ≡ q x) → count p xs ≡ count q xs
count-same p q [] h = refl
count-same p q (x ∷ xs) h = ground (arith, h x, count-same p q xs h)

count-both :
    {A : Type 0} (p q : A → Bool) (xs : List A) → count q (filter p xs) ≡ count (λ x. p x && q x) xs
count-both p q [] = refl
count-both p q (x ∷ xs) = ground (arith, count-both p q xs)

count-le-length : {A : Type 0} (p : A → Bool) (xs : List A) → count p xs ≤ length xs
count-le-length p [] = omega arith
count-le-length p (x ∷ xs) = ground (arith, count-le-length p xs)

count-take-drop :
    {A : Type 0} (p : A → Bool) (n : ℕ) (xs : List A)
    → count p xs ≡ count p (take n xs) + count p (drop n xs)
count-take-drop p zero xs = omega arith
count-take-drop p (suc n) [] = omega arith
count-take-drop p (suc n) (x ∷ xs) = omega (arith, count-take-drop p n xs)

abbrev pub stays : List SessionRecord → SessionRecord → Bool
stays xs v = not (includes (ids xs) v.session_id)

-- Nothing of a list outlives the deletion of the list.
count-stays_none :
    (xs ys : List SessionRecord)
    → ((v : SessionRecord) → Memᴰ v ys → stays xs v ≡ false)
    → count (stays xs) ys ≡ 0
count-stays_none xs [] h = refl
count-stays_none xs (y ∷ ys) h =
    ground (arith, h y (Memᴰ.head refl), count-stays_none xs ys λ v m. h v (Memᴰ.tail m))

pub mem-gone : (xs : List SessionRecord) {v : SessionRecord} → Memᴰ v xs → stays xs v ≡ false
unfolding includes
mem-gone [] m = elim m [ ]
mem-gone (x ∷ xs) {v} (Memᴰ.head e) =
    ground (arith, eq_iff x.session_id v.session_id, ap (λ g. SessionRecord.session_id g) e)
mem-gone (x ∷ xs) (Memᴰ.tail m) = ground (arith, mem-gone xs m)

pub drop_sessions-Keyed :
    (xs : List SessionRecord) (s : StateFile)
    → SessionsKeyed s.sessions
    → SessionsKeyed (drop_sessions xs s).sessions
unfolding drop_sessions drop_session
drop_sessions-Keyed [] s w = w
drop_sessions-Keyed (x ∷ xs) s w =
    drop_sessions-Keyed xs (drop_session x.session_id s) (erase-Keyed _ x.session_id s.sessions w)

count-drop_sessions :
    (p : SessionRecord → Bool) (xs : List SessionRecord) (s : StateFile)
    → SessionsKeyed s.sessions
    → count p (values (drop_sessions xs s).sessions)
      ≡ count (λ v. p v && stays xs v) (values s.sessions)
unfolding drop_sessions drop_session includes
count-drop_sessions p [] s w = count-same _ _ (values s.sessions) λ v. ground arith
count-drop_sessions p (x ∷ xs) s w =
    count-drop_sessions p xs (drop_session x.session_id s) (erase-Keyed _ x.session_id s.sessions w)
    ∙ count-erase _ (λ v. p v && stays xs v) x.session_id s.sessions w
    ∙ count-same _ _ (values s.sessions) λ v. ground arith

pub lookup-drop_sessions :
    (xs : List SessionRecord) (s : StateFile) (id : String)
    → lookup id (drop_sessions xs s).sessions
      ≡ (if includes (ids xs) id then none else lookup id s.sessions)
unfolding drop_sessions drop_session includes
lookup-drop_sessions [] s id = refl
lookup-drop_sessions (x ∷ xs) s id =
    lookup-drop_sessions xs (drop_session x.session_id s) id
    ∙ ground (arith, lookup-erase x.session_id id s.sessions)

-- Where sessions stand under their own ids, pruning with a positive retention leaves at most that many
-- terminated sessions.
pub prune-at_most :
    (retention : ℕ) (s : StateFile)
    → SessionsKeyed s.sessions
    → 0 < retention
    → terminated_count (prune_terminated_sessions retention s) ≤ retention
unfolding prune_terminated_sessions terminated_sessions
prune-at_most retention s w n =
    let xs = sort latest_ended_first (filter is_terminated (values s.sessions)) in
    let out = drop retention xs in
    let positive : nat_eq retention 0 ≡ false = ground arith in
    rw positive (
      omega (
        arith,
        count-drop_sessions is_terminated out s w,
        count-both is_terminated (stays out) (values s.sessions),
        count-sort latest_ended_first (stays out) (filter is_terminated (values s.sessions)),
        count-take-drop (stays out) retention xs,
        count-le-length (stays out) (take retention xs),
        length-take retention xs,
        count-stays_none out out (λ v m. mem-gone out m),
      ))
