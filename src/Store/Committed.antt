-- ===== src/Store/Committed.antt =====
-- What `commitSessionMutation` leaves in the state.
use base_layer.Base.{
  ℕ, Bool, true, Option, none, some, List, [], ◌∷◌, String, ◌==◌, ◌≡◌, refl, sym, ap, ◌∙◌, arith,
  Result, ok, err, Error, if◌then◌else◌, inl, inr, Bool-cases, eq_iff, truthy, nat_eq, includes,
  drop,
}
use base_layer.Base.Dict.{Dict, lookup, insert, lookup-insert}
use base_layer.Types.{
  StateFile, SessionRecord, SessionEventRecord, IdempotencyRecord, HostDeleteReservation,
}
use base_layer.Types.Schema.{
  checked, valid_session, valid_event, valid_idempotency, valid_delete_reservation, parse_session,
  parse_event, parse_idempotency, parse_delete_reservation,
}
use base_layer.Types.Platform.{Platform}
use base_layer.Store.Monad.{M, continue, ◌>>=◌, lift}
use base_layer.Store.Effective.{cleanup_expired_reservations}
use base_layer.Store.Writes.{
  put_session, put_event, put_idempotency, drop_session, drop_reservation, add_event,
}
use base_layer.Store.Commit.{
  SessionMutation, Committed, put_delete_reservation, add_delete, set_session, set_idempotency,
  when_given, drop_sessions, prune_terminated_sessions, terminated_sessions,
  commit_session_mutation,
}
use base_layer.Store.Retention.{ids, lookup-drop_sessions}

-- A step that has returned, taken apart.
pub bind-ok :
    {A B : Type 0} (m : M A) (f : A → M B) (s : StateFile) {b : B} {t : StateFile}
    → (m >>= f) s ≡ (ok b, t)
    → (a : A) × (u : StateFile) × (m s ≡ (ok a, u)) × (f a u ≡ (ok b, t))
bind-ok {A} {B} m f s {b} {t} h = go (m s) refl h
  where
    go :
        (r : Result A × StateFile)
        → m s ≡ r
        → continue r f ≡ (ok b, t)
        → (a : A) × (u : StateFile) × (m s ≡ (ok a, u)) × (f a u ≡ (ok b, t))
    go (ok a, u) e h = (a, u, e, h)
    go (err x, u) e h = absurd (ground arith)

parsed-ok :
    {A B : Type 0} (valid : Bool) (a : A) (f : A → M B) (s : StateFile) {b : B} {t : StateFile}
    → (lift (checked valid a) >>= f) s ≡ (ok b, t)
    → f a s ≡ (ok b, t)
parsed-ok valid a f s h = elim (Bool-cases valid) [
  | inl e ↦ rw e at h
  | inr e ↦ absurd (clash (rw e at h))
]
  where
    clash :
        {B : Type 0} {x : Error} {b : B} {s t : StateFile}
        → ◌≡◌ {A = Result B × StateFile} (err x, s) (ok b, t)
        → ⊥
    clash c = ground arith

abbrev or_pair :
    Option (String × IdempotencyRecord) → String × IdempotencyRecord → String × IdempotencyRecord
or_pair none z = z
or_pair (some y) z = y

-- The sessions and the idempotency records of one state are those of another.
abbrev SameRows : StateFile → StateFile → Type 0
SameRows s t = (t.sessions ≡ s.sessions) × (t.idempotency_records ≡ s.idempotency_records)

module _ (platform : Platform) where
  open platform use {formats}

  add_delete-SameRows :
      (r : Option HostDeleteReservation) (s t : StateFile)
      → add_delete platform r s ≡ (ok tt, t)
      → SameRows s t
  unfolding add_delete parse_delete_reservation put_delete_reservation
  add_delete-SameRows none s t h =
      (ap (λ p. p.1.sessions) (sym h), ap (λ p. p.1.idempotency_records) (sym h))
  add_delete-SameRows (some r) s t h =
      let e = parsed-ok (valid_delete_reservation formats r) r _ s h in
      (ap (λ p. p.1.sessions) (sym e), ap (λ p. p.1.idempotency_records) (sym e))

  add_event-SameRows :
      (e : Option SessionEventRecord) (s t : StateFile) {o : Option SessionEventRecord}
      → add_event platform e s ≡ (ok o, t)
      → SameRows s t
  unfolding add_event parse_event put_event
  add_event-SameRows none s t h =
      (ap (λ p. p.1.sessions) (sym h), ap (λ p. p.1.idempotency_records) (sym h))
  add_event-SameRows (some e) s t h =
      let k = parsed-ok (valid_event e) e _ s h in
      (ap (λ p. p.1.sessions) (sym k), ap (λ p. p.1.idempotency_records) (sym k))

  set_session-rows :
      (x : Option SessionRecord) (s t : StateFile) {o : Option SessionRecord}
      → set_session platform x s ≡ (ok o, t)
      → (t.idempotency_records ≡ s.idempotency_records)
        × ((y : SessionRecord) → x ≡ some y → t.sessions ≡ insert y.session_id y s.sessions)
  unfolding set_session parse_session put_session
  set_session-rows none s t h =
      (ap (λ p. p.1.idempotency_records) (sym h), λ y e. absurd (ground arith))
  set_session-rows (some x) s t h =
      let k = parsed-ok (valid_session formats x) x _ s h in
      (
        ap (λ p. p.1.idempotency_records) (sym k),
        λ y e. let same : x ≡ y = ground arith in rw (← same) (ap (λ p. p.1.sessions) (sym k)),
      )

  set_idempotency-rows :
      (x : Option (String × IdempotencyRecord)) (s t : StateFile) {o : Option IdempotencyRecord}
      → set_idempotency platform x s ≡ (ok o, t)
      → (t.sessions ≡ s.sessions)
        × (x ≡ none → t.idempotency_records ≡ s.idempotency_records)
        × ((k : String) (r : IdempotencyRecord)
            → x ≡ some (k, r)
            → t.idempotency_records ≡ insert k r s.idempotency_records)
  unfolding set_idempotency parse_idempotency put_idempotency
  set_idempotency-rows none s t h = (
    ap (λ p. p.1.sessions) (sym h),
    λ _. ap (λ p. p.1.idempotency_records) (sym h),
    λ k r e. absurd (ground arith),
  )
  set_idempotency-rows (some (key, x)) s t h =
      let p = parsed-ok (valid_idempotency x) x _ s h in
      (
        ap (λ p. p.1.sessions) (sym p),
        λ e. absurd (ground arith),
        λ k r e.
            ap (λ q. q.1.idempotency_records) (sym p)
            ∙ ap (λ z. insert z.0 z.1 s.idempotency_records) (ap (λ o. or_pair o (key, x)) e),
      )

  drop_sessions-records :
      (xs : List SessionRecord) (s : StateFile)
      → (drop_sessions xs s).idempotency_records ≡ s.idempotency_records
  unfolding drop_sessions drop_session
  drop_sessions-records [] s = refl
  drop_sessions-records (x ∷ xs) s = drop_sessions-records xs (drop_session x.session_id s)

  -- Pruning keeps the idempotency records, and what it leaves of the sessions as it was.
  prune-rows :
      (n : ℕ) (s : StateFile)
      → ((prune_terminated_sessions n s).idempotency_records ≡ s.idempotency_records)
        × ((id : String) (v : SessionRecord)
            → lookup id (prune_terminated_sessions n s).sessions ≡ some v
            → lookup id s.sessions ≡ some v)
  unfolding prune_terminated_sessions
  prune-rows n s = elim (Bool-cases (nat_eq n 0)) [
    | inl t ↦ rw t (refl, λ id v e. e)
    | inr t ↦
        let out = drop n (terminated_sessions s) in
        rw t (
          drop_sessions-records out s,
          λ id v e.
              kept (includes (ids out) id) (lookup id s.sessions) v
                (sym (lookup-drop_sessions out s id) ∙ e),
        )
  ]
    where
      kept :
          (b : Bool) (o : Option SessionRecord) (v : SessionRecord)
          → (if b then none else o) ≡ some v
          → o ≡ some v
      kept b o v h = ground arith

  when_given-records :
      (id : Option String) (s : StateFile)
      → ((when_given drop_reservation id s).idempotency_records ≡ s.idempotency_records)
        × ((when_given drop_session id s).idempotency_records ≡ s.idempotency_records)
  unfolding drop_reservation drop_session
  when_given-records none s = (refl, refl)
  when_given-records (some id) s = elim (Bool-cases (truthy (some id))) [
    | inl t ↦ rw t (refl, refl)
    | inr t ↦ rw t (refl, refl)
  ]

  -- After a commit, what stands under the id of its session is its session, an idempotency record that it
  -- brings stands under its key, and one that brings none changes no idempotency record.
  pub record Left (m : SessionMutation) (s t : StateFile) : Type 0 where
    pub session :
        (x v : SessionRecord) → m.session ≡ some x → lookup x.session_id t.sessions ≡ some v → v ≡ x
    pub recorded :
        (k : String) (r : IdempotencyRecord)
        → m.idempotency ≡ some (k, r)
        → lookup k t.idempotency_records ≡ some r
    pub unrecorded : m.idempotency ≡ none → t.idempotency_records ≡ s.idempotency_records

  own-lookup : {V : Type 0} (k : String) (v : V) (d : Dict V) → lookup k (insert k v d) ≡ some v
  own-lookup k v d = let t : (k == k) ≡ true = (eq_iff k k).1 refl in lookup-insert k k v d ∙ rw t

  pub commit-Left :
      (n : ℕ) (m : SessionMutation) (now : ℕ) (s t : StateFile) {c : Committed}
      → commit_session_mutation platform n m now s ≡ (ok c, t)
      → Left m s t
  unfolding commit_session_mutation cleanup_expired_reservations
  commit-Left n m now s t {c} h =
      let s0 =
        when_given drop_reservation m.release_reservation_id (cleanup_expired_reservations now s) in
      let (_, s1, e1, h) = bind-ok (add_delete platform m.add_delete_reservation) _ s0 h in
      let s2 = when_given drop_session m.remove_session_id s1 in
      let (_, s3, e3, h) = bind-ok (set_session platform m.session) _ s2 h in
      let (_, s4, e4, h) = bind-ok (add_event platform m.event) _ s3 h in
      let (_, s5, e5, h) = bind-ok (set_idempotency platform m.idempotency) _ s4 h in
      let last : prune_terminated_sessions n s5 ≡ t = ap (λ p. p.1) h in
      let r1 = add_delete-SameRows m.add_delete_reservation s0 s1 e1 in
      let r3 = set_session-rows m.session s2 s3 e3 in
      let r4 = add_event-SameRows m.event s3 s4 e4 in
      let r5 = set_idempotency-rows m.idempotency s4 s5 e5 in
      let p = prune-rows n s5 in
      record {
        session = λ x v given found. same (
            sym ((p.1 x.session_id v (rw last found)))
            ∙ ap (lookup x.session_id) (r5.0 ∙ r4.0 ∙ r3.1 x given)
            ∙ own-lookup x.session_id x s2.sessions);
        recorded = λ k r given.
            ap (λ z. lookup k z.idempotency_records) (sym last)
            ∙ ap (lookup k) (p.0 ∙ r5.2 k r given)
            ∙ own-lookup k r s4.idempotency_records;
        unrecorded = λ absent.
            ap (λ z. z.idempotency_records) (sym last)
            ∙ p.0
            ∙ r5.1 absent
            ∙ r4.1
            ∙ r3.0
            ∙ (when_given-records m.remove_session_id s1).1
            ∙ r1.1
            ∙ (when_given-records m.release_reservation_id (cleanup_expired_reservations now s)).0;
      }
    where
      same : {x v : SessionRecord} → some v ≡ some x → v ≡ x
      same h = ground arith
