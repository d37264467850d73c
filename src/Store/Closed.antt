-- ===== src/Store/Closed.antt =====
-- Properties of states through every writing call of src/api/store.ts.
use base_layer.Base.{
  ℕ, Bool, true, Option, none, some, List, [], ◌∷◌, String, ◌≡◌, Result, ok, err, truthy,
  Bool-cases, inl, inr, nat_eq, drop,
}
use base_layer.Types.{
  StateFile, HostRecord, SessionRecord, SessionEventRecord, IdempotencyRecord,
  HostCreateReservation, HostDeleteReservation,
}
use base_layer.Types.Schema.{
  checked, valid_host, valid_session, valid_event, valid_idempotency, valid_create_reservation,
  valid_delete_reservation, parse_host, parse_session, parse_event, parse_idempotency,
  parse_create_reservation, parse_delete_reservation,
}
use base_layer.Types.Platform.{Platform}
use base_layer.Scheduler.{choose_host}
use base_layer.Store.Monad.{M, ◌>>=◌, lift, continue}
use base_layer.Store.Effective.{cleanup_expired_reservations}
use base_layer.Store.Writes.{
  put_host, put_session, put_event, put_reservation, put_idempotency, drop_session,
  drop_reservation, add_event, upsert_host, reserve_host_for_create,
  release_host_create_reservation, upsert_session, upsert_session_and_append_event,
  append_session_event, upsert_idempotency_record, remove_session, new_reservation, ReserveInput,
}
use base_layer.Store.Commit.{
  SessionMutation, put_delete_reservation, drop_sessions, prune_terminated_sessions,
  terminated_sessions, add_delete, set_session, set_idempotency, commit_session_mutation,
  when_given,
}
use base_layer.Store.Operation.{Operation, operation, done}

module _ (P : StateFile → Type 0) where
  abbrev pub Preserves : {A : Type 0} → M A → Type 0
  Preserves m = (s : StateFile) → P s → P (m s).1

  bind-Preserves :
      {A B : Type 0} (m : M A) (f : A → M B)
      → Preserves m
      → ((a : A) → Preserves (f a))
      → Preserves (m >>= f)
  bind-Preserves {A} {B} m f hm hf s p = go (m s) (hm s p)
    where
      go : (r : Result A × StateFile) → P r.1 → P (continue r f).1
      go (ok a, t) q = hf a t q
      go (err e, t) q = q

  parsed-Preserves :
      {A B : Type 0} (valid : Bool) (a : A) (f : A → M B)
      → (valid ≡ true → Preserves (f a))
      → Preserves (lift (checked valid a) >>= f)
  parsed-Preserves valid a f h s p = elim (Bool-cases valid) [
    | inl t ↦ rw t (h t s p)
    | inr t ↦ rw t p
  ]

module _ (platform : Platform) (P : StateFile → Type 0) where
  open platform use {formats}

  -- The elementary changes, those that store a record behind its schema's test.
  pub record Closed : Type 0 where
    pub cleanup : (now : ℕ) (s : StateFile) → P s → P (cleanup_expired_reservations now s)
    pub host :
        (h : HostRecord) (s : StateFile) → valid_host formats h ≡ true → P s → P (put_host h s)
    pub reservation :
        (r : HostCreateReservation) (s : StateFile)
        → valid_create_reservation formats r ≡ true
        → P s
        → P (put_reservation r s)
    pub release : (id : String) (s : StateFile) → P s → P (drop_reservation id s)
    pub session :
        (x : SessionRecord) (s : StateFile)
        → valid_session formats x ≡ true
        → P s
        → P (put_session x s)
    pub event :
        (x : SessionEventRecord) (s : StateFile) → valid_event x ≡ true → P s → P (put_event x s)
    pub idempotency :
        (key : String) (x : IdempotencyRecord) (s : StateFile)
        → valid_idempotency x ≡ true
        → P s
        → P (put_idempotency key x s)
    pub deletion :
        (r : HostDeleteReservation) (s : StateFile)
        → valid_delete_reservation formats r ≡ true
        → P s
        → P (put_delete_reservation r s)
    pub removal : (id : String) (s : StateFile) → P s → P (drop_session id s)

module _ (platform : Platform) (P : StateFile → Type 0) (c : Closed platform P) where
  open platform use {formats}

  drop_sessions-Preserves : (xs : List SessionRecord) (s : StateFile) → P s → P (drop_sessions xs s)
  unfolding drop_sessions
  drop_sessions-Preserves [] s p = p
  drop_sessions-Preserves (x ∷ xs) s p =
      drop_sessions-Preserves xs (drop_session x.session_id s) (c.removal x.session_id s p)

  prune-Preserves :
      (retention : ℕ) (s : StateFile) → P s → P (prune_terminated_sessions retention s)
  unfolding prune_terminated_sessions
  prune-Preserves retention s p = elim (Bool-cases (nat_eq retention 0)) [
    | inl t ↦ rw t p
    | inr t ↦ rw t (drop_sessions-Preserves (drop retention (terminated_sessions s)) s p)
  ]

  when_given-Preserves :
      (change : String → StateFile → StateFile)
      → ((id : String) (s : StateFile) → P s → P (change id s))
      → (id : Option String) (s : StateFile) → P s
      → P (when_given change id s)
  when_given-Preserves change h none s p = p
  when_given-Preserves change h (some id) s p = elim (Bool-cases (truthy (some id))) [
    | inl t ↦ rw t (h id s p)
    | inr t ↦ rw t p
  ]

  add_event-Preserves : (e : Option SessionEventRecord) → Preserves P (add_event platform e)
  unfolding add_event parse_event
  add_event-Preserves none = λ s p. p
  add_event-Preserves (some e) = parsed-Preserves P (valid_event e) e _ λ v s p. c.event e s v p

  add_delete-Preserves : (r : Option HostDeleteReservation) → Preserves P (add_delete platform r)
  unfolding add_delete parse_delete_reservation
  add_delete-Preserves none = λ s p. p
  add_delete-Preserves (some r) =
      parsed-Preserves P (valid_delete_reservation formats r) r _ λ v s p. c.deletion r s v p

  set_session-Preserves : (x : Option SessionRecord) → Preserves P (set_session platform x)
  unfolding set_session parse_session
  set_session-Preserves none = λ s p. p
  set_session-Preserves (some x) =
      parsed-Preserves P (valid_session formats x) x _ λ v s p. c.session x s v p

  set_idempotency-Preserves :
      (x : Option (String × IdempotencyRecord)) → Preserves P (set_idempotency platform x)
  unfolding set_idempotency parse_idempotency
  set_idempotency-Preserves none = λ s p. p
  set_idempotency-Preserves (some (key, x)) =
      parsed-Preserves P (valid_idempotency x) x _ λ v s p. c.idempotency key x s v p

  pub commit-Preserves :
      (retention : ℕ) (m : SessionMutation) (now : ℕ)
      → Preserves P (commit_session_mutation platform retention m now)
  unfolding commit_session_mutation
  commit-Preserves retention m now s p =
      bind-Preserves P (add_delete platform m.add_delete_reservation) _
        (add_delete-Preserves m.add_delete_reservation)
        (λ _ s p.
          bind-Preserves P (set_session platform m.session) _ (set_session-Preserves m.session)
            (λ _. bind-Preserves P (add_event platform m.event) _ (add_event-Preserves m.event) λ _.
              bind-Preserves P (set_idempotency platform m.idempotency) _
                (set_idempotency-Preserves m.idempotency) λ _ s p. prune-Preserves retention s p)
            _ (when_given-Preserves drop_session c.removal m.remove_session_id s p))
        _
        (when_given-Preserves drop_reservation c.release m.release_reservation_id _
          (c.cleanup now s p))

  reserve-Preserves :
      (input : ReserveInput) (id : String) (now : ℕ)
      → Preserves P (reserve_host_for_create platform input id now)
  unfolding reserve_host_for_create parse_create_reservation
  reserve-Preserves input id now s p =
      bind-Preserves P (lift (choose_host platform.percent _ _)) _ (λ _ q. q)
        (λ host.
          parsed-Preserves P (valid_create_reservation formats (new_reservation input id now host))
            _ _ λ v s p. c.reservation _ s v p)
        _ (c.cleanup now s p)

  upsert_host-Preserves : (h : HostRecord) → Preserves P (upsert_host platform h)
  unfolding upsert_host parse_host
  upsert_host-Preserves h = parsed-Preserves P (valid_host formats h) h _ λ v s p. c.host h s v p

  upsert_session-Preserves :
      (x : SessionRecord) (now : ℕ) → Preserves P (upsert_session platform x now)
  unfolding upsert_session parse_session
  upsert_session-Preserves x now s p =
      parsed-Preserves P (valid_session formats x) x _ (λ v s p. c.session x s v p) _
        (c.cleanup now s p)

  upsert_session_and_append_event-Preserves :
      (x : SessionRecord) (e : Option SessionEventRecord) (now : ℕ)
      → Preserves P (upsert_session_and_append_event platform x e now)
  unfolding upsert_session_and_append_event parse_session
  upsert_session_and_append_event-Preserves x e now s p =
      parsed-Preserves P (valid_session formats x) x _
        (λ v s p.
          bind-Preserves P (add_event platform e) _ (add_event-Preserves e) (λ _ s p. p) _
            (c.session x s v p))
        _ (c.cleanup now s p)

  append_session_event-Preserves :
      (e : SessionEventRecord) (now : ℕ) → Preserves P (append_session_event platform e now)
  unfolding append_session_event parse_event
  append_session_event-Preserves e now s p =
      parsed-Preserves P (valid_event e) e _ (λ v s p. c.event e s v p) _ (c.cleanup now s p)

  upsert_idempotency_record-Preserves :
      (key : String) (x : IdempotencyRecord) (now : ℕ)
      → Preserves P (upsert_idempotency_record platform key x now)
  unfolding upsert_idempotency_record parse_idempotency
  upsert_idempotency_record-Preserves key x now s p =
      parsed-Preserves P (valid_idempotency x) x _ (λ v s p. c.idempotency key x s v p) _
        (c.cleanup now s p)

  release-Preserves :
      (id : String) (now : ℕ) → Preserves P (release_host_create_reservation platform id now)
  unfolding release_host_create_reservation
  release-Preserves id now s p = c.release id _ (c.cleanup now s p)

  remove_session-Preserves : (id : String) (now : ℕ) → Preserves P (remove_session platform id now)
  unfolding remove_session
  remove_session-Preserves id now s p = c.removal id _ (c.cleanup now s p)

  done-Preserves : {A : Type 0} (m : M A) → Preserves P m → Preserves P (done m)
  done-Preserves m h = bind-Preserves P m _ h λ _ s p. p

  -- Every writing call keeps the property.
  pub operation-Preserves : (op : Operation) → Preserves P (operation platform op)
  unfolding operation
  operation-Preserves (Operation.upserts_host h) =
      done-Preserves (upsert_host platform h) (upsert_host-Preserves h)
  operation-Preserves (Operation.reserves input id now) =
      done-Preserves (reserve_host_for_create platform input id now)
        (reserve-Preserves input id now)
  operation-Preserves (Operation.releases id now) = release-Preserves id now
  operation-Preserves (Operation.upserts_session x now) =
      done-Preserves (upsert_session platform x now) (upsert_session-Preserves x now)
  operation-Preserves (Operation.upserts_session_and_event x e now) =
      done-Preserves (upsert_session_and_append_event platform x e now)
        (upsert_session_and_append_event-Preserves x e now)
  operation-Preserves (Operation.appends_event e now) =
      done-Preserves (append_session_event platform e now) (append_session_event-Preserves e now)
  operation-Preserves (Operation.upserts_idempotency key x now) =
      done-Preserves (upsert_idempotency_record platform key x now)
        (upsert_idempotency_record-Preserves key x now)
  operation-Preserves (Operation.commits retention m now) =
      done-Preserves (commit_session_mutation platform retention m now)
        (commit-Preserves retention m now)
  operation-Preserves (Operation.removes_session id now) = remove_session-Preserves id now
