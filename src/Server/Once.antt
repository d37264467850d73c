-- ===== src/Server/Once.antt =====
-- Repeated creations under an idempotency key: `createSessionFromRequest` of src/api/server.ts.
use base_layer.Base.{
  true, some, String, ◌≡◌, ◌≢◌, ◌⊎◌, refl, sym, ap, ◌∙◌, arith, subst, Result, ok, err,
  Option-cases, inl, inr,
}
use base_layer.Base.Dict.{lookup}
use base_layer.Types.{StateFile, SessionRecord, CreateSessionRequest, RuntimeLaunchResult}
use base_layer.Types.Platform.{Platform}
use base_layer.Partner.{PartnerAuthContext}
use base_layer.Partner.Headers.{Headers}
use base_layer.Partner.Scope.{apply_partner_scope_to_create_request}
use base_layer.Store.File.{ControlPlaneStore, StoreFile, open_store}
use base_layer.Store.Monad.{with_write_lock}
use base_layer.Store.Reads.{get_idempotency_record}
use base_layer.Store.Writes.{Reserved}
use base_layer.Store.Commit.{SessionMutation, Committed, commit_session_mutation}
use base_layer.Store.Committed.{Left, commit-Left}
use base_layer.Store.Closed.{commit-Preserves}
use base_layer.Store.Durability.{written, open-Valid, reopen}
use base_layer.Store.Durability.Validity.{Valid, Valid-Closed}
use base_layer.Store.Settled.{Settled, stored-Settled}
use base_layer.Server.Handler.{go_on-ok, Reply}
use base_layer.Server.Admission.{reserve_host_for_create_with_backpressure}
use base_layer.Server.Idempotency.{Hashes, extract_idempotency_key, replay_create_idempotency}
use base_layer.Server.Draft.{CreateRun, create_mutation, only_session}
use base_layer.Server.Create.{launched, created, create_tried, caught, create_session_from_request}
use base_layer.Server.Replay.{
  storage_key, Recorded, Replayed, again, replay-status, create_error_status-not_created,
}

module _ (platform : Platform) (hashes : Hashes) (auth : PartnerAuthContext) (key : String)
    (scoped : CreateSessionRequest) where
  open platform use {formats}

  -- A write by `commitSessionMutation` that returns.
  CommittedBy :
      SessionMutation
      → CreateRun
      → Result (Unit {0})
      → ControlPlaneStore
      → ControlPlaneStore
      → Type 0
  CommittedBy m run lock u w =
      (c : Committed) × (with_write_lock formats lock
          (commit_session_mutation platform run.retention m run.now) u
        ≡ (ok c, w))

  -- It leaves a valid state in the file and in memory, and what `commit-Left` says of it.
  stored :
      (m : SessionMutation) (run : CreateRun) (lock : Result (Unit {0})) (u w : ControlPlaneStore)
      → CommittedBy m run lock u w
      → (fresh : ControlPlaneStore) × (t : StateFile) × (open_store formats u.file ≡ ok fresh)
        × (w ≡ record { file = StoreFile.content t; state = t; loaded = true })
        × Valid formats t
        × Left platform m fresh.state t
  unfolding CommittedBy
  stored m run lock u w (c, e) =
      let (fresh, t, o, q, p) =
        written formats lock (commit_session_mutation platform run.retention m run.now) u w e in
      (
        fresh,
        t,
        o,
        p,
        subst (λ z. Valid formats z.1) q
            (commit-Preserves platform (Valid formats) (Valid-Closed platform) run.retention m
              run.now fresh.state (open-Valid formats u.file o).0),
        commit-Left platform run.retention m run.now fresh.state t q,
      )

  -- After the two commits of a creation the store is settled and has the record.
  commits :
      (run : CreateRun) (parsed : CreateSessionRequest) (reserved : Reserved)
      (runtime : RuntimeLaunchResult) (final : SessionRecord) (ua ub uc : ControlPlaneStore)
      → CommittedBy
          (create_mutation run hashes parsed scoped reserved runtime (some auth) (some key))
          run
          run.first_lock
          ua
          ub
      → CommittedBy (only_session run final) run run.second_lock ub uc
      → Settled formats uc × Recorded platform hashes auth key scoped run.session_id uc.state
  unfolding create_mutation
  commits run parsed reserved runtime final ua ub uc h k =
      let (fresh1, t1, o1, p1, v1, left1) = stored _ run run.first_lock ua ub h in
      let (fresh2, t2, o2, p2, v2, left2) = stored _ run run.second_lock ub uc k in
      let same : t1 ≡ fresh2.state =
        one (sym (reopen formats t1 v1) ∙ ap (λ z. open_store formats z.file) (sym p1) ∙ o2) in
      rw p2 (
        stored-Settled formats t2 v2,
        (
          _,
          ap (lookup (storage_key platform hashes auth key scoped))
                (left2.unrecorded refl ∙ ap (λ z. z.idempotency_records) (sym same))
              ∙ left1.recorded (storage_key platform hashes auth key scoped) _ refl,
          refl,
          refl,
          refl,
        ),
      )
    where
      one : {a b : ControlPlaneStore} → Result.ok a ≡ ok b → a.state ≡ b.state
      one {a} {b} h = let e : a ≡ b = ground arith in ap (λ z. z.state) e

  made :
      (run : CreateRun) (parsed : CreateSessionRequest) (u : ControlPlaneStore) {r : Reply}
      {st : ControlPlaneStore}
      → created run hashes platform parsed scoped (some auth) (some key) u ≡ (ok r, st)
      → Settled formats st × Recorded platform hashes auth key scoped run.session_id st.state
  unfolding CommittedBy
  made run parsed u {r} {st} h =
      let (reserved, u1, e1, h) =
        go_on-ok
          (reserve_host_for_create_with_backpressure platform
            (record {
              session_id = run.session_id;
              preferred_region = scoped.region;
              runtime_profile = scoped.runtime_profile;
              ttl_ms = run.ttl_ms;
            })
            run.early run.last u)
          _ h in
      let (runtime, u3, e3, h) =
        go_on-ok
          (launched run hashes platform reserved (run.remote reserved.host scoped) (run.others u1))
          _ h in
      let (first, ub, eb, h) = go_on-ok (with_write_lock formats run.first_lock _ u3) _ h in
      let (second, uc, ec, h) = go_on-ok (with_write_lock formats run.second_lock _ ub) _ h in
      subst
        (λ z. Settled formats z × Recorded platform hashes auth key scoped run.session_id z.state)
        (ap (λ z. z.1) h) (commits run parsed reserved runtime _ u3 ub uc (first, eb) (second, ec))

  -- A creation that answers 201 has made its two commits.
  created-Recorded :
      (run : CreateRun) (headers : Headers) (parsed : CreateSessionRequest)
      (store : ControlPlaneStore) {r : Reply} {st : ControlPlaneStore}
      → extract_idempotency_key headers ≡ some key
      → apply_partner_scope_to_create_request parsed (some auth) ≡ ok scoped
      → create_tried run hashes platform parsed (some auth) headers store ≡ (ok r, st)
      → r.status ≡ 201
      → Settled formats st × Recorded platform hashes auth key scoped run.session_id st.state
  unfolding replay_create_idempotency
  created-Recorded run headers parsed store {r} {st} keyed scope h status =
      let (o, u, e, k) =
        go_on-ok (replay_create_idempotency platform hashes (some auth) scoped (some key) store) _
          (rw (scope, keyed) at h) in
      elim (Option-cases o) [
        | inl n ↦ made run parsed u (rw n at k)
        | inr (reply, n) ↦
            let same : reply ≡ r = sent (rw n at k) in
            let (x, v, _, g) =
              go_on-ok
                (get_idempotency_record platform (storage_key platform hashes auth key scoped)
                  store)
                _ (rw n at e) in
            absurd (
              replay-status platform hashes auth key scoped x (hashes.of_request scoped) v u g
                (ap (λ z. Reply.status z) same ∙ status))
      ]
    where
      sent :
          {a : Reply} {u : ControlPlaneStore}
          → ◌≡◌ {A = Result Reply × ControlPlaneStore} (ok a, u) (ok r, st)
          → a ≡ r
      sent q = ground arith

-- The store in which a creation is repeated: the one that it left, or any later one that holds what its
-- file says and still has the record under the key.
abbrev pub StillRecorded : Platform → String → ControlPlaneStore → ControlPlaneStore → Type 0
StillRecorded platform storage st later =
    (later ≡ st)
    ⊎ (Settled platform.formats later
        × (lookup storage later.state.idempotency_records
            ≡ lookup storage st.state.idempotency_records))

-- Once a creation under an idempotency key, with a session id that is not empty, has answered 201, a
-- repetition of it, by the same partner with the same request, in the store that it left or in a later
-- one that still has the key's record, answers the session of the first with 200, or a conflict exactly
-- where no such session is stored; it reserves nothing, launches nothing and leaves the store as it is.
pub create-once :
    (platform : Platform) (hashes : Hashes) (run again_run : CreateRun) (auth : PartnerAuthContext)
    (key : String) (parsed scoped : CreateSessionRequest) (headers : Headers)
    (store st later : ControlPlaneStore) (r : Reply)
    → extract_idempotency_key headers ≡ some key
    → apply_partner_scope_to_create_request parsed (some auth) ≡ ok scoped
    → create_session_from_request run hashes platform (some parsed) (some auth) headers store
      ≡ (r, st)
    → r.status ≡ 201
    → run.session_id ≢ ""
    → StillRecorded platform (storage_key platform hashes auth key scoped) st later
    → (q : Reply) × (create_session_from_request again_run hashes platform
          (some parsed)
          (some auth)
          headers
          later
        ≡ (q, later))
      × Replayed platform hashes auth key scoped run.session_id later.state q
unfolding create_session_from_request
create-once platform hashes run again_run auth key parsed scoped headers store st later r keyed
      scope h status named still =
    let (settled, recorded) =
      go (create_tried run hashes platform parsed (some auth) headers store) refl h in
    elim still [
      | inl same ↦
          subst
            (λ z.
              (q : Reply) × (create_session_from_request again_run hashes platform (some parsed)
                  (some auth) headers z
                ≡ (q, z))
              × Replayed platform hashes auth key scoped run.session_id z.state q)
            (sym same)
            (again platform hashes auth key scoped again_run headers parsed run.session_id st keyed
              scope named settled recorded)
      | inr (kept, record_kept) ↦
          let (found, there, hash, sid, status) = recorded in
          again platform hashes auth key scoped again_run headers parsed run.session_id later keyed
            scope named kept (found, record_kept ∙ there, hash, sid, status)
    ]
  where
    go :
        (z : Result Reply × ControlPlaneStore)
        → create_tried run hashes platform parsed (some auth) headers store ≡ z
        → caught run hashes platform z ≡ (r, st)
        → Settled platform.formats st
          × Recorded platform hashes auth key scoped run.session_id st.state
    go (ok a, u) e k =
        created-Recorded platform hashes auth key scoped run headers parsed store keyed scope
          (e ∙ ap (λ p. (ok p.0, p.1)) k) status
    go (err x, u) e k =
        absurd (create_error_status-not_created x (ap (λ p. Reply.status p.0) k ∙ status))
