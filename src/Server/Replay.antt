-- ===== src/Server/Replay.antt =====
-- What a creation leaves for its repetitions: `replayCreateIdempotency` of src/api/server.ts.
use base_layer.Base.{
  ℕ, Bool, false, not, Option, none, some, String, ◌==◌, ◌≡◌, ◌≢◌, ◌⊎◌, refl, ap, ◌∙◌, arith,
  Result, ok, Error, Bool-cases, Option-cases, inl, inr, if◌then◌else◌, eq_iff, nat_eq, message,
  scheduler_error, zod_error, syntax_error, file_error, lock_timeout, remote_timeout, remote_error,
}
use base_layer.Base.Dict.{lookup}
use base_layer.Types.{StateFile, SessionRecord, CreateSessionRequest, IdempotencyRecord, post}
use base_layer.Types.Platform.{Platform}
use base_layer.Partner.{PartnerAuthContext}
use base_layer.Partner.Headers.{Headers}
use base_layer.Partner.Scope.{apply_partner_scope_to_create_request}
use base_layer.Store.File.{ControlPlaneStore}
use base_layer.Store.Reads.{get_session, get_idempotency_record}
use base_layer.Store.Settled.{Settled, reading-Settled}
use base_layer.Server.Handler.{go_on-ok, Reply, send, send_replayed}
use base_layer.Server.Idempotency.{
  Hashes, extract_idempotency_key, build_idempotency_storage_key, replay_create_idempotency,
  replay_of, session_of, replayed_session,
}
use base_layer.Server.Draft.{CreateRun}
use base_layer.Server.Create.{create_error_status, create_session_from_request}

module _ (platform : Platform) (hashes : Hashes) (auth : PartnerAuthContext) (key : String)
    (scoped : CreateSessionRequest) where
  open platform use {formats}

  abbrev pub storage_key : String
  storage_key = build_idempotency_storage_key (some auth) post "/v1/sessions" key

  -- The state has the record of a creation by the key, of this request and for this session.
  abbrev pub Recorded : String → StateFile → Type 0
  Recorded id s =
      (r : IdempotencyRecord) × (lookup storage_key s.idempotency_records ≡ some r)
      × (r.request_hash ≡ hashes.of_request scoped)
      × (r.session_id ≡ some id)
      × (r.response_status ≡ 201)

  -- What a replay sends: the session, or a conflict where it is no longer there.
  abbrev pub Replayed : String → StateFile → Reply → Type 0
  Replayed id s q =
      ((lookup id s.sessions ≡ none) × (q ≡ send 409))
      ⊎ ((v : SessionRecord) × (lookup id s.sessions ≡ some v) × (q ≡ send_replayed 200 (some v)))

  replays :
      (id : String) (store : ControlPlaneStore)
      → id ≢ ""
      → Settled formats store
      → Recorded id store.state
      → (q : Reply) × (replay_create_idempotency platform hashes (some auth) scoped (some key) store
          ≡ (ok (some q), store))
        × Replayed id store.state q
  unfolding replay_create_idempotency get_idempotency_record get_session
  replays id store named settled (r, found, hash, sid, status) =
      let same : not (r.request_hash == hashes.of_request scoped) ≡ false =
        ground (arith, eq_iff r.request_hash (hashes.of_request scoped)) in
      rw
        (
          reading-Settled formats (λ s. lookup storage_key s.idempotency_records) store settled,
          found,
          same,
          sid,
        )
        (elim (Bool-cases (id == "")) [
          | inl t ↦ absurd (named ((eq_iff id "").0 t))
          | inr t ↦
              rw (t, reading-Settled formats (λ s. lookup id s.sessions) store settled)
                (elim (Option-cases (lookup id store.state.sessions)) [
                  | inl n ↦ rw n (send 409, refl, inl (refl, refl))
                  | inr (v, n) ↦
                      rw (n, status) (send_replayed 200 (some v), refl, inr (v, refl, refl))
                ])
        ])

  -- A creation that is repeated on such a store is a replay.
  pub again :
      (run : CreateRun) (headers : Headers) (parsed : CreateSessionRequest) (id : String)
      (store : ControlPlaneStore)
      → extract_idempotency_key headers ≡ some key
      → apply_partner_scope_to_create_request parsed (some auth) ≡ ok scoped
      → id ≢ ""
      → Settled formats store
      → Recorded id store.state
      → (q : Reply) × (create_session_from_request run hashes platform
            (some parsed)
            (some auth)
            headers
            store
          ≡ (q, store))
        × Replayed id store.state q
  unfolding create_session_from_request
  again run headers parsed id store keyed scope named settled recorded =
      let (q, e, shape) = replays id store named settled recorded in
      (q, rw (scope, keyed, e), shape)

  -- A reply of the replay is none of 201.
  pub replay-status :
      (o : Option IdempotencyRecord) (hash : String) (u w : ControlPlaneStore) {reply : Reply}
      → replay_of platform hashes o hash u ≡ (ok (some reply), w)
      → reply.status ≡ 201
      → ⊥
  replay-status none hash u w h s = ground arith
  replay-status (some existing) hash u w {reply} h s =
      elim (Bool-cases (not (existing.request_hash == hash))) [
        | inl t ↦ conflict (ap (λ z. Reply.status z) (sent (rw t at h)) ∙ s)
        | inr t ↦
            let (o, v, e, k) =
              go_on-ok (session_of platform hashes existing.session_id u) _ (rw t at h) in
            replayed o (ap (λ z. Reply.status z) (sent k) ∙ s)
      ]
    where
      sent :
          {a : Reply} {v : ControlPlaneStore}
          → ◌≡◌ {A = Result (Option Reply) × ControlPlaneStore}
              (ok (some a), v)
              (ok (some reply), w)
          → a ≡ reply
      sent q = ground arith

      conflict : ◌≡◌ {A = ℕ} 409 201 → ⊥
      conflict q = omega arith

      not_created : (n : ℕ) → (if nat_eq n 201 then 200 else n) ≡ 201 → ⊥
      not_created n q = ground arith

      replayed :
          (o : Option SessionRecord)
          → (replayed_session platform hashes existing o).status ≡ 201
          → ⊥
      replayed none q = conflict q
      replayed (some v) q = not_created existing.response_status q

pub create_error_status-not_created : (e : Error) → create_error_status e ≡ 201 → ⊥
unfolding create_error_status
create_error_status-not_created scheduler_error h = omega (arith, h)
create_error_status-not_created zod_error h = omega (arith, h)
create_error_status-not_created syntax_error h = omega (arith, h)
create_error_status-not_created file_error h = omega (arith, h)
create_error_status-not_created lock_timeout h = omega (arith, h)
create_error_status-not_created remote_timeout h = omega (arith, h)
create_error_status-not_created remote_error h = omega (arith, h)
create_error_status-not_created (message m) h = either _ h
  where
    either : (b : Bool) → ◌≡◌ {A = ℕ} (if b then 403 else 502) 201 → ⊥
    either b q = ground arith
