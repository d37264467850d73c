-- ===== src/Server/Teardown.antt =====
-- Repeated deletions: `deleteSessionFromRequest` of src/api/server.ts.
use Prim.Native.String.{◌++◌ as ◌<>◌}
use base_layer.Base.{
  ℕ, Bool, true, false, not, Option, none, some, String, ◌==◌, ◌≡◌, ◌⊎◌, refl, sym, ap, ◌∙◌, arith,
  subst, Result, ok, Bool-cases, Option-cases, inl, inr,
}
use base_layer.Base.Dict.{lookup}
use base_layer.Types.{
  StateFile, SessionRecord, HostRecord, same_status, terminated, IdempotencyRecord, delete,
}
use base_layer.Types.Platform.{Platform}
use base_layer.Partner.{PartnerAuthContext, can_partner_access_session}
use base_layer.Partner.Headers.{Headers}
use base_layer.Store.File.{ControlPlaneStore}
use base_layer.Store.Monad.{with_write_lock}
use base_layer.Store.Reads.{get_session, get_host, get_idempotency_record}
use base_layer.Store.Commit.{commit_session_mutation, is_terminated}
use base_layer.Store.Committed.{commit-Left}
use base_layer.Store.Closed.{commit-Preserves}
use base_layer.Store.Durability.{written, open-Valid}
use base_layer.Store.Durability.Validity.{Valid, Valid-Closed}
use base_layer.Store.Settled.{Settled, reading-Settled, reading-settles, stored-Settled}
use base_layer.Server.Handler.{go_on, go_on-ok, pure, Reply, send}
use base_layer.Server.Idempotency.{
  Hashes, partner_key, build_idempotency_storage_key, replay_delete_idempotency, replay_delete_of,
}
use base_layer.Server.Delete.{
  DeleteRun, delete_mutation, terminated_record, delete_remote, delete_on, delete_found,
  delete_session_from_request,
}

-- Nothing but a terminated session stands under the id.
abbrev pub Gone : String → StateFile → Type 0
Gone id s = (v : SessionRecord) → lookup id s.sessions ≡ some v → is_terminated v ≡ true

module _ (platform : Platform) (hashes : Hashes) (id : String) where
  open platform use {formats}

  replay-asks :
      (o : Option IdempotencyRecord) (hash : String) (r : Reply)
      → replay_delete_of platform hashes o hash ≡ some r
      → r.remote_delete ≡ false
  replay-asks none hash r e = absurd (ground arith)
  replay-asks (some existing) hash r e = elim (Bool-cases (not (existing.request_hash == hash))) [
    | inl t ↦ asked (rw t at e) refl
    | inr t ↦ asked (rw t at e) refl
  ]
    where
      asked : {a : Reply} → some a ≡ some r → a.remote_delete ≡ false → r.remote_delete ≡ false
      asked {a} q p =
          let same : a ≡ r = ground arith in subst (λ z. Reply.remote_delete z ≡ false) same p

  -- A reply of the replay is a conflict or says that it is a replay.
  replay-sends :
      (o : Option IdempotencyRecord) (hash : String) (r : Reply)
      → replay_delete_of platform hashes o hash ≡ some r
      → r.status ≡ 204
      → r.replayed ≡ true
  replay-sends none hash r e s = absurd (ground arith)
  replay-sends (some existing) hash r e s =
      elim (Bool-cases (not (existing.request_hash == hash))) [
        | inl t ↦ absurd (conflict (rw t at e))
        | inr t ↦ again (rw t at e) refl
      ]
    where
      conflict : some (send 409) ≡ some r → ⊥
      conflict q =
          let same : send 409 ≡ r = ground arith in omega (arith, ap (λ z. Reply.status z) same, s)

      again : {a : Reply} → some a ≡ some r → a.replayed ≡ true → r.replayed ≡ true
      again {a} q p = let same : a ≡ r = ground arith in subst (λ z. Reply.replayed z ≡ true) same p

  replay-Settled :
      (auth : Option PartnerAuthContext) (key : Option String) (store : ControlPlaneStore)
      → Settled formats store
      → (o : Option Reply) × (replay_delete_idempotency platform hashes auth id key store
          ≡ (ok o, store))
        × ((r : Reply) → o ≡ some r → r.remote_delete ≡ false)
        × ((r : Reply) → o ≡ some r → r.status ≡ 204 → r.replayed ≡ true)
  unfolding replay_delete_idempotency get_idempotency_record
  replay-Settled auth none store settled =
      (none, refl, λ r e. absurd (ground arith), λ r e s. absurd (ground arith))
  replay-Settled auth (some key) store settled =
      let stored =
        lookup (build_idempotency_storage_key auth delete ("/v1/sessions/" <> id) key)
          store.state.idempotency_records in
      (
        replay_delete_of platform hashes stored (hashes.of_target id),
        ap
            (λ z.
              go_on z
                λ existing. pure (replay_delete_of platform hashes existing (hashes.of_target id)))
            (reading-Settled formats _ store settled),
        replay-asks stored (hashes.of_target id),
        replay-sends stored (hashes.of_target id),
      )

  module _ (run : DeleteRun) (auth : Option PartnerAuthContext) (headers : Headers)
      (store : ControlPlaneStore) where
    -- The reply leaves the store as it is and asks nobody.
    abbrev Quiet : Result Reply × ControlPlaneStore → Type 0
    Quiet z = (r : Reply) × (z ≡ (ok r, store)) × (r.remote_delete ≡ false)

    found-Quiet :
        (v : SessionRecord)
        → Settled formats store
        → is_terminated v ≡ true
        → Quiet (delete_found run hashes platform (some v) id auth headers store)
    found-Quiet v settled dead = elim (Bool-cases (not (can_partner_access_session v auth))) [
      | inl t ↦ (send 404, rw t, refl)
      | inr t ↦
          let (o, e, asks, _) = replay-Settled auth (partner_key auth headers) store settled in
          rw (t, e)
            (elim (Option-cases o) [
              | inl n ↦ (send 204, rw (n, dead), refl)
              | inr (r, n) ↦ (r, rw n, asks r n)
            ])
    ]

    -- On a settled store in which the session is gone, a deletion changes nothing and asks nobody.
    quiet :
        Settled formats store
        → Gone id store.state
        → Quiet (delete_session_from_request run hashes platform id auth headers store)
    unfolding delete_session_from_request get_session
    quiet settled gone =
        rw (reading-Settled formats (λ s. lookup id s.sessions) store settled)
          (elim (Option-cases (lookup id store.state.sessions)) [
            | inl n ↦ rw n (send 204, refl, refl)
            | inr (v, n) ↦ rw n (found-Quiet v settled (gone v n))
          ])

  -- What a reply leaves behind: a settled store in which the session is gone.
  abbrev Ended : ControlPlaneStore → Type 0
  Ended store = Settled formats store × Gone id store.state

  replied :
      {a r : Reply} {u st : ControlPlaneStore}
      → ◌≡◌ {A = Result Reply × ControlPlaneStore} (ok a, u) (ok r, st)
      → (a ≡ r) × (u ≡ st)
  replied h = ground arith

  module _ (run : DeleteRun) (auth : Option PartnerAuthContext) (headers : Headers) where
    Gone-in :
        (v : SessionRecord) (host : HostRecord) (key : Option String) (t : StateFile)
        → v.session_id ≡ id
        → ((x w : SessionRecord)
            → (delete_mutation run hashes v host id auth key).session ≡ some x
            → lookup x.session_id t.sessions ≡ some w
            → w ≡ x)
        → Gone id t
    unfolding delete_mutation terminated_record
    Gone-in v host key t own left w found =
        rw (left (terminated_record run v) w refl (rw own found))

    deleted :
        (v : SessionRecord) (host : HostRecord) (key : Option String) (u : ControlPlaneStore)
        {r : Reply} {st : ControlPlaneStore}
        → v.session_id ≡ id
        → delete_on run hashes platform (some host) v id auth key u ≡ (ok r, st)
        → Ended st
    deleted v host key u {r} {st} own h =
        let m = delete_mutation run hashes v host id auth key in
        let (_, u5, e5, h) = go_on-ok (delete_remote run hashes platform u) _ h in
        let (c, u6, e6, h) =
          go_on-ok
            (with_write_lock formats run.lock
              (commit_session_mutation platform run.retention m run.now) u5)
            _ h in
        let (fresh, t, o7, e7, p7) =
          written formats run.lock (commit_session_mutation platform run.retention m run.now) u5 u6
            e6 in
        let kept : Valid formats t =
          subst (λ z. Valid formats z.1) e7
            (commit-Preserves platform (Valid formats) (Valid-Closed platform) run.retention m
              run.now fresh.state (open-Valid formats u5.file o7).0) in
        subst Ended (sym p7 ∙ (replied h).1) (
          stored-Settled formats t kept,
          Gone-in v host key t own
              ((commit-Left platform run.retention m run.now fresh.state t e7).session),
        )

    first :
        (store : ControlPlaneStore) {r : Reply} {st : ControlPlaneStore}
        → ((v : SessionRecord) (u : ControlPlaneStore)
            → get_session platform id store ≡ (ok (some v), u)
            → v.session_id ≡ id)
        → delete_session_from_request run hashes platform id auth headers store ≡ (ok r, st)
        → r.status ≡ 204
        → r.replayed ≡ false
        → Ended st
    unfolding delete_session_from_request get_session get_host
    first store {r} {st} named h status fresh =
        let (o, u, e, h) = go_on-ok (get_session platform id store) _ h in
        let (su, fu, qu) = reading-settles formats (λ s. lookup id s.sessions) store u e in
        found o u su qu (λ v n. named v u (e ∙ ap (λ z. (ok z, u)) n)) h
      where
        wrong :
            {n : ℕ}
            → (n ≡ 204 → ⊥)
            → {u : ControlPlaneStore}
            → ◌≡◌ {A = Result Reply × ControlPlaneStore} (ok (send n), u) (ok r, st)
            → ⊥
        wrong apart q = apart (ap (λ z. Reply.status z) (replied q).0 ∙ status)

        again : {b : Bool} → b ≡ true → b ≡ false → ⊥
        again p q = ground arith

        one : {q : Option SessionRecord} {v w : SessionRecord} → q ≡ some v → q ≡ some w → v ≡ w
        one p q = ground arith

        found :
            (o : Option SessionRecord) (u : ControlPlaneStore)
            → Settled formats u
            → lookup id u.state.sessions ≡ o
            → ((v : SessionRecord) → o ≡ some v → v.session_id ≡ id)
            → delete_found run hashes platform o id auth headers u ≡ (ok r, st)
            → Ended st
        found none u su qu own h = subst Ended (replied h).1 (su, λ v e. absurd (ground arith))
        found (some v) u su qu own h = elim (Bool-cases (not (can_partner_access_session v auth))) [
          | inl t ↦ absurd (wrong (λ n. omega arith) (rw t at h))
          | inr t ↦
              let (o, e, _, sends) = replay-Settled auth (partner_key auth headers) u su in
              let h1 = rw (t, e) at h in
              elim (Option-cases o) [
                | inr (reply, n) ↦
                    let same : reply ≡ r = (replied (rw n at h1)).0 in
                    absurd (
                      again (sends reply n (ap (λ z. Reply.status z) same ∙ status))
                        (ap (λ z. Reply.replayed z) same ∙ fresh))
                | inl n ↦ elim (Bool-cases (same_status v.status terminated)) [
                  | inl d ↦
                      subst Ended (replied (rw (n, d) at h1)).1
                        (su, λ w k. subst (λ z. is_terminated z ≡ true) (one qu k) d)
                  | inr d ↦
                      let (ho, u4, e4, h4) =
                        go_on-ok (get_host platform run.now v.host_id u) _ (rw (n, d) at h1) in
                      elim (Option-cases ho) [
                        | inl lost ↦ absurd (wrong (λ n. omega arith) (rw lost at h4))
                        | inr (host, got) ↦
                            deleted v host (partner_key auth headers) u4 (own v refl) (rw got at h4)
                      ]
                ]
              ]
        ]

-- After a deletion that answers 204, other than a replay by idempotency key, a deletion of the session,
-- whichever partner makes it and under whichever key, neither asks the node agent nor changes the store:
-- in the store that the first left, and in any later one that holds what its file says and in which
-- nothing but a terminated session stands under the id, so that no report has revived it. The session
-- must stand under its own id at first.
pub delete-once :
    (platform : Platform) (hashes : Hashes) (id : String) (run again : DeleteRun)
    (auth auth_again : Option PartnerAuthContext) (headers headers_again : Headers)
    (store st later : ControlPlaneStore) (r : Reply)
    → ((v : SessionRecord) (u : ControlPlaneStore)
        → get_session platform id store ≡ (ok (some v), u)
        → v.session_id ≡ id)
    → delete_session_from_request run hashes platform id auth headers store ≡ (ok r, st)
    → r.status ≡ 204
    → r.replayed ≡ false
    → (later ≡ st) ⊎ (Settled platform.formats later × Gone id later.state)
    → (q : Reply) × (delete_session_from_request again hashes platform id auth_again headers_again
          later
        ≡ (ok q, later))
      × (q.remote_delete ≡ false)
delete-once platform hashes id run again auth auth_again headers headers_again store st later r
      named h status fresh still =
    let ended = first platform hashes id run auth headers store named h status fresh in
    let (settled, gone) : Settled platform.formats later × Gone id later.state = elim still [
      | inl same ↦ subst (λ z. Settled platform.formats z × Gone id z.state) (sym same) ended
      | inr both ↦ both
    ] in
    quiet platform hashes id again auth_again headers_again later settled gone
