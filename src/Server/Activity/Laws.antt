-- ===== src/Server/Activity/Laws.antt =====
-- What an update of the activity leaves in the store.
use base_layer.Base.{
  ℕ, true, Option, none, some, String, ◌≡◌, ◌≢◌, ◌⊎◌, refl, sym, ap, ◌∙◌, arith, Result, ok, inl,
  inr, sized, Bool-cases, Option-cases, Result-cases, subst, find, ◌==◌,
}
use base_layer.Base.Dict.{lookup}
use base_layer.Types.{StateFile, HostRecord, SessionRecord, SessionActivityState}
use base_layer.Types.Schema.{valid_event, valid_event_data, valid_scalar}
use base_layer.Types.Platform.{Platform}
use base_layer.Partner.{PartnerAuthContext, can_partner_access_session}
use base_layer.Store.File.{ControlPlaneStore}
use base_layer.Store.Reads.{get_session, get_host}
use base_layer.Store.Monad.{with_write_lock}
use base_layer.Store.Stored.{stored}
use base_layer.Store.Effective.{effective_hosts}
use base_layer.Store.Durability.Validity.{Valid}
use base_layer.Store.Settled.{reading-Settled, stored-Settled}
use base_layer.Server.Handler.{go_on, Reply, send}
use base_layer.Server.Report.{activity_of, record_event}
use base_layer.Server.Report.Events.{record_event-Quiet, scalar-valid}
use base_layer.Server.Activity.{
  ActivityRun, update_details, update_event, update_on, update_found, update_seen, caught,
  update_session_activity_from_request, update_v1_activity,
}

update_details-valid :
    (a : Option SessionActivityState) (b : SessionActivityState)
    → valid_event_data (update_details a b) ≡ true
unfolding valid_event_data valid_scalar sized
update_details-valid a b = rw (scalar-valid a, scalar-valid (some b))

module _ (platform : Platform) (run : ActivityRun) (id : String) (s : StateFile) where
  open platform use {formats}

  -- The store is left with the same sessions, and 204 is answered only where the node agent agreed.
  abbrev pub Kept : Result Reply × ControlPlaneStore → Type 0
  Kept r =
      (status : ℕ) × (t : StateFile) × (r ≡ (ok (send status), stored t))
      × (t.sessions ≡ s.sessions)
      × ((status ≢ 204) ⊎ ((host : HostRecord) × (run.remote host ≡ ok tt)))

  -- The recording of the event.
  record-Kept :
      Valid formats s
      → (host : HostRecord) → run.remote host ≡ ok tt
      → (v : SessionRecord) (next : SessionActivityState)
      → Kept (
          caught (record_event platform run.event (update_event platform run id v next) (stored s)))
  unfolding valid_event update_event with_write_lock
  record-Kept valid host agreed v next = elim (Result-cases run.event.lock) [
    | inl (_, free) ↦
        let quiet =
          record_event-Quiet platform run.event (update_event platform run id v next) free
            (update_details-valid (activity_of v.last_known_metrics) next) in
        let (t, e, _, same) = quiet.on s valid in (204, t, ap caught e, same, inr (host, agreed))
    | inr (x, late) ↦ (502, s, rw late, refl, inl (λ e. ground arith))
  ]

  update_on-Kept :
      Valid formats s
      → run.others (stored s) ≡ stored s
      → (o : Option HostRecord) (v : SessionRecord) (next : SessionActivityState)
      → Kept (update_on platform run id o v next (stored s))
  update_on-Kept valid alone none v next = (409, s, refl, refl, inl (λ e. ground arith))
  update_on-Kept valid alone (some host) v next = elim (Result-cases (run.remote host)) [
    | inl (_, e) ↦ rw (alone, e) (record-Kept valid host e v next)
    | inr (x, e) ↦ (502, s, rw (alone, e), refl, inl (λ e. ground arith))
  ]

  update_found-Kept :
      Valid formats s
      → run.others (stored s) ≡ stored s
      → (parsed : Option SessionActivityState) (o : Option SessionRecord)
      → Kept (update_found platform run id parsed o (stored s))
  unfolding get_host
  update_found-Kept valid alone parsed none = (404, s, refl, refl, inl (λ e. ground arith))
  update_found-Kept valid alone none (some v) = (400, s, refl, refl, inl (λ e. ground arith))
  update_found-Kept valid alone (some next) (some v) =
      subst (λ r. Kept (go_on r (λ host. update_on platform run id host v next)))
        (sym (
          reading-Settled formats
            (λ u.
              find (λ host. HostRecord.host_id host == v.host_id)
                (effective_hosts platform.locale_compare run.now u))
            (stored s) (stored-Settled formats s valid)))
        (update_on-Kept valid alone _ v next)

  seen_as :
      Valid formats s
      → {A : Type 0} (f : Option SessionRecord → ControlPlaneStore → Result A × ControlPlaneStore)
      → go_on (get_session platform id (stored s)) f ≡ f (lookup id s.sessions) (stored s)
  unfolding get_session
  seen_as valid f =
      ap (λ z. go_on z f)
        (reading-Settled formats (λ u. lookup id u.sessions) (stored s)
          (stored-Settled formats s valid))

  -- An update of the activity that a partner asks for, where nobody else changes the store meanwhile, is
  -- answered, and leaves a store with the same sessions. It is answered with 204 only where the session
  -- is stored and within reach of the partner and the node agent of a host has accepted the update.
  pub update_v1_activity-answered :
      (auth : Option PartnerAuthContext) (parsed : Option SessionActivityState)
      → Valid formats s
      → run.others (stored s) ≡ stored s
      → (status : ℕ) × (t : StateFile) × (update_v1_activity platform run id auth parsed (stored s)
          ≡ (ok (send status), stored t))
        × (t.sessions ≡ s.sessions)
        × ((status ≢ 204)
            ⊎ ((session : SessionRecord) × (host : HostRecord) × (lookup id s.sessions
                  ≡ some session)
                × (can_partner_access_session session auth ≡ true)
                × (run.remote host ≡ ok tt)))
  unfolding update_v1_activity update_session_activity_from_request
  update_v1_activity-answered auth parsed valid alone =
      let first = seen_as valid (update_seen platform run id auth parsed) in
      elim (Option-cases (lookup id s.sessions)) [
        | inl e ↦ (404, s, first ∙ rw e, refl, inl (λ e. ground arith))
        | inr (v, e) ↦ elim (Bool-cases (can_partner_access_session v auth)) [
          | inl mine ↦
              let (status, t, done, same, why) = update_found-Kept valid alone parsed (some v) in
              let second = seen_as valid (update_found platform run id parsed) in
              (
                status,
                t,
                first ∙ rw (e, mine) (second ∙ rw e done),
                same,
                elim why [ inl n ↦ inl n | inr (host, agreed) ↦ inr (v, host, e, mine, agreed) ],
              )
          | inr other ↦ (404, s, first ∙ rw (e, other), refl, inl (λ e. ground arith))
        ]
      ]
