-- ===== src/Server/Activity.antt =====
-- `updateSessionActivityFromRequest` and its route under `/v1`.
pub mod Laws
mod Tests
use base_layer.Base.{
  ℕ, Bool, not, Option, none, some, [], ◌∷◌, String, if◌then◌else◌, Result, ok, err,
}
use base_layer.Types.{
  HostRecord, SessionRecord, SessionActivityState, SessionEventRecord, EventScalar,
  ProviderEventData, control_plane, session_activity_updated,
}
use base_layer.Types.Platform.{Platform}
use base_layer.Partner.{PartnerAuthContext, can_partner_access_session}
use base_layer.Store.File.{ControlPlaneStore}
use base_layer.Store.Reads.{get_session, get_host}
use base_layer.Server.Handler.{Handler, ◌>>=◌, ◌>>◌, pure, lift, await, Reply, send}
use base_layer.Server.Report.{Call, record_event, activity_of, activity_scalar, activity_text}

-- The clock, the node agent's answer, what others do while the handler awaits it, and what the store's
-- call takes.
pub record ActivityRun : Type 0 where
  pub now : ℕ
  pub remote : HostRecord → Result (Unit {0})
  pub others : ControlPlaneStore → ControlPlaneStore
  pub event : Call

abbrev pub update_details : Option SessionActivityState → SessionActivityState → ProviderEventData
update_details previous next =
    ("previousActivityState", activity_scalar previous)
    ∷ ("nextActivityState", EventScalar.text (activity_text next))
    ∷ ("source", EventScalar.text "provider-api")
    ∷ []

abbrev pub caught : Result (Unit {0}) × ControlPlaneStore → Result Reply × ControlPlaneStore
caught (ok u, store) = (ok (send 204), store)
caught (err e, store) = (ok (send 502), store)

module _ (platform : Platform) (run : ActivityRun) (id : String) where
  unfoldable pub update_event : SessionRecord → SessionActivityState → SessionEventRecord
  update_event session next = record {
    event_id = run.event.event_id;
    session_id = id;
    ts = run.event.now;
    source = control_plane;
    type = session_activity_updated;
    status = some session.status;
    activity_state = some next;
    exit_reason = none;
    details = some (update_details (activity_of session.last_known_metrics) next);
  }

  -- What the handler tries: the call of the node agent, and the event.
  abbrev pub try_update : HostRecord → SessionRecord → SessionActivityState → Handler (Unit {0})
  try_update host session next =
      await run.others
      >> (lift (run.remote host) >> record_event platform run.event (update_event session next))

  abbrev pub update_on : Option HostRecord → SessionRecord → SessionActivityState → Handler Reply
  update_on none session next store = (ok (send 409), store)
  update_on (some host) session next store = caught (try_update host session next store)

  abbrev pub update_parsed : Option SessionActivityState → SessionRecord → Handler Reply
  update_parsed none session = pure (send 400)
  update_parsed (some next) session = do
    host ← get_host platform run.now session.host_id
    update_on host session next

  abbrev pub update_found : Option SessionActivityState → Option SessionRecord → Handler Reply
  update_found parsed none = pure (send 404)
  update_found parsed (some session) = update_parsed parsed session

  -- `parsed` is what the schema makes of the body's activity.
  unfoldable pub update_session_activity_from_request : Option SessionActivityState → Handler Reply
  unfolding update_event
  update_session_activity_from_request parsed = get_session platform id >>= update_found parsed

  abbrev pub update_seen :
      Option PartnerAuthContext → Option SessionActivityState → Option SessionRecord → Handler Reply
  update_seen auth parsed none = pure (send 404)
  update_seen auth parsed (some session) =
      if not (can_partner_access_session session auth)
      then pure (send 404)
      else update_session_activity_from_request parsed

  -- `POST /v1/sessions/:sessionId/activity`
  unfoldable pub update_v1_activity :
      Option PartnerAuthContext → Option SessionActivityState → Handler Reply
  unfolding update_session_activity_from_request
  update_v1_activity auth parsed = get_session platform id >>= update_seen auth parsed
