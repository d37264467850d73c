-- ===== src/Server/Delete.antt =====
-- `deleteSessionFromRequest`.
use Prim.Native.String.{◌++◌ as ◌<>◌}
use base_layer.Base.{
  ℕ, ◌+◌, max, Bool, true, not, Option, none, some, [], ◌∷◌, String, if◌then◌else◌, Result,
}
use base_layer.Types.{
  SessionRecord, SessionMetrics, ControlPlaneTiming, ControlPlaneCreateTiming, HostRecord,
  HostDeleteReservation, SessionEventRecord, EventScalar, terminated, control_plane,
  session_status_updated, same_status, IdempotencyRecord, delete,
}
use base_layer.Types.Platform.{Platform}
use base_layer.Query.{status_text}
use base_layer.Partner.{PartnerAuthContext, can_partner_access_session}
use base_layer.Partner.Headers.{Headers}
use base_layer.Store.File.{ControlPlaneStore}
use base_layer.Store.Monad.{with_write_lock}
use base_layer.Store.Reads.{get_session, get_host}
use base_layer.Store.Commit.{SessionMutation, commit_session_mutation}
use base_layer.Server.Handler.{Handler, ◌>>=◌, ◌>>◌, pure, lift, await, Reply, send}
use base_layer.Server.Idempotency.{
  Hashes, partner_key, build_idempotency_storage_key, replay_delete_idempotency,
}

-- What a deletion takes from its process: whether it is asynchronous, the clock, fresh ids, how long the
-- steps took, the node agent's answer, and what others do while the handler awaits it.
pub record DeleteRun : Type 0 where
  pub async_delete : Bool
  pub now : ℕ
  pub event_id : String
  pub reservation_id : String
  pub total_ms : ℕ
  pub remote_delete_ms : ℕ
  pub remote : Result (Unit {0})
  pub others : ControlPlaneStore → ControlPlaneStore
  pub lock : Result (Unit {0})
  pub retention : ℕ

abbrev host_delete_reservation_ttl_ms : ℕ
host_delete_reservation_ttl_ms = 15000

abbrev renderers_of : Option SessionMetrics → ℕ
renderers_of none = 1
renderers_of (some metrics) = metrics.renderer_count

abbrev create_timing : Option ControlPlaneTiming → Option ControlPlaneCreateTiming
create_timing none = none
create_timing (some timing) = timing.create

abbrev or_now : Option ℕ → ℕ → ℕ
or_now none now = now
or_now (some at) now = at

module _ (run : DeleteRun) where
  unfoldable pub terminated_record : SessionRecord → SessionRecord
  terminated_record session = record session {
    status = terminated;
    ended_at = some (or_now session.ended_at run.now);
    exit_reason = some "terminated-by-api";
    control_plane_timings = some (record {
      create = create_timing session.control_plane_timings;
      deletion = some (record {
        total_ms = run.total_ms;
        remote_delete_ms = some (if run.async_delete then 0 else run.remote_delete_ms);
        persist_ms = some 0;
        is_async = run.async_delete;
      });
    });
  }

  unfoldable pub delete_event : SessionRecord → String → SessionEventRecord
  delete_event session id = record {
    event_id = run.event_id;
    session_id = id;
    ts = run.now;
    source = control_plane;
    type = session_status_updated;
    status = some terminated;
    activity_state = none;
    exit_reason = some "terminated-by-api";
    details = some (
        ("previousStatus", EventScalar.text (status_text session.status))
        ∷ ("nextStatus", EventScalar.text "terminated")
        ∷ []);
  }

  abbrev delete_reservation : SessionRecord → HostRecord → String → Option HostDeleteReservation
  delete_reservation session host id =
      if run.async_delete
      then some (record {
        reservation_id = run.reservation_id;
        session_id = id;
        host_id = host.host_id;
        runtime_kind = session.runtime_kind;
        renderer_count = max 1 (renderers_of session.last_known_metrics);
        created_at = run.now;
        expires_at = run.now + host_delete_reservation_ttl_ms;
      })
      else none

  module _ (hashes : Hashes) where
    abbrev stored_under :
        Option PartnerAuthContext → Option String → String → Option (String × IdempotencyRecord)
    stored_under none key id = none
    stored_under (some auth) none id = none
    stored_under (some auth) (some key) id = some (
      build_idempotency_storage_key (some auth) delete ("/v1/sessions/" <> id) key,
      record {
        scope_key = auth.key_id;
        idempotency_key = key;
        method = delete;
        route = "/v1/sessions/" <> id;
        request_hash = hashes.of_target id;
        session_id = some id;
        response_status = 204;
        created_at = run.now;
      },
    )

    unfoldable pub delete_mutation :
        SessionRecord
        → HostRecord
        → String
        → Option PartnerAuthContext
        → Option String
        → SessionMutation
    unfolding terminated_record delete_event
    delete_mutation session host id auth key = record {
      release_reservation_id = none;
      add_delete_reservation = delete_reservation session host id;
      session = some (terminated_record session);
      event = some (delete_event session id);
      idempotency = stored_under auth key id;
      remove_session_id = none;
    }

    module _ (platform : Platform) where
      -- `await deleteRemoteSession(…)`, where the deletion is not asynchronous
      abbrev pub delete_remote : Handler (Unit {0})
      delete_remote = if run.async_delete then pure tt else (await run.others >> lift run.remote)

      abbrev pub delete_on :
          Option HostRecord
          → SessionRecord
          → String
          → Option PartnerAuthContext
          → Option String
          → Handler Reply
      delete_on none session id auth key = pure (send 409)
      delete_on (some host) session id auth key = do
        delete_remote
        committed ← with_write_lock platform.formats run.lock (
            commit_session_mutation platform run.retention
              (delete_mutation session host id auth key) run.now)
        pure (record (send 204) { remote_delete = true })

      abbrev pub delete_unless_sent :
          Option Reply
          → SessionRecord
          → String
          → Option PartnerAuthContext
          → Option String
          → Handler Reply
      delete_unless_sent (some reply) session id auth key = pure reply
      delete_unless_sent none session id auth key =
          if same_status session.status terminated then pure (send 204) else do
            host ← get_host platform run.now session.host_id
            delete_on host session id auth key

      abbrev pub delete_found :
          Option SessionRecord → String → Option PartnerAuthContext → Headers → Handler Reply
      delete_found none id auth headers = pure (send 204)
      delete_found (some session) id auth headers =
          if not (can_partner_access_session session auth) then pure (send 404) else do
            sent ← replay_delete_idempotency platform hashes auth id (partner_key auth headers)
            delete_unless_sent sent session id auth (partner_key auth headers)

      unfoldable pub delete_session_from_request :
          String → Option PartnerAuthContext → Headers → Handler Reply
      unfolding delete_mutation
      delete_session_from_request id auth headers = do
        session ← get_session platform id
        delete_found session id auth headers
