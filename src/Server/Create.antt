-- ===== src/Server/Create.antt =====
-- `createSessionFromRequest`.
use base_layer.Base.{
  ℕ, Bool, true, false, ◌&&◌, ◌||◌, Option, none, some, String, if◌then◌else◌, Result, ok, err,
  Error, scheduler_error, remote_timeout, remote_error, message,
}
use text.Mathlib.Text.{find?}
use base_layer.Types.{CreateSessionRequest, RuntimeLaunchResult}
use base_layer.Types.Platform.{Platform}
use base_layer.Partner.{PartnerAuthContext}
use base_layer.Partner.Headers.{Headers}
use base_layer.Partner.Scope.{apply_partner_scope_to_create_request}
use base_layer.Store.File.{ControlPlaneStore}
use base_layer.Store.Monad.{with_write_lock}
use base_layer.Store.Writes.{Reserved, release_host_create_reservation}
use base_layer.Store.Commit.{commit_session_mutation}
use base_layer.Server.Handler.{Handler, ◌>>=◌, ◌>>◌, pure, lift, await, Reply, send}
use base_layer.Server.Admission.{reserve_host_for_create_with_backpressure}
use base_layer.Server.Idempotency.{Hashes, partner_key, replay_create_idempotency}
use base_layer.Server.Draft.{
  CreateRun, is_microvm, at_once, record_draft, session_or, final_record, only_session,
  create_mutation,
}

abbrev is_some : {A : Type 0} → Option A → Bool
is_some none = false
is_some (some a) = true

-- The replies of the handler's `catch`.
unfoldable pub create_error_status : Error → ℕ
create_error_status scheduler_error = 503
create_error_status remote_timeout = 504
create_error_status remote_error = 502
create_error_status (message m) =
    if is_some (find? m "scope mismatch") || is_some (find? m "not allowed for this partner key")
    then 403
    else 502
create_error_status _ = 502

module _ (run : CreateRun) (hashes : Hashes) (platform : Platform) where
  -- A launch that fails gives its reservation back.
  abbrev pub launched : Reserved → Result RuntimeLaunchResult → Handler RuntimeLaunchResult
  launched reserved (ok runtime) = pure runtime
  launched reserved (err e) = do
    with_write_lock platform.formats run.release_lock
        (release_host_create_reservation platform reserved.reservation.reservation_id run.now)
    lift (err e)

  abbrev pub created :
      CreateSessionRequest
      → CreateSessionRequest
      → Option PartnerAuthContext
      → Option String
      → Handler Reply
  created parsed scoped auth key = do
    reserved ←
        reserve_host_for_create_with_backpressure platform
          (record {
            session_id = run.session_id;
            preferred_region = scoped.region;
            runtime_profile = scoped.runtime_profile;
            ttl_ms = run.ttl_ms;
          })
          run.early run.last
    await run.others
    runtime ← launched reserved (run.remote reserved.host scoped)
    first ← with_write_lock platform.formats run.first_lock (
        commit_session_mutation platform run.retention
          (create_mutation run hashes parsed scoped reserved runtime auth key) run.now)
    let final =
        final_record run
          (session_or run first.session (record_draft run parsed scoped reserved runtime)) reserved
          (is_microvm runtime.runtime_kind && at_once runtime.launch_timings)
    second ←
        with_write_lock platform.formats run.second_lock
          (commit_session_mutation platform run.retention (only_session run final) run.now)
    pure (record (send 201) { session = some (session_or run second.session final) })

  abbrev pub create_unless_sent :
      Option Reply
      → CreateSessionRequest
      → CreateSessionRequest
      → Option PartnerAuthContext
      → Option String
      → Handler Reply
  create_unless_sent (some reply) parsed scoped auth key = pure reply
  create_unless_sent none parsed scoped auth key = created parsed scoped auth key

  -- The body of the handler's `try`.
  abbrev pub create_tried :
      CreateSessionRequest → Option PartnerAuthContext → Headers → Handler Reply
  create_tried parsed auth headers = do
    scoped ← lift (apply_partner_scope_to_create_request parsed auth)
    sent ← replay_create_idempotency platform hashes auth scoped (partner_key auth headers)
    create_unless_sent sent parsed scoped auth (partner_key auth headers)

  abbrev pub caught : Result Reply × ControlPlaneStore → Reply × ControlPlaneStore
  caught (ok reply, store) = (reply, store)
  caught (err e, store) = (send (create_error_status e), store)

  -- `none` for a body that `createSessionRequestSchema` refuses
  unfoldable pub create_session_from_request :
      Option CreateSessionRequest
      → Option PartnerAuthContext
      → Headers
      → ControlPlaneStore
      → Reply × ControlPlaneStore
  unfolding create_error_status create_mutation final_record
  create_session_from_request none auth headers store = (send 400, store)
  create_session_from_request (some parsed) auth headers store =
      caught (create_tried parsed auth headers store)
