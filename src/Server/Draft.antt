-- ===== src/Server/Draft.antt =====
-- What `createSessionFromRequest` stores: the draft, the event, the final record, the first commit.
use base_layer.Base.{
  ℕ, ◌+◌, ◌*◌, Bool, true, false, not, ◌&&◌, Option, none, some, List, [], ◌∷◌, ◌++◌, String,
  if◌then◌else◌, nat_eq, Result, truthy,
}
use base_layer.Types.{
  SessionRecord, LaunchTiming, ControlPlaneCreateTiming, HostRecord, SessionEventRecord,
  EventScalar, running, control_plane, session_created, IdempotencyRecord, post, RuntimeKind,
  microvm, container, CreateSessionRequest, RuntimeLaunchResult, BrowserKind, chromium,
  ProviderEventData,
}
use base_layer.Query.{provider_field}
use base_layer.Partner.{PartnerAuthContext}
use base_layer.Store.File.{ControlPlaneStore}
use base_layer.Store.Writes.{Reserved}
use base_layer.Store.Commit.{SessionMutation}
use base_layer.Server.Admission.{Attempt}
use base_layer.Server.Idempotency.{Hashes, build_idempotency_storage_key}

-- What a creation takes from its process: the fresh ids, the clock, the rounds of admission, the node
-- agent's answer, what others do meanwhile, the locks of its writes, and how long the steps took.
pub record CreateRun : Type 0 where
  pub session_id : String
  pub event_id : String
  pub now : ℕ
  pub ttl_ms : ℕ
  pub early : List Attempt
  pub last : Attempt
  pub remote : HostRecord → CreateSessionRequest → Result RuntimeLaunchResult
  pub others : ControlPlaneStore → ControlPlaneStore
  pub release_lock : Result (Unit {0})
  pub first_lock : Result (Unit {0})
  pub second_lock : Result (Unit {0})
  pub request_validation_ms : ℕ
  pub scheduler_ms : ℕ
  pub node_agent_create_ms : ℕ
  pub persist_ms : ℕ
  pub response_build_ms : ℕ
  pub total_ms : ℕ
  pub retention : ℕ

abbrev pub is_microvm : RuntimeKind → Bool
is_microvm container = false
is_microvm microvm = true

abbrev pub at_once : Option LaunchTiming → Bool
at_once none = false
at_once (some timing) = nat_eq timing.total_ms 0

abbrev pub differ : Bool → Bool → Bool
differ true b = not b
differ false b = b

-- `...(value ? { name: value } : {})`
abbrev given : String → Option String → ProviderEventData
given name none = []
given name (some value) = if truthy (some value) then (name, EventScalar.text value) ∷ [] else []

abbrev runtime_text : RuntimeKind → String
runtime_text container = "container"
runtime_text microvm = "microvm"

abbrev browser_text : BrowserKind → String
browser_text chromium = "chromium"

module _ (run : CreateRun) where
  abbrev pub create_timing : ℕ → ℕ → ℕ → Bool → Bool → ControlPlaneCreateTiming
  create_timing total persist response warm_expected warm_actual = record {
    total_ms = total;
    request_validation_ms = some run.request_validation_ms;
    scheduler_ms = some run.scheduler_ms;
    reservation_ms = some 0;
    node_agent_create_ms = some run.node_agent_create_ms;
    persist_ms = some persist;
    response_build_ms = some response;
    warm_expected = some warm_expected;
    warm_actual = some warm_actual;
    warm_mismatch = some (differ warm_expected warm_actual);
  }

  -- `recordDraft`
  unfoldable pub record_draft :
      CreateSessionRequest → CreateSessionRequest → Reserved → RuntimeLaunchResult → SessionRecord
  record_draft parsed scoped reserved runtime =
      let warm_actual = is_microvm runtime.runtime_kind && at_once runtime.launch_timings in
      record {
        session_id = run.session_id;
        browser = parsed.browser;
        status = running;
        host_id = reserved.host.host_id;
        connect_url = runtime.connect_url;
        cdp_url = runtime.cdp_url;
        playwright_url = runtime.playwright_url;
        puppeteer_url = runtime.puppeteer_url;
        debug_http_url = runtime.debug_http_url;
        keep_alive = parsed.keep_alive;
        timeout_sec = parsed.timeout_sec;
        idle_timeout_sec = parsed.idle_timeout_sec;
        proxy_profile = scoped.proxy_profile;
        runtime_profile = scoped.runtime_profile;
        region = scoped.region;
        provider = scoped.provider;
        session_tags = scoped.session_tags;
        created_at = runtime.started_at;
        expires_at = run.now + parsed.timeout_sec * 1000;
        ended_at = none;
        container_id = runtime.container_id;
        container_name = runtime.container_name;
        runtime_kind = runtime.runtime_kind;
        launch_timings = runtime.launch_timings;
        control_plane_timings = some (record {
          create = some (create_timing 0 0 0 reserved.reservation.warm_expected warm_actual);
          deletion = none;
        });
        exit_reason = none;
        recent_logs = none;
        last_known_metrics = none;
      }

  -- `createdEvent`
  unfoldable pub created_event : SessionRecord → SessionEventRecord
  created_event draft = record {
    event_id = run.event_id;
    session_id = run.session_id;
    ts = run.now;
    source = control_plane;
    type = session_created;
    status = some running;
    activity_state = none;
    exit_reason = none;
    details = some (
        ("hostId", EventScalar.text draft.host_id)
        ∷ ("runtimeKind", EventScalar.text (runtime_text draft.runtime_kind))
        ∷ ("browser", EventScalar.text (browser_text draft.browser))
        ∷ ("keepAlive", EventScalar.flag draft.keep_alive)
        ∷ ("timeoutSec", EventScalar.number draft.timeout_sec)
        ∷ ("idleTimeoutSec", EventScalar.number draft.idle_timeout_sec)
        ∷ (given "runtimeProfile" draft.runtime_profile
            ++ given "region" draft.region
            ++ given "proxyProfile" draft.proxy_profile
            ++ given "upstreamProvider" (provider_field (λ p. p.upstream_provider) draft.provider)
            ++ given "providerSessionId"
                (provider_field (λ p. p.provider_session_id) draft.provider)));
  }

  abbrev pub session_or : Option SessionRecord → SessionRecord → SessionRecord
  session_or none draft = draft
  session_or (some session) draft = session

  -- `finalRecord`
  unfoldable pub final_record : SessionRecord → Reserved → Bool → SessionRecord
  final_record base reserved warm_actual = record base {
    control_plane_timings = some (record {
      create = some (
          create_timing run.total_ms run.persist_ms run.response_build_ms
            reserved.reservation.warm_expected warm_actual);
      deletion = none;
    });
  }

  abbrev pub only_session : SessionRecord → SessionMutation
  only_session session = record {
    release_reservation_id = none;
    add_delete_reservation = none;
    session = some session;
    event = none;
    idempotency = none;
    remove_session_id = none;
  }

  module _ (hashes : Hashes) where
    abbrev pub stored_under :
        Option PartnerAuthContext
        → Option String
        → CreateSessionRequest
        → Option (String × IdempotencyRecord)
    stored_under none key scoped = none
    stored_under (some auth) none scoped = none
    stored_under (some auth) (some key) scoped = some (
      build_idempotency_storage_key (some auth) post "/v1/sessions" key,
      record {
        scope_key = auth.key_id;
        idempotency_key = key;
        method = post;
        route = "/v1/sessions";
        request_hash = hashes.of_request scoped;
        session_id = some run.session_id;
        response_status = 201;
        created_at = run.now;
      },
    )

    unfoldable pub create_mutation :
        CreateSessionRequest
        → CreateSessionRequest
        → Reserved
        → RuntimeLaunchResult
        → Option PartnerAuthContext
        → Option String
        → SessionMutation
    unfolding record_draft created_event
    create_mutation parsed scoped reserved runtime auth key =
        let draft = record_draft parsed scoped reserved runtime in
        record {
          release_reservation_id = some reserved.reservation.reservation_id;
          add_delete_reservation = none;
          session = some draft;
          event = some (created_event draft);
          idempotency = stored_under auth key scoped;
          remove_session_id = none;
        }
