-- ===== src/Server/Access.antt =====
-- The hook that authenticates a request and the routes that show one session: `onRequest`,
-- `authenticatePartnerRequest` and `/sessions/:sessionId` with what stands below it, with and without
-- `/v1`. A summary that is parsed before it is sent has the fields of a stored session, which the schema
-- has accepted.
pub mod Laws
mod Tests
use base_layer.Base.{
  ℕ, Bool, true, false, ◌&&◌, ◌||◌, not, Option, none, some, List, [], String, truthy, codes,
  starts_with, if◌then◌else◌, Result, ok, err,
}
use base_layer.Types.{
  SessionRecord, SessionMetrics, SessionLogSnapshot, SessionEventRecord, SessionStatus, HostRecord,
  RuntimeKind, BrowserKind, LaunchTiming, ControlPlaneTiming, ProviderSessionMetadata,
  ProviderSessionTags, same_status, running, failed, from_control_plane,
}
use base_layer.Types.Platform.{Platform}
use base_layer.Partner.{PartnerAuthContext, can_partner_access_session}
use base_layer.Partner.Headers.{Headers}
use base_layer.Partner.Keys.{ProviderApiKeyStore, required, authenticate}
use base_layer.Scheduler.{coalesce}
use base_layer.Store.File.{ControlPlaneStore}
use base_layer.Store.Reads.{get_session, get_session_events, get_host}
use base_layer.Server.Handler.{Handler, ◌>>=◌, ◌>>◌, pure, await}
use base_layer.Server.Report.{is_terminal_status}

pub record SessionResult : Type 0 where
  pub exit_reason : Option String
  pub crashed : Bool

pub record SessionMetricsSummary : Type 0 where
  pub session_id : String
  pub status : SessionStatus
  pub browser : BrowserKind
  pub host_id : String
  pub runtime_kind : RuntimeKind
  pub runtime_profile : Option String
  pub region : Option String
  pub proxy_profile : Option String
  pub provider : Option ProviderSessionMetadata
  pub session_tags : Option ProviderSessionTags
  pub created_at : ℕ
  pub expires_at : ℕ
  pub ended_at : Option ℕ
  pub launch_timings : Option LaunchTiming
  pub control_plane_timings : Option ControlPlaneTiming
  pub recent_logs : Option SessionLogSnapshot
  pub usage : Option SessionMetrics
  pub result : Option SessionResult

-- Without the texts that are the same for every session, and the URL of the logs.
pub record SessionArtifacts : Type 0 where
  pub session_id : String
  pub status : SessionStatus
  pub runtime_kind : RuntimeKind
  pub connect_url : String
  pub cdp_url : String
  pub playwright_url : String
  pub puppeteer_url : String
  pub debug_http_url : String

-- The body of an answer.
pub data Shown : Type 0 where
  nothing : Shown
  whole : SessionRecord → Shown
  summary : SessionMetricsSummary → Shown
  events : String → List SessionEventRecord → Shown
  artifacts : SessionArtifacts → Shown
  logs : String → SessionStatus → SessionLogSnapshot → Shown

pub record Answer : Type 0 where
  pub status : ℕ
  pub shown : Shown

abbrev pub refused : ℕ → Answer
refused status = record { status = status; shown = nothing }

abbrev pub shows : Shown → Answer
shows shown = record { status = 200; shown = shown }

-- What the hook does with a request: it answers, or hands it on with the key's scope.
pub data Hook : Type 0 where
  answers : ℕ → Hook
  proceeds : Option PartnerAuthContext → Hook

-- `request.url.startsWith("/v1")`
unfoldable pub is_v1 : String → Bool
unfolding starts_with
is_v1 url = starts_with (codes url) (codes "/v1")

-- What `authenticatePartnerRequest` returns: none also where it has sent 401.
unfoldable pub authenticate_partner_request :
    ProviderApiKeyStore → String → Headers → Option PartnerAuthContext
authenticate_partner_request keys url headers =
    if not (is_v1 url)
    then none
    else if not (required keys)
    then none
    else authenticate keys headers

abbrev hook_result : Bool → Option PartnerAuthContext → Hook
hook_result must_have none = if must_have then answers 401 else proceeds none
hook_result must_have (some auth) = proceeds (some auth)

-- The hook `onRequest`.
unfoldable pub on_request : Bool → ProviderApiKeyStore → String → Headers → Hook
unfolding authenticate_partner_request
on_request public_only_v1 keys url headers =
    if public_only_v1 && not (is_v1 url)
    then answers 404
    else hook_result (required keys && is_v1 url) (authenticate_partner_request keys url headers)

abbrev result_of : SessionRecord → Option SessionResult
result_of session =
    if truthy session.exit_reason || is_terminal_status session.status
    then some
        (record { exit_reason = session.exit_reason; crashed = same_status session.status failed })
    else none

unfoldable pub build_session_metrics_summary : SessionRecord → SessionMetricsSummary
unfolding is_terminal_status
build_session_metrics_summary session = record {
  session_id = session.session_id;
  status = session.status;
  browser = session.browser;
  host_id = session.host_id;
  runtime_kind = session.runtime_kind;
  runtime_profile = session.runtime_profile;
  region = session.region;
  proxy_profile = session.proxy_profile;
  provider = session.provider;
  session_tags = session.session_tags;
  created_at = session.created_at;
  expires_at = session.expires_at;
  ended_at = session.ended_at;
  launch_timings = session.launch_timings;
  control_plane_timings = session.control_plane_timings;
  recent_logs = session.recent_logs;
  usage = session.last_known_metrics;
  result = result_of session;
}

unfoldable pub session_artifacts : SessionRecord → SessionArtifacts
session_artifacts session = record {
  session_id = session.session_id;
  status = session.status;
  runtime_kind = session.runtime_kind;
  connect_url = session.connect_url;
  cdp_url = session.cdp_url;
  playwright_url = session.playwright_url;
  puppeteer_url = session.puppeteer_url;
  debug_http_url = session.debug_http_url;
}

-- Which of the routes below a session is asked for.
pub data View : Type 0 where
  session_view metrics_view events_view artifacts_view logs_view : View

-- The clock, what the node agent answers where it is asked for logs (an error counts as none), and what
-- others do meanwhile.
pub record ReadRun : Type 0 where
  pub now : ℕ
  pub remote_logs : HostRecord → Option SessionLogSnapshot
  pub others : ControlPlaneStore → ControlPlaneStore

module _ (platform : Platform) (run : ReadRun) where
  abbrev empty_logs : SessionLogSnapshot
  empty_logs = record { source = from_control_plane; captured_at = run.now; lines = [] }

  abbrev send_logs : String → SessionRecord → Option SessionLogSnapshot → Handler Answer
  send_logs id session none = pure (shows (logs id session.status empty_logs))
  send_logs id session (some found) = pure (shows (logs id session.status found))

  abbrev logs_from : String → SessionRecord → Option HostRecord → Handler Answer
  logs_from id session none = send_logs id session session.recent_logs
  logs_from id session (some host) = do
    await run.others
    send_logs id session (coalesce (run.remote_logs host) session.recent_logs)

  unfoldable pub session_logs : String → SessionRecord → Handler Answer
  session_logs id session =
      if same_status session.status running
      then get_host platform run.now session.host_id >>= logs_from id session
      else send_logs id session session.recent_logs

  -- What a route does with the session that it has found and may show.
  unfoldable pub view_of : View → String → SessionRecord → Handler Answer
  unfolding build_session_metrics_summary session_artifacts session_logs
  view_of session_view id session = pure (shows (whole session))
  view_of metrics_view id session = pure (shows (summary (build_session_metrics_summary session)))
  view_of events_view id session = do
    found ← get_session_events platform id
    pure (shows (events id found))
  view_of artifacts_view id session = pure (shows (artifacts (session_artifacts session)))
  view_of logs_view id session = session_logs id session

  abbrev pub shown_to :
      Option PartnerAuthContext → View → String → Option SessionRecord → Handler Answer
  shown_to auth view id none = pure (refused 404)
  shown_to auth view id (some session) =
      if not (can_partner_access_session session auth)
      then pure (refused 404)
      else view_of view id session

  -- `GET /v1/sessions/:sessionId…`
  unfoldable pub read_v1_session : Option PartnerAuthContext → View → String → Handler Answer
  unfolding view_of
  read_v1_session auth view id = get_session platform id >>= shown_to auth view id

  abbrev found_or_404 : View → String → Option SessionRecord → Handler Answer
  found_or_404 view id none = pure (refused 404)
  found_or_404 view id (some session) = view_of view id session

  -- `GET /sessions/:sessionId…`
  unfoldable pub read_session : View → String → Handler Answer
  unfolding view_of
  read_session view id = get_session platform id >>= found_or_404 view id

  abbrev pub after_hook : Hook → View → String → Handler Answer
  after_hook (answers status) view id = pure (refused status)
  after_hook (proceeds auth) view id = read_v1_session auth view id

  -- A request of one of the routes under `/v1`, with its hook.
  unfoldable pub serve_v1_session :
      Bool → ProviderApiKeyStore → String → Headers → View → String → Handler Answer
  unfolding on_request read_v1_session
  serve_v1_session public_only_v1 keys url headers view id =
      after_hook (on_request public_only_v1 keys url headers) view id
