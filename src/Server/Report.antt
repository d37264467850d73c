-- ===== src/Server/Report.antt =====
-- `fastify.patch("/internal/sessions/:sessionId", …)`: what a node agent reports of a session.
pub mod Events
pub mod Laws
mod Tests
use base_layer.Base.{
  ℕ, Bool, true, false, ◌&&◌, ◌||◌, not, Option, none, some, List, [], ◌∷◌, String, length, truthy,
  same_text, if◌then◌else◌, Result,
}
use base_layer.Types.{
  SessionRecord, SessionMetrics, SessionLogSnapshot, SessionStatus, SessionActivityState,
  SessionEventRecord, SessionEventType, EventScalar, ProviderEventData, same_status, same_activity,
  terminated, failed, launching, active_navigation, interactive_idle, soak_idle, node_agent,
  session_status_updated, session_exit_reason_set, session_activity_updated,
  session_metrics_updated,
}
use base_layer.Types.Platform.{Platform}
use base_layer.Query.{status_text}
use base_layer.Scheduler.{coalesce}
use base_layer.Store.Monad.{with_write_lock}
use base_layer.Store.Reads.{get_session}
use base_layer.Store.Writes.{upsert_session, append_session_event}
use base_layer.Server.Handler.{Handler, ◌>>=◌, ◌>>◌, pure, Reply, send}

-- The body: the server does not check it, the store's schemas do.
pub record SessionUpdate : Type 0 where
  pub status : Option SessionStatus
  pub exit_reason : Option String
  pub recent_logs : Option SessionLogSnapshot
  pub last_known_metrics : Option SessionMetrics

-- What one call of the store takes from its process: how its wait for the lock ends, the clock, a
-- fresh id.
pub record Call : Type 0 where
  pub lock : Result (Unit {0})
  pub now : ℕ
  pub event_id : String

-- The calls of the store in the order of the code.
pub record ReportRun : Type 0 where
  pub now : ℕ
  pub upsert : Call
  pub status_event : Call
  pub exit_event : Call
  pub activity_event : Call
  pub metrics_event : Call
  pub logs_event : Call

unfoldable pub is_terminal_status : SessionStatus → Bool
is_terminal_status status = same_status status terminated || same_status status failed

abbrev pub activity_text : SessionActivityState → String
activity_text launching = "launching"
activity_text active_navigation = "active-navigation"
activity_text interactive_idle = "interactive-idle"
activity_text soak_idle = "soak-idle"

-- `first ?? second`, for a value that is there
abbrev pub status_or : Option SessionStatus → SessionStatus → SessionStatus
status_or none kept = kept
status_or (some status) kept = status

abbrev pub next_status : SessionUpdate → SessionRecord → SessionStatus
next_status body session = status_or body.status session.status

abbrev pub next_exit_reason : SessionUpdate → SessionRecord → Option String
next_exit_reason body session = coalesce body.exit_reason session.exit_reason

abbrev pub next_metrics : SessionUpdate → SessionRecord → Option SessionMetrics
next_metrics body session = coalesce body.last_known_metrics session.last_known_metrics

abbrev pub activity_of : Option SessionMetrics → Option SessionActivityState
activity_of none = none
activity_of (some metrics) = some metrics.activity_state

abbrev pub activity_scalar : Option SessionActivityState → EventScalar
activity_scalar none = EventScalar.null
activity_scalar (some activity) = EventScalar.text (activity_text activity)

-- `next && next !== previous`
abbrev pub activity_changed : Option SessionActivityState → Option SessionActivityState → Bool
activity_changed none previous = false
activity_changed (some next) none = true
activity_changed (some next) (some previous) = not (same_activity next previous)

-- The record that is stored.
unfoldable pub reported : SessionUpdate → SessionRecord → ℕ → SessionRecord
unfolding is_terminal_status
reported body session now = record session {
  status = next_status body session;
  exit_reason = next_exit_reason body session;
  ended_at =
      if is_terminal_status (next_status body session)
      then coalesce session.ended_at (some now)
      else session.ended_at;
  recent_logs = coalesce body.recent_logs session.recent_logs;
  last_known_metrics = next_metrics body session;
}

-- `appendSessionEvent`, for the source "node-agent"
abbrev agent_event :
    Call
    → String
    → SessionEventType
    → SessionStatus
    → Option SessionActivityState
    → Option String
    → Option ProviderEventData
    → SessionEventRecord
agent_event call id type status activity exit_reason details = record {
  event_id = call.event_id;
  session_id = id;
  ts = call.now;
  source = node_agent;
  type = type;
  status = some status;
  activity_state = activity;
  exit_reason = exit_reason;
  details = details;
}

abbrev pub status_details : SessionStatus → SessionStatus → ProviderEventData
status_details previous next =
    ("previousStatus", EventScalar.text (status_text previous))
    ∷ ("nextStatus", EventScalar.text (status_text next))
    ∷ []

abbrev pub activity_details :
    Option SessionActivityState → Option SessionActivityState → ProviderEventData
activity_details previous next =
    ("previousActivityState", activity_scalar previous)
    ∷ ("nextActivityState", activity_scalar next)
    ∷ []

abbrev pub metrics_details : SessionMetrics → ProviderEventData
metrics_details metrics =
    ("memoryMb", EventScalar.number metrics.memory_mb)
    ∷ ("cpuPct", EventScalar.number metrics.cpu_pct)
    ∷ ("rendererCount", EventScalar.number metrics.renderer_count)
    ∷ ("shmUsedMb", EventScalar.number metrics.shm_used_mb)
    ∷ []

abbrev pub when : Bool → Handler (Unit {0}) → Handler (Unit {0})
when test step = if test then step else pure tt

abbrev pub record_event : Platform → Call → SessionEventRecord → Handler (Unit {0})
record_event platform call event =
    with_write_lock platform.formats call.lock (append_session_event platform event call.now)
    >>= λ _. pure tt

module _ (platform : Platform) (run : ReportRun) (body : SessionUpdate) (id : String) where
  unfoldable pub status_event : SessionRecord → SessionEventRecord
  status_event session =
      agent_event run.status_event id session_status_updated (next_status body session) none
        (next_exit_reason body session)
        (some (status_details session.status (next_status body session)))

  unfoldable pub exit_event : SessionRecord → SessionEventRecord
  exit_event session =
      agent_event run.exit_event id session_exit_reason_set (next_status body session) none
        (next_exit_reason body session) none

  unfoldable pub activity_event : SessionRecord → SessionEventRecord
  activity_event session =
      let next = activity_of (next_metrics body session) in
      agent_event run.activity_event id session_activity_updated (next_status body session) next
        none (some (activity_details (activity_of session.last_known_metrics) next))

  unfoldable pub metrics_event : SessionRecord → SessionMetrics → SessionEventRecord
  metrics_event session metrics =
      agent_event run.metrics_event id session_metrics_updated (next_status body session)
        (some metrics.activity_state) none (some (metrics_details metrics))

  unfoldable pub logs_event : SessionRecord → SessionLogSnapshot → SessionEventRecord
  logs_event session logs =
      agent_event run.logs_event id session_metrics_updated (next_status body session) none none
        (some (("logLines", EventScalar.number (length logs.lines)) ∷ []))

  unfoldable pub metrics_step : Option SessionMetrics → SessionRecord → Handler (Unit {0})
  unfolding metrics_event
  metrics_step none session = pure tt
  metrics_step (some metrics) session =
      record_event platform run.metrics_event (metrics_event session metrics)

  unfoldable pub logs_step : Option SessionLogSnapshot → SessionRecord → Handler (Unit {0})
  unfolding logs_event
  logs_step none session = pure tt
  logs_step (some logs) session = record_event platform run.logs_event (logs_event session logs)

  unfoldable pub report_events : SessionRecord → Handler Reply
  unfolding status_event exit_event activity_event metrics_step logs_step
  report_events session = do
    when (not (same_status (next_status body session) session.status))
        (record_event platform run.status_event (status_event session))
    when
        (truthy (next_exit_reason body session)
          && not (same_text (next_exit_reason body session) session.exit_reason))
        (record_event platform run.exit_event (exit_event session))
    when
        (activity_changed (activity_of (next_metrics body session))
          (activity_of session.last_known_metrics))
        (record_event platform run.activity_event (activity_event session))
    metrics_step body.last_known_metrics session
    logs_step body.recent_logs session
    pure (send 202)

  unfoldable pub report_found : Option SessionRecord → Handler Reply
  unfolding reported report_events
  report_found none = pure (send 404)
  report_found (some session) = do
    updated ←
        with_write_lock platform.formats run.upsert.lock
          (upsert_session platform (reported body session run.now) run.upsert.now)
    report_events session

  unfoldable pub report_session : Handler Reply
  unfolding report_found
  report_session = do session ← get_session platform id; report_found session
