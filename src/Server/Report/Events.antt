-- ===== src/Server/Report/Events.antt =====
-- The events of a report: each is recorded, and none changes a session.
use base_layer.Base.{
  Bool, true, false, ◌&&◌, not, Option, none, some, String, ◌≡◌, refl, ap, ◌∙◌, ok, truthy,
  same_text, sized,
}
use base_layer.Types.{
  StateFile, SessionRecord, SessionEventRecord, SessionActivityState, pending, failed, launching,
  active_navigation, interactive_idle, soak_idle, terminating, same_status, SessionMetrics,
  SessionLogSnapshot, SessionStatus, running, terminated,
}
use base_layer.Types.Schema.{valid_event, parse_event, valid_event_data, valid_scalar}
use base_layer.Types.Platform.{Platform}
use base_layer.Query.{status_text}
use base_layer.Store.Effective.{cleanup_expired_reservations}
use base_layer.Store.Writes.{put_event, append_session_event}
use base_layer.Store.Durability.Validity.{Valid, Valid-Closed}
use base_layer.Store.Stored.{stored, write-stored}
use base_layer.Server.Handler.{Handler, ◌>>◌, go_on, pure, Reply, send}
use base_layer.Server.Report.{
  SessionUpdate, Call, ReportRun, next_status, record_event, when, status_event, exit_event,
  activity_event, metrics_event, logs_event, metrics_step, logs_step, report_events,
  next_exit_reason, next_metrics, activity_of, activity_scalar, activity_changed, status_details,
  activity_details, metrics_details,
}

-- The details of the reports pass the event's schema.
status-valid : (a b : SessionStatus) → valid_event_data (status_details a b) ≡ true
unfolding valid_event_data valid_scalar sized
status-valid a b = rw (text-sized a, text-sized b)
  where
    text-sized : (c : SessionStatus) → sized 0 512 (status_text c) ≡ true
    text-sized pending = refl
    text-sized running = refl
    text-sized terminating = refl
    text-sized terminated = refl
    text-sized failed = refl

pub scalar-valid : (o : Option SessionActivityState) → valid_scalar (activity_scalar o) ≡ true
unfolding valid_scalar sized
scalar-valid none = refl
scalar-valid (some launching) = refl
scalar-valid (some active_navigation) = refl
scalar-valid (some interactive_idle) = refl
scalar-valid (some soak_idle) = refl

activity-valid :
    (a b : Option SessionActivityState) → valid_event_data (activity_details a b) ≡ true
unfolding valid_event_data sized
activity-valid a b = rw (scalar-valid a, scalar-valid b)

metrics_details-valid : (m : SessionMetrics) → valid_event_data (metrics_details m) ≡ true
unfolding valid_event_data valid_scalar sized
metrics_details-valid m = refl

-- No wait for the lock runs out of time.
abbrev pub Unhindered : ReportRun → Type 0
Unhindered run =
    (run.upsert.lock ≡ ok tt)
    × (run.status_event.lock ≡ ok tt)
    × (run.exit_event.lock ≡ ok tt)
    × (run.activity_event.lock ≡ ok tt)
    × (run.metrics_event.lock ≡ ok tt)
    × (run.logs_event.lock ≡ ok tt)

module _ (platform : Platform) where
  open platform use {formats}

  -- A step that returns on a stored state, and leaves a stored one with the same sessions.
  pub record Quiet (step : Handler (Unit {0})) : Type 0 where
    pub on :
        (s : StateFile)
        → Valid formats s
        → (t : StateFile) × (step (stored s) ≡ (ok tt, stored t))
          × Valid formats t
          × (t.sessions ≡ s.sessions)

  pub record_event-Quiet :
      (call : Call) (e : SessionEventRecord)
      → call.lock ≡ ok tt
      → valid_event e ≡ true
      → Quiet (record_event platform call e)
  unfolding append_session_event parse_event put_event cleanup_expired_reservations
  record_event-Quiet call e l ve = record {
    on = λ s v.
        let tidy = cleanup_expired_reservations call.now s in
        let c = Valid-Closed platform in
        let returns : append_session_event platform e call.now s ≡ (ok e, put_event e tidy) =
          rw ve in
        (
          put_event e tidy,
          ap (λ z. go_on z (λ _ st. (ok tt, st)))
              (write-stored formats call.lock (append_session_event platform e call.now) s
                (put_event e tidy) l v returns),
          c.event e tidy ve (c.cleanup call.now s v),
          refl,
        );
  }

  pure-Quiet : Quiet (pure tt)
  pure-Quiet = record { on = λ s v. (s, refl, v, refl) }

  when-Quiet : (b : Bool) (step : Handler (Unit {0})) → Quiet step → Quiet (when b step)
  when-Quiet true step q = q
  when-Quiet false step q = pure-Quiet

  -- A handler that replies 202 on a stored state, and leaves a stored one with the same sessions.
  pub record Sends (m : Handler Reply) : Type 0 where
    pub on :
        (s : StateFile)
        → Valid formats s
        → (t : StateFile) × (m (stored s) ≡ (ok (send 202), stored t)) × (t.sessions ≡ s.sessions)

  then-Sends :
      (step : Handler (Unit {0})) (m : Handler Reply) → Quiet step → Sends m → Sends (step >> m)
  then-Sends step m q k = record {
    on = λ s v.
        let (u, e, w, r) = q.on s v in
        let (t, e', r') = k.on u w in (t, ap (λ z. go_on z (λ _. m)) e ∙ e', r' ∙ r);
  }

  module _ (run : ReportRun) (body : SessionUpdate) (id : String) where
    metrics_step-Quiet :
        (o : Option SessionMetrics) (v : SessionRecord)
        → run.metrics_event.lock ≡ ok tt
        → Quiet (metrics_step platform run body id o v)
    unfolding metrics_step valid_event
    metrics_step-Quiet none x l = pure-Quiet
    metrics_step-Quiet (some m) x l =
        record_event-Quiet run.metrics_event (metrics_event platform run body id x m) l
          (metrics_details-valid m)

    logs_step-Quiet :
        (o : Option SessionLogSnapshot) (v : SessionRecord)
        → run.logs_event.lock ≡ ok tt
        → Quiet (logs_step platform run body id o v)
    unfolding logs_step valid_event valid_event_data valid_scalar sized
    logs_step-Quiet none x l = pure-Quiet
    logs_step-Quiet (some m) x l =
        record_event-Quiet run.logs_event (logs_event platform run body id x m) l refl

    status-Quiet :
        (b : Bool) (x : SessionRecord)
        → run.status_event.lock ≡ ok tt
        → Quiet
            (when b (record_event platform run.status_event (status_event platform run body id x)))
    unfolding valid_event status_event
    status-Quiet b x l = when-Quiet b _ (
        record_event-Quiet run.status_event (status_event platform run body id x) l
          (status-valid x.status (next_status body x)))

    exit-Quiet :
        (b : Bool) (x : SessionRecord)
        → run.exit_event.lock ≡ ok tt
        → Quiet (when b (record_event platform run.exit_event (exit_event platform run body id x)))
    unfolding valid_event exit_event
    exit-Quiet b x l =
        when-Quiet b _
          (record_event-Quiet run.exit_event (exit_event platform run body id x) l refl)

    activity-Quiet :
        (b : Bool) (x : SessionRecord)
        → run.activity_event.lock ≡ ok tt
        → Quiet (
            when b
              (record_event platform run.activity_event (activity_event platform run body id x)))
    unfolding valid_event activity_event
    activity-Quiet b x l = when-Quiet b _ (
        record_event-Quiet run.activity_event (activity_event platform run body id x) l
          (activity-valid (activity_of x.last_known_metrics) (activity_of (next_metrics body x))))

    -- The events, and the reply.
    pub events_lem :
        (v : SessionRecord) → Unhindered run → Sends (report_events platform run body id v)
    unfolding report_events
    events_lem v (l0, l1, l2, l3, l4, l5) =
        let a3 =
          activity_changed (activity_of (next_metrics body v)) (activity_of v.last_known_metrics) in
        let a2 =
          truthy (next_exit_reason body v)
          && not (same_text (next_exit_reason body v) v.exit_reason) in
        let a1 = not (same_status (next_status body v) v.status) in
        then-Sends _ _ (status-Quiet a1 v l1) (
          then-Sends _ _ (exit-Quiet a2 v l2) (
            then-Sends _ _ (activity-Quiet a3 v l3) (
              then-Sends _ _ (metrics_step-Quiet body.last_known_metrics v l4) (
                then-Sends _ _ (logs_step-Quiet body.recent_logs v l5)
                  (record { on = λ s valid. (s, refl, refl) })))))
