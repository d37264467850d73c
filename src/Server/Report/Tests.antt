-- ===== src/Server/Report/Tests.antt =====
-- Reports on the sample sessions.
use base_layer.Base.{ℕ, Option, none, some, [], ◌∷◌, ◌≡◌, refl, ok}
use base_layer.Base.Dict.{lookup, insert}
use base_layer.Types.{
  StateFile, SessionRecord, SessionStatus, running, terminated, failed, interactive_idle,
}
use base_layer.Base.Int.{pos}
use base_layer.Samples.{platform, state, state-Valid, live, early_end}
use base_layer.Store.Stored.{stored}
use base_layer.Server.Handler.{send}
use base_layer.Server.Report.{SessionUpdate, Call, ReportRun, report_session, reported}
use base_layer.Server.Report.Laws.{Follows, report_session-Follows, report_session-revives}

abbrev call : Call
call = record { lock = ok tt; now = 90; event_id = "e9" }

abbrev run : ReportRun
run = record {
  now = 90;
  upsert = call;
  status_event = call;
  exit_event = call;
  activity_event = call;
  metrics_event = call;
  logs_event = call;
}

abbrev body : SessionStatus → SessionUpdate
body status = record {
  status = some status;
  exit_reason = some "microvm-exited";
  recent_logs = none;
  last_known_metrics = some (record {
    memory_mb = 100;
    cpu_pct = 5;
    renderer_count = 2;
    shm_used_mb = 10;
    memory_limit_mb = 512;
    shm_limit_mb = 128;
    activity_state = interactive_idle;
    scheduler_weight = pos 5;
  });
}

report_session-Follows_example :
    (w : SessionRecord) × (t : StateFile) × (report_session platform run
        (body failed)
        "s1"
        (stored state)
      ≡ (ok (send 202), stored t))
    × (t.sessions ≡ insert "s1" w state.sessions)
    × Follows (body failed) live w
unfolding lookup base_layer.Types.Schema.valid_session reported
    base_layer.Types.Schema.valid_metadata base_layer.Base.sized
    base_layer.Types.Schema.valid_session_metrics
report_session-Follows_example =
    report_session-Follows platform run (body failed) "s1" state live state-Valid refl refl
      (refl, refl, refl, refl, refl, refl) refl

report_session-revives_example :
    (w : SessionRecord) × (t : StateFile) × (report_session platform run
        (body running)
        "s2"
        (stored state)
      ≡ (ok (send 202), stored t))
    × (lookup "s2" t.sessions ≡ some w)
    × (w.status ≡ running)
    × (w.ended_at ≡ some 20)
unfolding lookup base_layer.Types.Schema.valid_session reported
    base_layer.Types.Schema.valid_metadata base_layer.Base.sized
    base_layer.Types.Schema.valid_session_metrics
report_session-revives_example =
    report_session-revives platform run (body running) "s2" state early_end {at = 20} state-Valid
      refl refl refl refl refl (refl, refl, refl, refl, refl, refl) refl

-- The events of a report.
ended : Option ℕ
ended = (reported (body failed) live 90).ended_at

ended_test : ended ≡ some 90
unfolding ended reported
ended_test = refl
