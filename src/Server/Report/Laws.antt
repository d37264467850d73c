-- ===== src/Server/Report/Laws.antt =====
-- What a report leaves in the store.
use base_layer.Base.{
  ℕ, Bool, true, false, Option, none, some, String, ◌==◌, ◌≡◌, ◌≢◌, ◌⊎◌, refl, ap, ◌∙◌, arith, ok,
  inl, inr, eq_iff, if◌then◌else◌,
}
use base_layer.Base.Dict.{lookup, insert, lookup-insert}
use base_layer.Types.{SessionStatus, StateFile, SessionRecord, running, terminated}
use base_layer.Types.Schema.{valid_session, parse_session}
use base_layer.Types.Platform.{Platform}
use base_layer.Scheduler.{coalesce}
use base_layer.Store.Effective.{cleanup_expired_reservations}
use base_layer.Store.Reads.{get_session}
use base_layer.Store.Writes.{put_session, upsert_session}
use base_layer.Store.Durability.Validity.{Valid, Valid-Closed}
use base_layer.Store.Stored.{stored, write-stored}
use base_layer.Store.Settled.{reading-Settled, stored-Settled}
use base_layer.Server.Handler.{go_on, send}
use base_layer.Server.Report.{
  SessionUpdate, status_or, ReportRun, reported, next_status, is_terminal_status, report_found,
  report_session, report_events,
}
use base_layer.Server.Report.Events.{Unhindered, events_lem}

end_kept : (a b : Option ℕ) {at : ℕ} → (a ≡ none) ⊎ (b ≡ a) → a ≡ some at → b ≡ some at
end_kept a b (inl e) h = absurd (ground arith)
end_kept a b (inr e) h = e ∙ h

-- What a report says, and what was there where it says nothing.
pub data TakesOver {A : Type 0} (said kept : Option A) : Option A → Type 0 where
  as_said : {a : A} → said ≡ some a → TakesOver said kept (some a)
  as_kept : said ≡ none → TakesOver said kept kept

-- The record that a report leaves: the rest is as it was, a time of ending that is there stays, and a
-- terminal status has one.
pub record Follows (body : SessionUpdate) (v w : SessionRecord) : Type 0 where
  pub elsewhere : w ≡ record v {
    status = w.status;
    ended_at = w.ended_at;
    exit_reason = w.exit_reason;
    recent_logs = w.recent_logs;
    last_known_metrics = w.last_known_metrics;
  }
  pub status : w.status ≡ next_status body v
  pub said_or_kept : TakesOver body.status (some v.status) (some w.status)
  pub exit_reason : TakesOver body.exit_reason v.exit_reason w.exit_reason
  pub recent_logs : TakesOver body.recent_logs v.recent_logs w.recent_logs
  pub metrics : TakesOver body.last_known_metrics v.last_known_metrics w.last_known_metrics
  pub kept_end : (v.ended_at ≡ none) ⊎ (w.ended_at ≡ v.ended_at)
  pub ends : (is_terminal_status w.status ≡ false) ⊎ (w.ended_at ≢ none)

kept_or_new :
    (b : Bool) (o : Option ℕ) (now : ℕ)
    → (o ≡ none) ⊎ ((if b then coalesce o (some now) else o) ≡ o)
kept_or_new b none now = inl refl
kept_or_new true (some at) now = inr refl
kept_or_new false (some at) now = inr refl

ended_if :
    (b : Bool) (o : Option ℕ) (now : ℕ)
    → (b ≡ false) ⊎ ((if b then coalesce o (some now) else o) ≢ none)
ended_if true none now = inr (λ e. ground arith)
ended_if true (some at) now = inr (λ e. ground arith)
ended_if false o now = inl refl

said : {A : Type 0} (new old : Option A) → TakesOver new old (coalesce new old)
said none old = TakesOver.as_kept refl
said (some a) old = TakesOver.as_said refl

said_status :
    (new : Option SessionStatus) (old : SessionStatus)
    → TakesOver new (some old) (some (status_or new old))
said_status none old = TakesOver.as_kept refl
said_status (some a) old = TakesOver.as_said refl

reported-Follows :
    (body : SessionUpdate) (v : SessionRecord) (now : ℕ) → Follows body v (reported body v now)
unfolding reported
reported-Follows body v now = record {
  elsewhere = refl;
  status = refl;
  said_or_kept = said_status body.status v.status;
  exit_reason = said body.exit_reason v.exit_reason;
  recent_logs = said body.recent_logs v.recent_logs;
  metrics = said body.last_known_metrics v.last_known_metrics;
  kept_end = kept_or_new (is_terminal_status (next_status body v)) v.ended_at now;
  ends = ended_if (is_terminal_status (next_status body v)) v.ended_at now;
}

module _ (platform : Platform) where
  open platform use {formats}

  module _ (run : ReportRun) (body : SessionUpdate) (id : String) where
    found_returns :
        (v : SessionRecord) (s : StateFile)
        → v.session_id ≡ id
        → Unhindered run
        → valid_session formats (reported body v run.now) ≡ true
        → Valid formats s
        → (t : StateFile) × (report_found platform run body id (some v) (stored s)
            ≡ (ok (send 202), stored t))
          × (t.sessions ≡ insert id (reported body v run.now) s.sessions)
    unfolding report_found upsert_session parse_session put_session cleanup_expired_reservations
        reported
    found_returns v s own free ok_session valid =
        let w = reported body v run.now in
        let tidy = cleanup_expired_reservations run.upsert.now s in
        let c = Valid-Closed platform in
        let returns : upsert_session platform w run.upsert.now s ≡ (ok w, put_session w tidy) =
          rw ok_session in
        let e0 =
          write-stored formats run.upsert.lock (upsert_session platform w run.upsert.now) s
            (put_session w tidy) free.0 valid returns in
        let (t, e, r) =
          (events_lem platform run body id v free).on (put_session w tidy)
            (c.session w tidy ok_session (c.cleanup run.upsert.now s valid)) in
        (
          t,
          ap (λ z. go_on z (λ updated. report_events platform run body id v)) e0 ∙ e,
          r ∙ ap (λ k. insert k w s.sessions) own,
        )

    -- A report on a session that the store has, where no wait for the lock runs out and the schema accepts
    -- the new record, is answered with 202. It changes the record of that session alone, and of it only
    -- the status, which is the reported one if there is one, the time of ending, the exit reason, the
    -- logs and the metrics. A time of ending that was there stays, and a terminal status has one.
    pub report_session-Follows :
        (s : StateFile) (v : SessionRecord)
        → Valid formats s
        → lookup id s.sessions ≡ some v
        → v.session_id ≡ id
        → Unhindered run
        → valid_session formats (reported body v run.now) ≡ true
        → (w : SessionRecord) × (t : StateFile) × (report_session platform run body id (stored s)
            ≡ (ok (send 202), stored t))
          × (t.sessions ≡ insert id w s.sessions)
          × Follows body v w
    unfolding report_session get_session
    report_session-Follows s v valid there own free ok_session =
        let (t, e, r) = found_returns v s own free ok_session valid in
        (
          reported body v run.now,
          t,
          ap (λ z. go_on z (report_found platform run body id))
                (reading-Settled formats (λ z. lookup id z.sessions) (stored s)
                  (stored-Settled formats s valid))
              ∙ ap (λ o. report_found platform run body id o (stored s)) there
              ∙ e,
          r,
          reported-Follows body v run.now,
        )

    -- A report that says `running` and comes after the session has been terminated is answered with 202
    -- and makes the session a running one again, which has the time of its ending still.
    pub report_session-revives :
        (s : StateFile) (v : SessionRecord) {at : ℕ}
        → Valid formats s
        → lookup id s.sessions ≡ some v
        → v.session_id ≡ id
        → v.status ≡ terminated
        → v.ended_at ≡ some at
        → body.status ≡ some running
        → Unhindered run
        → valid_session formats (reported body v run.now) ≡ true
        → (w : SessionRecord) × (t : StateFile) × (report_session platform run body id (stored s)
            ≡ (ok (send 202), stored t))
          × (lookup id t.sessions ≡ some w)
          × (w.status ≡ running)
          × (w.ended_at ≡ some at)
    report_session-revives s v valid there own dead ended says free ok_session =
        let (w, t, e, r, f) = report_session-Follows s v valid there own free ok_session in
        let same : (id == id) ≡ true = (eq_iff id id).1 refl in
        (
          w,
          t,
          e,
          ap (lookup id) r ∙ lookup-insert id id w s.sessions ∙ rw same,
          f.status ∙ ap (λ o. status_or o v.status) says,
          end_kept v.ended_at w.ended_at f.kept_end ended,
        )
