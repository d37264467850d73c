-- ===== src/Server/Activity/Tests.antt =====
-- An update that the node agent accepts, and one that it refuses.
use base_layer.Base.{
  ℕ, true, Option, none, some, [], String, ◌≡◌, ◌≢◌, ◌⊎◌, refl, Result, ok, err, remote_error,
}
use base_layer.Base.Dict.{lookup}
use base_layer.Types.{StateFile, SessionRecord, HostRecord, active_navigation}
use base_layer.Samples.{platform, state, store, state-Valid}
use base_layer.Partner.{PartnerAuthContext, can_partner_access_session}
use base_layer.Store.Stored.{stored}
use base_layer.Server.Handler.{send}
use base_layer.Server.Activity.{ActivityRun, update_v1_activity}
use base_layer.Server.Activity.Laws.{update_v1_activity-answered}

abbrev acme : PartnerAuthContext
acme = record {
  key_id = "k1";
  name = none;
  tenant_id = some "acme";
  project_id = none;
  upstream_provider = none;
  allowed_regions = none;
  allowed_runtime_profiles = none;
}

abbrev run : Result (Unit {0}) → ActivityRun
run answer = record {
  now = 60;
  remote = λ host. answer;
  others = λ s. s;
  event = record { lock = ok tt; now = 61; event_id = "e7" };
}

accepts :
    (update_v1_activity platform (run (ok tt)) "s1" (some acme) (some active_navigation) store).0
    ≡ ok (send 204)
unfolding update_v1_activity lookup can_partner_access_session base_layer.Store.Reads.get_session
    base_layer.Store.Monad.reading base_layer.Store.File.refresh_from_disk
    base_layer.Types.Schema.valid_session base_layer.Types.Schema.valid_metadata
    base_layer.Base.sized base_layer.Types.Schema.valid_host base_layer.Types.Schema.valid_capacity
    base_layer.Types.Schema.valid_metrics base_layer.Store.Reads.get_host
    base_layer.Store.Effective.effective_hosts base_layer.Base.Sort.sort
    base_layer.Store.Monad.with_write_lock base_layer.Store.Writes.append_session_event
    base_layer.Types.Schema.parse_event base_layer.Types.Schema.valid_event
    base_layer.Types.Schema.valid_event_data base_layer.Types.Schema.valid_scalar
    base_layer.Store.Writes.put_event base_layer.Store.Writes.append_event
    base_layer.Store.Monad.finish base_layer.Server.Activity.update_event
    base_layer.Store.Effective.cleanup_expired_reservations base_layer.Base.Dict.insert
    base_layer.Store.Reads.events_of
accepts = refl

refuses :
    update_v1_activity platform
      (run (err remote_error))
      "s1"
      (some acme)
      (some active_navigation)
      store
    ≡ (ok (send 502), store)
unfolding update_v1_activity base_layer.Store.Reads.get_session base_layer.Store.Monad.reading
    base_layer.Store.File.refresh_from_disk lookup base_layer.Types.Schema.valid_session
    base_layer.Types.Schema.valid_metadata base_layer.Base.sized base_layer.Types.Schema.valid_host
    base_layer.Types.Schema.valid_capacity base_layer.Types.Schema.valid_metrics
    can_partner_access_session base_layer.Store.Reads.get_host
    base_layer.Store.Effective.effective_hosts base_layer.Base.Sort.sort
refuses = refl

update_v1_activity-answered_example :
    (status : ℕ) × (t : StateFile) × (update_v1_activity platform
        (run (ok tt))
        "s1"
        (some acme)
        (some active_navigation)
        (stored state)
      ≡ (ok (send status), stored t))
    × (t.sessions ≡ state.sessions)
    × ((status ≢ 204)
        ⊎ ((session : SessionRecord) × (host : HostRecord) × (lookup "s1" state.sessions
              ≡ some session)
            × (can_partner_access_session session (some acme) ≡ true)
            × (◌≡◌ {A = Result (Unit {0})} (ok tt) (ok tt))))
update_v1_activity-answered_example =
    update_v1_activity-answered platform (run (ok tt)) "s1" state (some acme)
      (some active_navigation) state-Valid refl
