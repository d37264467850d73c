-- ===== src/Server/Hosts/Tests.antt =====
-- A registration and a heartbeat of the sample hosts.
use base_layer.Base.{
  ℕ, Bool, true, false, Option, none, some, List, [], ◌∷◌, String, ◌≡◌, ◌⊎◌, arith, refl, inl, inr,
  ok, Result,
}
use base_layer.Base.Dict.{lookup, insert}
use base_layer.Types.{
  StateFile, HostRecord, HostHeartbeat, HostRegistration, ProviderHostConfigEntry, firecracker,
  no_admit, healthy,
}
use base_layer.Samples.{platform, state, state-Valid, eu, capacity, metrics}
use base_layer.Allowlist.{new, enrich_registered_host}
use base_layer.Store.File.{ControlPlaneStore}
use base_layer.Store.Stored.{stored}
use base_layer.Server.Handler.{send}
use base_layer.Server.Hosts.{registered_record, register_host, heartbeat}
use base_layer.Server.Hosts.Laws.{Registers, heartbeat-stored, register_host-configured}

abbrev beat : HostHeartbeat
beat = record {
  host_id = "h1";
  mode = firecracker;
  status = no_admit;
  capacity = capacity;
  metrics = metrics 2 [];
  reported_at = 50;
}

heartbeat-stored_example : heartbeat platform (ok tt) 40 "h1" beat (stored state) ≡ (
  ok (send 202),
  stored (record state {
    hosts =
        insert "h1"
          (record eu {
            mode = firecracker;
            status = no_admit;
            capacity = capacity;
            metrics = metrics 2 [];
            reported_at = 50;
          })
          state.hosts;
  }),
)
unfolding lookup base_layer.Server.Hosts.valid_heartbeat base_layer.Types.Schema.valid_capacity
    base_layer.Types.Schema.valid_metrics
heartbeat-stored_example =
    heartbeat-stored platform 40 (ok tt) "h1" beat state eu state-Valid
      (refl, refl, (refl, refl, (refl, refl, tt))) refl refl refl

abbrev entry : ProviderHostConfigEntry
entry = record {
  host_id = "h9";
  api_url = none;
  mode = none;
  region = none;
  instance_type = none;
  enabled = true;
  labels = none;
  supported_runtime_profiles = none;
}

abbrev registration : HostRegistration
registration = record {
  host_id = "h9";
  name = "h9";
  api_url = "http://host";
  mode = firecracker;
  region = none;
  instance_type = none;
  labels = none;
  supported_runtime_profiles = none;
  capacity = capacity;
}

abbrev after : ControlPlaneStore
after = stored (record state {
  hosts =
      insert "h9"
        (enrich_registered_host (new (entry ∷ []) false) (registered_record registration 40))
        state.hosts;
})

register_host-configured_example :
    (after ≡ stored state) ⊎ Registers platform (entry ∷ []) "h9" state after
unfolding register_host base_layer.Types.Schema.valid_capacity base_layer.Allowlist.is_allowed new
    insert lookup base_layer.Types.Schema.parse_host base_layer.Types.Schema.valid_host
    base_layer.Types.Schema.valid_metrics base_layer.Store.Monad.with_write_lock
    base_layer.Store.File.refresh_from_disk base_layer.Store.Writes.upsert_host
    enrich_registered_host base_layer.Store.File.persist base_layer.Types.Schema.valid_session
    base_layer.Types.Schema.valid_metadata base_layer.Base.sized base_layer.Allowlist.enrich
    base_layer.Allowlist.get base_layer.Server.Hosts.no_metrics registered_record
    base_layer.Server.Hosts.valid_registration base_layer.Store.File.empty_state
    base_layer.Store.File.load base_layer.Store.File.refresh_file base_layer.Store.File.valid_state
    base_layer.Store.Monad.finish base_layer.Store.Writes.put_host
    base_layer.Types.Schema.valid_labels
register_host-configured_example =
    register_host-configured platform 40 (ok tt) (entry ∷ []) false registration state
      {reply = send 201} {st = after} state-Valid (inr (λ e. ground arith)) refl
