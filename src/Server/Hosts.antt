-- ===== src/Server/Hosts.antt =====
-- The routes by which a node agent registers its host and reports on it.
pub mod Laws
mod Tests
use base_layer.Base.{
  ℕ, Bool, true, false, ◌&&◌, not, Option, none, some, [], String, if◌then◌else◌, Result, all, leb,
  length, sized, ◌==◌,
}
use base_layer.Types.{HostRegistration, HostHeartbeat, HostRecord, HostMetrics, healthy}
use base_layer.Types.Schema.{optional, valid_labels, valid_capacity, valid_metrics, parse_host}
use base_layer.Types.Platform.{Platform}
use base_layer.Allowlist.{ProviderHostAllowlist, is_allowed, enrich_registered_host}
use base_layer.Store.Monad.{with_write_lock}
use base_layer.Store.Reads.{get_host}
use base_layer.Store.Writes.{upsert_host}
use base_layer.Server.Handler.{Handler, ◌>>=◌, ◌>>◌, pure, lift, Reply, send}

unfoldable pub no_metrics : HostMetrics
no_metrics = record {
  total_memory_mb = 0;
  free_memory_mb = 0;
  used_memory_mb = 0;
  memory_pressure_pct = 0;
  shm_capacity_mb = 0;
  shm_used_mb = 0;
  active_sessions = 0;
  active_renderer_count = 0;
  tracked_memory_mb = 0;
  tracked_shm_used_mb = 0;
  crash_count_5m = 0;
  active_microvm_count = 0;
  reserved_microvm_memory_mb = 0;
  avg_restore_ms = 0;
  cpu_utilization_pct = 0;
  load_avg_1m = 0;
  load_avg_5m = 0;
  high_priority_session_count = 0;
  active_navigation_session_count = 0;
  cold_admit_remaining = 0;
  warm_pools = [];
}

-- The record of a host that has registered: `allowlisted` and `enabled` are the schema's defaults,
-- which the allowlist replaces.
unfoldable pub registered_record : HostRegistration → ℕ → HostRecord
unfolding no_metrics
registered_record r now = record {
  host_id = r.host_id;
  name = r.name;
  api_url = r.api_url;
  mode = r.mode;
  region = r.region;
  instance_type = r.instance_type;
  labels = r.labels;
  supported_runtime_profiles = r.supported_runtime_profiles;
  allowlisted = false;
  enabled = true;
  status = healthy;
  capacity = r.capacity;
  metrics = no_metrics;
  registered_at = now;
  reported_at = now;
}

unfoldable pub heard_from : HostHeartbeat → HostRecord → HostRecord
heard_from beat existing = record existing {
  mode = beat.mode;
  status = beat.status;
  capacity = beat.capacity;
  metrics = beat.metrics;
  reported_at = beat.reported_at;
}

module _ (platform : Platform) where
  open platform use {formats}

  -- `hostRegistrationSchema.safeParse(…).success`
  unfoldable pub valid_registration : HostRegistration → Bool
  valid_registration r =
      not (r.host_id == "")
      && not (r.name == "")
      && formats.is_url r.api_url
      && optional (sized 1 64) r.region
      && optional (sized 1 128) r.instance_type
      && optional valid_labels r.labels
      && optional (λ ps. all (sized 1 128) ps && leb (length ps) 64) r.supported_runtime_profiles
      && valid_capacity r.capacity

  -- `hostHeartbeatSchema.safeParse(…).success`
  unfoldable pub valid_heartbeat : HostHeartbeat → Bool
  valid_heartbeat beat = valid_capacity beat.capacity && valid_metrics beat.metrics

  module _ (lock : Result (Unit {0})) (now : ℕ) where
    -- `fastify.post("/internal/hosts/register", …)`
    unfoldable pub register_host : ProviderHostAllowlist → HostRegistration → Handler Reply
    unfolding valid_registration registered_record
    register_host allowlist registration =
        if not (valid_registration registration)
        then pure (send 400)
        else if not (is_allowed allowlist registration.host_id)
        then pure (send 403)
        else do
          parsed ← lift (parse_host formats (registered_record registration now))
          stored ←
              with_write_lock formats lock
                (upsert_host platform (enrich_registered_host allowlist parsed))
          pure (send 201)

    abbrev pub heartbeat_found : Option HostRecord → HostHeartbeat → Handler Reply
    heartbeat_found none beat = pure (send 404)
    heartbeat_found (some existing) beat = do
      stored ← with_write_lock formats lock (upsert_host platform (heard_from beat existing))
      pure (send 202)

    -- `fastify.post("/internal/hosts/:hostId/heartbeat", …)`
    unfoldable pub heartbeat : String → HostHeartbeat → Handler Reply
    unfolding valid_heartbeat heard_from
    heartbeat id beat =
        if not (valid_heartbeat beat)
        then pure (send 400)
        else do existing ← get_host platform now id; heartbeat_found existing beat
