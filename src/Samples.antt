-- ===== src/Samples.antt =====
-- Concrete hosts, sessions, requests and keys, for the tests of the other modules.
use Prim.Native.String.{compare}
use text.Mathlib.Text.{is_lt}
use base_layer.Base.{
  ℕ, ◌≡◌, refl, ◌*◌, ◌/◌, true, false, not, Option, none, some, List, [], ◌∷◌, String, ◌==◌, nat_eq,
  if◌then◌else◌,
}
use base_layer.Base.Int.{pos, negsuc}
use base_layer.Types.{
  HostCapacity, HostMetrics, HostRecord, WarmPool, SessionRecord, SessionEventRecord, StateFile,
  CreateSessionRequest, RuntimeLaunchResult, chromium, firecracker, healthy, running, terminated,
  microvm, node_agent, session_metrics_updated, SessionStatus,
}
use base_layer.Types.Platform.{Platform}
use base_layer.Store.File.{ControlPlaneStore, StoreFile}
use base_layer.Store.Durability.Validity.{Valid, valid_state-Valid}

abbrev pub platform : Platform
platform = record {
  locale_compare = λ a b. if a == b then pos 0 else if is_lt (compare a b) then negsuc 0 else pos 1;
  percent = λ part whole. if nat_eq whole 0 then 0 else part * 100 / whole;
  formats = record { is_url = λ s. not (s == ""); is_uuid = λ s. not (s == "") };
}

abbrev pub capacity : HostCapacity
capacity = record {
  max_sessions = 2;
  max_renderer_count = 4;
  session_memory_limit_mb = 1024;
  session_shm_limit_mb = 256;
  session_renderer_limit = 4;
  min_free_memory_mb = 512;
  max_shm_utilization_pct = 90;
  max_crash_count_5m = 3;
  max_microvm_count = 4;
  microvm_memory_mb = 1024;
  microvm_vcpu_count = 2;
  max_concurrent_active_navigation = 0;
}

abbrev pub metrics : ℕ → List WarmPool → HostMetrics
metrics active pools = record {
  total_memory_mb = 16384;
  free_memory_mb = 8192;
  used_memory_mb = 8192;
  memory_pressure_pct = 50;
  shm_capacity_mb = 1024;
  shm_used_mb = 100;
  active_sessions = active;
  active_renderer_count = active;
  tracked_memory_mb = 0;
  tracked_shm_used_mb = 0;
  crash_count_5m = 0;
  active_microvm_count = active;
  reserved_microvm_memory_mb = 0;
  avg_restore_ms = 100;
  cpu_utilization_pct = 10;
  load_avg_1m = 1;
  load_avg_5m = 1;
  high_priority_session_count = 0;
  active_navigation_session_count = 0;
  cold_admit_remaining = 4;
  warm_pools = pools;
}

abbrev pub host : String → String → ℕ → List WarmPool → HostRecord
host id region active pools = record {
  host_id = id;
  name = id;
  api_url = "http://host";
  mode = firecracker;
  region = some region;
  instance_type = none;
  labels = none;
  supported_runtime_profiles = some ("chrome" ∷ []);
  allowlisted = true;
  enabled = true;
  status = healthy;
  capacity = capacity;
  metrics = metrics active pools;
  registered_at = 1;
  reported_at = 1;
}

abbrev pub warm_pool : List WarmPool
warm_pool =
    record { runtime_profile = "chrome"; ready_count = 1; target_count = 2; refill_in_flight = 0 }
    ∷ []

-- One with a warm runtime in eu, one without in us, and one in us that is full.
abbrev pub eu : HostRecord
eu = host "h1" "eu" 0 warm_pool

abbrev pub us : HostRecord
us = host "h2" "us" 1 []

abbrev pub full : HostRecord
full = host "h3" "us" 2 []

abbrev pub session : String → String → SessionStatus → Option ℕ → SessionRecord
session id host_id status ended = record {
  session_id = id;
  browser = chromium;
  status = status;
  host_id = host_id;
  connect_url = "ws://s";
  cdp_url = "ws://s";
  playwright_url = "ws://s";
  puppeteer_url = "ws://s";
  debug_http_url = "http://s";
  keep_alive = false;
  timeout_sec = 60;
  idle_timeout_sec = 60;
  proxy_profile = none;
  runtime_profile = some "chrome";
  region = some "eu";
  provider = some (record {
    upstream_provider = none;
    provider_session_id = none;
    tenant_id = some "acme";
    project_id = none;
    workflow_id = none;
    workload_class = none;
  });
  session_tags = none;
  created_at = 10;
  expires_at = 70000;
  ended_at = ended;
  container_id = "c";
  container_name = "c";
  runtime_kind = microvm;
  launch_timings = none;
  control_plane_timings = none;
  exit_reason = none;
  recent_logs = none;
  last_known_metrics = none;
}

abbrev pub live : SessionRecord
live = session "s1" "h1" running none

abbrev pub early_end : SessionRecord
early_end = session "s2" "h1" terminated (some 20)

abbrev pub late_end : SessionRecord
late_end = session "s3" "h2" terminated (some 30)

abbrev pub event : String → SessionEventRecord
event id = record {
  event_id = "e1";
  session_id = id;
  ts = 5;
  source = node_agent;
  type = session_metrics_updated;
  status = none;
  activity_state = none;
  exit_reason = none;
  details = none;
}

abbrev pub state : StateFile
state = record {
  sessions = ("s1", live) ∷ ("s2", early_end) ∷ ("s3", late_end) ∷ [];
  hosts = ("h1", eu) ∷ ("h2", us) ∷ ("h3", full) ∷ [];
  session_events = [];
  idempotency_records = [];
  host_create_reservations = [];
  host_delete_reservations = [];
}

abbrev pub store : ControlPlaneStore
store = record { file = StoreFile.content state; state = state; loaded = true }

abbrev pub create_request : CreateSessionRequest
create_request = record {
  browser = chromium;
  keep_alive = false;
  timeout_sec = 60;
  idle_timeout_sec = 60;
  proxy_profile = none;
  runtime_profile = some "chrome";
  region = some "eu";
  provider = none;
  session_tags = none;
}

abbrev pub launch : RuntimeLaunchResult
launch = record {
  session_id = "s9";
  container_id = "c9";
  container_name = "c9";
  runtime_kind = microvm;
  connect_url = "ws://s";
  cdp_url = "ws://s";
  playwright_url = "ws://s";
  puppeteer_url = "ws://s";
  debug_http_url = "http://s";
  started_at = 100;
  launch_timings = none;
}

-- The state passes the schema.
pub state-Valid : Valid platform.formats state
unfolding base_layer.Store.File.valid_state base_layer.Types.Schema.valid_session
    base_layer.Types.Schema.valid_metadata base_layer.Base.sized base_layer.Types.Schema.valid_host
    base_layer.Types.Schema.valid_capacity base_layer.Types.Schema.valid_metrics
state-Valid = valid_state-Valid platform.formats state refl
