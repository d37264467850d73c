-- ===== src/Types/Host.antt =====
-- Hosts: capacity, metrics, the stored record and the allowlist's entries.
use base_layer.Base.{ℕ, Bool, Option, String, List}
use base_layer.Types.Enums.{AgentMode, HostStatus}
use base_layer.Types.Provider.{HostLabels}

pub record HostCapacity : Type 0 where
  pub max_sessions : ℕ
  pub max_renderer_count : ℕ
  pub session_memory_limit_mb : ℕ
  pub session_shm_limit_mb : ℕ
  pub session_renderer_limit : ℕ
  pub min_free_memory_mb : ℕ
  pub max_shm_utilization_pct : ℕ
  pub max_crash_count_5m : ℕ
  pub max_microvm_count : ℕ
  pub microvm_memory_mb : ℕ
  pub microvm_vcpu_count : ℕ
  pub max_concurrent_active_navigation : ℕ

pub record WarmPool : Type 0 where
  pub runtime_profile : String
  pub ready_count : ℕ
  pub target_count : ℕ
  pub refill_in_flight : ℕ

pub record HostMetrics : Type 0 where
  pub total_memory_mb : ℕ
  pub free_memory_mb : ℕ
  pub used_memory_mb : ℕ
  pub memory_pressure_pct : ℕ
  pub shm_capacity_mb : ℕ
  pub shm_used_mb : ℕ
  pub active_sessions : ℕ
  pub active_renderer_count : ℕ
  pub tracked_memory_mb : ℕ
  pub tracked_shm_used_mb : ℕ
  pub crash_count_5m : ℕ
  pub active_microvm_count : ℕ
  pub reserved_microvm_memory_mb : ℕ
  pub avg_restore_ms : ℕ
  pub cpu_utilization_pct : ℕ
  pub load_avg_1m : ℕ
  pub load_avg_5m : ℕ
  pub high_priority_session_count : ℕ
  pub active_navigation_session_count : ℕ
  pub cold_admit_remaining : ℕ
  pub warm_pools : List WarmPool

pub record HostRecord : Type 0 where
  pub host_id : String
  pub name : String
  pub api_url : String
  pub mode : AgentMode
  pub region : Option String
  pub instance_type : Option String
  pub labels : Option HostLabels
  pub supported_runtime_profiles : Option (List String)
  pub allowlisted : Bool
  pub enabled : Bool
  pub status : HostStatus
  pub capacity : HostCapacity
  pub metrics : HostMetrics
  pub registered_at : ℕ
  pub reported_at : ℕ

pub record HostRegistration : Type 0 where
  pub host_id : String
  pub name : String
  pub api_url : String
  pub mode : AgentMode
  pub region : Option String
  pub instance_type : Option String
  pub labels : Option HostLabels
  pub supported_runtime_profiles : Option (List String)
  pub capacity : HostCapacity

pub record HostHeartbeat : Type 0 where
  pub host_id : String
  pub mode : AgentMode
  pub status : HostStatus
  pub capacity : HostCapacity
  pub metrics : HostMetrics
  pub reported_at : ℕ

pub record ProviderHostConfigEntry : Type 0 where
  pub host_id : String
  pub api_url : Option String
  pub mode : Option AgentMode
  pub region : Option String
  pub instance_type : Option String
  pub enabled : Bool
  pub labels : Option HostLabels
  pub supported_runtime_profiles : Option (List String)
