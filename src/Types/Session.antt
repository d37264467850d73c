-- ===== src/Types/Session.antt =====
-- Sessions, their timings and their events.
use base_layer.Base.{ℕ, Bool, Option, String, List}
use base_layer.Base.Int.{ℤ}
use base_layer.Types.Enums.{
  BrowserKind, SessionStatus, RuntimeKind, SessionActivityState, LogSource, EventSource,
  SessionEventType,
}
use base_layer.Types.Provider.{ProviderSessionMetadata, ProviderSessionTags, ProviderEventData}

pub record SessionLogSnapshot : Type 0 where
  pub source : LogSource
  pub captured_at : ℕ
  pub lines : List String

pub record CreateSessionRequest : Type 0 where
  pub browser : BrowserKind
  pub keep_alive : Bool
  pub timeout_sec : ℕ
  pub idle_timeout_sec : ℕ
  pub proxy_profile : Option String
  pub runtime_profile : Option String
  pub region : Option String
  pub provider : Option ProviderSessionMetadata
  pub session_tags : Option ProviderSessionTags

-- Fractions of a millisecond, which `performance.now()` has, are left out.
pub record LaunchTiming : Type 0 where
  pub total_ms : ℕ
  pub network_setup_ms : Option ℕ
  pub network_claim_ms : Option ℕ
  pub network_validate_ms : Option ℕ
  pub network_prepare_miss_ms : Option ℕ
  pub helper_cleanup_ms : Option ℕ
  pub process_spawn_ms : Option ℕ
  pub configure_ms : Option ℕ
  pub relay_ready_ms : Option ℕ
  pub cdp_ready_ms : Option ℕ
  pub cdp_socket_ready_ms : Option ℕ
  pub cdp_version_ready_ms : Option ℕ
  pub cdp_target_list_ready_ms : Option ℕ
  pub cdp_stable_ready_ms : Option ℕ

pub record ControlPlaneCreateTiming : Type 0 where
  pub total_ms : ℕ
  pub request_validation_ms : Option ℕ
  pub scheduler_ms : Option ℕ
  pub reservation_ms : Option ℕ
  pub node_agent_create_ms : Option ℕ
  pub persist_ms : Option ℕ
  pub response_build_ms : Option ℕ
  pub warm_expected : Option Bool
  pub warm_actual : Option Bool
  pub warm_mismatch : Option Bool

pub record ControlPlaneDeleteTiming : Type 0 where
  pub total_ms : ℕ
  pub remote_delete_ms : Option ℕ
  pub persist_ms : Option ℕ
  pub is_async : Bool

pub record ControlPlaneTiming : Type 0 where
  pub create : Option ControlPlaneCreateTiming
  pub deletion : Option ControlPlaneDeleteTiming

-- `lastKnownMetrics`
pub record SessionMetrics : Type 0 where
  pub memory_mb : ℕ
  pub cpu_pct : ℕ
  pub renderer_count : ℕ
  pub shm_used_mb : ℕ
  pub memory_limit_mb : ℕ
  pub shm_limit_mb : ℕ
  pub activity_state : SessionActivityState
  pub scheduler_weight : ℤ

pub record RuntimeLaunchResult : Type 0 where
  pub session_id : String
  pub container_id : String
  pub container_name : String
  pub runtime_kind : RuntimeKind
  pub connect_url : String
  pub cdp_url : String
  pub playwright_url : String
  pub puppeteer_url : String
  pub debug_http_url : String
  pub started_at : ℕ
  pub launch_timings : Option LaunchTiming

pub record SessionRecord : Type 0 where
  pub session_id : String
  pub browser : BrowserKind
  pub status : SessionStatus
  pub host_id : String
  pub connect_url : String
  pub cdp_url : String
  pub playwright_url : String
  pub puppeteer_url : String
  pub debug_http_url : String
  pub keep_alive : Bool
  pub timeout_sec : ℕ
  pub idle_timeout_sec : ℕ
  pub proxy_profile : Option String
  pub runtime_profile : Option String
  pub region : Option String
  pub provider : Option ProviderSessionMetadata
  pub session_tags : Option ProviderSessionTags
  pub created_at : ℕ
  pub expires_at : ℕ
  pub ended_at : Option ℕ
  pub container_id : String
  pub container_name : String
  pub runtime_kind : RuntimeKind
  pub launch_timings : Option LaunchTiming
  pub control_plane_timings : Option ControlPlaneTiming
  pub exit_reason : Option String
  pub recent_logs : Option SessionLogSnapshot
  pub last_known_metrics : Option SessionMetrics

pub record SessionEventRecord : Type 0 where
  pub event_id : String
  pub session_id : String
  pub ts : ℕ
  pub source : EventSource
  pub type : SessionEventType
  pub status : Option SessionStatus
  pub activity_state : Option SessionActivityState
  pub exit_reason : Option String
  pub details : Option ProviderEventData
