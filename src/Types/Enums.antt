-- ===== src/Types/Enums.antt =====
-- The enumerations of src/shared/types.ts, and the tests `===` and `!==` on them.
use base_layer.Base.{ℕ, Bool, nat_eq}

pub data BrowserKind : Type 0 where
  chromium : BrowserKind

pub data SessionStatus : Type 0 where
  pending running terminating terminated failed : SessionStatus

pub data AgentMode : Type 0 where
  baseline managed firecracker : AgentMode

pub data RuntimeKind : Type 0 where
  container microvm : RuntimeKind

pub data SessionActivityState : Type 0 where
  launching active_navigation interactive_idle soak_idle : SessionActivityState

pub data HostStatus : Type 0 where
  healthy degraded no_admit draining : HostStatus

pub data SessionEventType : Type 0 where
  session_created session_status_updated session_activity_updated : SessionEventType
  session_exit_reason_set session_metrics_updated : SessionEventType

pub data EventSource : Type 0 where
  control_plane node_agent runtime benchmark : EventSource

pub data LogSource : Type 0 where
  from_control_plane from_container from_microvm : LogSource

pub data Method : Type 0 where
  post delete : Method

abbrev status_index : SessionStatus → ℕ
status_index pending = 0
status_index running = 1
status_index terminating = 2
status_index terminated = 3
status_index failed = 4

abbrev mode_index : AgentMode → ℕ
mode_index baseline = 0
mode_index managed = 1
mode_index firecracker = 2

abbrev host_status_index : HostStatus → ℕ
host_status_index healthy = 0
host_status_index degraded = 1
host_status_index no_admit = 2
host_status_index draining = 3

abbrev activity_index : SessionActivityState → ℕ
activity_index launching = 0
activity_index active_navigation = 1
activity_index interactive_idle = 2
activity_index soak_idle = 3

abbrev pub same_status : SessionStatus → SessionStatus → Bool
same_status a b = nat_eq (status_index a) (status_index b)

abbrev pub same_mode : AgentMode → AgentMode → Bool
same_mode a b = nat_eq (mode_index a) (mode_index b)

abbrev pub same_host_status : HostStatus → HostStatus → Bool
same_host_status a b = nat_eq (host_status_index a) (host_status_index b)

abbrev pub same_activity : SessionActivityState → SessionActivityState → Bool
same_activity a b = nat_eq (activity_index a) (activity_index b)
