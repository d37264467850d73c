-- ===== src/Agent/Admission.antt =====
-- `NodeAgent`'s admission of sessions: the projections of `#assertAdmission` and the status that a
-- heartbeat reports.
pub mod Laws
mod Tests
use base_layer.Base.{
  ℕ, ◌+◌, ◌-◌, ◌*◌, ◌/◌, min, max, Bool, true, false, ◌&&◌, ◌||◌, not, Option, none, some, List, [],
  ◌∷◌, ◌++◌, ltb, leb, if◌then◌else◌, nat_eq, count, Result, ok, err, Error, message,
}
use base_layer.Types.{
  AgentMode, baseline, firecracker, same_mode, RuntimeKind, microvm, container, SessionMetrics,
  HostStatus, healthy, no_admit,
}
use base_layer.Agent.Footprint.{TrackedSession, Footprint, session_footprint_summary}

-- The part of `agentConfig` that admission reads. `load_threshold` is the product of the number of
-- CPUs and the configured ratio.
pub record AgentConfig : Type 0 where
  pub mode : AgentMode
  pub max_sessions : ℕ
  pub max_renderer_count : ℕ
  pub session_renderer_limit : ℕ
  pub warm_renderer_budget : ℕ
  pub session_memory_reservation_mb : ℕ
  pub session_admission_memory_mb : ℕ
  pub session_admission_shm_mb : ℕ
  pub min_free_memory_mb : ℕ
  pub max_shm_utilization_pct : ℕ
  pub max_crash_count_5m : ℕ
  pub max_microvm_count : ℕ
  pub guest_memory_mb : ℕ
  pub cpu_admission_pct : ℕ
  pub load_threshold : ℕ
  pub max_concurrent_active_navigation : ℕ

-- What `collectHostMetrics` returns.
pub record HostSample : Type 0 where
  pub total_memory_mb : ℕ
  pub free_memory_mb : ℕ
  pub shm_capacity_mb : ℕ
  pub shm_used_mb : ℕ
  pub cpu_utilization_pct : ℕ
  pub load_avg_1m : ℕ

-- What the agent itself counts. `warm_pool` is the managed pool's length, `warm_ready` the number of
-- ready Firecracker sessions.
pub record AgentCounts : Type 0 where
  pub sessions : List TrackedSession
  pub launch_reservations : ℕ
  pub warm_pool : ℕ
  pub warm_ready : ℕ
  pub preparing_warm : ℕ
  pub preparing_sessions : ℕ
  pub active_microvms : ℕ
  pub active_navigation_sessions : ℕ

-- A row of guards: the first that holds throws.
unfoldable pub refuse : List (Bool × Error) → Result (Unit {0})
refuse [] = ok tt
refuse ((test, e) ∷ rest) = let later = refuse rest in if test then err e else later

module _ (config : AgentConfig) where
  unfoldable pub cold_admit_remaining : ℕ → AgentCounts → ℕ
  cold_admit_remaining active_sessions counts =
      if same_mode config.mode firecracker
      then config.max_microvm_count
        - (counts.active_microvms + counts.preparing_warm + counts.launch_reservations)
      else config.max_sessions - (active_sessions + counts.preparing_sessions)

  unfoldable pub projected_microvm_count : AgentCounts → ℕ
  projected_microvm_count counts =
      counts.active_microvms + counts.preparing_warm + max 1 counts.launch_reservations

  abbrev pub allocatable_memory_mb : HostSample → ℕ
  allocatable_memory_mb metrics = metrics.total_memory_mb - config.min_free_memory_mb

  unfoldable pub assert_microvm_admission : ℕ → HostSample → AgentCounts → Result (Unit {0})
  unfolding projected_microvm_count refuse
  assert_microvm_admission crashes metrics counts =
      let projected = projected_microvm_count counts in
      let allocatable = allocatable_memory_mb metrics in
      refuse (
        (
          ltb config.max_microvm_count projected,
          message "Host microVM capacity would be exceeded by another session.",
        )
        ∷ (
          ltb metrics.free_memory_mb config.min_free_memory_mb,
          message "Host does not have enough free memory headroom for another session.",
        )
        ∷ (
          ltb 0 allocatable && ltb allocatable (projected * config.guest_memory_mb),
          message "Host guest memory budget would be exceeded by another session.",
        )
        ∷ (
          leb config.max_crash_count_5m crashes,
          message "Host recent crash rate is above the admission threshold.",
        )
        ∷ (
          leb config.cpu_admission_pct metrics.cpu_utilization_pct
              && leb config.load_threshold metrics.load_avg_1m,
          message "Host CPU utilization is above the Firecracker admission threshold.",
        )
        ∷ (
          ltb 0 config.max_concurrent_active_navigation
              && leb config.max_concurrent_active_navigation counts.active_navigation_sessions,
          message "Host is at the configured concurrent active-navigation limit.",
        )
        ∷ [])

  -- What the sessions, the warm pool, the runtimes in preparation and the launches take together.
  unfoldable pub projected : AgentCounts → Footprint
  unfolding session_footprint_summary
  projected counts =
      let held = session_footprint_summary counts.sessions in
      let cold = counts.launch_reservations - counts.warm_pool in
      let warm = min counts.launch_reservations counts.warm_pool in
      let pooled = counts.warm_pool in
      let preparing = counts.preparing_warm in
      record {
        active_renderer_count =
            held.active_renderer_count
            + pooled * config.warm_renderer_budget
            + preparing * config.warm_renderer_budget
            + cold * config.session_renderer_limit
            + warm * (config.session_renderer_limit - config.warm_renderer_budget);
        tracked_memory_mb =
            held.tracked_memory_mb
            + pooled * config.session_memory_reservation_mb
            + preparing * config.session_memory_reservation_mb
            + cold * max config.session_admission_memory_mb config.session_memory_reservation_mb;
        tracked_shm_used_mb =
            held.tracked_shm_used_mb
            + pooled * config.session_admission_shm_mb
            + preparing * config.session_admission_shm_mb
            + cold * config.session_admission_shm_mb;
      }

  abbrev pub allocatable_shm_mb : HostSample → ℕ
  allocatable_shm_mb metrics =
      if ltb 0 metrics.shm_capacity_mb
      then metrics.shm_capacity_mb * config.max_shm_utilization_pct / 100
      else 0

  unfoldable pub assert_container_admission : ℕ → HostSample → AgentCounts → Result (Unit {0})
  unfolding projected refuse
  assert_container_admission crashes metrics counts =
      let need = projected counts in
      let memory = allocatable_memory_mb metrics in
      let shm = allocatable_shm_mb metrics in
      refuse (
        (
          ltb config.max_renderer_count need.active_renderer_count,
          message "Host renderer capacity would be exceeded by another session.",
        )
        ∷ (
          ltb 0 memory && ltb memory need.tracked_memory_mb,
          message "Host tracked memory budget would be exceeded by another session.",
        )
        ∷ (
          ltb metrics.free_memory_mb config.min_free_memory_mb,
          message "Host does not have enough free memory headroom for another session.",
        )
        ∷ (
          ltb 0 shm && ltb shm need.tracked_shm_used_mb,
          message "Host /dev/shm utilization is above the admission threshold.",
        )
        ∷ (
          leb config.max_crash_count_5m crashes,
          message "Host recent crash rate is above the admission threshold.",
        )
        ∷ [])

  -- `#assertAdmission`, with the crashes of the last five minutes counted.
  unfoldable pub assert_admission : ℕ → HostSample → AgentCounts → Result (Unit {0})
  unfolding assert_microvm_admission assert_container_admission
  assert_admission crashes metrics counts =
      if same_mode config.mode baseline
      then ok tt
      else if same_mode config.mode firecracker
      then assert_microvm_admission crashes metrics counts
      else assert_container_admission crashes metrics counts

  abbrev pub warm_ready_for_borrow : AgentCounts → ℕ
  warm_ready_for_borrow counts = if same_mode config.mode firecracker then counts.warm_ready else 0

  abbrev in_mode : Bool → Bool
  in_mode test = same_mode config.mode firecracker && test

  -- `#deriveStatus`, on a report of the metrics and of how many sessions and renderers there are.
  -- `percent` is `Math.round(part / whole * 100)`.
  unfoldable pub derive_status : (ℕ → ℕ → ℕ) → ℕ → HostSample → AgentCounts → ℕ → ℕ → HostStatus
  derive_status percent crashes metrics counts active_sessions active_renderers =
      if leb config.max_sessions active_sessions && nat_eq (warm_ready_for_borrow counts) 0
      then no_admit
      else if same_mode config.mode baseline
      then healthy
      else if ltb metrics.free_memory_mb config.min_free_memory_mb
          || leb config.max_renderer_count active_renderers
          || in_mode (
              leb config.cpu_admission_pct metrics.cpu_utilization_pct
              && leb config.load_threshold metrics.load_avg_1m)
          || in_mode (
              leb config.max_microvm_count counts.active_microvms
              && nat_eq (warm_ready_for_borrow counts) 0)
          || in_mode (
              ltb 0 config.max_concurrent_active_navigation
              && leb config.max_concurrent_active_navigation counts.active_navigation_sessions)
          || (ltb 0 metrics.shm_capacity_mb
              && leb config.max_shm_utilization_pct (
                  if nat_eq metrics.shm_capacity_mb 0
                  then 0
                  else percent metrics.shm_used_mb metrics.shm_capacity_mb))
          || leb config.max_crash_count_5m crashes
      then no_admit
      else healthy
