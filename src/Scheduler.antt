-- ===== src/Scheduler.antt =====
-- src/api/scheduler.ts: which host gets a new session. A score is an integer, since the headrooms
-- may be negative.
pub mod Admission
pub mod Choice
mod Tests
use base_layer.Base.{
  ℕ, ◌+◌, ◌-◌, ◌*◌, Bool, true, false, ◌&&◌, ◌||◌, not, Option, none, some, List, [], ◌∷◌, String,
  ltb, leb, nat_eq, ◌==◌, if◌then◌else◌, filter, find, any, truthy, same_text, includes, Result, ok,
  err, scheduler_error,
}
use base_layer.Base.Int.{ℤ, pos, sub_ℕ, ◌+ℤ◌, ◌*ℤ◌, ◌-ℤ◌}
use base_layer.Base.Sort.{sort}
use base_layer.Types.{
  HostRecord, HostCapacity, HostMetrics, WarmPool, baseline, firecracker, healthy, degraded,
  same_mode, same_host_status,
}

pub record HostSelectionOptions : Type 0 where
  pub preferred_region : Option String
  pub runtime_profile : Option String

-- `list.length === 1 ? list[0] : undefined`
abbrev pub sole {ℓ} : {A : Type ℓ} → List A → Option A
sole [] = none
sole (a ∷ []) = some a
sole (a ∷ b ∷ rest) = none

-- `sole` behind `?.`
abbrev pub sole_supported : Option (List String) → Option String
sole_supported none = none
sole_supported (some profiles) = sole profiles

abbrev pub pool_profile : Option WarmPool → Option String
pool_profile none = none
pool_profile (some pool) = some pool.runtime_profile

-- `first ?? second`
abbrev pub coalesce {ℓ} : {A : Type ℓ} → Option A → Option A → Option A
coalesce none b = b
coalesce (some a) b = some a

unfoldable pub effective_warm_runtime_profile : HostRecord → Option String → Option String
effective_warm_runtime_profile host runtime_profile =
    if truthy runtime_profile
    then runtime_profile
    else coalesce (sole_supported host.supported_runtime_profiles)
        (pool_profile (sole host.metrics.warm_pools))

-- `pool?.readyCount ?? 0`
abbrev pub ready_of : Option WarmPool → ℕ
ready_of none = 0
ready_of (some pool) = pool.ready_count

unfoldable pub pool_ready : List WarmPool → Option String → ℕ
pool_ready pools none = 0
pool_ready pools (some profile) =
    if profile == "" then 0 else ready_of (find (λ pool. pool.runtime_profile == profile) pools)

unfoldable pub matching_warm_ready_count : HostRecord → Option String → ℕ
unfolding effective_warm_runtime_profile pool_ready
matching_warm_ready_count host runtime_profile =
    pool_ready host.metrics.warm_pools (effective_warm_runtime_profile host runtime_profile)

microvm_headroom : HostRecord → ℤ
microvm_headroom host =
    if same_mode host.mode firecracker
    then sub_ℕ host.capacity.max_microvm_count host.metrics.active_microvm_count
    else pos 0

navigation_headroom : HostRecord → ℕ
navigation_headroom host =
    if same_mode host.mode firecracker && ltb 0 host.capacity.max_concurrent_active_navigation
    then host.capacity.max_concurrent_active_navigation
      - host.metrics.active_navigation_session_count
    else 1000

unfoldable pub score_host : HostSelectionOptions → HostRecord → ℤ
unfolding microvm_headroom navigation_headroom matching_warm_ready_count
score_host options host =
    pos (matching_warm_ready_count host options.runtime_profile * 1_000_000)
    +ℤ sub_ℕ host.capacity.max_sessions host.metrics.active_sessions *ℤ pos 10000
    +ℤ microvm_headroom host *ℤ pos 5000
    +ℤ pos (navigation_headroom host * 8000)
    +ℤ pos (host.metrics.free_memory_mb * 10)
    +ℤ sub_ℕ host.metrics.shm_capacity_mb host.metrics.shm_used_mb

-- The test on `supportedRuntimeProfiles`: a non-empty list that lacks the profile asked for.
profile_refused : Option String → Option (List String) → Bool
profile_refused none supported = false
profile_refused (some profile) none = false
profile_refused (some profile) (some []) = false
profile_refused (some profile) (some (p ∷ ps)) =
    not (profile == "") && not (includes (p ∷ ps) profile)

-- The checks for Firecracker hosts alone.
microvm_admits : HostRecord → Bool → Bool
microvm_admits host can_borrow_warm =
    if leb host.capacity.max_microvm_count host.metrics.active_microvm_count && not can_borrow_warm
    then false
    else if ltb 0 host.capacity.max_concurrent_active_navigation
        && leb host.capacity.max_concurrent_active_navigation
            host.metrics.active_navigation_session_count
    then false
    else let allocatable = host.metrics.total_memory_mb - host.capacity.min_free_memory_mb in
      let projected =
        host.metrics.reserved_microvm_memory_mb
        + (if can_borrow_warm then 0 else host.capacity.microvm_memory_mb) in
      not (ltb 0 allocatable && ltb allocatable projected)

-- `(left, right) => scoreHost(right, options) - scoreHost(left, options)`
abbrev pub by_score : HostSelectionOptions → HostRecord → HostRecord → ℤ
by_score options left right = score_host options right -ℤ score_host options left

-- `host.region === preferredRegion`, once the preferred region is known to be truthy
abbrev pub in_region : HostSelectionOptions → HostRecord → Bool
in_region options host = same_text host.region options.preferred_region

pub same_region_eligible : HostSelectionOptions → List HostRecord → List HostRecord
same_region_eligible options hosts =
    if truthy options.preferred_region && any (in_region options) hosts
    then filter (in_region options) hosts
    else hosts

-- `list[0]`; the list is empty only where the check before has thrown.
abbrev first : List HostRecord → Result HostRecord
first [] = err scheduler_error
first (host ∷ rest) = ok host

abbrev is_empty : List HostRecord → Bool
is_empty [] = true
is_empty (host ∷ rest) = false

module _ (percent : ℕ → ℕ → ℕ) where
  -- The checks that a baseline host is spared.
  resources_admit : HostRecord → Bool → Bool
  unfolding microvm_admits
  resources_admit host can_borrow_warm =
      let metrics = host.metrics in
      let shm_pct =
        (if nat_eq metrics.shm_capacity_mb 0
          then 0
          else percent metrics.shm_used_mb metrics.shm_capacity_mb) in
      if ltb metrics.free_memory_mb host.capacity.min_free_memory_mb
      then false
      else if ltb 0 metrics.shm_capacity_mb && leb host.capacity.max_shm_utilization_pct shm_pct
      then false
      else if leb host.capacity.max_crash_count_5m metrics.crash_count_5m
      then false
      else if same_mode host.mode firecracker
      then microvm_admits host can_borrow_warm
      else true

  -- The filter of `chooseHost`.
  pub eligible : HostSelectionOptions → HostRecord → Bool
  unfolding profile_refused resources_admit
  eligible options host =
      let can_borrow_warm = ltb 0 (matching_warm_ready_count host options.runtime_profile) in
      if not host.enabled
      then false
      else if not (same_host_status host.status healthy)
          && not (same_host_status host.status degraded)
      then false
      else if profile_refused options.runtime_profile host.supported_runtime_profiles
      then false
      else if leb host.capacity.max_sessions host.metrics.active_sessions && not can_borrow_warm
      then false
      else if leb host.capacity.max_renderer_count host.metrics.active_renderer_count
      then false
      else if same_mode host.mode baseline
      then true
      else resources_admit host can_borrow_warm

  unfoldable pub choose_host : List HostRecord → HostSelectionOptions → Result HostRecord
  unfolding eligible same_region_eligible
  choose_host hosts options =
      let candidates = filter (eligible options) hosts in
      if is_empty candidates
      then err scheduler_error
      else first (sort (by_score options) (same_region_eligible options candidates))
