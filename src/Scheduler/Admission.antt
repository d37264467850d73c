-- ===== src/Scheduler/Admission.antt =====
-- What the filter of `chooseHost` admits, stated without its order of checks.
use base_layer.Base.{
  ℕ, ◌+◌, ◌≤◌, ◌<◌, true, false, Option, none, some, List, [], ◌∷◌, String, ◌≡◌, ◌≢◌, ◌⊎◌, ◌↔◌,
  arith, ltb, eq_iff, includes, refl,
}
use base_layer.Types.{HostRecord, baseline, firecracker, healthy, degraded}
use base_layer.Scheduler.{
  HostSelectionOptions, matching_warm_ready_count, eligible, resources_admit, microvm_admits,
  profile_refused,
}

-- A host that lists the profiles it supports lists the one asked for.
abbrev pub Supports : Option String → Option (List String) → Type 0
Supports none supported = Unit {0}
Supports (some profile) none = Unit {0}
Supports (some profile) (some []) = Unit {0}
Supports (some profile) (some (p ∷ ps)) = (profile ≡ "") ⊎ (includes (p ∷ ps) profile ≡ true)

-- Room for one more microVM, which a warm one does not need.
pub record MicrovmRoom (host : HostRecord) (warm : ℕ) : Type 0 where
  pub microvms : (host.metrics.active_microvm_count < host.capacity.max_microvm_count) ⊎ (0 < warm)
  pub navigation :
      (host.capacity.max_concurrent_active_navigation ≡ 0)
      ⊎ (host.metrics.active_navigation_session_count
          < host.capacity.max_concurrent_active_navigation)
  pub cold_memory :
      (0 < warm)
      ⊎ ((host.metrics.total_memory_mb ≤ host.capacity.min_free_memory_mb)
          ⊎ (host.metrics.reserved_microvm_memory_mb + host.capacity.microvm_memory_mb
                + host.capacity.min_free_memory_mb
              ≤ host.metrics.total_memory_mb))
  pub warm_memory :
      (host.metrics.total_memory_mb ≤ host.capacity.min_free_memory_mb)
      ⊎ (host.metrics.reserved_microvm_memory_mb + host.capacity.min_free_memory_mb
          ≤ host.metrics.total_memory_mb)

pub record HasResources (percent : ℕ → ℕ → ℕ) (host : HostRecord) (warm : ℕ) : Type 0 where
  pub memory : host.capacity.min_free_memory_mb ≤ host.metrics.free_memory_mb
  pub shm :
      (host.metrics.shm_capacity_mb ≡ 0)
      ⊎ (percent host.metrics.shm_used_mb host.metrics.shm_capacity_mb
          < host.capacity.max_shm_utilization_pct)
  pub crashes : host.metrics.crash_count_5m < host.capacity.max_crash_count_5m
  pub microvm : (host.mode ≢ firecracker) ⊎ MicrovmRoom host warm

-- What a host must meet for a new session, `warm` being its warm runtimes that fit the request.
pub record Admits (percent : ℕ → ℕ → ℕ) (options : HostSelectionOptions) (host : HostRecord)
    (warm : ℕ) : Type 0 where
  pub enabled : host.enabled ≡ true
  pub status : (host.status ≡ healthy) ⊎ (host.status ≡ degraded)
  pub supports : Supports options.runtime_profile host.supported_runtime_profiles
  pub sessions : (host.metrics.active_sessions < host.capacity.max_sessions) ⊎ (0 < warm)
  pub renderers : host.metrics.active_renderer_count < host.capacity.max_renderer_count
  pub resources : (host.mode ≡ baseline) ⊎ HasResources percent host warm

profile_refused_iff :
    (profile : Option String) (supported : Option (List String))
    → (profile_refused profile supported ≡ false) ↔ Supports profile supported
unfolding profile_refused
profile_refused_iff none supported = (λ _. tt, λ _. refl)
profile_refused_iff (some profile) none = (λ _. tt, λ _. refl)
profile_refused_iff (some profile) (some []) = (λ _. tt, λ _. refl)
profile_refused_iff (some profile) (some (p ∷ ps)) = ground (arith, eq_iff profile "")

module _ (host : HostRecord) (warm : ℕ) where
  microvm_admits→MicrovmRoom : microvm_admits host (ltb 0 warm) ≡ true → MicrovmRoom host warm
  unfolding microvm_admits
  microvm_admits→MicrovmRoom h = ground arith

  MicrovmRoom→microvm_admits : MicrovmRoom host warm → microvm_admits host (ltb 0 warm) ≡ true
  unfolding microvm_admits
  MicrovmRoom→microvm_admits r = ground arith

module _ (percent : ℕ → ℕ → ℕ) (host : HostRecord) (warm : ℕ) where
  resources_admit→HasResources :
      resources_admit percent host (ltb 0 warm) ≡ true → HasResources percent host warm
  unfolding resources_admit
  resources_admit→HasResources h = ground (arith, microvm_admits→MicrovmRoom host warm)

  HasResources→resources_admit :
      HasResources percent host warm → resources_admit percent host (ltb 0 warm) ≡ true
  unfolding resources_admit
  HasResources→resources_admit r = ground (arith, MicrovmRoom→microvm_admits host warm)

-- The filter admits a host exactly when the host meets these conditions.
pub eligible_iff :
    (percent : ℕ → ℕ → ℕ) (options : HostSelectionOptions) (host : HostRecord)
    → (eligible percent options host ≡ true)
      ↔ Admits percent options host (matching_warm_ready_count host options.runtime_profile)
unfolding eligible
eligible_iff percent options host =
    let warm = matching_warm_ready_count host options.runtime_profile in
    let profiles = profile_refused_iff options.runtime_profile host.supported_runtime_profiles in
    (
      λ h. record {
        enabled = ground arith;
        status = ground arith;
        supports = profiles.0 (ground arith);
        sessions = ground arith;
        renderers = ground arith;
        resources = ground (arith, resources_admit→HasResources percent host warm);
      },
      λ a. ground (arith, profiles.1 a.supports, HasResources→resources_admit percent host warm),
    )
