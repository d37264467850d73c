-- ===== src/Agent/WarmPool.antt =====
-- The pure functions of the warm pool. The sizes are whole numbers and not negative, as the
-- configuration's parsers make them.
use base_layer.Base.{
  ℕ, ◌+◌, ◌-◌, ◌≤◌, ◌<◌, min, max, Bool, true, false, ◌&&◌, ◌||◌, not, Option, none, some, List, [],
  ◌∷◌, String, ◌==◌, ◌≡◌, ◌⊎◌, ◌↔◌, inl, inr, arith, leb, ltb, if◌then◌else◌, truthy, same_text,
  same_text_iff, Bool-cases,
}
use base_layer.Types.{AgentMode, firecracker, managed, same_mode, WarmPool}

pub record FirecrackerWarmRuntimeSelectionInput : Type 0 where
  pub mode : AgentMode
  pub warm_pool_size : ℕ
  pub supported_runtime_profiles : List String
  pub requested_runtime_profile : Option String
  pub proxy_profile : Option String
  pub ready_warm_session_count : ℕ

pub record FirecrackerWarmFillTargetInput : Type 0 where
  pub warm_pool_size : ℕ
  pub warm_pool_fill_concurrency : ℕ
  pub max_microvm_count : ℕ
  pub active_microvm_count : ℕ
  pub preparing_warm_runtime_count : ℕ
  pub ready_warm_session_count : ℕ

pub record WarmPoolCapacityReportInput : Type 0 where
  pub mode : AgentMode
  pub warm_pool_size : ℕ
  pub supported_runtime_profiles : List String
  pub firecracker_warm_pool_session_count : ℕ
  pub managed_warm_pool_count : ℕ
  pub preparing_warm_runtime_count : ℕ

unfoldable pub compute_launch_reservation_stale_threshold_ms : ℕ → ℕ → ℕ
compute_launch_reservation_stale_threshold_ms firecracker_restore_timeout_ms
      remote_create_timeout_ms =
    max (max (firecracker_restore_timeout_ms + 5000) 35000) (remote_create_timeout_ms + 1000)

unfoldable pub resolve_warm_pool_runtime_profile : List String → Option String
resolve_warm_pool_runtime_profile [] = none
resolve_warm_pool_runtime_profile (profile ∷ []) = some profile
resolve_warm_pool_runtime_profile (profile ∷ other ∷ rest) = none

-- The tests behind `if (!runtimeProfile)`.
abbrev served : Option String → Option String → ℕ → Option String
served none requested ready = none
served (some profile) requested ready =
    if profile == ""
    then none
    else if truthy requested && not (same_text requested (some profile))
    then none
    else if leb ready 0
    then none
    else some profile

unfoldable pub resolve_eligible_firecracker_warm_runtime_profile :
    FirecrackerWarmRuntimeSelectionInput → Option String
unfolding resolve_warm_pool_runtime_profile
resolve_eligible_firecracker_warm_runtime_profile input =
    if not (same_mode input.mode firecracker) || leb input.warm_pool_size 0
    then none
    else if truthy input.proxy_profile
    then none
    else served (resolve_warm_pool_runtime_profile input.supported_runtime_profiles)
        input.requested_runtime_profile input.ready_warm_session_count

-- `Math.max(0, Math.min(…))`: a difference below zero counts as zero, as ℕ has it.
unfoldable pub compute_firecracker_warm_fill_target : FirecrackerWarmFillTargetInput → ℕ
compute_firecracker_warm_fill_target input =
    let remaining_capacity =
      input.max_microvm_count - (input.active_microvm_count + input.preparing_warm_runtime_count) in
    let missing_warm_slots =
      input.warm_pool_size
      - (input.ready_warm_session_count + input.preparing_warm_runtime_count) in
    min (min missing_warm_slots remaining_capacity) (max 1 input.warm_pool_fill_concurrency)

unfoldable pub should_defer_warm_pool_maintenance : AgentMode → ℕ → ℕ → ℕ → Bool
should_defer_warm_pool_maintenance mode active_sessions launch_reservations preparing_sessions =
    if not (same_mode mode managed)
    then false
    else ltb 0 active_sessions || ltb 0 launch_reservations || ltb 0 preparing_sessions

abbrev reported : Option String → WarmPoolCapacityReportInput → List WarmPool
reported none input = []
reported (some profile) input =
    if profile == ""
    then []
    else record {
      runtime_profile = profile;
      ready_count =
          if same_mode input.mode firecracker
          then input.firecracker_warm_pool_session_count
          else input.managed_warm_pool_count;
      target_count = input.warm_pool_size;
      refill_in_flight = input.preparing_warm_runtime_count;
    }
      ∷ []

unfoldable pub build_warm_pool_capacity_reports : WarmPoolCapacityReportInput → List WarmPool
unfolding resolve_warm_pool_runtime_profile
build_warm_pool_capacity_reports input =
    if leb input.warm_pool_size 0
    then []
    else reported (resolve_warm_pool_runtime_profile input.supported_runtime_profiles) input

-- A refill never takes the microVMs above their limit nor the pool above its size, or leaves them where
-- they are already above, and it is empty exactly where one of the two has no room.
pub warm_fill-bounds :
    (i : FirecrackerWarmFillTargetInput)
    → (i.active_microvm_count
          + i.preparing_warm_runtime_count
          + compute_firecracker_warm_fill_target i
        ≤ max i.max_microvm_count (i.active_microvm_count + i.preparing_warm_runtime_count))
      × (i.ready_warm_session_count
            + i.preparing_warm_runtime_count
            + compute_firecracker_warm_fill_target i
          ≤ max i.warm_pool_size (i.ready_warm_session_count + i.preparing_warm_runtime_count))
      × ((compute_firecracker_warm_fill_target i ≡ 0) ↔ (
          (i.max_microvm_count ≤ i.active_microvm_count + i.preparing_warm_runtime_count)
          ⊎ (i.warm_pool_size ≤ i.ready_warm_session_count + i.preparing_warm_runtime_count)))
unfolding compute_firecracker_warm_fill_target
warm_fill-bounds i = (omega arith, omega arith, ground arith)

served-some :
    (o requested : Option String) (ready : ℕ) (profile : String)
    → served o requested ready ≡ some profile
    → (o ≡ some profile)
      × ((profile == "") ≡ false)
      × (0 < ready)
      × ((truthy requested && not (same_text requested (some profile))) ≡ false)
served-some none requested ready profile h = absurd (ground arith)
served-some (some p) requested ready profile h =
    let (a, r) = if-none _ _ _ h in
    let (b, r) = if-none _ _ _ r in
    let (c, e) = if-none _ _ _ r in
    let same : p ≡ profile = ground arith in (e, rw (← same) a, ground arith, rw (← same) b)
  where
    if-none :
        (b : Bool) (x : Option String) (y : String)
        → (if b then none else x) ≡ some y
        → (b ≡ false) × (x ≡ some y)
    if-none b x y h = ground arith

-- A warm runtime is served only under the profile that the agent reports in its capacity report, and
-- only where that report, made of the same figures, has a ready runtime.
pub served-reported :
    (i : FirecrackerWarmRuntimeSelectionInput) (managed_count preparing : ℕ) (profile : String)
    → resolve_eligible_firecracker_warm_runtime_profile i ≡ some profile
    → (build_warm_pool_capacity_reports (record {
      mode = i.mode;
      warm_pool_size = i.warm_pool_size;
      supported_runtime_profiles = i.supported_runtime_profiles;
      firecracker_warm_pool_session_count = i.ready_warm_session_count;
      managed_warm_pool_count = managed_count;
      preparing_warm_runtime_count = preparing;
    })
        ≡ record {
          runtime_profile = profile;
          ready_count = i.ready_warm_session_count;
          target_count = i.warm_pool_size;
          refill_in_flight = preparing;
        }
          ∷ [])
      × (0 < i.ready_warm_session_count)
      × ((truthy i.requested_runtime_profile ≡ false)
          ⊎ (i.requested_runtime_profile ≡ some profile))
unfolding resolve_eligible_firecracker_warm_runtime_profile build_warm_pool_capacity_reports
    resolve_warm_pool_runtime_profile
served-reported i managed_count preparing profile h =
    let (a, r) = if-none (not (same_mode i.mode firecracker) || leb i.warm_pool_size 0) _ _ h in
    let (b, r) = if-none (truthy i.proxy_profile) _ _ r in
    let (o, filled, ready, asked) =
      served-some (resolve_warm_pool_runtime_profile i.supported_runtime_profiles)
        i.requested_runtime_profile _ profile r in
    let (m, size) = guards (same_mode i.mode firecracker) (leb i.warm_pool_size 0) a in
    (
      rw (size, o, filled, m),
      ready,
      elim (Bool-cases (truthy i.requested_runtime_profile)) [
        | inl t ↦
            inr ((same_text_iff i.requested_runtime_profile (some profile)).0 (met _ _ asked t))
        | inr f ↦ inl f
      ],
    )
  where
    if-none :
        (b : Bool) (x : Option String) (y : String)
        → (if b then none else x) ≡ some y
        → (b ≡ false) × (x ≡ some y)
    if-none b x y h = ground arith

    guards : (a b : Bool) → (not a || b) ≡ false → (a ≡ true) × (b ≡ false)
    guards a b h = ground arith

    met : (a b : Bool) → (a && not b) ≡ false → a ≡ true → b ≡ true
    met a b h k = ground arith
