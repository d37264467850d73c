-- ===== src/Agent/Tests.antt =====
-- The warm pool and the gate on small figures.
use base_layer.Base.{
  ◌+◌, ◌≤◌, ◌<◌, max, true, false, none, some, [], ◌∷◌, ◌≡◌, ◌⊎◌, ◌↔◌, refl, arith, truthy, length,
}
use base_layer.Types.{firecracker, managed}
use base_layer.Agent.WarmPool.{
  FirecrackerWarmFillTargetInput, FirecrackerWarmRuntimeSelectionInput,
  compute_firecracker_warm_fill_target, should_defer_warm_pool_maintenance,
  compute_launch_reservation_stale_threshold_ms, resolve_eligible_firecracker_warm_runtime_profile,
  build_warm_pool_capacity_reports, warm_fill-bounds, served-reported,
}
use base_layer.Agent.Gate.{AsyncGate, Move, move, idle_gate, Reachable, PromptlyReachable}
use base_layer.Agent.Progress.{gate-no_lost_wakeup, gate-Within_limit}
use base_layer.Agent.Overrun.{gate-overrun}

abbrev fill : FirecrackerWarmFillTargetInput
fill = record {
  warm_pool_size = 4;
  warm_pool_fill_concurrency = 8;
  max_microvm_count = 6;
  active_microvm_count = 3;
  preparing_warm_runtime_count = 1;
  ready_warm_session_count = 1;
}

fills_two : compute_firecracker_warm_fill_target fill ≡ 2
unfolding compute_firecracker_warm_fill_target
fills_two = refl

defers : should_defer_warm_pool_maintenance managed 0 1 0 ≡ true
unfolding should_defer_warm_pool_maintenance
defers = refl

stale_after : compute_launch_reservation_stale_threshold_ms 20000 50000 ≡ 51000
unfolding compute_launch_reservation_stale_threshold_ms
stale_after = refl

warm_fill-bounds_case :
    (4 + compute_firecracker_warm_fill_target fill ≤ max 6 4)
    × (2 + compute_firecracker_warm_fill_target fill ≤ max 4 2)
    × ((compute_firecracker_warm_fill_target fill ≡ 0) ↔ ((6 ≤ 4) ⊎ (4 ≤ 2)))
warm_fill-bounds_case = warm_fill-bounds fill

abbrev select : FirecrackerWarmRuntimeSelectionInput
select = record {
  mode = firecracker;
  warm_pool_size = 2;
  supported_runtime_profiles = "chrome" ∷ [];
  requested_runtime_profile = some "chrome";
  proxy_profile = none;
  ready_warm_session_count = 1;
}

selects : resolve_eligible_firecracker_warm_runtime_profile select ≡ some "chrome"
unfolding resolve_eligible_firecracker_warm_runtime_profile
selects = refl

served-reported_case :
    (build_warm_pool_capacity_reports (record {
      mode = firecracker;
      warm_pool_size = 2;
      supported_runtime_profiles = "chrome" ∷ [];
      firecracker_warm_pool_session_count = 1;
      managed_warm_pool_count = 0;
      preparing_warm_runtime_count = 1;
    })
      ≡ record {
        runtime_profile = "chrome";
        ready_count = 1;
        target_count = 2;
        refill_in_flight = 1;
      }
        ∷ [])
    × (0 < 1)
    × ((truthy (some "chrome") ≡ false) ⊎ (select.requested_runtime_profile ≡ some "chrome"))
served-reported_case = served-reported select 0 1 "chrome" selects

-- One ticket active and one waiting, behind a gate of one.
abbrev crowded : AsyncGate
crowded = move 1 (Move.acquires 1) (move 1 (Move.acquires 0) idle_gate)

gate-no_lost_wakeup_example :
    (crowded.active ≡ length crowded.holders)
    × ((length crowded.waiters ≡ 0) ⊎ (1 ≤ crowded.active + length crowded.woken))
gate-no_lost_wakeup_example =
    gate-no_lost_wakeup 1 crowded (
      Reachable.then_move (Reachable.then_move Reachable.start (Move.acquires 0)) (Move.acquires 1))

promptly : PromptlyReachable 1 crowded
unfolding move idle_gate
promptly =
    PromptlyReachable.then_move
      (PromptlyReachable.then_move PromptlyReachable.start (Move.acquires 0) refl) (Move.acquires 1)
      refl

gate-Within_limit_example :
    (crowded.active + length crowded.woken ≤ 1) × (crowded.active ≡ length crowded.holders)
gate-Within_limit_example = gate-Within_limit 1 (omega arith) crowded promptly

gate-overrun_example : (g : AsyncGate) × Reachable 2 g × (g.active ≡ 2 + 1)
gate-overrun_example = gate-overrun 2 (omega arith)
