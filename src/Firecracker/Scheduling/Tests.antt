-- ===== src/Firecracker/Scheduling/Tests.antt =====
-- Three launches with a budget of two.
use base_layer.Base.{
  ℕ, ◌≤◌, Bool, true, false, Option, none, some, List, [], ◌∷◌, String, ◌≡◌, refl, count, nat_eq,
}
use base_layer.Base.Dict.{lookup, values}
use base_layer.Base.Int.{ℤ, pos, negsuc}
use base_layer.Types.{launching, active_navigation}
use base_layer.Firecracker.Scheduling.{
  SchedulingConfig, CpuPolicy, CpuTables, set_scheduler_state, high_priority_session_count,
}
use base_layer.Firecracker.Scheduling.Budget.{CpuMove, cpu_moves, at_full, cpu_moves-within_budget}

abbrev policy : ℤ → ℕ → CpuPolicy
policy weight cpu = record {
  scheduler_weight = weight;
  cpu_weight = cpu;
  cpu_max = "max 100000";
  cpu_affinity = none;
}

abbrev config : SchedulingConfig
config = record {
  launching_policy = policy (negsuc 7) 10000;
  active_policy = policy (negsuc 3) 8000;
  interactive_idle_policy = policy (pos 0) 1000;
  soak_idle_policy = policy (pos 6) 100;
  launching_overflow = policy (negsuc 1) 4000;
  active_overflow = policy (pos 0) 2000;
  dynamic_cpu_policy = true;
  hybrid_mode = false;
  high_priority_budget = 2;
  activity_idle_ms = 5000;
  hybrid_idle_threshold = 4;
  ratio_reached = λ idle total. false;
}

abbrev no_sessions : CpuTables
no_sessions = record { states = []; pids = []; applied = [] }

abbrev moves : List CpuMove
moves =
    CpuMove.sets "a" launching 1
    ∷ CpuMove.sets "b" active_navigation 2
    ∷ CpuMove.sets "c" launching 3
    ∷ []

cpu_moves-within_budget_example :
    count (at_full config) (values (cpu_moves config moves no_sessions).states) ≤ 2
cpu_moves-within_budget_example = cpu_moves-within_budget config moves no_sessions refl refl refl

-- The budget is used, and the third launch is an overflow.
used : count (at_full config) (values (cpu_moves config moves no_sessions).states) ≡ 2
unfolding base_layer.Firecracker.Scheduling.Budget.cpu_move base_layer.Base.includes
    base_layer.Base.Dict.insert
used = refl

busy : high_priority_session_count (cpu_moves config moves no_sessions) ≡ 3
unfolding high_priority_session_count base_layer.Firecracker.Scheduling.Budget.cpu_move
    base_layer.Base.includes base_layer.Base.Dict.insert
busy = refl
