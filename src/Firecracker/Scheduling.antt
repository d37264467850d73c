-- ===== src/Firecracker/Scheduling.antt =====
-- The CPU policies of the sessions: `schedulerWeightForState` and its like, and the methods that keep
-- `#schedulerStates`. What `renice` and the cgroups are told is the table `applied`.
pub mod Budget
mod Tests
use base_layer.Base.{
  ℕ, ◌+◌, ◌-◌, max, Bool, true, false, ◌&&◌, ◌||◌, not, Option, none, some, List, [], ◌∷◌, String,
  ◌==◌, leb, ltb, count, length, filter, map, nat_eq, includes, if◌then◌else◌,
}
use base_layer.Base.Dict.{Dict, lookup, insert, erase, values}
use base_layer.Base.Int.{ℤ, pos, pos_part, neg_part}
use base_layer.Types.{
  SessionActivityState, launching, active_navigation, interactive_idle, soak_idle, same_activity,
}

pub record CpuPolicy : Type 0 where
  pub scheduler_weight : ℤ
  pub cpu_weight : ℕ
  pub cpu_max : String
  pub cpu_affinity : Option String

-- The part of `agentConfig` that is read here: the policy of each activity, and what an overflow has
-- in place of it, the affinity apart. `ratio_reached idle total` is whether `idle / total` reaches the
-- configured ratio.
pub record SchedulingConfig : Type 0 where
  pub launching_policy : CpuPolicy
  pub active_policy : CpuPolicy
  pub interactive_idle_policy : CpuPolicy
  pub soak_idle_policy : CpuPolicy
  pub launching_overflow : CpuPolicy
  pub active_overflow : CpuPolicy
  pub dynamic_cpu_policy : Bool
  pub hybrid_mode : Bool
  pub high_priority_budget : ℕ
  pub activity_idle_ms : ℕ
  pub hybrid_idle_threshold : ℕ
  pub ratio_reached : ℕ → ℕ → Bool

pub record CpuSample : Type 0 where
  pub cpu_time_ms : ℕ
  pub sampled_at_ms : ℕ

pub record SchedulerState : Type 0 where
  pub activity_state : SessionActivityState
  pub scheduler_weight : ℤ
  pub last_activity_at_ms : ℕ
  pub last_cpu_pct : ℕ
  pub last_cpu_sample : Option CpuSample

pub record CpuTables : Type 0 where
  -- `#schedulerStates`
  pub states : Dict SchedulerState
  -- the sessions of `#sessions` whose machine has a process id
  pub pids : List String
  pub applied : Dict CpuPolicy

abbrev pub is_high : SessionActivityState → Bool
is_high launching = true
is_high active_navigation = true
is_high interactive_idle = false
is_high soak_idle = false

abbrev pub is_idle : SessionActivityState → Bool
is_idle activity = not (is_high activity)

abbrev pub high_state : SchedulerState → Bool
high_state state = is_high state.activity_state

-- The getters `highPrioritySessionCount` and `activeNavigationSessionCount`.
unfoldable pub high_priority_session_count : CpuTables → ℕ
high_priority_session_count t = length (filter high_state (values t.states))

unfoldable pub active_navigation_session_count : CpuTables → ℕ
active_navigation_session_count t = length (
    filter (λ state. same_activity (SchedulerState.activity_state state) active_navigation)
      (values t.states))

module _ (config : SchedulingConfig) where
  unfoldable pub cpu_policy_for_state : SessionActivityState → CpuPolicy
  cpu_policy_for_state launching = config.launching_policy
  cpu_policy_for_state active_navigation = config.active_policy
  cpu_policy_for_state interactive_idle = config.interactive_idle_policy
  cpu_policy_for_state soak_idle = config.soak_idle_policy

  unfoldable pub scheduler_weight_for_state : SessionActivityState → ℤ
  unfolding cpu_policy_for_state
  scheduler_weight_for_state activity = (cpu_policy_for_state activity).scheduler_weight

  unfoldable pub overflow_cpu_policy_for_state : SessionActivityState → CpuPolicy
  unfolding cpu_policy_for_state
  overflow_cpu_policy_for_state launching = record (config.launching_overflow) {
    cpu_affinity = config.launching_policy.cpu_affinity;
  }
  overflow_cpu_policy_for_state active_navigation = record (config.active_overflow) {
    cpu_affinity = config.active_policy.cpu_affinity;
  }
  overflow_cpu_policy_for_state interactive_idle = cpu_policy_for_state interactive_idle
  overflow_cpu_policy_for_state soak_idle = cpu_policy_for_state soak_idle

  unfoldable pub neutral_cpu_policy : SessionActivityState → CpuPolicy
  unfolding cpu_policy_for_state
  neutral_cpu_policy activity = record {
    scheduler_weight = pos 0;
    cpu_weight = 100;
    cpu_max = "max 100000";
    cpu_affinity = (cpu_policy_for_state activity).cpu_affinity;
  }

  -- `#hybridFluidGateSnapshot().open`, and the same test of `#setSchedulerState`.
  unfoldable pub hybrid_gate_open : Dict SchedulerState → Bool
  hybrid_gate_open states =
      let total = length states in
      let idle = count (λ state. is_idle (SchedulerState.activity_state state)) (values states) in
      ltb 0 total && (leb config.hybrid_idle_threshold idle || config.ratio_reached idle total)

  unfoldable pub fluid_hybrid_policy_for_activity : SessionActivityState → Bool → CpuPolicy
  unfolding cpu_policy_for_state neutral_cpu_policy
  fluid_hybrid_policy_for_activity activity hybrid_active =
      if hybrid_active && is_idle activity
      then cpu_policy_for_state activity
      else neutral_cpu_policy activity

  abbrev weight_of : Option SchedulerState → ℤ
  weight_of none = pos 0
  weight_of (some state) = state.scheduler_weight

  abbrev pct_of : Option SchedulerState → ℕ
  pct_of none = 0
  pct_of (some state) = state.last_cpu_pct

  abbrev sample_of : Option SchedulerState → Option CpuSample
  sample_of none = none
  sample_of (some state) = state.last_cpu_sample

  abbrev pub next_state : Option SchedulerState → SessionActivityState → ℤ → ℕ → SchedulerState
  next_state existing activity weight now = record {
    activity_state = activity;
    scheduler_weight = weight;
    last_activity_at_ms = now;
    last_cpu_pct = pct_of existing;
    last_cpu_sample = sample_of existing;
  }

  -- `concurrentHighPrioritySessions`: the high priority sessions other than this one.
  unfoldable pub concurrent_high : String → Dict SchedulerState → ℕ
  concurrent_high id states = count (λ e. not (e.0 == id) && high_state e.1) states

  -- The choice of the policy in `#setSchedulerState`.
  unfoldable pub chosen_policy : String → SessionActivityState → ℕ → Dict SchedulerState → CpuPolicy
  unfolding cpu_policy_for_state overflow_cpu_policy_for_state neutral_cpu_policy hybrid_gate_open
      fluid_hybrid_policy_for_activity concurrent_high
  chosen_policy id activity now states =
      let existing = lookup id states in
      if not config.dynamic_cpu_policy
      then neutral_cpu_policy activity
      else if config.hybrid_mode
      then fluid_hybrid_policy_for_activity activity (
          hybrid_gate_open
            (insert id (next_state existing activity (weight_of existing) now) states))
      else if is_high activity && leb config.high_priority_budget (concurrent_high id states)
      then overflow_cpu_policy_for_state activity
      else cpu_policy_for_state activity

  abbrev activity_or_idle : Option SchedulerState → SessionActivityState
  activity_or_idle none = interactive_idle
  activity_or_idle (some state) = state.activity_state

  unfoldable pub apply_all :
      Bool → Dict SchedulerState → List String → Dict CpuPolicy → Dict CpuPolicy
  unfolding fluid_hybrid_policy_for_activity
  apply_all hybrid_active states [] applied = applied
  apply_all hybrid_active states (id ∷ rest) applied = apply_all hybrid_active states rest (
      insert id
        (fluid_hybrid_policy_for_activity (activity_or_idle (lookup id states)) hybrid_active)
        applied)

  -- `#refreshAllHybridCpuPolicies`
  unfoldable pub refresh_all_hybrid_cpu_policies : CpuTables → CpuTables
  unfolding apply_all hybrid_gate_open
  refresh_all_hybrid_cpu_policies t = record t {
    applied = apply_all (hybrid_gate_open t.states) t.states t.pids t.applied;
  }

  -- `#setSchedulerState`
  unfoldable pub set_scheduler_state : String → SessionActivityState → ℕ → CpuTables → CpuTables
  unfolding chosen_policy refresh_all_hybrid_cpu_policies
  set_scheduler_state id activity now t =
      let policy = chosen_policy id activity now t.states in
      let set = record t {
        states =
            insert id (next_state (lookup id t.states) activity policy.scheduler_weight now)
              t.states;
      } in
      if not config.dynamic_cpu_policy
      then set
      else if config.hybrid_mode
      then refresh_all_hybrid_cpu_policies set
      else if includes t.pids id
      then record set { applied = insert id policy t.applied }
      else set

  -- Which sessions `refreshScheduling` makes idle. No state was set later than now.
  unfoldable pub has_gone_quiet : ℕ → Option SchedulerState → Bool
  has_gone_quiet now none = false
  has_gone_quiet now (some state) =
      high_state state && leb config.activity_idle_ms (now - state.last_activity_at_ms)

  -- `refreshScheduling`, over the sessions of the machines.
  unfoldable pub refresh_scheduling : ℕ → List String → CpuTables → CpuTables
  unfolding set_scheduler_state has_gone_quiet
  refresh_scheduling now [] t = t
  refresh_scheduling now (id ∷ rest) t = refresh_scheduling now rest (
      if has_gone_quiet now (lookup id t.states)
      then set_scheduler_state id interactive_idle now t
      else t)
