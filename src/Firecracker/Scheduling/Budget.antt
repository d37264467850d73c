-- ===== src/Firecracker/Scheduling/Budget.antt =====
-- No more sessions than the budget have the full policy of a high priority.
use base_layer.Base.{
  ℕ, ◌+◌, ◌≤◌, ◌<◌, Bool, true, false, ◌&&◌, not, none, List, [], ◌∷◌, String, ◌==◌, ◌≡◌, ◌⊎◌,
  subst, refl, sym, ap, ◌∙◌, arith, leb, count, nat_eq, includes, if◌then◌else◌, Bool-cases, inl,
  inr, eq_iff,
}
use base_layer.Base.Dict.{Dict, lookup, insert, erase, values, lookup-insert, lookup-erase}
use base_layer.Base.Int.{ℤ, pos_part, neg_part}
use base_layer.Types.{SessionActivityState, interactive_idle}
use base_layer.Firecracker.Scheduling.{
  SchedulingConfig, SchedulerState, CpuTables, is_high, high_state, concurrent_high, next_state,
  chosen_policy, set_scheduler_state, refresh_scheduling, has_gone_quiet,
  overflow_cpu_policy_for_state,
}

abbrev Distinct {ℓ} : {V : Type ℓ} → Dict V → Type ℓ
Distinct [] = Unit
Distinct ((k, v) ∷ d) = (lookup k d ≡ none) × Distinct d

module _ {ℓ} {V : Type ℓ} where
  insert-Distinct : (k : String) (v : V) (d : Dict V) → Distinct d → Distinct (insert k v d)
  unfolding insert lookup
  insert-Distinct k v [] w = (refl, tt)
  insert-Distinct k v ((j, x) ∷ d) (fresh, w) = elim (Bool-cases (j == k)) [
    | inl t ↦ rw t (fresh, w)
    | inr t ↦
        rw t
          (lookup-insert k j v d ∙ ground (arith, eq_iff k j, eq_iff j k), insert-Distinct k v d w)
  ]

  erase-Distinct : (k : String) (d : Dict V) → Distinct d → Distinct (erase k d)
  unfolding erase
  erase-Distinct k [] w = tt
  erase-Distinct k ((j, x) ∷ d) (fresh, w) = elim (Bool-cases (j == k)) [
    | inl t ↦ rw t (erase-Distinct k d w)
    | inr t ↦ rw t (lookup-erase k j d ∙ ground arith, erase-Distinct k d w)
  ]

  -- How many entries of other keys pass the test.
  abbrev others : (V → Bool) → String → Dict V → ℕ
  others p k d = count (λ e. not (e.0 == k) && p e.1) d

  others-missing :
      (p : V → Bool) (k : String) (d : Dict V)
      → lookup k d ≡ none
      → others p k d ≡ count p (values d)
  unfolding lookup
  others-missing p k [] h = refl
  others-missing p k ((j, x) ∷ d) h = ground (arith, others-missing p k d)

  others-le : (p : V → Bool) (k : String) (d : Dict V) → others p k d ≤ count p (values d)
  others-le p k [] = omega arith
  others-le p k ((j, x) ∷ d) = ground (arith, others-le p k d)

  others_mono :
      (p q : V → Bool) (k : String) (d : Dict V)
      → ((v : V) → p v ≡ true → q v ≡ true)
      → others p k d ≤ others q k d
  others_mono p q k [] h = omega arith
  others_mono p q k ((j, x) ∷ d) h = ground (arith, others_mono p q k d h, h x)

  count-insert :
      (p : V → Bool) (k : String) (v : V) (d : Dict V)
      → Distinct d
      → count p (values (insert k v d)) ≡ (if p v then 1 else 0) + others p k d
  unfolding insert
  count-insert p k v [] w = omega arith
  count-insert p k v ((j, x) ∷ d) (fresh, w) = elim (Bool-cases (j == k)) [
    | inl t ↦
        let gone : lookup k d ≡ none = ap (λ i. lookup i d) (sym ((eq_iff j k).0 t)) ∙ fresh in
        rw t (omega (arith, others-missing p k d gone))
    | inr t ↦ rw t (omega (arith, count-insert p k v d w))
  ]

  count-erase_le :
      (p : V → Bool) (k : String) (d : Dict V) → count p (values (erase k d)) ≤ count p (values d)
  unfolding erase
  count-erase_le p k [] = omega arith
  count-erase_le p k ((j, x) ∷ d) = ground (arith, count-erase_le p k d)

abbrev same_weight : ℤ → ℤ → Bool
same_weight a b = nat_eq (pos_part a) (pos_part b) && nat_eq (neg_part a) (neg_part b)

-- What sets a session's state, and what ends it.
pub data CpuMove : Type 0 where
  sets : String → SessionActivityState → ℕ → CpuMove
  refreshes : ℕ → List String → CpuMove
  ends : String → CpuMove

module _ (config : SchedulingConfig) where
  unfoldable pub cpu_move : CpuMove → CpuTables → CpuTables
  unfolding set_scheduler_state refresh_scheduling
  cpu_move (CpuMove.sets id activity now) t = set_scheduler_state config id activity now t
  cpu_move (CpuMove.refreshes now ids) t = refresh_scheduling config now ids t
  cpu_move (CpuMove.ends id) t = record t { states = erase id t.states }

  abbrev pub cpu_moves : List CpuMove → CpuTables → CpuTables
  cpu_moves [] t = t
  cpu_moves (m ∷ rest) t = cpu_moves rest (cpu_move m t)

  -- A session of high priority whose weight is not that of an overflow.
  abbrev pub at_full : SchedulerState → Bool
  at_full state =
      high_state state
      && not (
          same_weight state.scheduler_weight
            (overflow_cpu_policy_for_state config state.activity_state).scheduler_weight)

  record IsWithin (states : Dict SchedulerState) : Type 0 where
    distinct : Distinct states
    budget : count at_full (values states) ≤ config.high_priority_budget

  at_full-high : (state : SchedulerState) → at_full state ≡ true → high_state state ≡ true
  at_full-high state h = ground arith

  same_weight_refl : (a : ℤ) → same_weight a a ≡ true
  same_weight_refl a = ground arith

  set-states :
      (id : String) (activity : SessionActivityState) (now : ℕ) (t : CpuTables)
      → config.dynamic_cpu_policy ≡ true
      → config.hybrid_mode ≡ false
      → (set_scheduler_state config id activity now t).states
        ≡ insert id
            (next_state config
              (lookup id t.states)
              activity
              (chosen_policy config id activity now t.states).scheduler_weight
              now)
            t.states
  unfolding set_scheduler_state
  set-states id activity now t dynamic plain = elim (Bool-cases (includes t.pids id)) [
    | inl e ↦ rw (dynamic, plain, e)
    | inr e ↦ rw (dynamic, plain, e)
  ]

  -- A state that is set has the weight of an overflow where the budget is used up by others.
  new-at_full :
      (id : String) (activity : SessionActivityState) (now : ℕ) (states : Dict SchedulerState)
      → config.dynamic_cpu_policy ≡ true
      → config.hybrid_mode ≡ false
      → (at_full (
            next_state config
              (lookup id states)
              activity
              (chosen_policy config id activity now states).scheduler_weight
              now)
          ≡ false)
        ⊎ (concurrent_high config id states < config.high_priority_budget)
  unfolding chosen_policy
  new-at_full id activity now states dynamic plain =
      elim (Bool-cases
        (is_high activity && leb config.high_priority_budget (concurrent_high config id states))) [
          | inl e ↦
              let o = (overflow_cpu_policy_for_state config activity).scheduler_weight in
              inl (rw (dynamic, plain, e, same_weight_refl o) (ground arith))
          | inr e ↦ elim (Bool-cases (is_high activity)) [
            | inl high ↦ inr (ground arith)
            | inr low ↦ inl (rw low)
          ]
        ]

  set-IsWithin :
      (id : String) (activity : SessionActivityState) (now : ℕ) (t : CpuTables)
      → config.dynamic_cpu_policy ≡ true
      → config.hybrid_mode ≡ false
      → IsWithin t.states
      → IsWithin (set_scheduler_state config id activity now t).states
  unfolding concurrent_high
  set-IsWithin id activity now t dynamic plain w =
      let new =
        next_state config (lookup id t.states) activity
          (chosen_policy config id activity now t.states).scheduler_weight now in
      subst IsWithin (sym (set-states id activity now t dynamic plain)) (record {
        distinct = insert-Distinct id new t.states w.distinct;
        budget = elim (new-at_full id activity now t.states dynamic plain) [
          | inl e ↦ ground (
            arith,
            count-insert at_full id new t.states w.distinct,
            e,
            others-le at_full id t.states,
            w.budget,
          )
          | inr e ↦ ground (
            arith,
            count-insert at_full id new t.states w.distinct,
            others_mono at_full high_state id t.states at_full-high,
            e,
          )
        ];
      })

  refresh-IsWithin :
      (now : ℕ) (ids : List String) (t : CpuTables)
      → config.dynamic_cpu_policy ≡ true
      → config.hybrid_mode ≡ false
      → IsWithin t.states
      → IsWithin (refresh_scheduling config now ids t).states
  unfolding refresh_scheduling
  refresh-IsWithin now [] t dynamic plain w = w
  refresh-IsWithin now (id ∷ rest) t dynamic plain w =
      refresh-IsWithin now rest _ dynamic plain
        (refreshed (has_gone_quiet config now (lookup id t.states)))
    where
      refreshed :
          (b : Bool)
          → IsWithin (if b then set_scheduler_state config id interactive_idle now t else t).states
      refreshed true = set-IsWithin id interactive_idle now t dynamic plain w
      refreshed false = w

  move-IsWithin :
      (m : CpuMove) (t : CpuTables)
      → config.dynamic_cpu_policy ≡ true
      → config.hybrid_mode ≡ false
      → IsWithin t.states
      → IsWithin (cpu_move m t).states
  unfolding cpu_move
  move-IsWithin (CpuMove.sets id activity now) t dynamic plain w =
      set-IsWithin id activity now t dynamic plain w
  move-IsWithin (CpuMove.refreshes now ids) t dynamic plain w =
      refresh-IsWithin now ids t dynamic plain w
  move-IsWithin (CpuMove.ends id) t dynamic plain w = record {
    distinct = erase-Distinct id t.states w.distinct;
    budget = omega (arith, count-erase_le at_full id t.states, w.budget);
  }

  moves-IsWithin :
      (ms : List CpuMove) (t : CpuTables)
      → config.dynamic_cpu_policy ≡ true
      → config.hybrid_mode ≡ false
      → IsWithin t.states
      → IsWithin (cpu_moves ms t).states
  moves-IsWithin [] t dynamic plain w = w
  moves-IsWithin (m ∷ ms) t dynamic plain w =
      moves-IsWithin ms (cpu_move m t) dynamic plain (move-IsWithin m t dynamic plain w)

  -- With dynamic policies in the mode that has a budget, and whatever activities are set, sessions refreshed
  -- and sessions ended from the start on: at most the budget of sessions are launching or navigating
  -- with another weight than that of an overflow.
  pub cpu_moves-within_budget :
      (ms : List CpuMove) (t : CpuTables)
      → config.dynamic_cpu_policy ≡ true
      → config.hybrid_mode ≡ false
      → t.states ≡ []
      → count at_full (values (cpu_moves ms t).states) ≤ config.high_priority_budget
  cpu_moves-within_budget ms t dynamic plain e =
      (moves-IsWithin ms t dynamic plain
        (subst IsWithin (sym e) (record { distinct = tt; budget = omega arith }))).budget
