-- ===== src/Agent/Admission/Laws.antt =====
-- What admission promises.
use base_layer.Base.{
  ℕ, ◌+◌, ◌-◌, ◌*◌, ◌≤◌, ◌<◌, List, [], ◌∷◌, ◌++◌, ltb, leb, ◌≡◌, ◌⊎◌, ◌↔◌, inl, inr, refl, ◌∙◌,
  arith, ok, Bool-cases, count-append,
}
use base_layer.Types.{firecracker, healthy}
use base_layer.Agent.Admission.{
  AgentConfig, HostSample, AgentCounts, refuse, projected_microvm_count, assert_microvm_admission,
  assert_admission, derive_status, cold_admit_remaining, allocatable_memory_mb,
}
use base_layer.Agent.Crashes.{shift_old, record_crash, count_crashes}

-- Events that are shifted out count for no later window.
count-shift_old :
    (cutoff since : ℕ) (events : List ℕ)
    → cutoff ≤ since
    → count_crashes since (shift_old cutoff events) ≡ count_crashes since events
unfolding count_crashes shift_old
count-shift_old cutoff since [] h = refl
count-shift_old cutoff since (event ∷ rest) h = ground (arith, count-shift_old cutoff since rest h)

-- The crashes of a process, in the order in which they are recorded.
abbrev pub record_all : List ℕ → List ℕ → List ℕ
record_all [] events = events
record_all (now ∷ rest) events = record_all rest (record_crash now events)

abbrev pub Before : ℕ → List ℕ → Type 0
Before now [] = Unit {0}
Before now (event ∷ rest) = (event ≤ now) × Before now rest

-- However crashes are recorded, in any order of times, the ones that are counted for the five minutes
-- before a time that none of them is after are all that fall into them: what has been dropped is older.
pub count_crashes-record_all :
    (now : ℕ) (times events : List ℕ)
    → Before now times
    → count_crashes (now - 300000) (record_all times events)
      ≡ count_crashes (now - 300000) events + count_crashes (now - 300000) times
unfolding count_crashes record_crash
count_crashes-record_all now [] events h = omega arith
count_crashes-record_all now (t ∷ rest) events (first, h) =
    count_crashes-record_all now rest (record_crash t events) h
    ∙ omega (
      arith,
      count-shift_old (t - 300000) (now - 300000) (events ++ (t ∷ [])) (omega arith),
      count-append (λ event. leb (now - 300000) event) events (t ∷ []),
    )

-- A host that reports `healthy` refuses no session for want of free memory, for crashes, for load or for
-- navigation: in the mode of microVMs only the microVMs or the memory that the launches are projected
-- to take can be in the way.
pub healthy-admits :
    (config : AgentConfig) (percent : ℕ → ℕ → ℕ) (crashes : ℕ) (metrics : HostSample)
    (counts : AgentCounts) (active_sessions active_renderers : ℕ)
    → config.mode ≡ firecracker
    → derive_status config percent crashes metrics counts active_sessions active_renderers ≡ healthy
    → (assert_admission config crashes metrics counts ≡ ok tt)
      ⊎ ((config.max_microvm_count < projected_microvm_count config counts)
          ⊎ (allocatable_memory_mb config metrics
              < projected_microvm_count config counts * config.guest_memory_mb))
unfolding derive_status assert_admission assert_microvm_admission refuse
healthy-admits config percent crashes metrics counts active_sessions active_renderers mode h =
    elim (Bool-cases (ltb config.max_microvm_count (projected_microvm_count config counts))) [
      | inl over ↦ inr (inl (ground arith))
      | inr fits ↦
          elim (Bool-cases (
            ltb (allocatable_memory_mb config metrics)
              (projected_microvm_count config counts * config.guest_memory_mb))) [
                | inl over ↦ inr (inr (ground arith))
                | inr within ↦ inl (ground arith)
              ]
    ]

-- In the mode of microVMs the cold admissions that a heartbeat reports are what the control plane may
-- still send: some are left exactly where one launch more, with its reservation counted, still fits.
pub cold_admit_remaining-fits :
    (config : AgentConfig) (active_sessions : ℕ) (counts : AgentCounts)
    → config.mode ≡ firecracker
    → (0 < cold_admit_remaining config active_sessions counts) ↔ (
        projected_microvm_count config
          (record counts { launch_reservations = counts.launch_reservations + 1 })
        ≤ config.max_microvm_count)
unfolding cold_admit_remaining projected_microvm_count
cold_admit_remaining-fits config active_sessions counts mode = ground arith
