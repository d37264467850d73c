-- ===== src/Agent/Admission/Tests.antt =====
-- Admission on a small host.
use base_layer.Base.{
  ℕ, ◌+◌, ◌*◌, ◌/◌, ◌≤◌, ◌<◌, [], ◌∷◌, ◌≡◌, ◌⊎◌, ◌↔◌, refl, arith, ok, err, message, if◌then◌else◌,
  nat_eq, ◌-◌,
}
use base_layer.Types.{AgentMode, firecracker, managed}
use base_layer.Agent.Admission.{
  AgentConfig, HostSample, AgentCounts, projected_microvm_count, assert_admission, derive_status,
  cold_admit_remaining,
}
use base_layer.Agent.Crashes.{count_crashes, record_crash}
use base_layer.Agent.Admission.Laws.{
  record_all, count_crashes-record_all, healthy-admits, cold_admit_remaining-fits,
}

abbrev config : AgentMode → AgentConfig
config mode = record {
  mode = mode;
  max_sessions = 4;
  max_renderer_count = 8;
  session_renderer_limit = 2;
  warm_renderer_budget = 1;
  session_memory_reservation_mb = 256;
  session_admission_memory_mb = 512;
  session_admission_shm_mb = 64;
  min_free_memory_mb = 512;
  max_shm_utilization_pct = 90;
  max_crash_count_5m = 3;
  max_microvm_count = 4;
  guest_memory_mb = 512;
  cpu_admission_pct = 95;
  load_threshold = 8;
  max_concurrent_active_navigation = 0;
}

abbrev sample : HostSample
sample = record {
  total_memory_mb = 8192;
  free_memory_mb = 4096;
  shm_capacity_mb = 1000;
  shm_used_mb = 100;
  cpu_utilization_pct = 50;
  load_avg_1m = 2;
}

abbrev counts : ℕ → AgentCounts
counts launching = record {
  sessions = [];
  launch_reservations = launching;
  warm_pool = 0;
  warm_ready = 0;
  preparing_warm = 0;
  preparing_sessions = 0;
  active_microvms = 2;
  active_navigation_sessions = 0;
}

abbrev percent : ℕ → ℕ → ℕ
percent part whole = if nat_eq whole 0 then 0 else part * 100 / whole

count_crashes-record_all_case :
    count_crashes (400000 - 300000) (record_all (50 ∷ 350000 ∷ 390000 ∷ []) [])
    ≡ count_crashes (400000 - 300000) []
      + count_crashes (400000 - 300000) (50 ∷ 350000 ∷ 390000 ∷ [])
count_crashes-record_all_case =
    count_crashes-record_all 400000 (50 ∷ 350000 ∷ 390000 ∷ []) [] (omega arith)

-- The old crash is gone.
dropped : record_all (50 ∷ 350000 ∷ 390000 ∷ []) [] ≡ 350000 ∷ 390000 ∷ []
unfolding record_crash
dropped = refl

healthy-admits_example :
    (assert_admission (config firecracker) 1 sample (counts 1) ≡ ok tt)
    ⊎ ((4 < projected_microvm_count (config firecracker) (counts 1))
        ⊎ (8192 - 512 < projected_microvm_count (config firecracker) (counts 1) * 512))
unfolding derive_status
healthy-admits_example =
    healthy-admits (config firecracker) percent 1 sample (counts 1) 1 1 refl refl

cold_admit_remaining-fits_case :
    (0 < cold_admit_remaining (config firecracker) 1 (counts 1))
    ↔ (projected_microvm_count (config firecracker) (counts 2) ≤ 4)
cold_admit_remaining-fits_case = cold_admit_remaining-fits (config firecracker) 1 (counts 1) refl

-- Containers: three launches, of which none is warm, need six renderers, and five need ten.
fits : assert_admission (config managed) 0 sample (counts 3) ≡ ok tt
unfolding assert_admission
fits = refl

over :
    assert_admission (config managed) 0 sample (counts 5)
    ≡ err (message "Host renderer capacity would be exceeded by another session.")
unfolding assert_admission
over = refl
