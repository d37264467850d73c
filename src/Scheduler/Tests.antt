-- ===== src/Scheduler/Tests.antt =====
-- The scheduler on three hosts.
use base_layer.Base.{
  ℕ, Bool, true, false, Option, none, some, List, [], ◌∷◌, String, ◌≡◌, refl, arith, Memᴰ, inl, inr,
  Result, ok, err, scheduler_error, ◌⊎◌, truthy, ◌↔◌,
}
use base_layer.Base.Int.{ℤ, ◌≤ℤ◌}
use base_layer.Types.{HostRecord}
use base_layer.Samples.{platform, eu, us, full}
use base_layer.Scheduler.{
  HostSelectionOptions, choose_host, score_host, eligible, matching_warm_ready_count,
}
use base_layer.Scheduler.Admission.{Admits, eligible_iff}
use base_layer.Scheduler.Choice.{
  choose_host-Admits, choose_host-best, choose_host-region, choose_host-fails_iff,
}

abbrev hosts : List HostRecord
hosts = full ∷ us ∷ eu ∷ []

abbrev anywhere : HostSelectionOptions
anywhere = record { preferred_region = none; runtime_profile = some "chrome" }

abbrev in_us : HostSelectionOptions
in_us = record { preferred_region = some "us"; runtime_profile = some "chrome" }

-- The warm host is taken, and the one in the preferred region where there is a preference.
takes_warm : choose_host platform.percent hosts anywhere ≡ ok eu
unfolding choose_host base_layer.Base.includes matching_warm_ready_count base_layer.Base.Sort.sort
    base_layer.Base.Int.◌-ℤ◌ score_host base_layer.Base.Int.◌+ℤ◌ base_layer.Base.Int.◌*ℤ◌
takes_warm = refl

takes_region : choose_host platform.percent hosts in_us ≡ ok us
unfolding choose_host base_layer.Base.includes matching_warm_ready_count base_layer.Base.Sort.sort
takes_region = refl

takes_none : choose_host platform.percent (full ∷ []) anywhere ≡ err scheduler_error
unfolding choose_host base_layer.Base.includes matching_warm_ready_count
takes_none = refl

us_admitted : eligible platform.percent in_us us ≡ true
unfolding eligible base_layer.Base.includes matching_warm_ready_count
us_admitted = refl

us-Admits : Admits platform.percent in_us us (matching_warm_ready_count us (some "chrome"))
us-Admits = (eligible_iff platform.percent in_us us).0 us_admitted

us_admitted_anywhere : eligible platform.percent anywhere us ≡ true
unfolding eligible base_layer.Base.includes matching_warm_ready_count
us_admitted_anywhere = refl

us-Admits-anywhere :
    Admits platform.percent anywhere us (matching_warm_ready_count us (some "chrome"))
us-Admits-anywhere = (eligible_iff platform.percent anywhere us).0 us_admitted_anywhere

eligible_iff_example :
    (eligible platform.percent in_us us ≡ true)
    ↔ Admits platform.percent in_us us (matching_warm_ready_count us (some "chrome"))
eligible_iff_example = eligible_iff platform.percent in_us us

choose_host-Admits_case :
    Memᴰ eu hosts
    × Admits platform.percent anywhere eu (matching_warm_ready_count eu (some "chrome"))
choose_host-Admits_case = choose_host-Admits platform.percent hosts anywhere takes_warm

choose_host-region_case : us.region ≡ some "us"
choose_host-region_case =
    choose_host-region platform.percent hosts in_us takes_region refl (Memᴰ.tail (Memᴰ.head refl))
      us-Admits refl

choose_host-best_example : score_host anywhere us ≤ℤ score_host anywhere eu
choose_host-best_example =
    choose_host-best platform.percent hosts anywhere takes_warm (Memᴰ.tail (Memᴰ.head refl))
      us-Admits-anywhere (inr (inl refl))

choose_host-fails_iff_example :
    (choose_host platform.percent (full ∷ []) anywhere ≡ err scheduler_error) ↔ (
      (g : HostRecord)
      → Memᴰ g (full ∷ [])
      → ¬ Admits platform.percent anywhere g (matching_warm_ready_count g (some "chrome")))
choose_host-fails_iff_example = choose_host-fails_iff platform.percent (full ∷ []) anywhere
