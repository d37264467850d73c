-- ===== src/Firecracker/Machines/Tests.antt =====
-- A warm machine, a claim of it, a probe that fails late, a launch that is reconciled away.
use base_layer.Base.{
  ℕ, Bool, true, false, Option, none, some, List, [], ◌∷◌, String, ◌≡◌, ◌≢◌, ◌⊎◌, refl, arith, Memᴰ,
  eq_iff,
}
use base_layer.Base.Dict.{lookup}
use base_layer.Firecracker.Machines.{
  Machines, no_machines, restored, warm_prepared, claim_warm_session, probe_warm, probe_failed,
  reconcile_tracked_sessions, tracked_ids, warm_ready_count,
}
use base_layer.Firecracker.Machines.Probe.{probe_failed-claimed}
use base_layer.Firecracker.Machines.Reconcile.{reconcile_tracked_sessions-drops_launch}
use base_layer.Firecracker.Machines.Warm.{Taken, claim_warm_session-once}

abbrev live : ℕ → Bool
live machine = true

abbrev warm : Machines
warm = warm_prepared "w" "chrome" 1000 (restored "w" 7 no_machines)

abbrev claimed : Machines
claimed = (claim_warm_session live "w" "s" (probe_warm 500 9000 "w" warm).0).0

abbrev late : Machines
late = probe_failed "w" 7 claimed

probes : (probe_warm 500 9000 "w" warm).1 ≡ some 7
unfolding probe_warm lookup warm_prepared base_layer.Base.Dict.insert restored no_machines
probes = refl

claims : (claim_warm_session live "w" "s" (probe_warm 500 9000 "w" warm).0).1 ≡ some 7
unfolding claim_warm_session base_layer.Base.includes probe_warm lookup warm_prepared
    base_layer.Base.Dict.insert restored no_machines
claims = refl

probe_failed-claimed_example : (lookup "s" late.sessions ≡ some 7) × Memᴰ 7 late.destroyed
probe_failed-claimed_example =
    probe_failed-claimed live 500 9000 "w" "s" warm {machine = 7}
      (λ e. ground (arith, (eq_iff "s" "w").1 e)) probes (λ e. cc (claims, e))

abbrev ticked : Machines
ticked = reconcile_tracked_sessions (tracked_ids ("s" ∷ []) ("w" ∷ [])) (restored "n" 8 warm)

reconcile_tracked_sessions-drops_launch_example :
    (lookup "n" ticked.sessions ≡ none) × Memᴰ 8 ticked.destroyed
unfolding base_layer.Base.includes warm_prepared restored no_machines
reconcile_tracked_sessions-drops_launch_example =
    reconcile_tracked_sessions-drops_launch ("s" ∷ []) ("w" ∷ []) "n" 8 warm refl refl refl

ready : warm_ready_count (some "chrome") warm ≡ 1
unfolding warm_ready_count warm_prepared base_layer.Base.includes restored no_machines lookup
    base_layer.Base.Dict.insert
ready = refl

claim_warm_session-once_example :
    (((claim_warm_session live "w" "s" warm).1 ≡ none)
      ⊎ Taken live "w" "s" warm
          (claim_warm_session live "w" "s" warm).0
          (claim_warm_session live "w" "s" warm).1)
    × (claim_warm_session live "w" "t" (claim_warm_session live "w" "s" warm).0
        ≡ ((claim_warm_session live "w" "s" warm).0, none))
claim_warm_session-once_example = claim_warm_session-once live live "w" "s" "t" warm

-- The first of the two has got the machine.
got : (claim_warm_session live "w" "s" warm).1 ≡ some 7
unfolding claim_warm_session base_layer.Base.includes warm_prepared restored no_machines lookup
    base_layer.Base.Dict.insert
got = refl
