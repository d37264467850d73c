-- ===== src/Agent/Launch/Tests.antt =====
-- A launch beyond the configured sessions, which borrows from the warm pool.
use base_layer.Base.{
  ℕ, ◌+◌, ◌≤◌, Bool, true, false, Option, none, some, List, [], ◌∷◌, String, ◌≡◌, ◌≢◌, ◌⊎◌, refl,
  arith, length, includes, eq_iff,
}
use base_layer.Base.Dict.{lookup}
use base_layer.Agent.Launch.{Launches, idle_launches, LaunchMove, launch_move, LaunchReachable}
use base_layer.Agent.Launch.Laws.{launch-within_capacity}
use base_layer.Agent.Launch.Containers.{overrun, launch-overruns}

abbrev no_machine : String → Bool
no_machine id = false

-- One session allowed, a pool of one.
abbrev one : LaunchMove → Launches → Launches
one = launch_move true 1 1 35000

abbrev first : Launches
first = one (LaunchMove.begins "a" 10 no_machine) (one LaunchMove.fills_warm idle_launches)

abbrev second : Launches
second = one (LaunchMove.begins "b" 50000 no_machine) first

second-Reachable : LaunchReachable true 1 1 35000 second
unfolding idle_launches includes launch_move
second-Reachable =
    LaunchReachable.then_move
      (LaunchReachable.then_move
        (LaunchReachable.then_move LaunchReachable.start LaunchMove.fills_warm (omega arith))
        (LaunchMove.begins "a" 10 no_machine) refl)
      (LaunchMove.begins "b" 50000 no_machine) refl

launch-within_capacity_example :
    (length second.sessions + length second.reservations ≤ 1 + 1)
    × ((includes second.launching "a" ≡ false) ⊎ (lookup "a" second.reservations ≢ none))
launch-within_capacity_example = launch-within_capacity 1 1 35000 {s = second} "a" second-Reachable

-- The first launch has taken longer than the threshold and keeps its reservation.
both : second.reservations ≡ ("a", 10) ∷ ("b", 50000) ∷ []
unfolding launch_move idle_launches base_layer.Base.Dict.insert includes
both = refl

launch-overruns_example :
    LaunchReachable false 1 1 35000 (overrun 1 35000 "a" "b" 10 50000 no_machine)
    × (length (overrun 1 35000 "a" "b" 10 50000 no_machine).sessions ≡ 2)
launch-overruns_example =
    launch-overruns 1 35000 "a" "b" 10 50000 no_machine (λ e. ground (arith, (eq_iff "a" "b").1 e))
      refl (omega arith)
