-- ===== src/Agent/Launch/Containers.antt =====
-- A launch that takes long in a mode of containers, where nothing marks it as under way.
use base_layer.Base.{
  ℕ, ◌-◌, ◌≤◌, ◌<◌, Bool, true, false, none, [], ◌∷◌, String, ◌==◌, ◌≡◌, ◌≢◌, ltb, refl, arith,
  length, includes, eq_iff, Bool-cases, inl, inr,
}
use base_layer.Agent.Launch.{
  Launches, idle_launches, LaunchMove, launch_move, LaunchReachable, prune_from,
  prune_stale_launch_reservations, has_launch_capacity, try_reserve, settle_launch,
}

module _ (warm_pool_size stale_threshold_ms : ℕ) (id other : String) (at now : ℕ)
    (has_machine : String → Bool) where
  abbrev moved : LaunchMove → Launches → Launches
  moved = launch_move false 1 warm_pool_size stale_threshold_ms

  abbrev reserved_once : Launches
  reserved_once = record idle_launches { reservations = (id, at) ∷ [] }

  abbrev pub overrun : Launches
  overrun = moved (LaunchMove.succeeds other) (
      moved (LaunchMove.succeeds id) (
        moved (LaunchMove.begins other now has_machine)
          (moved (LaunchMove.begins id at has_machine) idle_launches)))

  begun : moved (LaunchMove.begins id at has_machine) idle_launches ≡ reserved_once
  unfolding launch_move try_reserve has_launch_capacity prune_stale_launch_reservations prune_from
      idle_launches base_layer.Base.Dict.insert
  begun = refl

  next_begins :
      stale_threshold_ms ≤ now - at
      → has_machine id ≡ false
      → moved (LaunchMove.begins other now has_machine) reserved_once
        ≡ record idle_launches { reservations = (other, now) ∷ [] }
  unfolding launch_move try_reserve has_launch_capacity prune_stale_launch_reservations prune_from
      idle_launches base_layer.Base.Dict.insert includes
  next_begins late gone = ground (arith, late, gone)

  both_end :
      id ≢ other
      → length
          (moved (LaunchMove.succeeds other) (
            moved
              (LaunchMove.succeeds id)
              (record idle_launches { reservations = (other, now) ∷ [] }))).sessions
        ≡ 2
  unfolding launch_move settle_launch idle_launches includes
  both_end apart = elim (Bool-cases (id == other)) [
    | inl t ↦ absurd (apart ((eq_iff id other).0 t))
    | inr t ↦ rw t refl
  ]

  -- In a mode of containers with one configured session, a launch begins and takes at least the threshold
  -- for stale reservations without having its container yet; a second one then begins, both succeed,
  -- and there are two sessions.
  pub launch-overruns :
      id ≢ other
      → has_machine id ≡ false
      → stale_threshold_ms ≤ now - at
      → LaunchReachable false 1 warm_pool_size stale_threshold_ms overrun
        × (length overrun.sessions ≡ 2)
  unfolding idle_launches includes
  launch-overruns apart gone late = (
    LaunchReachable.then_move
        (LaunchReachable.then_move
          (LaunchReachable.then_move
            (LaunchReachable.then_move LaunchReachable.start (LaunchMove.begins id at has_machine)
              refl)
            (LaunchMove.begins other now has_machine) (rw begun refl))
          (LaunchMove.succeeds id) (λ e. absurd (ground (arith, e))))
        (LaunchMove.succeeds other) (λ e. absurd (ground (arith, e))),
    rw (begun, next_begins late gone) (both_end apart),
  )
