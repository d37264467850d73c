-- ===== src/Agent/Launch.antt =====
-- `NodeAgent`'s launch reservations: `#reserveLaunchSlot` and what `launchSession` and
-- `terminateSession` do with them, in the mode of microVMs and in those of containers. The maps and sets
-- are lists of the keys and of the entries, in the order of insertion.
pub mod Laws
pub mod Containers
mod Tests
use base_layer.Base.{
  ℕ, ◌+◌, ◌-◌, Bool, true, false, ◌||◌, not, Option, none, some, List, [], ◌∷◌, ◌++◌, String, ◌==◌,
  ltb, leb, length, ◌≡◌, ◌<◌, includes, if◌then◌else◌,
}
use base_layer.Base.Dict.{Dict, insert, erase}
use base_layer.Base.Sets.{add, remove}

pub record Launches : Type 0 where
  -- `#sessions`
  pub sessions : List String
  -- `#launchReservations`, with the time of each
  pub reservations : Dict ℕ
  -- `#activeFirecrackerLaunchSessionIds`
  pub launching : List String
  -- the length of `#firecrackerWarmPoolSessionIds`
  pub warm_ready : ℕ

unfoldable pub idle_launches : Launches
idle_launches = record { sessions = []; reservations = []; launching = []; warm_ready = 0 }

-- A launch begins, the warm pool gives a session away, a launch ends, a session ends, the pool gets a
-- session, the monitor prunes.
pub data LaunchMove : Type 0 where
  begins : String → ℕ → (String → Bool) → LaunchMove
  claims_warm : LaunchMove
  succeeds : String → LaunchMove
  fails : String → LaunchMove
  terminates : String → LaunchMove
  fills_warm : LaunchMove
  prunes : ℕ → (String → Bool) → LaunchMove

-- `microvms` says whether the agent's mode is that of microVMs.
module _ (microvms : Bool) (max_sessions warm_pool_size stale_threshold_ms : ℕ) where
  -- The loop's body in `#pruneStaleLaunchReservations`: whether a reservation stays.
  abbrev pub reservation_kept : ℕ → (String → Bool) → Launches → String → ℕ → Bool
  reservation_kept now has_machine s id reserved_at =
      ltb (now - reserved_at) stale_threshold_ms
      || includes s.launching id
      || includes s.sessions id
      || has_machine id

  unfoldable pub prune_from : ℕ → (String → Bool) → Launches → Dict ℕ → Dict ℕ
  prune_from now has_machine s [] = []
  prune_from now has_machine s ((id, reserved_at) ∷ rest) =
      let later = prune_from now has_machine s rest in
      if reservation_kept now has_machine s id reserved_at then (id, reserved_at) ∷ later else later

  unfoldable pub prune_stale_launch_reservations : ℕ → (String → Bool) → Launches → Launches
  unfolding prune_from
  prune_stale_launch_reservations now has_machine s = record s {
    reservations = prune_from now has_machine s s.reservations;
  }

  unfoldable pub has_launch_capacity : Launches → Bool
  has_launch_capacity s =
      ltb (length s.sessions + length s.reservations)
        (max_sessions + (if microvms then s.warm_ready else 0))

  -- One round of the loop in `#reserveLaunchSlot`, and the launch that starts where it returns, which only
  -- the mode of microVMs marks as under way.
  -- `has_machine` is the orchestrator's `hasSession`.
  unfoldable pub try_reserve : String → ℕ → (String → Bool) → Launches → Launches × Bool
  unfolding prune_stale_launch_reservations has_launch_capacity
  try_reserve id now has_machine s =
      let pruned = prune_stale_launch_reservations now has_machine s in
      if has_launch_capacity pruned
      then (
        record pruned {
          reservations = insert id now pruned.reservations;
          launching = if microvms then add id pruned.launching else pruned.launching;
        },
        true,
      )
      else (pruned, false)

  -- The `finally` of `launchSession`.
  unfoldable pub settle_launch : String → Launches → Launches
  unfolding remove
  settle_launch id s = record s {
    launching = remove id s.launching;
    reservations = erase id s.reservations;
  }

  unfoldable pub launch_move : LaunchMove → Launches → Launches
  unfolding try_reserve settle_launch prune_stale_launch_reservations
  launch_move (LaunchMove.begins id now has_machine) s = (try_reserve id now has_machine s).0
  launch_move LaunchMove.claims_warm s = record s { warm_ready = s.warm_ready - 1 }
  launch_move (LaunchMove.succeeds id) s =
      settle_launch id (record s { sessions = add id s.sessions })
  launch_move (LaunchMove.fails id) s = settle_launch id s
  launch_move (LaunchMove.terminates id) s = record s { sessions = remove id s.sessions }
  launch_move LaunchMove.fills_warm s = record s { warm_ready = s.warm_ready + 1 }
  launch_move (LaunchMove.prunes now has_machine) s =
      prune_stale_launch_reservations now has_machine s

  -- The control plane gives no id to two launches at a time, a launch of a microVM ends after it has begun,
  -- and the pool is not filled above its size.
  abbrev pub Allowed : LaunchMove → Launches → Type 0
  Allowed (LaunchMove.begins id now has_machine) s = includes s.launching id ≡ false
  Allowed LaunchMove.claims_warm s = Unit {0}
  Allowed (LaunchMove.succeeds id) s = microvms ≡ true → includes s.launching id ≡ true
  Allowed (LaunchMove.fails id) s = microvms ≡ true → includes s.launching id ≡ true
  Allowed (LaunchMove.terminates id) s = Unit {0}
  Allowed LaunchMove.fills_warm s = s.warm_ready < warm_pool_size
  Allowed (LaunchMove.prunes now has_machine) s = Unit {0}

  -- The states that some schedule leads to.
  pub data LaunchReachable : Launches → Type 0 where
    start : LaunchReachable idle_launches
    then_move :
        {s : Launches}
        → LaunchReachable s
        → (m : LaunchMove) → Allowed m s
        → LaunchReachable (launch_move m s)
