-- ===== src/Firecracker/Slots/Tests.antt =====
-- A pool of one slot that several sessions want.
use base_layer.Base.{
  ℕ, ◌+◌, ◌≤◌, Bool, true, false, Option, none, some, List, [], ◌∷◌, String, ◌≡◌, ◌⊎◌, refl, inl,
  inr, arith, includes,
}
use base_layer.Firecracker.Slots.{NetworkPool, empty_pool, free, reserved, has, slot_state}
use base_layer.Firecracker.Slots.Moves.{SlotMove, slot_move, SlotReachable, OrderlyReachable}
use base_layer.Firecracker.Slots.Counts.{claims_of, times}
use base_layer.Firecracker.Slots.Exclusive.{claims_of-exclusive}
use base_layer.Firecracker.Slots.Twice.{claimed, claimed-twice, reused, released-twice}

abbrev prepared : NetworkPool
prepared =
    slot_move (SlotMove.rebuilds "slot00" 0) (slot_move (SlotMove.prepares "slot00") empty_pool)

-- The first session's claim is refused by the validation.
abbrev waiting : NetworkPool
waiting =
    slot_move (SlotMove.refuses ("a", "slot00")) (slot_move (SlotMove.claims true "a") prepared)

waiting-Reachable : OrderlyReachable waiting
unfolding includes slot_move base_layer.Base.Dict.lookup empty_pool base_layer.Base.Sort.sort
    base_layer.Base.Dict.insert
waiting-Reachable =
    OrderlyReachable.then_move
      (OrderlyReachable.then_move
        (OrderlyReachable.then_move
          (OrderlyReachable.then_move OrderlyReachable.start (SlotMove.prepares "slot00") tt tt)
          (SlotMove.rebuilds "slot00" 0) refl tt)
        (SlotMove.claims true "a") tt refl)
      (SlotMove.refuses ("a", "slot00")) refl tt

-- The slot is marked, for a machine that has been destroyed before, while its next claim is being validated.
-- A third session finds no slot and awaits the rebuild, and then the validation fails.
abbrev overtaken : NetworkPool
overtaken = slot_move (SlotMove.refuses ("a", "slot00")) (
    slot_move (SlotMove.marks_unhealthy ("s", "slot00")) (
      slot_move (SlotMove.claims false "a") (
        slot_move (SlotMove.releases ("s", "slot00"))
          (slot_move (SlotMove.claims false "s") prepared))))

overtaken_reached : SlotReachable overtaken
unfolding includes slot_move base_layer.Base.Dict.lookup empty_pool base_layer.Base.Sort.sort
    base_layer.Base.Dict.insert
overtaken_reached =
    SlotReachable.then_move
      (SlotReachable.then_move
        (SlotReachable.then_move
          (SlotReachable.then_move
            (SlotReachable.then_move
              (SlotReachable.then_move
                (SlotReachable.then_move SlotReachable.start (SlotMove.prepares "slot00") tt)
                (SlotMove.rebuilds "slot00" 0) refl)
              (SlotMove.claims false "s") tt)
            (SlotMove.releases ("s", "slot00")) tt)
          (SlotMove.claims false "a") tt)
        (SlotMove.marks_unhealthy ("s", "slot00")) tt)
      (SlotMove.refuses ("a", "slot00")) refl

-- The slot is the second session's, after the first has released it.
abbrev passed_on : NetworkPool
passed_on = slot_move (SlotMove.validates ("b", "slot00")) (
    slot_move (SlotMove.claims true "b") (
      slot_move (SlotMove.releases ("a", "slot00"))
        (slot_move (SlotMove.claims false "a") prepared)))

passed_on_reached : SlotReachable passed_on
unfolding includes slot_move base_layer.Base.Dict.lookup empty_pool base_layer.Base.Sort.sort
    base_layer.Base.Dict.insert
passed_on_reached =
    SlotReachable.then_move
      (SlotReachable.then_move
        (SlotReachable.then_move
          (SlotReachable.then_move
            (SlotReachable.then_move
              (SlotReachable.then_move SlotReachable.start (SlotMove.prepares "slot00") tt)
              (SlotMove.rebuilds "slot00" 0) refl)
            (SlotMove.claims false "a") tt)
          (SlotMove.releases ("a", "slot00")) tt)
        (SlotMove.claims true "b") tt)
      (SlotMove.validates ("b", "slot00")) refl

claims_of-exclusive_example :
    (times "slot00" waiting.free_ids
        + claims_of "slot00" waiting.validating
        + claims_of "slot00" waiting.owned
      ≤ 1)
    × ((claims_of "slot00" waiting.owned ≡ 0) ⊎ (slot_state waiting.slots "slot00" ≡ some reserved))
    × ((times "slot00" waiting.free_ids ≡ 0) ⊎ (slot_state waiting.slots "slot00" ≡ some free))
claims_of-exclusive_example = claims_of-exclusive {pool = waiting} "slot00" waiting-Reachable

claimed-twice_example :
    SlotReachable (claimed "a" "b" "slot00" 0 overtaken)
    × (has ("a", "slot00") (claimed "a" "b" "slot00" 0 overtaken).owned ≡ true)
    × (has ("b", "slot00") (claimed "a" "b" "slot00" 0 overtaken).owned ≡ true)
    × (2 ≤ claims_of "slot00" (claimed "a" "b" "slot00" 0 overtaken).owned)
unfolding slot_move base_layer.Base.Sort.sort includes base_layer.Base.Dict.lookup empty_pool
    base_layer.Base.Dict.insert
claimed-twice_example = claimed-twice overtaken "a" "b" "slot00" 0 overtaken_reached refl refl refl

released-twice_example :
    SlotReachable (reused "a" "c" "slot00" passed_on)
    × (has ("b", "slot00") (reused "a" "c" "slot00" passed_on).owned ≡ true)
    × (has ("c", "slot00") (reused "a" "c" "slot00" passed_on).owned ≡ true)
    × (2 ≤ claims_of "slot00" (reused "a" "c" "slot00" passed_on).owned)
unfolding slot_move base_layer.Base.Sort.sort includes base_layer.Base.Dict.lookup empty_pool
    base_layer.Base.Dict.insert
released-twice_example =
    released-twice passed_on "a" "b" "c" "slot00" passed_on_reached refl refl refl refl
