-- ===== src/Firecracker/Slots/Moves.antt =====
-- What may happen to the pool next, and the pools that some schedule leads to.
use base_layer.Base.{ℕ, Bool, true, false, [], String, ◌≡◌, ◌⊎◌, includes}
use base_layer.Firecracker.Slots.{
  NetworkPool, Claim, empty_pool, has, claim, validated, refused, rebuilt, rebuild_failed, resume,
  release, mark_slot_unhealthy, ensure_network_slot,
}

pub data SlotMove : Type 0 where
  claims : Bool → String → SlotMove
  validates : Claim → SlotMove
  refuses : Claim → SlotMove
  rebuilds : String → ℕ → SlotMove
  fails : String → SlotMove
  resumes : Claim → SlotMove
  releases : Claim → SlotMove
  marks_unhealthy : Claim → SlotMove
  prepares : String → SlotMove

unfoldable pub slot_move : SlotMove → NetworkPool → NetworkPool
unfolding claim validated refused rebuilt rebuild_failed resume release mark_slot_unhealthy
    ensure_network_slot
slot_move (SlotMove.claims always session) pool = claim always session pool
slot_move (SlotMove.validates c) pool = validated c pool
slot_move (SlotMove.refuses c) pool = refused c pool
slot_move (SlotMove.rebuilds id index) pool = rebuilt id index pool
slot_move (SlotMove.fails id) pool = rebuild_failed id pool
slot_move (SlotMove.resumes c) pool = resume c pool
slot_move (SlotMove.releases c) pool = release c pool
slot_move (SlotMove.marks_unhealthy c) pool = mark_slot_unhealthy c pool
slot_move (SlotMove.prepares id) pool = ensure_network_slot id pool

-- A claim goes on only where it is, and a rebuild ends only where one is under way. A machine may be
-- destroyed any number of times: each releases the slot of its claim or marks it, by the slot's id,
-- whoever has the slot by then.
abbrev pub Allowed : SlotMove → NetworkPool → Type 0
Allowed (SlotMove.claims always session) pool = Unit {0}
Allowed (SlotMove.validates c) pool = has c pool.validating ≡ true
Allowed (SlotMove.refuses c) pool = has c pool.validating ≡ true
Allowed (SlotMove.rebuilds id index) pool = includes pool.rebuilds id ≡ true
Allowed (SlotMove.fails id) pool = includes pool.rebuilds id ≡ true
Allowed (SlotMove.resumes c) pool = has c pool.woken ≡ true
Allowed (SlotMove.releases c) pool = Unit {0}
Allowed (SlotMove.marks_unhealthy c) pool = Unit {0}
Allowed (SlotMove.prepares id) pool = Unit {0}

-- No new claim while one whose rebuild is done has yet to go on, no machine ends twice, and a slot that is
-- marked after the release is still in the list, with no claim that is about to go on.
abbrev pub Orderly : SlotMove → NetworkPool → Type 0
Orderly (SlotMove.claims always session) pool = pool.woken ≡ []
Orderly (SlotMove.releases c) pool = has c pool.owned ≡ true
Orderly (SlotMove.marks_unhealthy c) pool =
    (has c pool.owned ≡ true)
    ⊎ ((has c pool.owned ≡ false) × (includes pool.free_ids c.1 ≡ true) × (pool.woken ≡ []))
Orderly m pool = Unit {0}

pub data SlotReachable : NetworkPool → Type 0 where
  start : SlotReachable empty_pool
  then_move :
      {pool : NetworkPool}
      → SlotReachable pool
      → (m : SlotMove) → Allowed m pool
      → SlotReachable (slot_move m pool)

pub data OrderlyReachable : NetworkPool → Type 0 where
  start : OrderlyReachable empty_pool
  then_move :
      {pool : NetworkPool}
      → OrderlyReachable pool
      → (m : SlotMove) → Allowed m pool
      → Orderly m pool
      → OrderlyReachable (slot_move m pool)
