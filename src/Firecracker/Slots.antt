-- ===== src/Firecracker/Slots.antt =====
-- The pool of network slots. Between two awaits a method runs alone, so each move below is what a
-- method does up to its next await. A claim is written as the session and the slot that it is about. It
-- names its slot by the id where the code holds the record: the two differ only where a rebuild of a
-- slot ends while a claim of it is being validated, which takes a machine that is destroyed twice or a
-- slot that is marked after its release. The names and addresses that the record repeats, and the time of its last validation, which
-- is only ever written, are left out.
pub mod Moves
pub mod Counts
pub mod Phase
pub mod Rebuilds
pub mod Exclusive
pub mod Twice
mod Tests
use Prim.Native.String.{compare}
use text.Mathlib.Text.{is_lt}
use base_layer.Base.{
  ℕ, Bool, true, false, ◌&&◌, ◌||◌, not, Option, none, some, List, [], ◌∷◌, ◌++◌, String, ◌==◌, ◌≡◌,
  any, filter, includes, if◌then◌else◌,
}
use base_layer.Base.Dict.{Dict, lookup, insert}
use base_layer.Base.Int.{ℤ, pos, negsuc}
use base_layer.Base.Sort.{sort}

pub data SlotState : Type 0 where
  free reserved unhealthy rebuilding : SlotState

abbrev pub is_free : SlotState → Bool
is_free free = true
is_free reserved = false
is_free unhealthy = false
is_free rebuilding = false

unfoldable pub can_release_firecracker_network_slot : Option SlotState → Bool
can_release_firecracker_network_slot (some reserved) = true
can_release_firecracker_network_slot (some free) = false
can_release_firecracker_network_slot (some unhealthy) = false
can_release_firecracker_network_slot (some rebuilding) = false
can_release_firecracker_network_slot none = false

pub record NetworkSlot : Type 0 where
  pub slot_id : String
  pub slot_index : ℕ
  pub state : SlotState
  pub last_session_id : Option String
  pub requires_claim_validation : Bool

-- A session and the slot that it claims.
abbrev pub Claim : Type 0
Claim = String × String

pub record NetworkPool : Type 0 where
  -- `#networkSlots`
  pub slots : Dict NetworkSlot
  -- `#freeNetworkSlotIds`
  pub free_ids : List String
  -- the keys of `#slotRebuildPromises`
  pub rebuilds : List String
  -- the claims that await the validation, those that await a rebuild, those whose rebuild is done and that
  -- have yet to go on, and those that have returned
  pub validating : List Claim
  pub awaiting : List Claim
  pub woken : List Claim
  pub owned : List Claim

unfoldable pub empty_pool : NetworkPool
empty_pool = record {
  slots = [];
  free_ids = [];
  rebuilds = [];
  validating = [];
  awaiting = [];
  woken = [];
  owned = [];
}

abbrev pub same_claim : Claim → Claim → Bool
same_claim (s, i) (t, j) = s == t && i == j

abbrev pub has : Claim → List Claim → Bool
has claim claims = any (same_claim claim) claims

unfoldable pub drop_claim : Claim → List Claim → List Claim
drop_claim claim [] = []
drop_claim claim (c ∷ rest) =
    let later = drop_claim claim rest in if same_claim claim c then rest else c ∷ later

-- `ids.splice(ids.indexOf(id), 1)`, where it is there
unfoldable pub drop_id : String → List String → List String
drop_id id [] = []
drop_id id (i ∷ rest) = let later = drop_id id rest in if i == id then rest else i ∷ later

abbrev pub state_of : Option NetworkSlot → Option SlotState
state_of none = none
state_of (some slot) = some slot.state

unfoldable pub slot_state : Dict NetworkSlot → String → Option SlotState
slot_state slots id = state_of (lookup id slots)

abbrev pub changed :
    (NetworkSlot → NetworkSlot) → String → Dict NetworkSlot → Option NetworkSlot → Dict NetworkSlot
changed f id slots none = slots
changed f id slots (some slot) = insert id (f slot) slots

-- An assignment to the fields of a slot's record.
unfoldable pub change_slot :
    (NetworkSlot → NetworkSlot) → String → Dict NetworkSlot → Dict NetworkSlot
change_slot f id slots = changed f id slots (lookup id slots)

-- `ids.sort()`: the ids are ASCII texts.
abbrev pub by_code : String → String → ℤ
by_code a b = if a == b then pos 0 else if is_lt (compare a b) then negsuc 0 else pos 1

abbrev pub reserved_for : String → NetworkSlot → NetworkSlot
reserved_for session slot = record slot {
  state = reserved;
  last_session_id = some session;
  requires_claim_validation = false;
}

-- The end of `#claimNetworkSlot`.
unfoldable pub reserve : Claim → NetworkPool → NetworkPool
unfolding change_slot
reserve (session, id) pool = record pool {
  slots = change_slot (reserved_for session) id pool.slots;
  owned = (session, id) ∷ pool.owned;
}

-- The start of `#rebuildNetworkSlot`, behind the test of `#ensureSlotRebuild`.
unfoldable pub ensure_slot_rebuild : String → NetworkPool → NetworkPool
unfolding change_slot
ensure_slot_rebuild id pool = if includes pool.rebuilds id then pool else record pool {
  slots = change_slot (λ slot. record slot { state = rebuilding }) id pool.slots;
  rebuilds = id ∷ pool.rebuilds;
}

abbrev pub usable : Option NetworkSlot → Bool
usable none = false
usable (some slot) = is_free slot.state

-- The loop that shifts ids off the list: the slot that it ends with, and what is left.
unfoldable pub take_free : Dict NetworkSlot → List String → Option String × List String
take_free slots [] = (none, [])
take_free slots (id ∷ rest) =
    let later = take_free slots rest in if usable (lookup id slots) then (some id, rest) else later

abbrev pub must_validate : Bool → Option NetworkSlot → Bool
must_validate always none = always
must_validate always (some slot) = always || slot.requires_claim_validation

-- `always` says whether the configuration has slots validated, or their egress probed, at each claim.
abbrev pub claim_taken : Bool → String → Option String × List String → NetworkPool → NetworkPool
claim_taken always session (none, rest) pool = record pool { free_ids = rest }
claim_taken always session (some id, rest) pool =
    if must_validate always (lookup id pool.slots)
    then record pool { free_ids = rest; validating = (session, id) ∷ pool.validating }
    else reserve (session, id) (record pool { free_ids = rest })

-- `#claimNetworkSlot` up to its wait for the validation.
unfoldable pub claim : Bool → String → NetworkPool → NetworkPool
unfolding reserve take_free
claim always session pool = claim_taken always session (take_free pool.slots pool.free_ids) pool

-- The validation succeeds.
unfoldable pub validated : Claim → NetworkPool → NetworkPool
unfolding reserve drop_claim
validated claim pool = reserve claim (record pool { validating = drop_claim claim pool.validating })

-- The validation fails: the slot is to be rebuilt.
unfoldable pub refused : Claim → NetworkPool → NetworkPool
unfolding ensure_slot_rebuild change_slot drop_claim
refused (session, id) pool = ensure_slot_rebuild id (record pool {
  slots = change_slot (λ slot. record slot { state = unhealthy }) id pool.slots;
  validating = drop_claim (session, id) pool.validating;
  awaiting = (session, id) ∷ pool.awaiting;
})

abbrev pub last_session : Option NetworkSlot → Option String
last_session none = none
last_session (some slot) = slot.last_session_id

abbrev pub about : String → Claim → Bool
about id claim = claim.1 == id

abbrev pub not_about : String → Claim → Bool
not_about id claim = not (claim.1 == id)

-- The end of `#rebuildNetworkSlot`, and of the promise that claims await. The source drops the promise a
-- few microtasks later than it lists the slot.
unfoldable pub rebuilt : String → ℕ → NetworkPool → NetworkPool
rebuilt id index pool = record pool {
  slots =
      insert id
        (record {
          slot_id = id;
          slot_index = index;
          state = free;
          last_session_id = last_session (lookup id pool.slots);
          requires_claim_validation = false;
        })
        pool.slots;
  free_ids = sort by_code (filter (λ i. not (i == id)) pool.free_ids ++ (id ∷ []));
  rebuilds = filter (λ i. not (i == id)) pool.rebuilds;
  awaiting = filter (not_about id) pool.awaiting;
  woken = filter (about id) pool.awaiting ++ pool.woken;
}

-- The rebuild throws, and so do the claims that await it.
unfoldable pub rebuild_failed : String → NetworkPool → NetworkPool
rebuild_failed id pool = record pool {
  rebuilds = filter (λ i. not (i == id)) pool.rebuilds;
  awaiting = filter (not_about id) pool.awaiting;
}

-- A claim goes on after its rebuild.
unfoldable pub resume : Claim → NetworkPool → NetworkPool
unfolding reserve drop_claim drop_id
resume (session, id) pool =
    reserve (session, id)
      (record pool {
        woken = drop_claim (session, id) pool.woken;
        free_ids = drop_id id pool.free_ids;
      })

-- `#releaseNetworkSlot` for the machine of a claim, which owns the slot no longer.
unfoldable pub release : Claim → NetworkPool → NetworkPool
unfolding change_slot drop_claim can_release_firecracker_network_slot slot_state
release (session, id) pool =
    let ended = record pool { owned = drop_claim (session, id) pool.owned } in
    if can_release_firecracker_network_slot (slot_state pool.slots id)
    then record ended {
      slots =
          change_slot (λ slot. record slot { state = free; requires_claim_validation = true }) id
            pool.slots;
      free_ids = if includes pool.free_ids id then pool.free_ids else pool.free_ids ++ (id ∷ []);
    }
    else ended

abbrev pub registered : Option NetworkSlot → Bool
registered none = false
registered (some slot) = true

-- `#markSlotUnhealthy` with `#scheduleSlotRebuild` for the machine of a claim: instead of a release, or
-- some time after it.
unfoldable pub mark_slot_unhealthy : Claim → NetworkPool → NetworkPool
unfolding change_slot drop_claim drop_id ensure_slot_rebuild
mark_slot_unhealthy (session, id) pool =
    let ended = record pool { owned = drop_claim (session, id) pool.owned } in
    if registered (lookup id pool.slots)
    then ensure_slot_rebuild id (record ended {
      slots =
          change_slot (λ slot. record slot { state = unhealthy; requires_claim_validation = true })
            id pool.slots;
      free_ids = drop_id id pool.free_ids;
    })
    else ended

abbrev pub needs_rebuild : Option SlotState → Bool
needs_rebuild none = true
needs_rebuild (some free) = false
needs_rebuild (some reserved) = false
needs_rebuild (some unhealthy) = true
needs_rebuild (some rebuilding) = true

-- `#ensureNetworkSlot`
unfoldable pub ensure_network_slot : String → NetworkPool → NetworkPool
unfolding ensure_slot_rebuild slot_state
ensure_network_slot id pool =
    if needs_rebuild (slot_state pool.slots id) then ensure_slot_rebuild id pool else pool
