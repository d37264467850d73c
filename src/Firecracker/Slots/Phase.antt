-- ===== src/Firecracker/Slots/Phase.antt =====
-- Where each slot of the pool is, and the moves of a claim and of a machine that keep it there.
use base_layer.Base.{
  ℕ, ◌+◌, ◌≤◌, Bool, true, false, ◌||◌, Option, none, some, [], ◌∷◌, String, ◌==◌, ◌≡◌, ◌⊎◌, refl,
  ap, arith, includes, if◌then◌else◌, Bool-cases, inl, inr, eq_iff, count-append,
}
use base_layer.Base.Dict.{Dict, lookup, lookup-insert}
use base_layer.Firecracker.Slots.{
  SlotState, free, reserved, unhealthy, rebuilding, NetworkSlot, NetworkPool, reserved_for, has,
  slot_state, state_of, change_slot, changed, reserve, ensure_slot_rebuild, usable, validated,
  refused, release, mark_slot_unhealthy, ensure_network_slot, needs_rebuild, registered,
  can_release_firecracker_network_slot,
}
use base_layer.Firecracker.Slots.Counts.{
  drop_claim-missing, claims_of, times, claims_of-drop_claim, times-drop_id, includes-times,
}

-- Where a slot is: free in the list or with the claim that validates it, reserved by one claim, or down,
-- where at most one claim awaits it and its rebuild is under way then, unless it is about to start. Here
-- `f`, `v`, `o`, `a` and `w` say how often it is in the list and with claims that validate it, own
-- it, await it and have been woken, and `r` whether it is being rebuilt.
abbrev pub Phase : Bool → Option SlotState → ℕ → ℕ → ℕ → ℕ → ℕ → Bool → Type 0
Phase starting st f v o a w r =
    ((st ≡ some free) × (f + v ≡ 1) × (o ≡ 0) × (a ≡ 0) × (w ≤ f) × (r ≡ false))
    ⊎ (((st ≡ some reserved) × (f + v ≡ 0) × (o ≡ 1) × (a ≡ 0) × (w ≡ 0) × (r ≡ false))
        ⊎ ((needs_rebuild st ≡ true)
            × (f + v + o ≡ 0)
            × (a ≤ 1)
            × (w ≡ 0)
            × ((a ≡ 0) ⊎ ((r || starting) ≡ true))))

abbrev pub AtWith : Bool → NetworkPool → String → Type 0
AtWith starting pool id =
    Phase starting (slot_state pool.slots id) (times id pool.free_ids)
      (claims_of id pool.validating) (claims_of id pool.owned) (claims_of id pool.awaiting)
      (claims_of id pool.woken) (includes pool.rebuilds id)

abbrev pub At : NetworkPool → String → Type 0
At pool id = AtWith false pool id

abbrev pub set_to : Option SlotState → SlotState → Option SlotState
set_to none st = none
set_to (some old) st = some st

-- An assignment to a slot's state, seen from every slot.
pub state-change_slot :
    (f : NetworkSlot → NetworkSlot) (st : SlotState) (j id : String) (slots : Dict NetworkSlot)
    → ((slot : NetworkSlot) → (f slot).state ≡ st)
    → slot_state (change_slot f j slots) id
      ≡ (if j == id then set_to (slot_state slots id) st else slot_state slots id)
unfolding slot_state change_slot
state-change_slot f st j id slots h = go (lookup j slots) refl
  where
    go :
        (o : Option NetworkSlot)
        → lookup j slots ≡ o
        → state_of (lookup id (changed f j slots o))
          ≡ (if j == id then set_to (state_of (lookup id slots)) st else state_of (lookup id slots))
    go none e = elim (Bool-cases (j == id)) [
      | inl t ↦ let here : lookup id slots ≡ none = rw (← (eq_iff j id).0 t) e in rw (t, here)
      | inr t ↦ rw t
    ]
    go (some slot) e = elim (Bool-cases (j == id)) [
      | inl t ↦
          let here : lookup id slots ≡ some slot = rw (← (eq_iff j id).0 t) e in
          rw (lookup-insert j id (f slot) slots, t, here) (ap some (h slot))
      | inr t ↦ rw (lookup-insert j id (f slot) slots, t)
    ]

pub validated-At :
    (session j id : String) (pool : NetworkPool)
    → has (session, j) pool.validating ≡ true
    → At pool id
    → At (validated (session, j) pool) id
unfolding validated reserve
validated-At session j id pool h inv = ground (
  arith,
  claims_of-drop_claim id session j pool.validating h,
  state-change_slot (reserved_for session) reserved j id pool.slots (λ slot. refl),
)

pub ensure_slot_rebuild-At :
    (j id : String) (pool : NetworkPool)
    → needs_rebuild (slot_state pool.slots j) ≡ true
    → AtWith (j == id) pool id
    → At (ensure_slot_rebuild j pool) id
unfolding ensure_slot_rebuild includes
ensure_slot_rebuild-At j id pool h inv = ground (
  arith,
  ap (slot_state pool.slots) {x = j} {y = id},
  eq_iff j id,
  ap (includes pool.rebuilds) {x = j} {y = id},
  state-change_slot (λ slot. record slot { state = rebuilding }) rebuilding j id pool.slots
      (λ slot. refl),
)

pub set_to-unhealthy : (st : Option SlotState) → needs_rebuild (set_to st unhealthy) ≡ true
set_to-unhealthy none = refl
set_to-unhealthy (some st) = refl

-- A slot that has been marked is in need of a rebuild.
pub marked-needs_rebuild :
    (f : NetworkSlot → NetworkSlot) (j : String) (slots : Dict NetworkSlot)
    → ((slot : NetworkSlot) → (f slot).state ≡ unhealthy)
    → needs_rebuild (slot_state (change_slot f j slots) j) ≡ true
marked-needs_rebuild f j slots h =
    let same : (j == j) ≡ true = (eq_iff j j).1 refl in
    rw (state-change_slot f unhealthy j j slots h, same) (set_to-unhealthy (slot_state slots j))

pub refused-At :
    (session j id : String) (pool : NetworkPool)
    → has (session, j) pool.validating ≡ true
    → At pool id
    → At (refused (session, j) pool) id
unfolding refused
refused-At session j id pool h inv =
    ensure_slot_rebuild-At j id _
      (marked-needs_rebuild (λ slot. record slot { state = unhealthy }) j pool.slots (λ slot. refl))
      (ground (
        arith,
        claims_of-drop_claim id session j pool.validating h,
        set_to-unhealthy (slot_state pool.slots id),
        state-change_slot (λ slot. record slot { state = unhealthy }) unhealthy j id pool.slots
            (λ slot. refl),
      ))

pub prepared-At :
    (j id : String) (pool : NetworkPool) → At pool id → At (ensure_network_slot j pool) id
unfolding ensure_network_slot
prepared-At j id pool inv = elim (Bool-cases (needs_rebuild (slot_state pool.slots j))) [
  | inl t ↦ rw t (ensure_slot_rebuild-At j id pool t (ground arith))
  | inr t ↦ rw t inv
]

pub release-At :
    (session j id : String) (pool : NetworkPool)
    → has (session, j) pool.owned ≡ true
    → At pool id
    → At (release (session, j) pool) id
unfolding release can_release_firecracker_network_slot
release-At session j id pool h inv = ground (
  arith,
  claims_of-drop_claim id session j pool.owned h,
  includes-times id pool.free_ids,
  count-append (λ i. i == id) pool.free_ids (j ∷ []),
  eq_iff j id,
  ap (includes pool.free_ids) {x = j} {y = id},
  ap (slot_state pool.slots) {x = j} {y = id},
  state-change_slot (λ slot. record slot { state = free; requires_claim_validation = true }) free j
      id pool.slots (λ slot. refl),
)

pub unregistered-state :
    (j : String) (slots : Dict NetworkSlot)
    → registered (lookup j slots) ≡ false
    → slot_state slots j ≡ none
unfolding slot_state
unregistered-state j slots h = go (lookup j slots) h
  where
    go : (o : Option NetworkSlot) → registered o ≡ false → state_of o ≡ none
    go none h = refl
    go (some slot) h = absurd (ground arith)

pub free-usable :
    (j : String) (slots : Dict NetworkSlot)
    → slot_state slots j ≡ some free
    → usable (lookup j slots) ≡ true
unfolding slot_state
free-usable j slots h = go (lookup j slots) h
  where
    go : (o : Option NetworkSlot) → state_of o ≡ some free → usable o ≡ true
    go none h = absurd (ground arith)
    go (some slot) h = ground arith

pub mark_slot_unhealthy-At :
    (session j id : String) (pool : NetworkPool)
    → has (session, j) pool.owned ≡ true
    → At pool id
    → At (mark_slot_unhealthy (session, j) pool) id
unfolding mark_slot_unhealthy
mark_slot_unhealthy-At session j id pool h inv =
    elim (Bool-cases (registered (lookup j pool.slots))) [
      | inl t ↦ rw t (
          ensure_slot_rebuild-At j id _
            (marked-needs_rebuild
              (λ slot. record slot { state = unhealthy; requires_claim_validation = true }) j
              pool.slots (λ slot. refl))
            (ground (
              arith,
              claims_of-drop_claim id session j pool.owned h,
              times-drop_id id j pool.free_ids,
              set_to-unhealthy (slot_state pool.slots id),
              state-change_slot
                  (λ slot. record slot { state = unhealthy; requires_claim_validation = true })
                  unhealthy j id pool.slots (λ slot. refl),
            )))
      | inr t ↦ rw t (
          ground (
            arith,
            claims_of-drop_claim id session j pool.owned h,
            eq_iff j id,
            ap (slot_state pool.slots) {x = j} {y = id},
            unregistered-state j pool.slots t,
          ))
    ]

-- A slot that has been released and is still listed, for nobody, may be marked as well.
pub listed-At :
    (session j id : String) (pool : NetworkPool)
    → has (session, j) pool.owned ≡ false
    → includes pool.free_ids j ≡ true
    → pool.woken ≡ []
    → At pool id
    → At (mark_slot_unhealthy (session, j) pool) id
unfolding mark_slot_unhealthy
listed-At session j id pool gone listed none_woken inv =
    let kept = drop_claim-missing (session, j) pool.owned gone in
    let quiet : claims_of id pool.woken ≡ 0 = ap (claims_of id) none_woken in
    elim (Bool-cases (registered (lookup j pool.slots))) [
      | inl t ↦
          rw (t, kept)
            (ensure_slot_rebuild-At j id _
              (marked-needs_rebuild
                (λ slot. record slot { state = unhealthy; requires_claim_validation = true }) j
                pool.slots (λ slot. refl))
              (ground (
                arith,
                eq_iff j id,
                ap (includes pool.free_ids) {x = j} {y = id},
                includes-times id pool.free_ids,
                times-drop_id id j pool.free_ids,
                set_to-unhealthy (slot_state pool.slots id),
                state-change_slot
                    (λ slot. record slot { state = unhealthy; requires_claim_validation = true })
                    unhealthy j id pool.slots (λ slot. refl),
              )))
      | inr t ↦ rw (t, kept) inv
    ]
