-- ===== src/Firecracker/Slots/Rebuilds.antt =====
-- That a rebuild, and the step of a claim after it, keeps each slot where it should be.
use base_layer.Base.{
  ℕ, true, false, not, some, [], ◌∷◌, ◌++◌, String, ◌==◌, ◌≡◌, refl, ap, arith, filter, includes,
  if◌then◌else◌, Bool-cases, inl, inr, eq_iff, count-append,
}
use base_layer.Base.Dict.{Dict, lookup, insert, lookup-insert}
use base_layer.Base.Sort.{count-sort}
use base_layer.Firecracker.Slots.{
  free, reserved, NetworkSlot, NetworkPool, reserved_for, has, slot_state, reserve, rebuilt,
  rebuild_failed, resume, about, by_code, last_session,
}
use base_layer.Firecracker.Slots.Counts.{
  claims_of-drop_claim, times-drop_id, times-includes, times-filter, claims-filter_not,
  claims-filter, includes-filter,
}
use base_layer.Firecracker.Slots.Phase.{At, state-change_slot}

pub slot_state-insert :
    (j id : String) (slot : NetworkSlot) (slots : Dict NetworkSlot)
    → slot_state (insert j slot slots) id
      ≡ (if j == id then some slot.state else slot_state slots id)
unfolding slot_state
slot_state-insert j id slot slots = elim (Bool-cases (j == id)) [
  | inl t ↦ rw (lookup-insert j id slot slots, t)
  | inr t ↦ rw (lookup-insert j id slot slots, t)
]

pub rebuild_failed-At :
    (j id : String) (pool : NetworkPool)
    → includes pool.rebuilds j ≡ true
    → At pool id
    → At (rebuild_failed j pool) id
unfolding rebuild_failed
rebuild_failed-At j id pool h inv = ground (
  arith,
  claims-filter_not id j pool.awaiting,
  includes-filter id j pool.rebuilds,
  eq_iff j id,
  ap (includes pool.rebuilds) {x = j} {y = id},
)

pub rebuilt-At :
    (j : String) (index : ℕ) (id : String) (pool : NetworkPool)
    → includes pool.rebuilds j ≡ true
    → At pool id
    → At (rebuilt j index pool) id
unfolding rebuilt
rebuilt-At j index id pool h inv =
    let others = filter (λ i. not (i == j)) pool.free_ids in
    let fresh : NetworkSlot = record {
      slot_id = j;
      slot_index = index;
      state = free;
      last_session_id = last_session (lookup j pool.slots);
      requires_claim_validation = false;
    } in
    ground (
      arith,
      slot_state-insert j id fresh pool.slots,
      count-sort by_code (λ i. i == id) (others ++ (j ∷ [])),
      count-append (λ i. i == id) others (j ∷ []),
      times-filter id j pool.free_ids,
      claims-filter_not id j pool.awaiting,
      claims-filter id j pool.awaiting,
      count-append (about id) (filter (about j) pool.awaiting) pool.woken,
      includes-filter id j pool.rebuilds,
      eq_iff j id,
      ap (includes pool.rebuilds) {x = j} {y = id},
    )

pub resume-At :
    (session j id : String) (pool : NetworkPool)
    → has (session, j) pool.woken ≡ true
    → At pool id
    → At (resume (session, j) pool) id
unfolding resume reserve
resume-At session j id pool h inv = ground (
  arith,
  claims_of-drop_claim id session j pool.woken h,
  times-drop_id id j pool.free_ids,
  times-includes id pool.free_ids,
  eq_iff j id,
  ap (includes pool.free_ids) {x = j} {y = id},
  state-change_slot (reserved_for session) reserved j id pool.slots (λ slot. refl),
)
