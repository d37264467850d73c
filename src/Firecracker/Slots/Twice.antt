-- ===== src/Firecracker/Slots/Twice.antt =====
-- Two schedules on which one slot is given twice: a claim that comes between the end of a rebuild and the
-- next step of the claim that awaited it, and a machine that is destroyed a second time.
use base_layer.Base.{
  ℕ, ◌≤◌, Bool, true, false, Option, none, some, List, [], ◌∷◌, ◌++◌, String, ◌==◌, ◌≡◌, ◌≢◌, refl,
  sym, ap, ◌∙◌, arith, eq_iff, filter, includes, not, if◌then◌else◌,
}
use base_layer.Base.Dict.{lookup, insert, lookup-insert}
use base_layer.Base.Sort.{sort}
use base_layer.Firecracker.Slots.{
  NetworkPool, NetworkSlot, Claim, free, reserved, has, slot_state, take_free, claim, claim_taken,
  validated, rebuilt, resume, release, reserve, must_validate, last_session, about, change_slot,
  can_release_firecracker_network_slot,
}
use base_layer.Firecracker.Slots.Moves.{SlotMove, slot_move, SlotReachable}
use base_layer.Firecracker.Slots.Counts.{claims_of, has-claims_of, drop_claim-missing}
use base_layer.Firecracker.Slots.Phase.{free-usable, state-change_slot}

own_claim :
    (session id : String) (claims : List Claim) → has (session, id) ((session, id) ∷ claims) ≡ true
own_claim session id claims = ground (arith, (eq_iff session session).1 refl, (eq_iff id id).1 refl)

has-filter-about :
    (session id : String) (claims : List Claim)
    → has (session, id) claims ≡ true
    → has (session, id) (filter (about id) claims) ≡ true
has-filter-about session id [] h = h
has-filter-about session id ((t, i) ∷ rest) h =
    ground (arith, has-filter-about session id rest, eq_iff id i, eq_iff i id)

has-append : (c : Claim) (xs ys : List Claim) → has c xs ≡ true → has c (xs ++ ys) ≡ true
has-append c [] ys h = absurd (ground arith)
has-append c (x ∷ xs) ys h = ground (arith, has-append c xs ys)

-- The slot that a rebuild lists.
abbrev fresh_slot : String → ℕ → NetworkPool → NetworkSlot
fresh_slot id index pool = record {
  slot_id = id;
  slot_index = index;
  state = free;
  last_session_id = last_session (lookup id pool.slots);
  requires_claim_validation = false;
}

granted :
    (pool : NetworkPool) (other id : String)
    → must_validate false (lookup id pool.slots) ≡ false
    → claim_taken false other (some id, []) pool
      ≡ reserve (other, id) (record pool { free_ids = [] })
granted pool other id h = rw h

-- Where a rebuild lists the only free slot, a claim that validates nothing has it at once.
taken_at_once :
    (pool : NetworkPool) (other id : String) (index : ℕ)
    → pool.free_ids ≡ []
    → claim false other (rebuilt id index pool)
      ≡ reserve (other, id) (record (rebuilt id index pool) { free_ids = [] })
unfolding claim take_free rebuilt sort base_layer.Base.Sort.insert_sorted
taken_at_once pool other id index e =
    let listed : lookup id (insert id (fresh_slot id index pool) pool.slots)
        ≡ some (fresh_slot id index pool) =
      lookup-insert id id (fresh_slot id index pool) pool.slots ∙ rw ((eq_iff id id).1 refl) in
    let validates : must_validate false (lookup id (rebuilt id index pool).slots) ≡ false =
      ap (must_validate false) listed in
    let ids : (rebuilt id index pool).free_ids ≡ id ∷ [] = rw e in
    let taken : take_free (rebuilt id index pool).slots (id ∷ []) ≡ (some id, []) = rw listed in
    ap (λ z. claim_taken false other z (rebuilt id index pool))
      (ap (take_free (rebuilt id index pool).slots) ids ∙ taken)
    ∙ granted (rebuilt id index pool) other id validates

abbrev pub claimed : String → String → String → ℕ → NetworkPool → NetworkPool
claimed session other id index pool =
    slot_move (SlotMove.resumes (session, id))
      (slot_move (SlotMove.claims false other) (slot_move (SlotMove.rebuilds id index) pool))

-- With no validation at each claim, and no other slot in the list: a rebuild ends that one session's claim
-- awaits, another session claims the slot before that claim goes on, and then it goes on. Both have
-- the slot.
pub claimed-twice :
    (pool : NetworkPool) (session other id : String) (index : ℕ)
    → SlotReachable pool
    → pool.free_ids ≡ []
    → includes pool.rebuilds id ≡ true
    → has (session, id) pool.awaiting ≡ true
    → SlotReachable (claimed session other id index pool)
      × (has (session, id) (claimed session other id index pool).owned ≡ true)
      × (has (other, id) (claimed session other id index pool).owned ≡ true)
      × (2 ≤ claims_of id (claimed session other id index pool).owned)
unfolding slot_move resume reserve rebuilt
claimed-twice pool session other id index r none_free rebuilding w =
    let took = taken_at_once pool other id index none_free in
    let woken : has (session, id) (claim false other (rebuilt id index pool)).woken ≡ true =
      ap (λ p. has (session, id) (NetworkPool.woken p)) took
      ∙ has-append (session, id) (filter (about id) pool.awaiting) pool.woken
          (has-filter-about session id pool.awaiting w) in
    let owners : (claim false other (rebuilt id index pool)).owned ≡ (other, id) ∷ pool.owned =
      ap (λ p. NetworkPool.owned p) took in
    (
      SlotReachable.then_move
          (SlotReachable.then_move
            (SlotReachable.then_move r (SlotMove.rebuilds id index) rebuilding)
            (SlotMove.claims false other) tt)
          (SlotMove.resumes (session, id)) woken,
      own_claim session id _,
      rw owners (ground (arith, own_claim other id pool.owned)),
      rw (owners, (eq_iff id id).1 refl) (omega arith),
    )

always_validates : (o : Option NetworkSlot) → must_validate true o ≡ true
always_validates none = refl
always_validates (some slot) = refl

abbrev freed : NetworkSlot → NetworkSlot
freed slot = record slot { state = free; requires_claim_validation = true }

-- A release by the slot's id, for a claim that owns the slot no longer.
released_again :
    (pool : NetworkPool) (session id : String)
    → pool.free_ids ≡ []
    → slot_state pool.slots id ≡ some reserved
    → has (session, id) pool.owned ≡ false
    → release (session, id) pool
      ≡ record pool { slots = change_slot freed id pool.slots; free_ids = id ∷ [] }
unfolding release can_release_firecracker_network_slot includes
released_again pool session id none_free held gone =
    rw (held, none_free, drop_claim-missing (session, id) pool.owned gone)

taken_next :
    (pool : NetworkPool) (third id : String)
    → slot_state pool.slots id ≡ some reserved
    → claim true third (record pool { slots = change_slot freed id pool.slots; free_ids = id ∷ [] })
      ≡ record pool {
        slots = change_slot freed id pool.slots;
        free_ids = [];
        validating = (third, id) ∷ pool.validating;
      }
unfolding claim take_free
taken_next pool third id held =
    let now_free : slot_state (change_slot freed id pool.slots) id ≡ some free =
      rw (
        state-change_slot freed free id id pool.slots (λ slot. refl),
        (eq_iff id id).1 refl,
        held,
      ) in
    rw (
      free-usable id (change_slot freed id pool.slots) now_free,
      always_validates (lookup id (change_slot freed id pool.slots)),
    )

abbrev pub reused : String → String → String → NetworkPool → NetworkPool
reused session third id pool =
    slot_move (SlotMove.validates (third, id))
      (slot_move (SlotMove.claims true third) (slot_move (SlotMove.releases (session, id)) pool))

-- A machine is destroyed whose claim owns its slot no longer, as it has been destroyed before, while
-- another session has the slot and no other is free: the slot is released, a third session's claim
-- takes it, and where its validation succeeds both sessions have the slot.
pub released-twice :
    (pool : NetworkPool) (session other third id : String)
    → SlotReachable pool
    → pool.free_ids ≡ []
    → slot_state pool.slots id ≡ some reserved
    → has (session, id) pool.owned ≡ false
    → has (other, id) pool.owned ≡ true
    → SlotReachable (reused session third id pool)
      × (has (other, id) (reused session third id pool).owned ≡ true)
      × (has (third, id) (reused session third id pool).owned ≡ true)
      × (2 ≤ claims_of id (reused session third id pool).owned)
unfolding slot_move validated reserve
released-twice pool session other third id r none_free held gone has_it =
    let took =
      ap (claim true third) (released_again pool session id none_free held gone)
      ∙ taken_next pool third id held in
    let waits : has (third, id) (claim true third (release (session, id) pool)).validating ≡ true =
      ap (λ p. has (third, id) (NetworkPool.validating p)) took
      ∙ own_claim third id pool.validating in
    let owners : (claim true third (release (session, id) pool)).owned ≡ pool.owned =
      ap (λ p. NetworkPool.owned p) took in
    (
      SlotReachable.then_move
          (SlotReachable.then_move (SlotReachable.then_move r (SlotMove.releases (session, id)) tt)
            (SlotMove.claims true third) tt)
          (SlotMove.validates (third, id)) waits,
      rw owners (ground (arith, has_it)),
      own_claim third id _,
      rw (owners, (eq_iff id id).1 refl) (omega (arith, has-claims_of other id pool.owned has_it)),
    )
