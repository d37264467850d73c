-- ===== src/Firecracker/Slots/Exclusive.antt =====
-- Where every claim whose rebuild is done goes on before the next claim, no slot is given twice.
use base_layer.Base.{
  ◌+◌, ◌≤◌, Bool, none, some, List, [], ◌∷◌, String, ◌==◌, ◌≡◌, ◌⊎◌, refl, sym, ap, ◌∙◌, arith,
  includes, Bool-cases, inl, inr, eq_iff, subst,
}
use base_layer.Base.Dict.{Dict, lookup}
use base_layer.Firecracker.Slots.{
  free, reserved, NetworkSlot, NetworkPool, reserved_for, empty_pool, slot_state, reserve,
  take_free, must_validate, claim, claim_taken,
}
use base_layer.Firecracker.Slots.Moves.{SlotMove, slot_move, Allowed, Orderly, OrderlyReachable}
use base_layer.Firecracker.Slots.Counts.{claims_of, times, one_if}
use base_layer.Firecracker.Slots.Rebuilds.{rebuild_failed-At, rebuilt-At, resume-At}
use base_layer.Firecracker.Slots.Phase.{
  At, state-change_slot, validated-At, refused-At, prepared-At, release-At, free-usable,
  mark_slot_unhealthy-At, listed-At,
}

take-none : (slots : Dict NetworkSlot) → take_free slots [] ≡ (none, [])
unfolding take_free
take-none slots = refl

-- With every slot where it should be, the list's first id is taken.
take-first :
    (pool : NetworkPool) (i : String) (rest : List String)
    → ((id : String) → At pool id)
    → pool.free_ids ≡ i ∷ rest
    → take_free pool.slots (i ∷ rest) ≡ (some i, rest)
unfolding take_free
take-first pool i rest inv e =
    let listed : 1 ≤ times i pool.free_ids = rw (e, (eq_iff i i).1 refl) (omega arith) in
    let there : slot_state pool.slots i ≡ some free = ground (arith, inv i) in
    rw (free-usable i pool.slots there)

claim_taken-At :
    (always : Bool) (session id i : String) (rest : List String) (pool : NetworkPool)
    → At pool id
    → pool.free_ids ≡ i ∷ rest
    → pool.woken ≡ []
    → At (claim_taken always session (some i, rest) pool) id
unfolding reserve
claim_taken-At always session id i rest pool inv e none_woken =
    let taken : times id pool.free_ids ≡ one_if (i == id) + times id rest = ap (times id) e in
    let quiet : claims_of id pool.woken ≡ 0 = ap (claims_of id) none_woken in
    elim (Bool-cases (must_validate always (lookup i pool.slots))) [
      | inl t ↦ rw t (ground arith)
      | inr t ↦ rw t (
          ground (
            arith,
            state-change_slot (reserved_for session) reserved i id pool.slots (λ slot. refl),
          ))
    ]

claim-At :
    (always : Bool) (session id : String) (pool : NetworkPool)
    → ((id : String) → At pool id)
    → pool.woken ≡ []
    → At (claim always session pool) id
unfolding claim
claim-At always session id pool inv none_woken = go pool.free_ids refl
  where
    go :
        (ids : List String)
        → pool.free_ids ≡ ids
        → At (claim_taken always session (take_free pool.slots pool.free_ids) pool) id
    go [] e =
        subst (λ z. At (claim_taken always session z pool) id)
          (sym (ap (take_free pool.slots) e ∙ take-none pool.slots))
          (subst (λ l. At (record pool { free_ids = l }) id) e (inv id))
    go (i ∷ rest) e =
        subst (λ z. At (claim_taken always session z pool) id)
          (sym (ap (take_free pool.slots) e ∙ take-first pool i rest inv e))
          (claim_taken-At always session id i rest pool (inv id) e none_woken)

move-At :
    (m : SlotMove) (pool : NetworkPool) (id : String)
    → Allowed m pool
    → Orderly m pool
    → ((id : String) → At pool id)
    → At (slot_move m pool) id
unfolding slot_move
move-At (SlotMove.claims always session) pool id a p inv = claim-At always session id pool inv p
move-At (SlotMove.validates (s, j)) pool id a p inv = validated-At s j id pool a (inv id)
move-At (SlotMove.refuses (s, j)) pool id a p inv = refused-At s j id pool a (inv id)
move-At (SlotMove.rebuilds j index) pool id a p inv = rebuilt-At j index id pool a (inv id)
move-At (SlotMove.fails j) pool id a p inv = rebuild_failed-At j id pool a (inv id)
move-At (SlotMove.resumes (s, j)) pool id a p inv = resume-At s j id pool a (inv id)
move-At (SlotMove.releases (s, j)) pool id a p inv = release-At s j id pool p (inv id)
move-At (SlotMove.marks_unhealthy (s, j)) pool id a p inv = elim p [
  | inl own ↦ mark_slot_unhealthy-At s j id pool own (inv id)
  | inr (gone, listed, quiet) ↦ listed-At s j id pool gone listed quiet (inv id)
]
move-At (SlotMove.prepares j) pool id a p inv = prepared-At j id pool (inv id)

Reachable-At : {pool : NetworkPool} → OrderlyReachable pool → (id : String) → At pool id
unfolding empty_pool slot_state lookup includes
Reachable-At OrderlyReachable.start id = inr (inr (refl, refl, omega arith, refl, inl refl))
Reachable-At (OrderlyReachable.then_move {pool} r m a p) id = move-At m pool id a p (Reachable-At r)

-- Whatever claims, validations, rebuilds and ends of machines come, as long as a claim whose rebuild is
-- done goes on before the next claim is made, no machine ends twice, and a slot that is marked after
-- its release is still in the list then and no claim about to go on: no slot is owned by two claims, or owned by one and being
-- validated for another, and one that is owned or being validated is not in the list of free slots. A
-- slot that is owned is marked as reserved, and one in the list as free.
pub claims_of-exclusive :
    {pool : NetworkPool} (id : String)
    → OrderlyReachable pool
    → (times id pool.free_ids + claims_of id pool.validating + claims_of id pool.owned ≤ 1)
      × ((claims_of id pool.owned ≡ 0) ⊎ (slot_state pool.slots id ≡ some reserved))
      × ((times id pool.free_ids ≡ 0) ⊎ (slot_state pool.slots id ≡ some free))
claims_of-exclusive {pool} id r = ground (arith, Reachable-At r id)
