-- ===== src/Firecracker/Machines/Warm.antt =====
-- A warm machine is claimed once, and what is in the table of warm sessions has a machine.
use base_layer.Base.{
  ℕ, Bool, true, false, Option, none, some, List, String, ◌==◌, ◌≡◌, ◌⊎◌, refl, sym, ap, ◌∙◌,
  includes, Bool-cases, inl, inr, eq_iff,
}
use base_layer.Base.Dict.{lookup, erase, lookup-insert, lookup-erase}
use base_layer.Base.Sets.{remove, includes-remove}
use base_layer.Firecracker.Machines.{
  Machines, has_session, machine_alive, forget_warm, forget_session, destroy, claim_machine,
  claim_warm_session,
}

not_there : (id : String) (ids : List String) → includes (remove id ids) id ≡ false
not_there id ids = rw (includes-remove id id ids, (eq_iff id id).1 refl)

-- After a claim the session is not warm.
claimed-not_warm :
    (alive : ℕ → Bool) (warm_id id : String) (m : Machines)
    → includes (claim_warm_session alive warm_id id m).0.warm_ids warm_id ≡ false
unfolding claim_warm_session forget_warm forget_session destroy
claimed-not_warm alive warm_id id m = elim (Bool-cases (includes m.warm_ids warm_id)) [
  | inr t ↦ rw t t
  | inl t ↦ rw t (go (has_session alive warm_id m) (lookup warm_id m.sessions))
]
  where
    go :
        (live : Bool) (o : Option ℕ)
        → includes (claim_machine live warm_id id o m).0.warm_ids warm_id ≡ false
    go live none = not_there warm_id m.warm_ids
    go false (some machine) = not_there warm_id m.warm_ids
    go true (some machine) = not_there warm_id m.warm_ids

-- What a claim that gets a machine has done.
abbrev pub Taken : (ℕ → Bool) → String → String → Machines → Machines → Option ℕ → Type 0
Taken alive warm_id id before after o =
    (machine : ℕ) × (o ≡ some machine)
    × (lookup warm_id before.sessions ≡ some machine)
    × (alive machine ≡ true)
    × (lookup id after.sessions ≡ some machine)
    × ((id ≡ warm_id) ⊎ (lookup warm_id after.sessions ≡ none))

unclaimed :
    (alive : ℕ → Bool) (warm_id id : String) (m : Machines)
    → includes m.warm_ids warm_id ≡ false
    → claim_warm_session alive warm_id id m ≡ (m, none)
unfolding claim_warm_session
unclaimed alive warm_id id m h = rw h

abbrev pub Outcome : (ℕ → Bool) → String → String → Machines → Machines × Option ℕ → Type 0
Outcome alive warm_id id m r = (r.1 ≡ none) ⊎ Taken alive warm_id id m r.0 r.1

claim_machine-Outcome :
    (alive : ℕ → Bool) (warm_id id : String) (m : Machines) (live : Bool) (o : Option ℕ)
    → has_session alive warm_id m ≡ live
    → lookup warm_id m.sessions ≡ o
    → Outcome alive warm_id id m (claim_machine live warm_id id o m)
unfolding has_session forget_warm forget_session
claim_machine-Outcome alive warm_id id m live none h e = inl refl
claim_machine-Outcome alive warm_id id m false (some machine) h e = inl refl
claim_machine-Outcome alive warm_id id m true (some machine) h e = inr (
  machine,
  refl,
  e,
  sym (ap (machine_alive alive) e) ∙ h,
  lookup-insert id id machine (erase warm_id m.sessions) ∙ rw ((eq_iff id id).1 refl),
  elim (Bool-cases (id == warm_id)) [
    | inl t ↦ inl ((eq_iff id warm_id).0 t)
    | inr t ↦ inr (
        lookup-insert id warm_id machine (erase warm_id m.sessions)
        ∙ rw (t, lookup-erase warm_id warm_id m.sessions, (eq_iff warm_id warm_id).1 refl))
  ],
)

pub claim-Outcome :
    (alive : ℕ → Bool) (warm_id id : String) (m : Machines)
    → Outcome alive warm_id id m (claim_warm_session alive warm_id id m)
unfolding claim_warm_session
claim-Outcome alive warm_id id m = elim (Bool-cases (includes m.warm_ids warm_id)) [
  | inr t ↦ rw t (inl refl)
  | inl t ↦ rw t (
      claim_machine-Outcome alive warm_id id m (has_session alive warm_id m)
        (lookup warm_id m.sessions) refl refl)
]

-- A claim of a warm session gets no machine, or the live one that the session had, which is the machine
-- of the requested session then and no longer of the warm one. Whichever, a second claim of the
-- same warm session, by whatever session, gets none and changes nothing.
pub claim_warm_session-once :
    (alive alive' : ℕ → Bool) (warm_id id other : String) (m : Machines)
    → (((claim_warm_session alive warm_id id m).1 ≡ none)
        ⊎ Taken alive warm_id id m
            (claim_warm_session alive warm_id id m).0
            (claim_warm_session alive warm_id id m).1)
      × (claim_warm_session alive' warm_id other (claim_warm_session alive warm_id id m).0
          ≡ ((claim_warm_session alive warm_id id m).0, none))
claim_warm_session-once alive alive' warm_id id other m = (
  claim-Outcome alive warm_id id m,
  unclaimed alive' warm_id other (claim_warm_session alive warm_id id m).0
      (claimed-not_warm alive warm_id id m),
)
