-- ===== src/Firecracker/Machines/Probe.antt =====
-- A keepalive probe that ends after its session has been claimed.
use base_layer.Base.{
  ℕ, ◌-◌, max, ltb, Bool, false, Option, none, some, String, ◌==◌, ◌≡◌, ◌≢◌, refl, sym, ◌∙◌, arith,
  Bool-cases, inl, inr, eq_iff, Memᴰ,
}
use base_layer.Base.Dict.{lookup, lookup-erase}
use base_layer.Firecracker.Machines.{
  Machines, forget_warm, forget_session, destroy, claim_warm_session, probe_time, probe_machine,
  probe_warm, probe_failed,
}
use base_layer.Firecracker.Machines.Warm.{claim-Outcome}

probed :
    (interval now : ℕ) (id : String) (m : Machines) {machine : ℕ}
    → (probe_warm interval now id m).1 ≡ some machine
    → lookup id (probe_warm interval now id m).0.sessions ≡ some machine
unfolding probe_warm
probed interval now id m {machine} h =
    elim (Bool-cases (ltb (now - probe_time (lookup id m.last_probe_at)) (max 250 interval))) [
      | inl t ↦ absurd (clash (rw t at h))
      | inr t ↦ rw t (go (lookup id m.sessions) refl (rw t at h))
    ]
  where
    clash : ◌≡◌ {A = Option ℕ} none (some machine) → ⊥
    clash e = ground arith

    go :
        (o : Option ℕ)
        → lookup id m.sessions ≡ o
        → (probe_machine now id o m).1 ≡ some machine
        → lookup id (probe_machine now id o m).0.sessions ≡ some machine
    go none e h = absurd (ground arith)
    go (some x) e h = e ∙ h

-- The probe of a warm session takes its machine, the session is claimed by another while the probe runs,
-- and then the probe throws: the machine is destroyed, and it is still the machine of the session that has
-- claimed it.
pub probe_failed-claimed :
    (alive : ℕ → Bool) (interval now : ℕ) (warm_id id : String) (m : Machines) {machine : ℕ}
    → id ≢ warm_id
    → (probe_warm interval now warm_id m).1 ≡ some machine
    → (claim_warm_session alive warm_id id (probe_warm interval now warm_id m).0).1 ≢ none
    → (lookup id
          (probe_failed warm_id machine
            (claim_warm_session alive warm_id id (probe_warm interval now warm_id m).0).0).sessions
        ≡ some machine)
      × Memᴰ machine
          (probe_failed warm_id machine
            (claim_warm_session alive warm_id id (probe_warm interval now warm_id m).0).0).destroyed
unfolding probe_failed destroy forget_session forget_warm
probe_failed-claimed alive interval now warm_id id m {machine} apart first claimed =
    let m' = (probe_warm interval now warm_id m).0 in
    let there : lookup warm_id m'.sessions ≡ some machine = probed interval now warm_id m first in
    elim (claim-Outcome alive warm_id id m') [
      | inl missed ↦ absurd (claimed missed)
      | inr (x, e, had, live, has, left) ↦
          let after = (claim_warm_session alive warm_id id m').0 in
          let other : (warm_id == id) ≡ false = ground (arith, eq_iff warm_id id, apart) in
          (
            lookup-erase warm_id id after.sessions ∙ rw other (has ∙ sym had ∙ there),
            Memᴰ.head refl,
          )
    ]
