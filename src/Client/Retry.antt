-- ===== src/Client/Retry.antt =====
-- Which of its calls a retried fetch returns.
use base_layer.Base.{
  ℕ, zero, suc, ◌+◌, ◌≤◌, true, false, ◌≡◌, ◌⊎◌, refl, ap, arith, Bool-cases, inl, inr,
}
use base_layer.Client.{Outcome, transient, retry_from, fetch_with_transient_retry}

module _ {A : Type 0} (fetch : ℕ → Outcome A) where
  -- What holds of the calls from an attempt on.
  abbrev From : ℕ → ℕ → ℕ → ℕ × Outcome A → Type 0
  From left attempt i r =
      (attempt + 1 ≤ r.0)
      × (r.0 ≤ attempt + left + 1)
      × ((last : ℕ) × (last + 1 ≡ r.0) × (r.1 ≡ fetch last))
      × ((r.0 ≡ attempt + left + 1) ⊎ (transient fetch r.1 ≡ false))
      × ((i + 1 ≤ attempt) ⊎ ((r.0 ≤ i + 1) ⊎ (transient fetch (fetch i) ≡ true)))

  retry_from-From : (left attempt i : ℕ) → From left attempt i (retry_from fetch left attempt)
  unfolding retry_from
  retry_from-From zero attempt i =
      (omega arith, omega arith, (attempt, refl, refl), inl (omega arith), ground arith)
  retry_from-From (suc left) attempt i = elim (Bool-cases (transient fetch (fetch attempt))) [
    | inl t ↦
        let (a, b, c, d, e) = retry_from-From left (attempt + 1) i in
        rw t (
          omega arith,
          omega arith,
          c,
          ground (arith, d),
          ground (arith, e, ap (λ j. transient fetch (fetch j)) {x = i} {y = attempt}, t),
        )
    | inr t ↦ rw t (omega arith, omega arith, (attempt, refl, refl), inr t, ground arith)
  ]

  -- A retried fetch makes at least one call and at most one more than there are retries, and its outcome is
  -- that of its last call. All calls before the last have thrown a transient error, and the last has
  -- not, unless the retries are used up.
  pub fetch_with_transient_retry-last :
      (retries i : ℕ)
      → (1 ≤ (fetch_with_transient_retry fetch retries).0)
        × ((fetch_with_transient_retry fetch retries).0 ≤ retries + 1)
        × ((last : ℕ) × (last + 1 ≡ (fetch_with_transient_retry fetch retries).0)
            × ((fetch_with_transient_retry fetch retries).1 ≡ fetch last))
        × (((fetch_with_transient_retry fetch retries).0 ≡ retries + 1)
            ⊎ (transient fetch (fetch_with_transient_retry fetch retries).1 ≡ false))
        × (((fetch_with_transient_retry fetch retries).0 ≤ i + 1)
            ⊎ (transient fetch (fetch i) ≡ true))
  unfolding fetch_with_transient_retry
  fetch_with_transient_retry-last retries i =
      let (a, b, c, d, e) = retry_from-From retries 0 i in
      (omega arith, omega arith, c, ground (arith, d), ground (arith, e))
