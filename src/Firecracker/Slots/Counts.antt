-- ===== src/Firecracker/Slots/Counts.antt =====
-- How often a slot's id stands in the lists of the pool.
use base_layer.Base.{
  ℕ, ◌+◌, ◌-◌, ◌≤◌, Bool, true, false, ◌&&◌, not, List, [], ◌∷◌, String, ◌==◌, ◌≡◌, refl, ap, arith,
  count, filter, includes, if◌then◌else◌, Bool-cases, inl, inr, eq_iff,
}
use base_layer.Firecracker.Slots.{Claim, same_claim, has, drop_claim, drop_id, about, not_about}

-- How many claims in a list are about a slot, and how often its id is in a list of ids.
abbrev pub claims_of : String → List Claim → ℕ
claims_of id claims = count (about id) claims

abbrev pub times : String → List String → ℕ
times id ids = count (λ i. i == id) ids

abbrev pub one_if : Bool → ℕ
one_if b = if b then 1 else 0

pub claims_of-drop_claim :
    (id session j : String) (claims : List Claim)
    → has (session, j) claims ≡ true
    → claims_of id (drop_claim (session, j) claims) + one_if (j == id) ≡ claims_of id claims
unfolding drop_claim
claims_of-drop_claim id session j [] h = absurd (ground arith)
claims_of-drop_claim id session j ((t, i) ∷ rest) h =
    elim (Bool-cases (same_claim (session, j) (t, i))) [
      | inl e ↦ let same : j ≡ i = (eq_iff j i).0 (ground arith) in rw (e, same) (omega arith)
      | inr e ↦ rw e (omega (arith, claims_of-drop_claim id session j rest (rw e at h)))
    ]

pub drop_claim-missing :
    (c : Claim) (claims : List Claim) → has c claims ≡ false → drop_claim c claims ≡ claims
unfolding drop_claim
drop_claim-missing c [] h = refl
drop_claim-missing c (d ∷ rest) h = elim (Bool-cases (same_claim c d)) [
  | inl e ↦ absurd (ground (arith, rw e at h))
  | inr e ↦ rw e (ap (λ l. d ∷ l) (drop_claim-missing c rest (rw e at h)))
]

pub has-claims_of :
    (session j : String) (claims : List Claim)
    → has (session, j) claims ≡ true
    → 1 ≤ claims_of j claims
has-claims_of session j [] h = absurd (ground arith)
has-claims_of session j ((t, i) ∷ rest) h =
    ground (arith, eq_iff j i, eq_iff i j, has-claims_of session j rest)

pub times-drop_id :
    (id j : String) (ids : List String)
    → times id (drop_id j ids) ≡ times id ids - one_if (j == id && includes ids j)
unfolding drop_id includes
times-drop_id id j [] = ground arith
times-drop_id id j (i ∷ rest) =
    ground (arith, times-drop_id id j rest, eq_iff i j, eq_iff j i, eq_iff i id, eq_iff j id)

pub times-includes : (id : String) (ids : List String) → 1 ≤ times id ids → includes ids id ≡ true
unfolding includes
times-includes id [] h = absurd (omega arith)
times-includes id (i ∷ rest) h = ground (arith, times-includes id rest)

pub includes-times : (id : String) (ids : List String) → includes ids id ≡ true → 1 ≤ times id ids
unfolding includes
includes-times id [] h = absurd (ground arith)
includes-times id (i ∷ rest) h = ground (arith, includes-times id rest)

pub times-filter :
    (id j : String) (ids : List String)
    → times id (filter (λ i. not (i == j)) ids) ≡ (if j == id then 0 else times id ids)
times-filter id j [] = ground arith
times-filter id j (i ∷ rest) =
    ground (arith, times-filter id j rest, eq_iff i j, eq_iff i id, eq_iff j id)

pub claims-filter_not :
    (id j : String) (claims : List Claim)
    → claims_of id (filter (not_about j) claims) ≡ (if j == id then 0 else claims_of id claims)
claims-filter_not id j [] = ground arith
claims-filter_not id j ((t, i) ∷ rest) =
    ground (arith, claims-filter_not id j rest, eq_iff i j, eq_iff i id, eq_iff j id)

pub claims-filter :
    (id j : String) (claims : List Claim)
    → claims_of id (filter (about j) claims) ≡ (if j == id then claims_of id claims else 0)
claims-filter id j [] = ground arith
claims-filter id j ((t, i) ∷ rest) =
    ground (arith, claims-filter id j rest, eq_iff i j, eq_iff i id, eq_iff j id)

pub includes-filter :
    (id j : String) (ids : List String)
    → includes (filter (λ i. not (i == j)) ids) id ≡ (if j == id then false else includes ids id)
unfolding includes
includes-filter id j [] = ground arith
includes-filter id j (i ∷ rest) =
    ground (arith, includes-filter id j rest, eq_iff i j, eq_iff i id, eq_iff j id)
