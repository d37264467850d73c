-- ===== src/Store/Identity.antt =====
-- The ids of hosts in a state, through sorting and charging (`#effectiveHosts` of src/api/store.ts).
use base_layer.Base.{
  ℕ, Bool, true, false, ◌||◌, none, some, List, [], ◌∷◌, String, map, ◌≡◌, arith, refl, sym, ap,
  subst, ◌∙◌, Memᴰ, inl, inr, Bool-cases, eq_iff, ◌==◌, includes,
}
use base_layer.Base.Int.{ℤ}
use base_layer.Base.Dict.{Dict, Keyed, lookup, values, lookup-mem, lookup-key}
use base_layer.Base.Sort.{sort, insert_sorted, not_after, sort-mem}
use base_layer.Types.{StateFile, HostRecord, HostCreateReservation}
use base_layer.Store.Effective.{charge, charge_all, live_reservations, effective_hosts}
use base_layer.Store.Charges.{host_by, charge_host-Charged}

-- Every host stands under its own id, and no id twice.
abbrev pub HostsKeyed : Dict HostRecord → Type 0
HostsKeyed d = Keyed (λ h. HostRecord.host_id h) d

abbrev ids : List HostRecord → List String
ids hosts = map (λ h. h.host_id) hosts

abbrev Distinct : List String → Type 0
Distinct [] = Unit {0}
Distinct (i ∷ is) = (includes is i ≡ false) × Distinct is

ids-missing :
    (k : String) (d : Dict HostRecord)
    → HostsKeyed d
    → lookup k d ≡ none
    → includes (ids (values d)) k ≡ false
unfolding includes lookup
ids-missing k [] w h = refl
ids-missing k ((j, x) ∷ d) (same, fresh, w) h = elim (Bool-cases (j == k)) [
  | inl t ↦ absurd (ground arith)
  | inr t ↦ rw (same, t) (ids-missing k d w (rw t at h))
]

Keyed-Distinct : (d : Dict HostRecord) → HostsKeyed d → Distinct (ids (values d))
Keyed-Distinct [] w = tt
Keyed-Distinct ((k, h) ∷ d) (same, fresh, w) =
    (rw same (ids-missing k d w fresh), Keyed-Distinct d w)

module _ (cmp : HostRecord → HostRecord → ℤ) where
  includes-insert_sorted :
      (x : HostRecord) (ys : List HostRecord) (i : String)
      → includes (ids (insert_sorted cmp x ys)) i ≡ includes (ids (x ∷ ys)) i
  unfolding includes insert_sorted
  includes-insert_sorted x [] i = refl
  includes-insert_sorted x (y ∷ ys) i = elim (Bool-cases (not_after cmp x y)) [
    | inl t ↦ rw t
    | inr t ↦ rw t (swap (y.host_id == i) (x.host_id == i) _ _ (includes-insert_sorted x ys i))
  ]
    where
      swap : (a b c d : Bool) → c ≡ (b || d) → (a || c) ≡ (b || (a || d))
      swap a b c d e = ground arith

  Distinct-insert_sorted :
      (x : HostRecord) (ys : List HostRecord)
      → Distinct (ids (x ∷ ys))
      → Distinct (ids (insert_sorted cmp x ys))
  unfolding insert_sorted includes
  Distinct-insert_sorted x [] h = h
  Distinct-insert_sorted x (y ∷ ys) (nx, (ny, w)) = elim (Bool-cases (not_after cmp x y)) [
    | inl t ↦ rw t (nx, (ny, w))
    | inr t ↦ rw t (
      includes-insert_sorted x ys y.host_id ∙ apart,
      Distinct-insert_sorted x ys (ground arith, w),
    )
  ]
    where
      apart : (x.host_id == y.host_id || includes (ids ys) y.host_id) ≡ false
      apart = ground (arith, eq_iff x.host_id y.host_id, eq_iff y.host_id x.host_id)

  ids-sort :
      (xs : List HostRecord) (i : String) → includes (ids (sort cmp xs)) i ≡ includes (ids xs) i
  unfolding sort includes
  ids-sort [] i = refl
  ids-sort (x ∷ xs) i =
      includes-insert_sorted x (sort cmp xs) i ∙ ap (λ b. x.host_id == i || b) (ids-sort xs i)

  Distinct-sort : (xs : List HostRecord) → Distinct (ids xs) → Distinct (ids (sort cmp xs))
  unfolding sort
  Distinct-sort [] h = tt
  Distinct-sort (x ∷ xs) (nx, w) =
      Distinct-insert_sorted x (sort cmp xs) (ids-sort xs x.host_id ∙ nx, Distinct-sort xs w)

-- Reservations leave the ids as they are.
ids-charge :
    (r : HostCreateReservation) (hosts : List HostRecord) → ids (charge r hosts) ≡ ids hosts
unfolding charge
ids-charge r [] = refl
ids-charge r (h ∷ hosts) = elim (Bool-cases (h.host_id == r.host_id)) [
  | inl t ↦ rw t (ap (λ i. i ∷ ids hosts) ((charge_host-Charged r h).same_id))
  | inr t ↦ rw t (ap (◌∷◌ h.host_id) (ids-charge r hosts))
]

ids-charge_all :
    (rs : List HostCreateReservation) (hosts : List HostRecord)
    → ids (charge_all rs hosts) ≡ ids hosts
unfolding charge_all
ids-charge_all [] hosts = refl
ids-charge_all (r ∷ rs) hosts = ids-charge_all rs (charge r hosts) ∙ ids-charge r hosts

includes-ids_of_mem :
    (hosts : List HostRecord) {h : HostRecord}
    → Memᴰ h hosts
    → includes (ids hosts) h.host_id ≡ true
unfolding includes
includes-ids_of_mem [] m = elim m [ ]
includes-ids_of_mem (x ∷ hosts) {h} (Memᴰ.head e) =
    ground (arith, eq_iff x.host_id h.host_id, ap (λ g. HostRecord.host_id g) e)
includes-ids_of_mem (x ∷ hosts) (Memᴰ.tail m) = ground (arith, includes-ids_of_mem hosts m)

host_by-mem :
    (hosts : List HostRecord) {h : HostRecord}
    → Distinct (ids hosts)
    → Memᴰ h hosts
    → host_by h.host_id hosts ≡ some h
host_by-mem [] w m = elim m [ ]
host_by-mem (x ∷ hosts) {h} w (Memᴰ.head e) =
    let t : (x.host_id == h.host_id) ≡ true =
      (eq_iff x.host_id h.host_id).1 (ap (λ g. HostRecord.host_id g) (sym e)) in
    rw t (ap some (sym e))
host_by-mem (x ∷ hosts) {h} (nx, w) (Memᴰ.tail m) =
    let t : (x.host_id == h.host_id) ≡ false = ground (
      arith,
      eq_iff x.host_id h.host_id,
      includes-ids_of_mem hosts m,
      ap (includes (ids hosts)) {x = x.host_id} {y = h.host_id},
    ) in
    rw t (host_by-mem hosts w m)

-- An effective host is the one found under its id.
pub effective_hosts-host_by :
    (locale_compare : String → String → ℤ) (now : ℕ) (s : StateFile) {h : HostRecord}
    → HostsKeyed s.hosts
    → Memᴰ h (effective_hosts locale_compare now s)
    → host_by h.host_id (effective_hosts locale_compare now s) ≡ some h
unfolding effective_hosts
effective_hosts-host_by locale_compare now s w m =
    host_by-mem (charge_all (live_reservations now s) (sort by_id (values s.hosts)))
      (subst Distinct (sym (ids-charge_all (live_reservations now s) (sort by_id (values s.hosts))))
        (Distinct-sort by_id (values s.hosts) (Keyed-Distinct s.hosts w)))
      m
  where
    by_id : HostRecord → HostRecord → ℤ
    by_id left right = locale_compare left.host_id right.host_id

-- What is looked up is what is found among the sorted hosts.
pub lookup-host_by :
    (locale_compare : String → String → ℤ) (s : StateFile) (id : String) {h : HostRecord}
    → HostsKeyed s.hosts
    → lookup id s.hosts ≡ some h
    → (h.host_id ≡ id)
      × (host_by id
            (sort (λ left right. locale_compare left.host_id right.host_id) (values s.hosts))
          ≡ some h)
lookup-host_by locale_compare s id {h} w e =
    let own : h.host_id ≡ id = lookup-key (λ g. HostRecord.host_id g) id s.hosts w e in
    let m = sort-mem by_id (values s.hosts) (lookup-mem id s.hosts e) in
    (
      own,
      rw (← own) (
          host_by-mem (sort by_id (values s.hosts))
            (Distinct-sort by_id (values s.hosts) (Keyed-Distinct s.hosts w)) m),
    )
  where
    by_id : HostRecord → HostRecord → ℤ
    by_id left right = locale_compare left.host_id right.host_id
