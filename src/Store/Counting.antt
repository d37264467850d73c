-- ===== src/Store/Counting.antt =====
-- The hosts as they count are the stored ones with their live reservations on them.
use base_layer.Base.{
  ℕ, Bool, true, false, Option, none, some, List, [], ◌∷◌, String, ◌≡◌, arith, refl, sym, ap, subst,
  ◌∙◌, inl, inr, Bool-cases, eq_iff, ◌==◌, count, filter, if◌then◌else◌,
}
use base_layer.Base.Dict.{values}
use base_layer.Base.Int.{ℤ}
use base_layer.Base.Sort.{sort, count-sort}
use base_layer.Types.{StateFile, HostRecord, HostCreateReservation}
use base_layer.Store.Effective.{
  charge_host, charge, charge_all, by_created, is_live, live_reservations, effective_hosts,
}
use base_layer.Store.Charges.{host_by, Charged, charge_host-Charged, Charged-zero, Charged-trans}

abbrev pub names : String → HostCreateReservation → Bool
names id reservation = reservation.host_id == id

host_by-cons_ne :
    (id : String) (h : HostRecord) (hosts : List HostRecord)
    → (h.host_id == id) ≡ false
    → host_by id (h ∷ hosts) ≡ host_by id hosts
host_by-cons_ne id h hosts e = rw e

charge-host_by_other :
    (id : String) (r : HostCreateReservation) (hosts : List HostRecord)
    → names id r ≡ false
    → host_by id (charge r hosts) ≡ host_by id hosts
unfolding charge
charge-host_by_other id r [] e = refl
charge-host_by_other id r (h ∷ hosts) e = elim (Bool-cases (h.host_id == r.host_id)) [
  | inl same ↦
      let q : h.host_id ≡ r.host_id = (eq_iff h.host_id r.host_id).0 same in
      let before : (h.host_id == id) ≡ false = rw q e in
      let after : ((charge_host r h).host_id == id) ≡ false =
        rw ((charge_host-Charged r h).same_id) before in
      rw same
        (host_by-cons_ne id (charge_host r h) hosts after ∙ sym (host_by-cons_ne id h hosts before))
  | inr other ↦
      rw other (ap (λ l. if h.host_id == id then some h else l) (charge-host_by_other id r hosts e))
]

charge-host_by_same :
    (id : String) (r : HostCreateReservation) (hosts : List HostRecord) {h : HostRecord}
    → names id r ≡ true
    → host_by id hosts ≡ some h
    → host_by id (charge r hosts) ≡ some (charge_host r h)
unfolding charge
charge-host_by_same id r [] e f = absurd (ground arith)
charge-host_by_same id r (x ∷ hosts) {h} e f =
    let q : r.host_id ≡ id = (eq_iff r.host_id id).0 e in
    elim (Bool-cases (x.host_id == id)) [
      | inl t ↦
          let here : (x.host_id == r.host_id) ≡ true = rw q t in
          let after : ((charge_host r x).host_id == id) ≡ true =
            rw ((charge_host-Charged r x).same_id) t in
          let same : x ≡ h = ground arith in
          rw here (rw after (ap (λ y. some (charge_host r y)) same))
      | inr t ↦
          let here : (x.host_id == r.host_id) ≡ false = rw q t in
          rw (here, t) (charge-host_by_same id r hosts e (rw t at f))
    ]

pub charge_all-Charged :
    (id : String) (rs : List HostCreateReservation) (hosts : List HostRecord) (h : HostRecord)
    → host_by id hosts ≡ some h
    → (g : HostRecord) × (host_by id (charge_all rs hosts) ≡ some g)
      × Charged h g (count (names id) rs)
unfolding charge_all
charge_all-Charged id [] hosts h f = (h, f, Charged-zero h)
charge_all-Charged id (r ∷ rs) hosts h f = elim (Bool-cases (names id r)) [
  | inl t ↦
      let (g, e, c) =
        charge_all-Charged id rs (charge r hosts) (charge_host r h)
          (charge-host_by_same id r hosts t f) in
      (g, e, rw t (Charged-trans (charge_host-Charged r h) c))
  | inr t ↦
      let (g, e, c) =
        charge_all-Charged id rs (charge r hosts) h (charge-host_by_other id r hosts t ∙ f) in
      (g, e, rw t (Charged-trans (Charged-zero h) c))
]

charge-missing :
    (id : String) (r : HostCreateReservation) (hosts : List HostRecord)
    → names id r ≡ true
    → host_by id hosts ≡ none
    → host_by id (charge r hosts) ≡ none
unfolding charge
charge-missing id r [] e f = refl
charge-missing id r (x ∷ hosts) e f =
    let q : r.host_id ≡ id = (eq_iff r.host_id id).0 e in
    elim (Bool-cases (x.host_id == id)) [
      | inl t ↦ absurd (ground arith)
      | inr t ↦
          let here : (x.host_id == r.host_id) ≡ false = rw q t in
          rw (here, t) (charge-missing id r hosts e (rw t at f))
    ]

pub charge_all-missing :
    (id : String) (rs : List HostCreateReservation) (hosts : List HostRecord)
    → host_by id hosts ≡ none
    → host_by id (charge_all rs hosts) ≡ none
unfolding charge_all
charge_all-missing id [] hosts f = f
charge_all-missing id (r ∷ rs) hosts f =
    charge_all-missing id rs (charge r hosts) (still (names id r) refl)
  where
    still : (b : Bool) → names id r ≡ b → host_by id (charge r hosts) ≡ none
    still false e = charge-host_by_other id r hosts e ∙ f
    still true e = charge-missing id r hosts e f

module _ (locale_compare : String → String → ℤ) (now : ℕ) (s : StateFile) (id : String) where
  -- The stored host of an id, before reservations count.
  abbrev pub stored_host : Option HostRecord
  stored_host =
      host_by id (sort (λ left right. locale_compare left.host_id right.host_id) (values s.hosts))

  -- How many reservations of the host have not expired.
  abbrev pub reserved_count : ℕ
  reserved_count = count (names id) (filter (is_live now) (values s.host_create_reservations))

  -- A stored host shows its own figures with one session and one renderer more for each live
  -- reservation, and each of those has taken one ready runtime or one microVM on a Firecracker host.
  pub effective_hosts-Charged :
      (h : HostRecord)
      → stored_host ≡ some h
      → (g : HostRecord) × (host_by id (effective_hosts locale_compare now s) ≡ some g)
        × Charged h g reserved_count
  unfolding effective_hosts live_reservations
  effective_hosts-Charged h e =
      let (g, f, c) = charge_all-Charged id (live_reservations now s) _ h e in
      let counted : count (names id) (live_reservations now s) ≡ reserved_count =
        count-sort by_created (names id)
          (filter (is_live now) (values s.host_create_reservations)) in
      (g, f, subst (Charged h g) counted c)

  -- No other id shows a host.
  pub effective_hosts-missing :
      stored_host ≡ none → host_by id (effective_hosts locale_compare now s) ≡ none
  unfolding effective_hosts
  effective_hosts-missing e = charge_all-missing id (live_reservations now s) _ e
