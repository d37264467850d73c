-- ===== src/Store/Reserve.antt =====
-- What a successful reservation has done.
use base_layer.Base.{
  ℕ, ◌+◌, ◌<◌, none, List, [], ◌∷◌, String, ◌≡◌, arith, refl, sym, ap, inl, inr, eq_iff, count,
  filter, filter-append, count-append, leb, Result, ok, err, Result-cases, Error,
}
use base_layer.Base.Dict.{Dict, lookup, insert, values, remove_if, values-insert_new}
use base_layer.Types.{StateFile, HostRecord, HostCreateReservation}
use base_layer.Types.Schema.{parse_create_reservation, checked-eq-ok}
use base_layer.Types.Platform.{Platform}
use base_layer.Scheduler.{HostSelectionOptions, choose_host}
use base_layer.Store.Effective.{cleanup_expired_reservations, effective_hosts, is_live}
use base_layer.Store.Charges.{host_by}
use base_layer.Store.Counting.{names}
use base_layer.Store.Writes.{
  ReserveInput, Reserved, or_host, new_reservation, put_reservation, reserve_host_for_create,
}

-- Dropping the expired reservations leaves the live ones.
pub live-remove_if :
    (now : ℕ) (d : Dict HostCreateReservation)
    → filter
        (is_live now)
        (values (remove_if (λ r. leb (HostCreateReservation.expires_at r) now) d))
      ≡ filter (is_live now) (values d)
unfolding remove_if
live-remove_if now [] = refl
live-remove_if now ((k, r) ∷ d) = ground (arith, live-remove_if now d)

-- A new live reservation of a host counts once more for it.
pub count-insert_live :
    (now : ℕ) (d : Dict HostCreateReservation) (id : String) (r : HostCreateReservation)
    → lookup id d ≡ none
    → now < r.expires_at
    → count (names r.host_id) (filter (is_live now) (values (insert id r d)))
      ≡ count (names r.host_id) (filter (is_live now) (values d)) + 1
count-insert_live now d id r fresh live =
    rw (values-insert_new id r d fresh, filter-append (is_live now) (values d) (r ∷ []))
      (rw
        (count-append (names r.host_id) (filter (is_live now) (values d))
          (filter (is_live now) (r ∷ [])))
        (ground (arith, (eq_iff r.host_id r.host_id).1 refl)))

module _ (platform : Platform) (input : ReserveInput) (id : String) (now : ℕ) (s : StateFile) where
  abbrev pub asked : HostSelectionOptions
  asked = record {
    preferred_region = input.preferred_region;
    runtime_profile = input.runtime_profile;
  }

  abbrev pub cleaned : StateFile
  cleaned = cleanup_expired_reservations now s

  abbrev pub counted_hosts : List HostRecord
  counted_hosts = effective_hosts platform.locale_compare now cleaned

  -- The steps of a reservation that succeeds.
  pub record Reserves (r : Reserved) (t : StateFile) : Type 0 where
    pub host : HostRecord
    pub chosen : choose_host platform.percent counted_hosts asked ≡ ok host
    pub reservation : r.reservation ≡ new_reservation input id now host
    pub state : t ≡ put_reservation (new_reservation input id now host) cleaned
    pub shown :
        r.host ≡ or_host (host_by host.host_id (effective_hosts platform.locale_compare now t)) host

  pub reserve_host_for_create-Reserves :
      (r : Reserved) (t : StateFile)
      → reserve_host_for_create platform input id now s ≡ (ok r, t)
      → Reserves r t
  unfolding reserve_host_for_create parse_create_reservation
  reserve_host_for_create-Reserves r t e =
      elim (Result-cases (choose_host platform.percent counted_hosts asked)) [
        | inr (why, f) ↦ absurd (throws (rw f at e))
        | inl (host, f) ↦
            elim (Result-cases
              (parse_create_reservation platform.formats (new_reservation input id now host))) [
                | inr (why, g) ↦ absurd (throws (rw (f, g) at e))
                | inl (parsed, g) ↦
                    let same : parsed ≡ new_reservation input id now host =
                      (checked-eq-ok _ (new_reservation input id now host) g).1 in
                    let (shown, state) = settled (rw (f, g, same) at e) in
                    record {
                      host = host;
                      chosen = f;
                      reservation = sym (ap (λ q. q.reservation) shown);
                      state = sym state;
                      shown = rw (← state) (sym (ap (λ q. q.host) shown));
                    }
              ]
      ]
    where
      throws :
          {why : Error} {u : StateFile}
          → ◌≡◌ {A = Result Reserved × StateFile} (err why, u) (ok r, t)
          → ⊥
      throws q = ground arith

      settled :
          {x : Reserved} {u : StateFile}
          → ◌≡◌ {A = Result Reserved × StateFile} (ok x, u) (ok r, t)
          → (x ≡ r) × (u ≡ t)
      settled q = ground arith
