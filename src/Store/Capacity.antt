-- ===== src/Store/Capacity.antt =====
-- `reserveHostForCreate` of src/api/store.ts and the capacity of the hosts.
use base_layer.Base.{
  ℕ, ◌+◌, ◌≤◌, ◌<◌, Option, none, some, List, String, ◌≡◌, ◌⊎◌, arith, sym, ap, subst, ◌∙◌, Memᴰ,
  inl, inr, Option-cases, count, ok,
}
use base_layer.Base.Dict.{lookup, lookup-remove_if}
use base_layer.Types.{StateFile, HostRecord}
use base_layer.Types.Platform.{Platform}
use base_layer.Scheduler.{matching_warm_ready_count}
use base_layer.Scheduler.Admission.{Admits}
use base_layer.Scheduler.Choice.{choose_host-Admits}
use base_layer.Store.Effective.{cleanup_expired_reservations, effective_hosts, live_reservations}
use base_layer.Store.Charges.{Charged, host_by}
use base_layer.Store.Counting.{
  names, stored_host, reserved_count, effective_hosts-Charged, effective_hosts-missing,
}
use base_layer.Store.Identity.{HostsKeyed, effective_hosts-host_by}
use base_layer.Store.Writes.{
  ReserveInput, Reserved, or_host, new_reservation, put_reservation, reserve_host_for_create,
}
use base_layer.Store.Reserve.{
  Reserves, reserve_host_for_create-Reserves, asked, cleaned, counted_hosts, count-insert_live,
  live-remove_if,
}

module _ (platform : Platform) (input : ReserveInput) (id : String) (now : ℕ) (s : StateFile) where
  abbrev counted : List HostRecord
  counted = effective_hosts platform.locale_compare now s

  -- What a caller may rely on after a reservation that leaves `t`. `before` is the host as it counted,
  -- and what the call returns is the host as it counts in `t`.
  pub record Granted (r : Reserved) (t : StateFile) : Type 0 where
    pub before : HostRecord
    pub listed : Memᴰ before counted
    pub admits :
        Admits platform.percent
          (asked platform input id now s)
          before
          (matching_warm_ready_count before input.runtime_profile)
    pub same_id : r.host.host_id ≡ before.host_id
    pub same_capacity : r.host.capacity ≡ before.capacity
    pub sessions : r.host.metrics.active_sessions ≡ before.metrics.active_sessions + 1
    pub renderers : r.host.metrics.active_renderer_count ≡ before.metrics.active_renderer_count + 1
    pub reserved_id : r.reservation.host_id ≡ before.host_id
    pub counts_after :
        host_by before.host_id (effective_hosts platform.locale_compare now t) ≡ some r.host

  counted-cleaned : counted_hosts platform input id now s ≡ counted
  unfolding cleanup_expired_reservations effective_hosts live_reservations
  counted-cleaned = rw (live-remove_if now s.host_create_reservations)

  new_count :
      (host : HostRecord) (t : StateFile)
      → lookup id s.host_create_reservations ≡ none
      → 0 < input.ttl_ms
      → t ≡ put_reservation (new_reservation input id now host) (cleaned platform input id now s)
      → reserved_count platform.locale_compare now t host.host_id
        ≡ reserved_count platform.locale_compare now s host.host_id + 1
  unfolding put_reservation new_reservation cleanup_expired_reservations
  new_count host t fresh ttl e = rw e (
      count-insert_live now _ id (new_reservation input id now host)
        (lookup-remove_if _ id s.host_create_reservations fresh) (omega arith)
      ∙ ap (λ l. count (names host.host_id) l + 1) (live-remove_if now s.host_create_reservations))

  same_stored :
      (host : HostRecord) (t : StateFile)
      → t ≡ put_reservation (new_reservation input id now host) (cleaned platform input id now s)
      → stored_host platform.locale_compare now t host.host_id
        ≡ stored_host platform.locale_compare now s host.host_id
  unfolding put_reservation cleanup_expired_reservations
  same_stored host t e = rw e

  grant :
      (r : Reserved) (t : StateFile) (h : HostRecord) (v : Reserves platform input id now s r t)
      → HostsKeyed s.hosts
      → lookup id s.host_create_reservations ≡ none
      → 0 < input.ttl_ms
      → stored_host platform.locale_compare now s v.host.host_id ≡ some h
      → Granted r t
  unfolding new_reservation
  grant r t h v keyed fresh ttl stored =
      let host = v.host in
      let (m, a) = choose_host-Admits platform.percent _ (asked platform input id now s) v.chosen in
      let listed : Memᴰ host counted = subst (Memᴰ host) counted-cleaned m in
      let found = effective_hosts-host_by platform.locale_compare now s keyed listed in
      let (g, eg, cg) =
        effective_hosts-Charged platform.locale_compare now s host.host_id h stored in
      let same : g ≡ host = ground (arith, found, eg) in
      let n = reserved_count platform.locale_compare now s host.host_id in
      let cb : Charged h host n = subst (λ q. Charged h q n) same cg in
      let (k, ek, ck) =
        effective_hosts-Charged platform.locale_compare now t host.host_id h
          (same_stored host t v.state ∙ stored) in
      let shown : r.host ≡ k = v.shown ∙ ap (λ o. or_host o host) ek in
      let more = new_count host t fresh ttl v.state in
      record {
        before = host;
        listed = listed;
        admits = a;
        same_id = rw shown (ck.same_id ∙ sym cb.same_id);
        same_capacity = rw shown (ck.same_capacity ∙ sym cb.same_capacity);
        sessions = rw shown (omega (arith, ck.sessions, cb.sessions, more));
        renderers = rw shown (omega (arith, ck.renderers, cb.renderers, more));
        reserved_id = ap (λ q. q.host_id) v.reservation;
        counts_after = ek ∙ ap some (sym shown);
      }

-- Where hosts stand under their own ids, a reservation that succeeds under a fresh id and with a positive
-- time to live is made on an admissible host. In the state that it leaves that host counts exactly one
-- session and one renderer more, and so it is returned.
pub reserve_host_for_create-Granted :
    (platform : Platform) (input : ReserveInput) (id : String) (now : ℕ) (s : StateFile)
    (r : Reserved) (t : StateFile)
    → HostsKeyed s.hosts
    → lookup id s.host_create_reservations ≡ none
    → 0 < input.ttl_ms
    → reserve_host_for_create platform input id now s ≡ (ok r, t)
    → Granted platform input id now s r t
reserve_host_for_create-Granted platform input id now s r t keyed fresh ttl e =
    let v = reserve_host_for_create-Reserves platform input id now s r t e in
    let (m, a) = choose_host-Admits platform.percent _ (asked platform input id now s) v.chosen in
    let listed = subst (Memᴰ v.host) (counted-cleaned platform input id now s) m in
    let found = effective_hosts-host_by platform.locale_compare now s keyed listed in
    elim (Option-cases (stored_host platform.locale_compare now s v.host.host_id)) [
      | inl lost ↦
          absurd (
            clash found (effective_hosts-missing platform.locale_compare now s v.host.host_id lost))
      | inr (h, stored) ↦ grant platform input id now s r t h v keyed fresh ttl stored
    ]
  where
    clash : {o : Option HostRecord} {h : HostRecord} → o ≡ some h → o ≡ none → ⊥
    clash p q = ground arith

-- Under the same conditions, the host of the reservation is in the state that the call leaves not above
-- its renderer limit, and not above its session limit unless it had a ready warm runtime of the
-- profile before.
pub reserve-within_capacity :
    (platform : Platform) (input : ReserveInput) (id : String) (now : ℕ) (s : StateFile)
    (r : Reserved) (t : StateFile)
    → HostsKeyed s.hosts
    → lookup id s.host_create_reservations ≡ none
    → 0 < input.ttl_ms
    → reserve_host_for_create platform input id now s ≡ (ok r, t)
    → (after : HostRecord) × (host_by r.reservation.host_id
          (effective_hosts platform.locale_compare now t)
        ≡ some after)
      × (after.metrics.active_renderer_count ≤ after.capacity.max_renderer_count)
      × ((after.metrics.active_sessions ≤ after.capacity.max_sessions)
          ⊎ ((before : HostRecord) × Memᴰ before (effective_hosts platform.locale_compare now s)
              × (before.host_id ≡ after.host_id)
              × (0 < matching_warm_ready_count before input.runtime_profile)))
reserve-within_capacity platform input id now s r t keyed fresh ttl e =
    let g = reserve_host_for_create-Granted platform input id now s r t keyed fresh ttl e in
    let limit = ap (λ c. c.max_sessions) g.same_capacity in
    let renderers = ap (λ c. c.max_renderer_count) g.same_capacity in
    (
      r.host,
      ap (λ j. host_by j (effective_hosts platform.locale_compare now t)) g.reserved_id
          ∙ g.counts_after,
      omega (arith, g.renderers, g.admits.renderers, renderers),
      elim g.admits.sessions [
        | inl room ↦ inl (omega (arith, g.sessions, room, limit))
        | inr warm ↦ inr (g.before, g.listed, sym g.same_id, warm)
      ],
    )
