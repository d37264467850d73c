-- ===== src/Server/Hosts/Laws.antt =====
-- What registrations and heartbeats leave in the store.
use base_layer.Base.{
  ℕ, Bool, true, false, not, some, String, ◌≡◌, ◌≢◌, ◌⊎◌, List, [], Memᴰ, refl, sym, ap, ◌∙◌, arith,
  Result, ok, err, Bool-cases, Option-cases, Error, inl, inr,
}
use base_layer.Base.Dict.{lookup, insert, lookup-Entries}
use base_layer.Types.{
  StateFile, HostRecord, HostHeartbeat, HostRegistration, ProviderHostConfigEntry,
}
use base_layer.Types.Schema.{valid_host, parse_host, checked-eq-ok}
use base_layer.Types.Platform.{Platform}
use base_layer.Store.File.{ControlPlaneStore}
use base_layer.Store.Monad.{with_write_lock}
use base_layer.Store.Writes.{put_host, upsert_host}
use base_layer.Store.Reads.{get_host}
use base_layer.Store.Effective.{effective_hosts}
use base_layer.Store.Charges.{Charged, host_by}
use base_layer.Store.Counting.{effective_hosts-Charged}
use base_layer.Store.Identity.{HostsKeyed, lookup-host_by}
use base_layer.Store.Durability.{written, reopen}
use base_layer.Store.Durability.Validity.{Valid}
use base_layer.Store.Settled.{reading-Settled, stored-Settled}
use base_layer.Server.Handler.{go_on-ok, lift, go_on, pure, Reply, send}
use base_layer.Store.Stored.{stored, write-stored}
use base_layer.Allowlist.{
  ProviderHostAllowlist, new, is_allowed, enrich, enrich_registered_host, get,
}
use base_layer.Allowlist.Laws.{is_allowed-configured, new-enforced}
use base_layer.Server.Hosts.{
  registered_record, register_host, valid_registration, heard_from, valid_heartbeat, heartbeat,
  heartbeat_found,
}

-- What others report of the host in between does not show: a heartbeat replaces the metrics.
heard-Charged :
    (beat : HostHeartbeat) (h g : HostRecord) {n : ℕ}
    → Charged h g n
    → heard_from beat g ≡ heard_from beat h
unfolding heard_from
heard-Charged beat h g c = ap (heard_from beat) c.elsewhere

clash :
    {B : Type 0} {x : Error} {b : B} {s t : StateFile}
    → ◌≡◌ {A = Result B × StateFile} (err x, s) (ok b, t)
    → ⊥
clash c = ground arith

module _ (platform : Platform) where
  open platform use {formats}

  heard-valid :
      (beat : HostHeartbeat) (h : HostRecord)
      → valid_host formats h ≡ true
      → valid_heartbeat platform beat ≡ true
      → valid_host formats (heard_from beat h) ≡ true
  unfolding heard_from valid_heartbeat valid_host
  heard-valid beat h v b = ground arith

  -- A heartbeat of a registered host is answered with 202. It sets the host's mode, status, capacity,
  -- metrics and time of report to what it says and changes nothing else in the state; in particular
  -- what live reservations add to the figures that `getHost` shows is not stored.
  pub heartbeat-stored :
      (now : ℕ) (lock : Result (Unit {0})) (id : String) (beat : HostHeartbeat) (s : StateFile)
      (h : HostRecord)
      → Valid formats s
      → HostsKeyed s.hosts
      → lookup id s.hosts ≡ some h
      → valid_heartbeat platform beat ≡ true
      → lock ≡ ok tt
      → heartbeat platform lock now id beat (stored s) ≡ (
        ok (send 202),
        stored (record s {
          hosts =
              insert id
                (record h {
                  mode = beat.mode;
                  status = beat.status;
                  capacity = beat.capacity;
                  metrics = beat.metrics;
                  reported_at = beat.reported_at;
                })
                s.hosts;
        }),
      )
  unfolding heartbeat get_host upsert_host parse_host put_host heard_from
  heartbeat-stored now lock id beat s h valid keyed there good free =
      let (own, first) = lookup-host_by platform.locale_compare s id keyed there in
      let (g, seen, c) = effective_hosts-Charged platform.locale_compare now s id h first in
      let w = heard_from beat h in
      let same : heard_from beat g ≡ w = heard-Charged beat h g c in
      let valid_w = heard-valid beat h (lookup-Entries _ id s.hosts valid.1 there) good in
      let returns : upsert_host platform w s ≡ (ok w, put_host w s) = rw valid_w in
      rw good (
        ap (λ z. go_on z (λ o. heartbeat_found platform lock now o beat))
          (reading-Settled formats (λ t. host_by id (effective_hosts platform.locale_compare now t))
            (stored s) (stored-Settled formats s valid))
        ∙ ap (λ o. heartbeat_found platform lock now o beat (stored s)) seen
        ∙ ap
            (λ x.
              go_on (with_write_lock formats lock (upsert_host platform x) (stored s))
                (λ z. pure (send 202)))
            same
        ∙ ap (λ z. go_on z (λ _. pure (send 202)))
            (write-stored formats lock (upsert_host platform w) s (put_host w s) free valid returns)
        ∙ ap (λ i. (ok (send 202), stored (record s { hosts = insert i w s.hosts }))) own)

  -- Which hosts a registration stores.
  abbrev pub Registers :
      List ProviderHostConfigEntry → String → StateFile → ControlPlaneStore → Type 0
  Registers configured id s st =
      (entry : ProviderHostConfigEntry) × (w : HostRecord) × Memᴰ entry configured
      × (entry.host_id ≡ id)
      × (entry.enabled ≡ true)
      × (w.host_id ≡ id)
      × (w.enabled ≡ true)
      × (st ≡ stored (record s { hosts = insert id w s.hosts }))

  upsert_host-ok :
      (w : HostRecord) (s t : StateFile) {a : HostRecord}
      → upsert_host platform w s ≡ (ok a, t)
      → t ≡ put_host w s
  unfolding upsert_host parse_host
  upsert_host-ok w s t h = elim (Bool-cases (valid_host formats w)) [
    | inl e ↦ sym (ap (λ z. z.1) (rw e at h))
    | inr e ↦ absurd (clash (rw e at h))
  ]

  -- A write of a host into a stored state that returns.
  host-written :
      (lock : Result (Unit {0})) (w : HostRecord) (s : StateFile) {a : HostRecord}
      {st : ControlPlaneStore}
      → Valid formats s
      → with_write_lock formats lock (upsert_host platform w) (stored s) ≡ (ok a, st)
      → st ≡ stored (put_host w s)
  host-written lock w s {a} {st} valid h =
      let (fresh, t, opened, e, left) =
        written formats lock (upsert_host platform w) (stored s) st h in
      let same : stored s ≡ fresh = opens (sym (reopen formats s valid) ∙ opened) in
      left
      ∙ ap stored (
          upsert_host-ok w s t
            (ap (λ z. upsert_host platform w (ControlPlaneStore.state z)) same ∙ e))
    where
      opens : {x y : ControlPlaneStore} → Result.ok x ≡ ok y → x ≡ y
      opens q = ground arith

  enrich-enabled :
      (configured : List ProviderHostConfigEntry) (enforced : Bool) (r : HostRecord)
      → (enforced ≡ true) ⊎ (configured ≢ [])
      → is_allowed (new configured enforced) r.host_id ≡ true
      → ((enrich_registered_host (new configured enforced) r).enabled ≡ true)
        × ((enrich_registered_host (new configured enforced) r).host_id ≡ r.host_id)
  unfolding enrich_registered_host is_allowed enrich get
  enrich-enabled configured enforced r strict h =
      let on = new-enforced configured enforced strict in
      elim (Option-cases (lookup r.host_id (new configured enforced).entries)) [
        | inl e ↦ rw e (refl, refl)
        | inr (entry, e) ↦ rw e (ground arith, refl)
      ]

  registers :
      (now : ℕ) (lock : Result (Unit {0})) (configured : List ProviderHostConfigEntry)
      (enforced : Bool) (registration : HostRegistration) (s : StateFile) {reply : Reply}
      {st : ControlPlaneStore}
      → Valid formats s
      → (enforced ≡ true) ⊎ (configured ≢ [])
      → is_allowed (new configured enforced) registration.host_id ≡ true
      → go_on
          (lift (parse_host formats (registered_record registration now)) (stored s))
          (λ parsed st'.
            go_on
              (with_write_lock formats lock
                (upsert_host platform (enrich_registered_host (new configured enforced) parsed))
                st')
              (λ _. pure (send 201)))
        ≡ (ok reply, st)
      → Registers configured registration.host_id s st
  unfolding parse_host registered_record put_host
  registers now lock configured enforced registration s {reply} {st} valid strict allowed h =
      let r = registered_record registration now in
      let w = enrich_registered_host (new configured enforced) r in
      let (parsed, u, e, h) = go_on-ok (lift (parse_host formats r) (stored s)) _ h in
      let (entry, m, same, on) =
        is_allowed-configured configured enforced registration.host_id strict allowed in
      let (en, own) = enrich-enabled configured enforced r strict allowed in
      let (a, u', e', h) =
        go_on-ok
          (with_write_lock formats lock
            (upsert_host platform (enrich_registered_host (new configured enforced) parsed)) u)
          _ h in
      let as_is : parsed ≡ r = (checked-eq-ok (valid_host formats r) r (ap (λ z. z.0) e)).1 in
      let first : u ≡ stored s = sym (ap (λ z. z.1) e) in
      let one =
        ap (λ q. with_write_lock formats lock (upsert_host platform w) q) (sym first)
        ∙ ap
            (λ q.
              with_write_lock formats lock
                (upsert_host platform (enrich_registered_host (new configured enforced) q)) u)
            (sym as_is)
        ∙ e' in
      (
        entry,
        w,
        m,
        same,
        on,
        own,
        en,
        sym (ap (λ z. z.1) h)
            ∙ host-written lock w s valid one
            ∙ ap (λ i. stored (record s { hosts = insert i w s.hosts })) own,
      )

  -- Where hosts are configured or enforcement is on, a registration that is answered leaves the store as
  -- it is or puts into it the record of a host that has a configured and enabled entry, under the
  -- host's id, and changes nothing else.
  pub register_host-configured :
      (now : ℕ) (lock : Result (Unit {0})) (configured : List ProviderHostConfigEntry)
      (enforced : Bool) (registration : HostRegistration) (s : StateFile) {reply : Reply}
      {st : ControlPlaneStore}
      → Valid formats s
      → (enforced ≡ true) ⊎ (configured ≢ [])
      → register_host platform lock now (new configured enforced) registration (stored s)
        ≡ (ok reply, st)
      → (st ≡ stored s) ⊎ Registers configured registration.host_id s st
  unfolding register_host
  register_host-configured now lock configured enforced registration s {reply} {st} valid strict h =
      elim (Bool-cases (not (valid_registration platform registration))) [
        | inl bad ↦ inl (sym (ap (λ z. z.1) (rw bad at h)))
        | inr good ↦ elim (Bool-cases (not (is_allowed list registration.host_id))) [
          | inl barred ↦ inl (sym (ap (λ z. z.1) (rw (good, barred) at h)))
          | inr free ↦ inr (
              registers now lock configured enforced registration s valid strict (allows free)
                (rw (good, free) at h))
        ]
      ]
    where
      list : ProviderHostAllowlist
      list = new configured enforced

      allows : {b : Bool} → not b ≡ false → b ≡ true
      allows e = ground arith
