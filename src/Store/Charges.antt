-- ===== src/Store/Charges.antt =====
-- What reservations add to a host.
use base_layer.Base.{
  ℕ, ◌+◌, ◌-◌, ◌*◌, Bool, true, false, Option, none, some, List, [], ◌∷◌, String, ◌≡◌, ◌≢◌, ◌⊎◌,
  ◌↔◌, inl, inr, arith, refl, sym, ap, ◌∙◌, Bool-cases, Option-cases, ◌==◌, find, if◌then◌else◌,
}
use base_layer.Types.{
  HostRecord, WarmPool, HostCreateReservation, AgentMode, firecracker, same_mode,
}
use base_layer.Store.Effective.{take_warm, charge_session, charge_cold, charge_pools, charge_host}

abbrev pub host_by : String → List HostRecord → Option HostRecord
host_by id hosts = find (λ host. host.host_id == id) hosts

abbrev pub ready_total : List WarmPool → ℕ
ready_total [] = 0
ready_total (pool ∷ rest) = pool.ready_count + ready_total rest

-- The host `g` is `h` with `n` reservations on it: each counts a session and a renderer, and on a
-- Firecracker host each takes one ready runtime or starts one microVM with its memory.
pub record Charged (h g : HostRecord) (n : ℕ) : Type 0 where
  pub same_id : g.host_id ≡ h.host_id
  pub same_mode : g.mode ≡ h.mode
  pub same_capacity : g.capacity ≡ h.capacity
  pub elsewhere : g ≡ record h { metrics = g.metrics }
  pub sessions : g.metrics.active_sessions ≡ h.metrics.active_sessions + n
  pub renderers : g.metrics.active_renderer_count ≡ h.metrics.active_renderer_count + n
  pub cold_left : g.metrics.cold_admit_remaining ≡ h.metrics.cold_admit_remaining - n
  pub warm : ℕ
  pub cold : ℕ
  pub pools : ready_total g.metrics.warm_pools + warm ≡ ready_total h.metrics.warm_pools
  pub microvms : g.metrics.active_microvm_count ≡ h.metrics.active_microvm_count + cold
  pub memory :
      g.metrics.reserved_microvm_memory_mb
      ≡ h.metrics.reserved_microvm_memory_mb + cold * h.capacity.microvm_memory_mb
  pub split :
      ((h.mode ≡ firecracker) × (warm + cold ≡ n)) ⊎ ((h.mode ≢ firecracker) × (warm + cold ≡ 0))

take_warm-ready :
    (profile : Option String) (pools : List WarmPool) {left : List WarmPool}
    → take_warm profile pools ≡ some left
    → ready_total left + 1 ≡ ready_total pools
unfolding take_warm
take_warm-ready profile [] h = absurd (ground arith)
take_warm-ready profile (pool ∷ rest) {left} h = elim (Option-cases (take_warm profile rest)) [
  | inl e ↦ ground arith
  | inr (later, e) ↦ ground (arith, take_warm-ready profile rest e)
]

same_mode-firecracker : (m : AgentMode) → (same_mode m firecracker ≡ true) ↔ (m ≡ firecracker)
same_mode-firecracker m = ground arith

charge_session-Charged : (h : HostRecord) → h.mode ≢ firecracker → Charged h (charge_session h) 1
unfolding charge_session
charge_session-Charged h other = record {
  same_id = refl;
  same_mode = refl;
  same_capacity = refl;
  elsewhere = refl;
  sessions = refl;
  renderers = refl;
  cold_left = refl;
  warm = 0;
  cold = 0;
  pools = omega arith;
  microvms = omega arith;
  memory = omega arith;
  split = inr (other, refl);
}

charge_pools-Charged :
    (h : HostRecord) (o : Option (List WarmPool))
    → h.mode ≡ firecracker
    → ((left : List WarmPool)
        → o ≡ some left
        → ready_total left + 1 ≡ ready_total h.metrics.warm_pools)
    → Charged h (charge_pools o (charge_session h)) 1
unfolding charge_session charge_pools charge_cold
charge_pools-Charged h none mode ready = record {
  same_id = refl;
  same_mode = refl;
  same_capacity = refl;
  elsewhere = refl;
  sessions = refl;
  renderers = refl;
  cold_left = refl;
  warm = 0;
  cold = 1;
  pools = omega arith;
  microvms = refl;
  memory = omega arith;
  split = inl (mode, refl);
}
charge_pools-Charged h (some left) mode ready = record {
  same_id = refl;
  same_mode = refl;
  same_capacity = refl;
  elsewhere = refl;
  sessions = refl;
  renderers = refl;
  cold_left = refl;
  warm = 1;
  cold = 0;
  pools = ready left refl;
  microvms = omega arith;
  memory = omega arith;
  split = inl (mode, refl);
}

pub charge_host-Charged :
    (r : HostCreateReservation) (h : HostRecord) → Charged h (charge_host r h) 1
unfolding charge_host
charge_host-Charged r h = elim (Bool-cases (same_mode h.mode firecracker)) [
  | inr other ↦
      rw other (charge_session-Charged h (λ e. ground (arith, (same_mode-firecracker h.mode).1 e)))
  | inl mode ↦ rw mode (
      charge_pools-Charged h _ ((same_mode-firecracker h.mode).0 mode) λ left e.
        take_warm-ready r.runtime_profile h.metrics.warm_pools (taken r.warm_expected left e))
]
  where
    taken :
        (b : Bool) (left : List WarmPool)
        → (if b then take_warm r.runtime_profile h.metrics.warm_pools else none) ≡ some left
        → take_warm r.runtime_profile h.metrics.warm_pools ≡ some left
    taken true left e = e
    taken false left e = absurd (ground arith)

pub Charged-zero : (h : HostRecord) → Charged h h 0
Charged-zero h = record {
  same_id = refl;
  same_mode = refl;
  same_capacity = refl;
  elsewhere = refl;
  sessions = omega arith;
  renderers = omega arith;
  cold_left = omega arith;
  warm = 0;
  cold = 0;
  pools = omega arith;
  microvms = omega arith;
  memory = omega arith;
  split = elim (Bool-cases (same_mode h.mode firecracker)) [
    | inl mode ↦ inl ((same_mode-firecracker h.mode).0 mode, refl)
    | inr other ↦ inr (λ e. ground (arith, (same_mode-firecracker h.mode).1 e), refl)
  ];
}

pub Charged-trans :
    {h g k : HostRecord} {m n : ℕ} → Charged h g m → Charged g k n → Charged h k (m + n)
Charged-trans {h} {g} {k} {m} {n} a b = record {
  same_id = b.same_id ∙ a.same_id;
  same_mode = b.same_mode ∙ a.same_mode;
  same_capacity = b.same_capacity ∙ a.same_capacity;
  elsewhere =
      b.elsewhere
      ∙ ap {A = HostRecord} {B = HostRecord} (λ x. record x { metrics = k.metrics }) a.elsewhere;
  sessions = omega (arith, a.sessions, b.sessions);
  renderers = omega (arith, a.renderers, b.renderers);
  cold_left = omega (arith, a.cold_left, b.cold_left);
  warm = a.warm + b.warm;
  cold = a.cold + b.cold;
  pools = omega (arith, a.pools, b.pools);
  microvms = omega (arith, a.microvms, b.microvms);
  memory =
      omega (arith, a.memory, b.memory, ap (λ c. b.cold * c.microvm_memory_mb) a.same_capacity);
  split = joined a.split b.split;
}
  where
    joined :
        ((h.mode ≡ firecracker) × (a.warm + a.cold ≡ m))
          ⊎ ((h.mode ≢ firecracker) × (a.warm + a.cold ≡ 0))
        → ((g.mode ≡ firecracker) × (b.warm + b.cold ≡ n))
          ⊎ ((g.mode ≢ firecracker) × (b.warm + b.cold ≡ 0))
        → ((h.mode ≡ firecracker) × (a.warm + b.warm + (a.cold + b.cold) ≡ m + n))
          ⊎ ((h.mode ≢ firecracker) × (a.warm + b.warm + (a.cold + b.cold) ≡ 0))
    joined (inl (e, p)) (inl (f, q)) = inl (e, omega arith)
    joined (inr (e, p)) (inr (f, q)) = inr (e, omega arith)
    joined (inl (e, p)) (inr (f, q)) = absurd (f (a.same_mode ∙ e))
    joined (inr (e, p)) (inl (f, q)) = absurd (e (sym a.same_mode ∙ f))
