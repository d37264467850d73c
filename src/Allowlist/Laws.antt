-- ===== src/Allowlist/Laws.antt =====
-- Which hosts may register, and what registration makes of a host.
use base_layer.Base.{
  ℕ, Bool, true, false, none, some, List, [], ◌∷◌, String, ◌≡◌, ◌≢◌, ◌⊎◌, inl, inr, Memᴰ, arith,
  refl, sym, ap, ◌∙◌, Bool-cases, Option-cases, eq_iff, ◌==◌,
}
use base_layer.Base.Dict.{Dict, lookup, insert, lookup-insert}
use base_layer.Types.{HostRecord, ProviderHostConfigEntry}
use base_layer.Scheduler.{HostSelectionOptions}
use base_layer.Scheduler.Admission.{Admits}
use base_layer.Allowlist.{
  ProviderHostAllowlist, set_entries, new, get, is_allowed, enrich, enrich_registered_host,
  non_empty,
}

-- An entry of the map was configured, or was there before.
lookup-set_entries :
    (configured : List ProviderHostConfigEntry) (map : Dict ProviderHostConfigEntry) (id : String)
    (entry : ProviderHostConfigEntry)
    → lookup id (set_entries configured map) ≡ some entry
    → (Memᴰ entry configured × (entry.host_id ≡ id)) ⊎ (lookup id map ≡ some entry)
unfolding set_entries
lookup-set_entries [] map id entry h = inr h
lookup-set_entries (c ∷ rest) map id entry h =
    elim (lookup-set_entries rest (insert c.host_id c map) id entry h) [
      | inl (m, e) ↦ inl (Memᴰ.tail m, e)
      | inr old ↦ elim (Bool-cases (c.host_id == id)) [
        | inl same ↦
            let here : c ≡ entry = ground (arith, lookup-insert c.host_id id c map) in
            inl
              (Memᴰ.head (sym here), ap (λ e. e.host_id) (sym here) ∙ (eq_iff c.host_id id).0 same)
        | inr other ↦ inr (ground (arith, lookup-insert c.host_id id c map))
      ]
    ]

lookup-new :
    (configured : List ProviderHostConfigEntry) (enforced : Bool) (id : String)
    (entry : ProviderHostConfigEntry)
    → lookup id (new configured enforced).entries ≡ some entry
    → (Memᴰ entry configured × (entry.host_id ≡ id)) ⊎ (none ≡ some entry)
unfolding new lookup
lookup-new configured enforced id entry h = lookup-set_entries configured [] id entry h

non_empty-insert :
    (id : String) (entry : ProviderHostConfigEntry) (map : Dict ProviderHostConfigEntry)
    → non_empty (insert id entry map) ≡ true
unfolding insert
non_empty-insert id entry [] = refl
non_empty-insert id entry ((j, e) ∷ map) = ground arith

non_empty-set_entries :
    (configured : List ProviderHostConfigEntry) (map : Dict ProviderHostConfigEntry)
    → non_empty map ≡ true
    → non_empty (set_entries configured map) ≡ true
unfolding set_entries
non_empty-set_entries [] map h = h
non_empty-set_entries (c ∷ rest) map h =
    non_empty-set_entries rest (insert c.host_id c map) (non_empty-insert c.host_id c map)

pub new-enforced :
    (configured : List ProviderHostConfigEntry) (enforced : Bool)
    → (enforced ≡ true) ⊎ (configured ≢ [])
    → (new configured enforced).enforced ≡ true
unfolding new
new-enforced configured enforced (inl e) = rw e
new-enforced [] enforced (inr some_host) = absurd (some_host refl)
new-enforced (c ∷ rest) enforced (inr some_host) =
    ground
      (arith, non_empty-set_entries rest (insert c.host_id c []) (non_empty-insert c.host_id c []))

-- With any host configured, or with enforcement asked for, only a host with a configured and enabled
-- entry may register.
pub is_allowed-configured :
    (configured : List ProviderHostConfigEntry) (enforced : Bool) (id : String)
    → (enforced ≡ true) ⊎ (configured ≢ [])
    → is_allowed (new configured enforced) id ≡ true
    → (entry : ProviderHostConfigEntry) × Memᴰ entry configured
      × (entry.host_id ≡ id)
      × (entry.enabled ≡ true)
unfolding is_allowed get
is_allowed-configured configured enforced id strict h =
    elim (Option-cases (lookup id (new configured enforced).entries)) [
      | inl missing ↦ absurd (ground (arith, new-enforced configured enforced strict))
      | inr (entry, hit) ↦ elim (found entry hit) [
        | inl (m, e) ↦ (entry, m, e, ground (arith, new-enforced configured enforced strict))
        | inr none_before ↦ absurd (ground arith)
      ]
    ]
  where
    found :
        (entry : ProviderHostConfigEntry)
        → lookup id (new configured enforced).entries ≡ some entry
        → (Memᴰ entry configured × (entry.host_id ≡ id)) ⊎ (none ≡ some entry)
    found entry hit = lookup-new configured enforced id entry hit

-- A registered host whose entry is switched off meets the scheduler's conditions for no request.
pub enrich_registered_host-disabled :
    (allowlist : ProviderHostAllowlist) (input : HostRecord) (entry : ProviderHostConfigEntry)
    (percent : ℕ → ℕ → ℕ) (options : HostSelectionOptions) (warm : ℕ)
    → get allowlist input.host_id ≡ some entry
    → entry.enabled ≡ false
    → ¬ Admits percent options (enrich_registered_host allowlist input) warm
unfolding enrich_registered_host enrich
enrich_registered_host-disabled allowlist input entry percent options warm hit off a =
    ground (arith, a.enabled)
