-- ===== src/Store/Settled.antt =====
-- A store whose memory is what a refresh would read: the store that a call leaves behind.
use base_layer.Base.{
  Bool, true, false, ◌≡◌, refl, sym, ap, ◌∙◌, arith, subst, Result, ok, err, Error, Result-cases,
  inl, inr,
}
use base_layer.Types.{StateFile}
use base_layer.Types.Schema.{Formats}
use base_layer.Store.File.{ControlPlaneStore, StoreFile, load, refresh_from_disk, refresh_file}
use base_layer.Store.Monad.{reading, queried}
use base_layer.Store.Durability.Validity.{Valid, Valid-valid_state}

module _ (formats : Formats) where
  abbrev pub Settled : ControlPlaneStore → Type 0
  Settled store = refresh_from_disk formats false store ≡ ok store

  -- A read of a settled store changes nothing.
  pub reading-Settled :
      {A : Type 0} (query : StateFile → A) (store : ControlPlaneStore)
      → Settled store
      → reading formats query store ≡ (ok (query store.state), store)
  unfolding reading
  reading-Settled query store settled = ap (queried query store) settled

  abbrev Stays : StoreFile → ControlPlaneStore → Type 0
  Stays file store = Settled store × (store.file ≡ file)

  carry :
      {file : StoreFile} {a b : ControlPlaneStore}
      → Result.ok a ≡ ok b
      → Stays file a
      → Stays file b
  carry {file} {a} {b} h p = let e : a ≡ b = ground arith in subst (Stays file) e p

  settle :
      (file : StoreFile) (s : StateFile) (l : Bool) {b : ControlPlaneStore}
      → refresh_from_disk formats false (record { file = file; state = s; loaded = l }) ≡ ok b
      → Stays file b
  unfolding refresh_from_disk refresh_file load
  settle StoreFile.absent s true h = carry h (refl, refl)
  settle StoreFile.absent s false h = carry h (refl, refl)
  settle StoreFile.malformed s l h = absurd (ground arith)
  settle StoreFile.misshapen s l h = carry h (refl, refl)
  settle (StoreFile.content t) s l h = carry h (refl, refl)

  -- What a read returns comes from the state that it leaves in memory, and that store is settled and
  -- has the file that was there.
  pub reading-settles :
      {A : Type 0} (query : StateFile → A) (store fresh : ControlPlaneStore) {a : A}
      → reading formats query store ≡ (ok a, fresh)
      → Settled fresh × (fresh.file ≡ store.file) × (query fresh.state ≡ a)
  unfolding reading
  reading-settles {A} query store fresh {a} h =
      elim (Result-cases (refresh_from_disk formats false store)) [
        | inl (b, e) ↦
            let k = sym (ap (queried query store) e) ∙ h in
            let same : b ≡ fresh = ap (λ p. p.1) k in
            let (q, f) = settle store.file store.state store.loaded e in
            (
              subst Settled same q,
              sym (ap (λ z. z.file) same) ∙ f,
              ap (λ z. query z.state) (sym same) ∙ answer k,
            )
        | inr (x, e) ↦ absurd (clash (sym (ap (queried query store) e) ∙ h))
      ]
    where
      answer :
          {x : A} {s : ControlPlaneStore}
          → ◌≡◌ {A = Result A × ControlPlaneStore} (ok x, s) (ok a, fresh)
          → x ≡ a
      answer q = ground arith

      clash :
          {x : Error} {s : ControlPlaneStore}
          → ◌≡◌ {A = Result A × ControlPlaneStore} (err x, s) (ok a, fresh)
          → ⊥
      clash q = ground arith

  -- So is the store that a write leaves, where the new state passes the schema.
  pub stored-Settled :
      (t : StateFile)
      → Valid formats t
      → Settled (record { file = StoreFile.content t; state = t; loaded = true })
  unfolding refresh_from_disk refresh_file load
  stored-Settled t v = rw (Valid-valid_state formats t v)
