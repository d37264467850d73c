-- ===== src/Store/Durability.antt =====
-- What a write leaves in the file, and what a later process reads back from it.
pub mod Validity
use base_layer.Base.{
  Bool, true, false, List, [], ◌∷◌, ◌≡◌, ◌⊎◌, refl, ap, sym, ◌∙◌, arith, Result, ok, err,
  Result-cases, Bool-cases, inl, inr, subst, Error,
}
use base_layer.Types.{StateFile}
use base_layer.Types.Schema.{Formats}
use base_layer.Types.Platform.{Platform}
use base_layer.Store.File.{
  ControlPlaneStore, StoreFile, empty_state, valid_state, load, refresh_from_disk, refresh_file,
  open_store, persist,
}
use base_layer.Store.Monad.{M, mutated, finish, with_write_lock}
use base_layer.Store.Operation.{Operation, operation, run}
use base_layer.Store.Closed.{operation-Preserves, Preserves}
use base_layer.Store.Durability.Validity.{
  Valid, Valid-Closed, Valid-valid_state, valid_state-Valid, empty-Valid,
}

module _ (formats : Formats) where
  -- Whatever the file holds, a state that is loaded from it passes the schema.
  pub load-Valid : (file : StoreFile) {s : StateFile} → load formats file ≡ ok s → Valid formats s
  unfolding load
  load-Valid StoreFile.absent {s} h =
      let e : empty_state ≡ s = ground arith in subst (Valid formats) e (empty-Valid formats)
  load-Valid StoreFile.malformed h = absurd (ground arith)
  load-Valid StoreFile.misshapen {s} h =
      let e : empty_state ≡ s = ground arith in subst (Valid formats) e (empty-Valid formats)
  load-Valid (StoreFile.content t) {s} h = elim (Bool-cases (valid_state formats t)) [
    | inl v ↦
        let e : t ≡ s = ground arith in subst (Valid formats) e (valid_state-Valid formats t v)
    | inr v ↦
        let e : empty_state ≡ s = ground arith in subst (Valid formats) e (empty-Valid formats)
  ]

  open_on :
      (file : StoreFile) (s : StateFile) (l : Bool)
      → refresh_from_disk formats true (record { file = file; state = s; loaded = l })
        ≡ open_store formats file
  unfolding refresh_from_disk open_store refresh_file load
  open_on StoreFile.absent s l = refl
  open_on StoreFile.malformed s l = refl
  open_on StoreFile.misshapen s l = refl
  open_on (StoreFile.content t) s l = refl

  -- A forced refresh is a new start on the file: it reads nothing else of the store.
  pub refresh_as_open :
      (store : ControlPlaneStore)
      → refresh_from_disk formats true store ≡ open_store formats store.file
  refresh_as_open store = open_on store.file store.state store.loaded

  abbrev Opened : StoreFile → ControlPlaneStore → Type 0
  Opened file fresh = Valid formats fresh.state × (fresh.file ≡ file)

  carried :
      {file : StoreFile} {a b : ControlPlaneStore}
      → Result.ok a ≡ ok b
      → Opened file a
      → Opened file b
  carried {file} {a} {b} h o = let e : a ≡ b = ground arith in subst (Opened file) e o

  -- What a store opens with passes the schema.
  pub open-Valid :
      (file : StoreFile) {fresh : ControlPlaneStore}
      → open_store formats file ≡ ok fresh
      → Opened file fresh
  unfolding refresh_from_disk open_store refresh_file load
  open-Valid StoreFile.absent h = carried h (empty-Valid formats, refl)
  open-Valid StoreFile.malformed h = absurd (ground arith)
  open-Valid StoreFile.misshapen h = carried h (empty-Valid formats, refl)
  open-Valid (StoreFile.content t) h = carried h (load-Valid (StoreFile.content t) refl, refl)

  -- A file with a state in it that passes the schema is read back as it is.
  pub reopen :
      (s : StateFile)
      → Valid formats s
      → open_store formats (StoreFile.content s)
        ≡ ok (record { file = StoreFile.content s; state = s; loaded = true })
  unfolding refresh_from_disk open_store refresh_file load
  reopen s v = rw (Valid-valid_state formats s v)

  -- A write starts from the file alone.
  pub locked_write :
      {A : Type 0} (l : Unit {0}) (m : M A) (store : ControlPlaneStore)
      → with_write_lock formats (ok l) m store ≡ mutated m store (open_store formats store.file)
  unfolding with_write_lock
  locked_write l m store = ap (mutated m store) (refresh_as_open store)

  finished :
      {A : Type 0} (fresh : ControlPlaneStore) (r : Result A × StateFile) {a : A}
      {st : ControlPlaneStore}
      → finish fresh r ≡ (ok a, st)
      → (t : StateFile) × (r ≡ (ok a, t)) × (persist (record fresh { state = t }) ≡ st)
  unfolding finish
  finished fresh (ok b, t) {a} h =
      let e : b ≡ a = ground arith in (t, ap (λ c. (ok c, t)) e, ap (λ z. z.1) h)
  finished fresh (err e, t) h = absurd (ground arith)

  -- A write that returns has changed the state that the file opened with, and the file has the new one.
  pub written :
      {A : Type 0} (lock : Result (Unit {0})) (m : M A) (store st : ControlPlaneStore) {a : A}
      → with_write_lock formats lock m store ≡ (ok a, st)
      → (fresh : ControlPlaneStore) × (t : StateFile) × (open_store formats store.file ≡ ok fresh)
        × (m fresh.state ≡ (ok a, t))
        × (st ≡ record { file = StoreFile.content t; state = t; loaded = true })
  unfolding with_write_lock persist
  written (err e) m store st h = absurd (ground arith)
  written {A} (ok l) m store st h = elim (Result-cases (open_store formats store.file)) [
    | inl (fresh, e) ↦
        let (t, q, p) =
          finished fresh (m fresh.state)
            (sym (locked_write l m store ∙ ap (mutated m store) e) ∙ h) in
        (fresh, t, e, q, sym p)
    | inr (x, e) ↦ absurd (clash (sym (locked_write l m store ∙ ap (mutated m store) e) ∙ h))
  ]
    where
      clash :
          {x : Error} {b : A} {s t : ControlPlaneStore}
          → ◌≡◌ {A = Result A × ControlPlaneStore} (err x, s) (ok b, t)
          → ⊥
      clash c = ground arith

-- Where the calls of the file system return, a write that returns is durable: whichever process opens the file next has exactly the state that
-- the write left in memory, whatever the file held before.
pub write-durable :
    (platform : Platform) (lock : Result (Unit {0})) (op : Operation) (store st : ControlPlaneStore)
    → with_write_lock platform.formats lock (operation platform op) store ≡ (ok tt, st)
    → open_store platform.formats st.file ≡ ok st
write-durable platform lock op store st h =
    let (fresh, t, o, e, p) = written platform.formats lock (operation platform op) store st h in
    let kept : Valid platform.formats t =
      subst (λ r. Valid platform.formats r.1) e
        (operation-Preserves platform (Valid platform.formats) (Valid-Closed platform) op
          fresh.state (open-Valid platform.formats store.file o).0) in
    rw p (reopen platform.formats t kept)

module _ (formats : Formats) where
  finish-failed :
      {A : Type 0} (fresh : ControlPlaneStore) (r : Result A × StateFile) {e : Error}
      {st : ControlPlaneStore}
      → finish fresh r ≡ (err e, st)
      → fresh.file ≡ st.file
  unfolding finish
  finish-failed fresh (ok b, t) h = absurd (ground arith)
  finish-failed fresh (err e, t) h = ap (λ z. z.1.file) h

  -- Where the calls of the file system return, a write that throws leaves the file as it was.
  pub failed-write-keeps_file :
      {A : Type 0} (lock : Result (Unit {0})) (m : M A) (store st : ControlPlaneStore) {e : Error}
      → with_write_lock formats lock m store ≡ (err e, st)
      → st.file ≡ store.file
  unfolding with_write_lock
  failed-write-keeps_file (err e) m store st h = sym (ap (λ z. z.1.file) h)
  failed-write-keeps_file (ok l) m store st h =
      elim (Result-cases (open_store formats store.file)) [
        | inl (fresh, e) ↦
            sym (
              finish-failed fresh (m fresh.state)
                (sym (locked_write formats l m store ∙ ap (mutated m store) e) ∙ h))
            ∙ (open-Valid formats store.file e).1
        | inr (x, e) ↦
            sym (
              ap (λ z. z.1.file)
                (sym (locked_write formats l m store ∙ ap (mutated m store) e) ∙ h))
      ]

  mutated-file :
      {A : Type 0} (m : M A) (a b : ControlPlaneStore) (r : Result ControlPlaneStore)
      → a.file ≡ b.file
      → ((mutated m a r).0 ≡ (mutated m b r).0) × ((mutated m a r).1.file ≡ (mutated m b r).1.file)
  mutated-file m a b (ok fresh) same = (refl, refl)
  mutated-file m a b (err e) same = (refl, same)

  -- The result of a write and what it leaves in the file depend on the file alone, not on what the
  -- process has in memory from earlier calls, failed writes among them.
  pub write-from_file :
      {A : Type 0} (lock : Result (Unit {0})) (m : M A) (a b : ControlPlaneStore)
      → a.file ≡ b.file
      → ((with_write_lock formats lock m a).0 ≡ (with_write_lock formats lock m b).0)
        × ((with_write_lock formats lock m a).1.file ≡ (with_write_lock formats lock m b).1.file)
  unfolding with_write_lock
  write-from_file (err e) m a b same = (refl, same)
  write-from_file (ok l) m a b same =
      rw (refresh_as_open formats a ∙ ap (open_store formats) same, refresh_as_open formats b)
        (mutated-file m a b (open_store formats b.file) same)
