-- ===== src/Store/Persist.antt =====
-- `#persist` where the file system throws, and `#withWriteLock` with it. The other modules take the calls
-- of the file system to return.
use base_layer.Base.{
  true, ◌≡◌, ◌⊎◌, refl, sym, ap, ◌∙◌, arith, Result, ok, err, Error, Result-cases, inl, inr,
}
use base_layer.Types.{StateFile}
use base_layer.Types.Schema.{Formats}
use base_layer.Store.File.{ControlPlaneStore, StoreFile, persist, open_store, refresh_from_disk}
use base_layer.Store.Monad.{M, with_write_lock, mutated, finish}
use base_layer.Store.Durability.{refresh_as_open, open-Valid}

-- How the calls of the file system in `#persist` end: all return, one up to the renaming throws, or the
-- last, `statSync`, throws, when the file has been replaced.
pub data FileCalls : Type 0 where
  all_return : FileCalls
  throws_before throws_after : Error → FileCalls

unfoldable pub persist_on : FileCalls → ControlPlaneStore → Result (Unit {0}) × ControlPlaneStore
persist_on all_return store = (ok tt, persist store)
persist_on (throws_before e) store = (err e, store)
persist_on (throws_after e) store = (err e, record store { file = StoreFile.content store.state })

abbrev returning :
    {A : Type 0} → A → Result (Unit {0}) × ControlPlaneStore → Result A × ControlPlaneStore
returning a (ok u, store) = (ok a, store)
returning a (err e, store) = (err e, store)

abbrev finish_on :
    {A : Type 0}
    → FileCalls
    → ControlPlaneStore
    → Result A × StateFile
    → Result A × ControlPlaneStore
finish_on calls store (ok a, s) = returning a (persist_on calls (record store { state = s }))
finish_on calls store (err e, s) = (err e, record store { state = s })

abbrev mutated_on :
    {A : Type 0}
    → FileCalls
    → M A
    → ControlPlaneStore
    → Result ControlPlaneStore
    → Result A × ControlPlaneStore
mutated_on calls mutate store (ok fresh) = finish_on calls fresh (mutate fresh.state)
mutated_on calls mutate store (err e) = (err e, store)

-- The `finally` of `#withWriteLock`: where the lock file cannot be closed or removed, that is what throws.
abbrev released :
    {A : Type 0} → Result (Unit {0}) → Result A × ControlPlaneStore → Result A × ControlPlaneStore
released (ok u) outcome = outcome
released (err e) (result, store) = (err e, store)

module _ (formats : Formats) where
  -- The results say how taking the lock and giving it back end.
  unfoldable pub with_write_lock_on :
      {A : Type 0}
      → FileCalls
      → Result (Unit {0})
      → Result (Unit {0})
      → M A
      → ControlPlaneStore
      → Result A × ControlPlaneStore
  unfolding persist_on
  with_write_lock_on calls (ok u) unlock mutate store =
      released unlock (mutated_on calls mutate store (refresh_from_disk formats true store))
  with_write_lock_on calls (err e) unlock mutate store = (err e, store)

  finish_on-returns :
      {A : Type 0} (fresh : ControlPlaneStore) (r : Result A × StateFile)
      → finish_on all_return fresh r ≡ finish fresh r
  unfolding finish persist_on
  finish_on-returns fresh (ok a, s) = refl
  finish_on-returns fresh (err e, s) = refl

  mutated_on-returns :
      {A : Type 0} (m : M A) (store : ControlPlaneStore) (r : Result ControlPlaneStore)
      → mutated_on all_return m store r ≡ mutated m store r
  mutated_on-returns m store (ok fresh) = finish_on-returns fresh (m fresh.state)
  mutated_on-returns m store (err e) = refl

  -- Where the calls of the file system return, this is the write of the other modules.
  with_write_lock_on-returns :
      {A : Type 0} (lock : Result (Unit {0})) (m : M A) (store : ControlPlaneStore)
      → with_write_lock_on all_return lock (ok tt) m store ≡ with_write_lock formats lock m store
  unfolding with_write_lock_on with_write_lock
  with_write_lock_on-returns (ok u) m store = mutated_on-returns m store _
  with_write_lock_on-returns (err e) m store = refl

  -- The file has been replaced by the state that the change has made, and a later call has thrown.
  pub record Replaced {A : Type 0} (calls : FileCalls) (unlock : Result (Unit {0})) (m : M A)
      (store st : ControlPlaneStore) (e : Error) : Type 0 where
    pub late : (calls ≡ throws_after e) ⊎ (unlock ≡ err e)
    pub fresh : ControlPlaneStore
    pub opened : open_store formats store.file ≡ ok fresh
    pub result : A
    pub state : StateFile
    pub changed : m fresh.state ≡ (ok result, state)
    pub holds : st.file ≡ StoreFile.content state

  -- The file of what a write leaves is the one that it has found or the state that the change made.
  finish_on-file :
      {A : Type 0} (calls : FileCalls) (fresh : ControlPlaneStore) (r : Result A × StateFile)
      → ((finish_on calls fresh r).1.file ≡ fresh.file)
        ⊎ ((a : A) × (s : StateFile) × (r ≡ (ok a, s))
            × ((finish_on calls fresh r).1.file ≡ StoreFile.content s))
  unfolding persist_on persist
  finish_on-file calls fresh (err x, s) = inl refl
  finish_on-file all_return fresh (ok a, s) = inr (a, s, refl, refl)
  finish_on-file (throws_before x) fresh (ok a, s) = inl refl
  finish_on-file (throws_after x) fresh (ok a, s) = inr (a, s, refl, refl)

  -- It throws after the file is replaced only by the last call.
  finish_on-throws :
      {A : Type 0} (calls : FileCalls) (fresh st : ControlPlaneStore) (e : Error)
      (r : Result A × StateFile)
      → finish_on calls fresh r ≡ (err e, st)
      → (st.file ≡ fresh.file) ⊎ (calls ≡ throws_after e)
  unfolding persist_on
  finish_on-throws calls fresh st e (err x, s) h = inl (sym (ap (λ z. z.1.file) h))
  finish_on-throws all_return fresh st e (ok a, s) h = absurd (ground arith)
  finish_on-throws (throws_before x) fresh st e (ok a, s) h = inl (sym (ap (λ z. z.1.file) h))
  finish_on-throws (throws_after x) fresh st e (ok a, s) h =
      let same : x ≡ e = ground arith in inr (ap (λ z. throws_after z) same)

  released-err :
      {A : Type 0} (calls : FileCalls) (unlock : Result (Unit {0})) (fresh st : ControlPlaneStore)
      (e : Error) (r : Result A × StateFile)
      → released unlock (finish_on calls fresh r) ≡ (err e, st)
      → (st.file ≡ fresh.file)
        ⊎ (((calls ≡ throws_after e) ⊎ (unlock ≡ err e))
            × (st.file ≡ (finish_on calls fresh r).1.file))
  released-err calls (ok u) fresh st e r h = elim (finish_on-throws calls fresh st e r h) [
    | inl kept ↦ inl kept
    | inr late ↦ inr (inl late, sym (ap (λ z. z.1.file) h))
  ]
  released-err calls (err x) fresh st e r h =
      let same : x ≡ e = ground arith in inr (inr (ap err same), sym (ap (λ z. z.1.file) h))

  locked-err :
      {A : Type 0} (calls : FileCalls) (unlock : Result (Unit {0})) (m : M A)
      (store fresh st : ControlPlaneStore) (e : Error)
      → open_store formats store.file ≡ ok fresh
      → released unlock (finish_on calls fresh (m fresh.state)) ≡ (err e, st)
      → (st.file ≡ fresh.file) ⊎ Replaced calls unlock m store st e
  locked-err calls unlock m store fresh st e o h =
      elim (released-err calls unlock fresh st e (m fresh.state) h) [
        | inl kept ↦ inl kept
        | inr (late, left) ↦ elim (finish_on-file calls fresh (m fresh.state)) [
          | inl kept ↦ inl (left ∙ kept)
          | inr (a, s, changed, holds) ↦ inr (record {
            late = late;
            fresh = fresh;
            opened = o;
            result = a;
            state = s;
            changed = changed;
            holds = left ∙ holds;
          })
        ]
      ]

  missed-err :
      {A : Type 0} (unlock : Result (Unit {0})) (x : Error) (store st : ControlPlaneStore)
      (e : Error)
      → released {A = A} unlock (err x, store) ≡ (err e, st)
      → st.file ≡ store.file
  missed-err (ok u) x store st e h = sym (ap (λ z. z.1.file) h)
  missed-err (err y) x store st e h = sym (ap (λ z. z.1.file) h)

  -- A write that throws, for the lock, the file or the change itself, leaves the file as it was, unless
  -- what throws is a call that comes after the renaming, the reading of the time or the release of the
  -- lock: then the file may have the state that the change made.
  pub with_write_lock_on-err :
      {A : Type 0} (calls : FileCalls) (lock unlock : Result (Unit {0})) (m : M A)
      (store st : ControlPlaneStore) (e : Error)
      → with_write_lock_on calls lock unlock m store ≡ (err e, st)
      → (st.file ≡ store.file) ⊎ Replaced calls unlock m store st e
  unfolding with_write_lock_on
  with_write_lock_on-err calls (err x) unlock m store st e h = inl (sym (ap (λ z. z.1.file) h))
  with_write_lock_on-err {A = A} calls (ok l) unlock m store st e h =
      let run : Result ControlPlaneStore → Result A × ControlPlaneStore =
        λ r. released unlock (mutated_on calls m store r) in
      let h' = sym (ap run (refresh_as_open formats store)) ∙ h in
      elim (Result-cases (open_store formats store.file)) [
        | inl (fresh, o) ↦
            elim (locked-err calls unlock m store fresh st e o (sym (ap run o) ∙ h')) [
              | inl kept ↦ inl (kept ∙ (open-Valid formats store.file o).1)
              | inr replaced ↦ inr replaced
            ]
        | inr (x, o) ↦ inl (missed-err unlock x store st e (sym (ap run o) ∙ h'))
      ]
