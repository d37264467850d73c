-- ===== src/Store/Runs.antt =====
-- Histories of the writing calls of src/api/store.ts, by what they leave in the file.
use base_layer.Base.{
  List, [], ◌∷◌, ◌≡◌, ap, sym, subst, arith, Result, ok, Result-cases, Bool-cases, inl, inr,
}
use base_layer.Types.{StateFile}
use base_layer.Types.Platform.{Platform}
use base_layer.Store.File.{
  ControlPlaneStore, StoreFile, empty_state, valid_state, load, open_store, refresh_from_disk,
  refresh_file,
}
use base_layer.Store.Monad.{with_write_lock}
use base_layer.Store.Operation.{Operation, operation, run}
use base_layer.Store.Closed.{Closed, operation-Preserves}
use base_layer.Store.Durability.{written, failed-write-keeps_file}

-- The state that is in the file, where there is one, has a property.
abbrev pub StoredAs : (StateFile → Type 0) → StoreFile → Type 0
StoredAs P (StoreFile.content s) = P s
StoredAs P file = Unit {0}

module _ (platform : Platform) (P : StateFile → Type 0) (start : P empty_state)
    (c : Closed platform P) where
  open platform use {formats}

  carried : {a b : ControlPlaneStore} → Result.ok a ≡ ok b → P a.state → P b.state
  carried {a} {b} h p = let e : a ≡ b = ground arith in subst (λ z. P z.state) e p

  open_stored :
      (file : StoreFile) {fresh : ControlPlaneStore}
      → StoredAs P file
      → open_store formats file ≡ ok fresh
      → P fresh.state
  unfolding open_store refresh_from_disk refresh_file load
  open_stored StoreFile.absent p h = carried h start
  open_stored StoreFile.malformed p h = absurd (ground arith)
  open_stored StoreFile.misshapen p h = carried h start
  open_stored (StoreFile.content t) p h = elim (Bool-cases (valid_state formats t)) [
    | inl v ↦ carried (rw v at h) p
    | inr v ↦ carried (rw v at h) start
  ]

  write-StoredAs :
      (lock : Result (Unit {0})) (op : Operation) (store : ControlPlaneStore)
      → StoredAs P store.file
      → StoredAs P (with_write_lock formats lock (operation platform op) store).1.file
  write-StoredAs lock op store p =
      let after = with_write_lock formats lock (operation platform op) store in
      elim (Result-cases after.0) [
        | inl (_, e) ↦
            let (fresh, t, o, q, r) =
              written formats lock (operation platform op) store after.1
                (ap (λ x. (x, after.1)) e) in
            subst (λ z. StoredAs P z.file) (sym r)
              (subst (λ z. P z.1) q
                (operation-Preserves platform P c op fresh.state (open_stored store.file p o)))
        | inr (_, e) ↦
            subst (StoredAs P)
              (sym (
                failed-write-keeps_file formats lock (operation platform op) store after.1
                  (ap (λ x. (x, after.1)) e)))
              p
      ]

  pub run-StoredAs :
      (calls : List (Result (Unit {0}) × Operation)) (store : ControlPlaneStore)
      → StoredAs P store.file
      → StoredAs P (run platform calls store).file
  unfolding run
  run-StoredAs [] store p = p
  run-StoredAs ((lock, op) ∷ rest) store p =
      run-StoredAs rest (with_write_lock formats lock (operation platform op) store).1
        (write-StoredAs lock op store p)
