-- ===== src/Store/Monad.antt =====
-- A change of the state that may throw. What it has changed in memory by then stays changed, and the
-- file is written only where it does not throw.
use base_layer.Base.{true, false, Result, ok, err}
use base_layer.Types.{StateFile}
use base_layer.Types.Schema.{Formats}
use base_layer.Store.File.{ControlPlaneStore, refresh_from_disk, persist}

abbrev pub M : Type 0 → Type 0
M A = StateFile → Result A × StateFile

-- What follows a step that has returned or thrown.
abbrev pub continue : {A B : Type 0} → Result A × StateFile → (A → M B) → Result B × StateFile
continue (ok a, s) f = f a s
continue (err e, s) f = (err e, s)

infixl 5 ◌>>=◌ ◌>>◌
abbrev pub ◌>>=◌ : {A B : Type 0} → M A → (A → M B) → M B
◌>>=◌ m f s = continue (m s) f

abbrev pub ◌>>◌ : {B : Type 0} → M (Unit {0}) → M B → M B
m >> k = m >>= λ _. k

abbrev pub pure : {A : Type 0} → A → M A
pure a s = (ok a, s)

-- A call that throws or returns without a change.
abbrev pub lift : {A : Type 0} → Result A → M A
lift r s = (r, s)

abbrev pub modify : (StateFile → StateFile) → M (Unit {0})
modify f s = (ok tt, f s)

-- A read of the state.
abbrev pub gets : {A : Type 0} → (StateFile → A) → M A
gets f s = (ok (f s), s)

unfoldable pub finish :
    {A : Type 0} → ControlPlaneStore → Result A × StateFile → Result A × ControlPlaneStore
finish store (ok a, s) = (ok a, persist (record store { state = s }))
finish store (err e, s) = (err e, record store { state = s })

abbrev pub mutated :
    {A : Type 0} → M A → ControlPlaneStore → Result ControlPlaneStore → Result A × ControlPlaneStore
mutated mutate store (ok fresh) = finish fresh (mutate fresh.state)
mutated mutate store (err e) = (err e, store)

abbrev pub queried :
    {A : Type 0}
    → (StateFile → A)
    → ControlPlaneStore
    → Result ControlPlaneStore
    → Result A × ControlPlaneStore
queried query store (ok fresh) = (ok (query fresh.state), fresh)
queried query store (err e) = (err e, store)

module _ (formats : Formats) where
  -- `#withWriteLock`, and `#withWriteLockMeasured` without its clock, behind the loop for the lock.
  unfoldable pub with_write_lock :
      {A : Type 0} → Result (Unit {0}) → M A → ControlPlaneStore → Result A × ControlPlaneStore
  unfolding finish
  with_write_lock (ok _) mutate store = mutated mutate store (refresh_from_disk formats true store)
  with_write_lock (err e) mutate store = (err e, store)

  -- A call that only reads: `this.#refreshFromDisk(); return …`.
  unfoldable pub reading :
      {A : Type 0} → (StateFile → A) → ControlPlaneStore → Result A × ControlPlaneStore
  reading query store = queried query store (refresh_from_disk formats false store)
