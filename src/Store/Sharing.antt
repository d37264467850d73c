-- ===== src/Store/Sharing.antt =====
-- Several processes on one file: each has a store of its own, and their writes come in some order.
use base_layer.Base.{ℕ, List, [], ◌∷◌, map, ◌≡◌, refl, ap, ◌∙◌, Result, if◌then◌else◌, nat_eq}
use base_layer.Types.Platform.{Platform}
use base_layer.Store.File.{ControlPlaneStore, StoreFile}
use base_layer.Store.Monad.{with_write_lock}
use base_layer.Store.Operation.{Operation, operation, run}
use base_layer.Store.Durability.{write-from_file}

-- A process's number, the outcome of its wait for the lock, and its call.
abbrev pub Turn : Type 0
Turn = ℕ × Result (Unit {0}) × Operation

-- What the processes have in memory, by number; the file is the shared one.
abbrev pub Memories : Type 0
Memories = ℕ → ControlPlaneStore

abbrev pub updated : ℕ → ControlPlaneStore → Memories → Memories
updated process store memories i = if nat_eq i process then store else memories i

module _ (platform : Platform) where
  -- The process at its turn works on its own memory and on the file as the others have left it.
  abbrev pub turn : Turn → StoreFile → Memories → ControlPlaneStore
  turn (process, lock, op) file memories =
      (with_write_lock platform.formats lock (operation platform op)
        (record (memories process) { file = file })).1

  unfoldable pub run_shared : List Turn → StoreFile → Memories → StoreFile
  run_shared [] file memories = file
  run_shared (t ∷ rest) file memories =
      let after = turn t file memories in run_shared rest after.file (updated t.0 after memories)

  -- However the writes of several processes interleave, the file ends as if one process had made
  -- them all, in that order.
  pub run_shared-serial :
      (turns : List Turn) (memories : Memories) (store : ControlPlaneStore)
      → run_shared turns store.file memories
        ≡ (run platform (map (λ t. (t.1, t.2)) turns) store).file
  unfolding run_shared run
  run_shared-serial [] memories store = refl
  run_shared-serial ((process, lock, op) ∷ rest) memories store =
      let after = turn (process, lock, op) store.file memories in
      let alone = (with_write_lock platform.formats lock (operation platform op) store).1 in
      let same : after.file ≡ alone.file =
        (write-from_file platform.formats lock (operation platform op)
          (record (memories process) { file = store.file }) store refl).1 in
      ap (λ f. run_shared rest f (updated process after memories)) same
      ∙ run_shared-serial rest (updated process after memories) alone
