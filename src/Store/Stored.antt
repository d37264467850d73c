-- ===== src/Store/Stored.antt =====
-- A store whose memory is the state in its file, and what a write leaves of it.
use base_layer.Base.{true, ◌≡◌, ap, ◌∙◌, Result, ok}
use base_layer.Types.{StateFile}
use base_layer.Types.Schema.{Formats}
use base_layer.Store.File.{ControlPlaneStore, StoreFile, persist}
use base_layer.Store.Monad.{M, finish, mutated, with_write_lock}
use base_layer.Store.Durability.{locked_write, reopen}
use base_layer.Store.Durability.Validity.{Valid}

abbrev pub stored : StateFile → ControlPlaneStore
stored s = record { file = StoreFile.content s; state = s; loaded = true }

-- A change of a valid state that returns is what its write leaves.
pub write-stored :
    {A : Type 0} (formats : Formats) (lock : Result (Unit {0})) (m : M A) (s t : StateFile) {a : A}
    → lock ≡ ok tt
    → Valid formats s
    → m s ≡ (ok a, t)
    → with_write_lock formats lock m (stored s) ≡ (ok a, stored t)
unfolding finish persist
write-stored formats lock m s t l v e =
    ap (λ z. with_write_lock formats z m (stored s)) l
    ∙ locked_write formats tt m (stored s)
    ∙ ap (mutated m (stored s)) (reopen formats s v)
    ∙ ap (finish (stored s)) e
