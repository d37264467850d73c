-- ===== src/Server/Handler.antt =====
-- A handler works on the server's store, and returns or throws. While it awaits, other requests and
-- processes may change the store, in any way.
use base_layer.Base.{ℕ, Bool, true, false, Option, none, Result, ok, err, ◌≡◌, refl, arith}
use base_layer.Types.{SessionRecord}
use base_layer.Store.File.{ControlPlaneStore}

abbrev pub Handler : Type 0 → Type 0
Handler A = ControlPlaneStore → Result A × ControlPlaneStore

abbrev pub go_on :
    {A B : Type 0} → Result A × ControlPlaneStore → (A → Handler B) → Result B × ControlPlaneStore
go_on (ok a, store) f = f a store
go_on (err e, store) f = (err e, store)

-- A step that has returned, taken apart.
pub go_on-ok :
    {A B : Type 0} (r : Result A × ControlPlaneStore) (f : A → Handler B) {b : B}
    {t : ControlPlaneStore}
    → go_on r f ≡ (ok b, t)
    → (a : A) × (u : ControlPlaneStore) × (r ≡ (ok a, u)) × (f a u ≡ (ok b, t))
go_on-ok (ok a, u) f h = (a, u, refl, h)
go_on-ok (err x, u) f h = absurd (ground arith)

infixl 5 ◌>>=◌ ◌>>◌
abbrev pub ◌>>=◌ : {A B : Type 0} → Handler A → (A → Handler B) → Handler B
◌>>=◌ m f store = go_on (m store) f

abbrev pub ◌>>◌ : {B : Type 0} → Handler (Unit {0}) → Handler B → Handler B
m >> k = m >>= λ _. k

abbrev pub pure : {A : Type 0} → A → Handler A
pure a store = (ok a, store)

abbrev pub lift : {A : Type 0} → Result A → Handler A
lift r store = (r, store)

-- What others do to the store during an await.
abbrev pub await : (ControlPlaneStore → ControlPlaneStore) → Handler (Unit {0})
await others store = (ok tt, others store)

-- What a handler sends: the status, the session in the body, whether `Idempotency-Replayed` is set,
-- and whether the node agent is asked to delete the session.
pub record Reply : Type 0 where
  pub status : ℕ
  pub session : Option SessionRecord
  pub replayed : Bool
  pub remote_delete : Bool

abbrev pub send : ℕ → Reply
send status = record { status = status; session = none; replayed = false; remote_delete = false }

abbrev pub send_replayed : ℕ → Option SessionRecord → Reply
send_replayed status session = record {
  status = status;
  session = session;
  replayed = true;
  remote_delete = false;
}
