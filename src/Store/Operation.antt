-- ===== src/Store/Operation.antt =====
-- The writing calls of `ControlPlaneStoreBackend` (src/api/store-contract.ts) as one type, each with
-- the arguments that it takes from its caller, the clock and the id generator.
use base_layer.Base.{ℕ, String, Option, List, [], ◌∷◌, Result}
use base_layer.Types.{HostRecord, SessionRecord, SessionEventRecord, IdempotencyRecord}
use base_layer.Types.Platform.{Platform}
use base_layer.Store.File.{ControlPlaneStore}
use base_layer.Store.Monad.{M, ◌>>=◌, pure, with_write_lock}
use base_layer.Store.Writes.{
  ReserveInput, upsert_host, reserve_host_for_create, release_host_create_reservation,
  upsert_session, upsert_session_and_append_event, append_session_event, upsert_idempotency_record,
  remove_session,
}
use base_layer.Store.Commit.{SessionMutation, commit_session_mutation}

pub data Operation : Type 0 where
  upserts_host : HostRecord → Operation
  reserves : ReserveInput → String → ℕ → Operation
  releases : String → ℕ → Operation
  upserts_session : SessionRecord → ℕ → Operation
  upserts_session_and_event : SessionRecord → Option SessionEventRecord → ℕ → Operation
  appends_event : SessionEventRecord → ℕ → Operation
  upserts_idempotency : String → IdempotencyRecord → ℕ → Operation
  commits : ℕ → SessionMutation → ℕ → Operation
  removes_session : String → ℕ → Operation

abbrev pub done : {A : Type 0} → M A → M (Unit {0})
done m = m >>= λ _. pure tt

module _ (platform : Platform) where
  -- What a call does to the state, its result apart.
  unfoldable pub operation : Operation → M (Unit {0})
  operation (Operation.upserts_host h) = done (upsert_host platform h)
  operation (Operation.reserves input id now) = done (reserve_host_for_create platform input id now)
  operation (Operation.releases id now) = release_host_create_reservation platform id now
  operation (Operation.upserts_session s now) = done (upsert_session platform s now)
  operation (Operation.upserts_session_and_event s e now) =
      done (upsert_session_and_append_event platform s e now)
  operation (Operation.appends_event e now) = done (append_session_event platform e now)
  operation (Operation.upserts_idempotency key r now) =
      done (upsert_idempotency_record platform key r now)
  operation (Operation.commits retention m now) =
      done (commit_session_mutation platform retention m now)
  operation (Operation.removes_session id now) = remove_session platform id now

  -- A history of writing calls, each with the outcome of its wait for the lock.
  unfoldable pub run : List (Result (Unit {0}) × Operation) → ControlPlaneStore → ControlPlaneStore
  run [] store = store
  run ((lock, op) ∷ rest) store =
      run rest (with_write_lock platform.formats lock (operation op) store).1
