-- ===== src/Server/Admission.antt =====
-- `reserveHostForCreateWithBackpressure`: the loop that tries a reservation again until its deadline.
use base_layer.Base.{ℕ, String, List, [], ◌∷◌, Result, err, scheduler_error}
use base_layer.Types.Platform.{Platform}
use base_layer.Store.File.{ControlPlaneStore}
use base_layer.Store.Monad.{with_write_lock}
use base_layer.Store.Writes.{ReserveInput, Reserved, reserve_host_for_create}

-- One round: what others did before it, the outcome of the wait for the lock, the id that the
-- reservation would get, and the clock.
pub record Attempt : Type 0 where
  pub others : ControlPlaneStore → ControlPlaneStore
  pub lock : Result (Unit {0})
  pub reservation_id : String
  pub now : ℕ

module _ (platform : Platform) (input : ReserveInput) where
  unfoldable pub attempt_reservation :
      Attempt → ControlPlaneStore → Result Reserved × ControlPlaneStore
  attempt_reservation a store =
      with_write_lock platform.formats a.lock
        (reserve_host_for_create platform input a.reservation_id a.now) (a.others store)

  -- After a round: a `SchedulerError` before the deadline leads to the next one.
  abbrev retried :
      Result Reserved × ControlPlaneStore
      → (ControlPlaneStore → Result Reserved × ControlPlaneStore)
      → Result Reserved × ControlPlaneStore
  retried (err scheduler_error, store) next = next store
  retried result next = result

  -- The rounds whose failure would come before the deadline, and the one whose failure would not. The
  -- clock reaches the deadline, since each round sleeps at least a millisecond.
  unfoldable pub reserve_host_for_create_with_backpressure :
      List Attempt → Attempt → ControlPlaneStore → Result Reserved × ControlPlaneStore
  unfolding attempt_reservation
  reserve_host_for_create_with_backpressure [] last store = attempt_reservation last store
  reserve_host_for_create_with_backpressure (a ∷ early) last store =
      retried (attempt_reservation a store) (reserve_host_for_create_with_backpressure early last)
