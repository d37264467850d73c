-- ===== src/Store/Tests.antt =====
-- The store on a small state.
use base_layer.Base.{
  file_error, ℕ, zero, suc, length, ◌+◌, ◌≤◌, ◌<◌, Bool, true, false, Option, none, some, List, [],
  ◌∷◌, String, ◌≡◌, ◌≢◌, ◌⊎◌, ◌↔◌, refl, arith, Memᴰ, inl, inr, Result, ok, err, lock_timeout, map,
  zod_error,
}
use base_layer.Base.Dict.{lookup, values}
use base_layer.Types.{HostRecord, SessionRecord, StateFile, terminated}
use base_layer.Scheduler.{matching_warm_ready_count}
use base_layer.Samples.{platform, eu, us, full, state, store, early_end, late_end, event}
use base_layer.Store.File.{ControlPlaneStore, StoreFile, open_store, empty_state}
use base_layer.Store.Lock.{Attempt, acquire, Overdue, acquire_ends, acquire_timeout_iff}
use base_layer.Store.Monad.{with_write_lock}
use base_layer.Store.Reads.{
  list_hosts, list_host_create_reservations, list_session_events, get_session_events,
}
use base_layer.Store.Effective.{effective_hosts}
use base_layer.Store.Charges.{Charged, host_by}
use base_layer.Store.Counting.{stored_host, reserved_count, effective_hosts-Charged}
use base_layer.Store.Writes.{ReserveInput, Reserved, reserve_host_for_create}
use base_layer.Store.Capacity.{Granted, reserve_host_for_create-Granted, reserve-within_capacity}
use base_layer.Store.Commit.{prune_terminated_sessions, ended, is_terminated}
use base_layer.Store.Operation.{Operation, operation, run}
use base_layer.Store.Durability.{write-durable, write-from_file}
use base_layer.Store.Persist.{throws_after, with_write_lock_on, Replaced, with_write_lock_on-err}
use base_layer.Store.Sharing.{Turn, run_shared, run_shared-serial}
use base_layer.Store.Runs.{StoredAs}
use base_layer.Store.Events.{Indexed, run-Indexed}
use base_layer.Store.Retention.{terminated_count, prune-at_most}
use base_layer.Store.Oldest.{prune-only_terminated, prune-oldest}

abbrev input : ReserveInput
input = record {
  session_id = "s9";
  preferred_region = none;
  runtime_profile = some "chrome";
  ttl_ms = 1000;
}

abbrev reservation_outcome : Result Reserved × StateFile
reservation_outcome = reserve_host_for_create platform input "r1" 100 state

abbrev reserved : Reserved
reserved = record {
  host = record eu {
    metrics = record (eu.metrics) {
      active_sessions = 1;
      active_renderer_count = 1;
      cold_admit_remaining = 3;
      warm_pools =
          record {
            runtime_profile = "chrome";
            ready_count = 0;
            target_count = 2;
            refill_in_flight = 0;
          }
          ∷ [];
    };
  };
  reservation = record {
    reservation_id = "r1";
    session_id = "s9";
    host_id = "h1";
    runtime_profile = some "chrome";
    preferred_region = none;
    warm_expected = true;
    created_at = 100;
    expires_at = 1100;
  };
}

abbrev reserved_state : StateFile
reserved_state = record state { host_create_reservations = ("r1", reserved.reservation) ∷ [] }

abbrev reserved_store : ControlPlaneStore
reserved_store = record {
  file = StoreFile.content reserved_state;
  state = reserved_state;
  loaded = true;
}

reserves : reserve_host_for_create platform input "r1" 100 state ≡ (ok reserved, reserved_state)
unfolding reserve_host_for_create base_layer.Scheduler.choose_host effective_hosts
    base_layer.Base.Sort.sort base_layer.Store.Effective.cleanup_expired_reservations
    base_layer.Base.Dict.remove_if base_layer.Base.includes matching_warm_ready_count
    base_layer.Base.Int.◌-ℤ◌ base_layer.Scheduler.score_host base_layer.Base.Int.◌+ℤ◌
    base_layer.Base.Int.◌*ℤ◌ base_layer.Types.Schema.parse_create_reservation
    base_layer.Types.Schema.valid_create_reservation base_layer.Base.sized
    base_layer.Base.Dict.insert
reserves = refl

keyed : Indexed state
unfolding lookup
keyed = (
  (refl, refl, (refl, refl, (refl, refl, tt))),
  (refl, refl, (refl, refl, (refl, refl, tt))),
  tt,
  tt,
  tt,
)

fresh : lookup "r1" state.host_create_reservations ≡ none
unfolding lookup
fresh = refl

reserve_host_for_create-Granted_example :
    Granted platform input "r1" 100 state reserved reserved_state
reserve_host_for_create-Granted_example =
    reserve_host_for_create-Granted platform input "r1" 100 state reserved reserved_state keyed.0
      fresh (omega arith) reserves

reserve-within_capacity_example :
    (after : HostRecord) × (host_by reserved.reservation.host_id
        (effective_hosts platform.locale_compare 100 reserved_state)
      ≡ some after)
    × (after.metrics.active_renderer_count ≤ after.capacity.max_renderer_count)
    × ((after.metrics.active_sessions ≤ after.capacity.max_sessions)
        ⊎ ((before : HostRecord) × Memᴰ before (effective_hosts platform.locale_compare 100 state)
            × (before.host_id ≡ after.host_id)
            × (0 < matching_warm_ready_count before (some "chrome"))))
reserve-within_capacity_example =
    reserve-within_capacity platform input "r1" 100 state reserved reserved_state keyed.0 fresh
      (omega arith) reserves

found_h1 : stored_host platform.locale_compare 200 reserved_state "h1" ≡ some eu
unfolding base_layer.Base.Sort.sort
found_h1 = refl

effective_hosts-Charged_example :
    (g : HostRecord) × (host_by "h1" (effective_hosts platform.locale_compare 200 reserved_state)
      ≡ some g)
    × Charged eu g (reserved_count platform.locale_compare 200 reserved_state "h1")
effective_hosts-Charged_example =
    effective_hosts-Charged platform.locale_compare 200 reserved_state "h1" eu found_h1

-- Two rounds that meet the lock file, the second of them 5 seconds late.
abbrev rounds : List Attempt
rounds = Attempt.exists 0 ∷ Attempt.exists 5000 ∷ []

acquire_timeout_iff_case : (acquire 0 rounds ≡ some (err lock_timeout)) ↔ Overdue 0 rounds
acquire_timeout_iff_case = acquire_timeout_iff 0 rounds

-- A lock that is taken in the third round, with the rounds that would follow.
abbrev opened_times : ℕ → List Attempt
opened_times zero = []
opened_times (suc n) = Attempt.opened ∷ opened_times n

abbrev long_wait : List Attempt
long_wait = Attempt.exists 0 ∷ Attempt.exists 30 ∷ opened_times 199

long_enough : 201 ≤ length long_wait
long_enough = omega arith

acquire_ends_example : acquire 0 long_wait ≢ none
acquire_ends_example = acquire_ends 0 long_wait (omega arith, (omega arith, tt)) long_enough

acquires : acquire 0 (Attempt.exists 0 ∷ Attempt.opened ∷ []) ≡ some (ok tt)
unfolding acquire
acquires = refl

abbrev append_call : Operation
append_call = Operation.appends_event (event "s1") 100

abbrev appended : StateFile
appended = record state { session_events = ("s1", event "s1" ∷ []) ∷ [] }

abbrev after_append : ControlPlaneStore
after_append = record { file = StoreFile.content appended; state = appended; loaded = true }

appends :
    with_write_lock platform.formats (ok tt) (operation platform append_call) store
    ≡ (ok tt, after_append)
unfolding with_write_lock operation base_layer.Store.File.refresh_from_disk
    base_layer.Store.Writes.append_session_event base_layer.Types.Schema.parse_event
    base_layer.Types.Schema.valid_event base_layer.Store.File.persist
    base_layer.Store.Effective.cleanup_expired_reservations base_layer.Base.Dict.insert
    base_layer.Types.Schema.valid_session base_layer.Base.Dict.remove_if
    base_layer.Types.Schema.valid_metadata base_layer.Base.sized base_layer.Types.Schema.valid_host
    base_layer.Types.Schema.valid_capacity base_layer.Types.Schema.valid_metrics lookup
appends = refl

write-durable_case : open_store platform.formats (StoreFile.content appended) ≡ ok after_append
write-durable_case = write-durable platform (ok tt) append_call store after_append appends

-- A host without a URL is refused.
abbrev bad_call : Operation
bad_call = Operation.upserts_host (record eu { api_url = "" })

abbrev after_bad : ControlPlaneStore
after_bad = (with_write_lock platform.formats (ok tt) (operation platform bad_call) store).1

fails :
    with_write_lock platform.formats (ok tt) (operation platform bad_call) store
    ≡ (err zod_error, after_bad)
unfolding with_write_lock operation base_layer.Store.File.refresh_from_disk
    base_layer.Store.Writes.upsert_host base_layer.Types.Schema.parse_host
    base_layer.Types.Schema.valid_host
fails = refl

-- The file has been replaced when its time cannot be read.
stat_fails :
    with_write_lock_on platform.formats
      (throws_after file_error)
      (ok tt)
      (ok tt)
      (operation platform append_call)
      store
    ≡ (err file_error, after_append)
unfolding with_write_lock_on operation base_layer.Store.File.refresh_from_disk
    base_layer.Store.Writes.append_session_event base_layer.Types.Schema.parse_event
    base_layer.Types.Schema.valid_event base_layer.Store.Effective.cleanup_expired_reservations
    base_layer.Base.Dict.insert base_layer.Types.Schema.valid_session base_layer.Base.Dict.remove_if
    base_layer.Types.Schema.valid_metadata base_layer.Base.sized base_layer.Types.Schema.valid_host
    base_layer.Types.Schema.valid_capacity base_layer.Types.Schema.valid_metrics lookup
stat_fails = refl

with_write_lock_on-err_example :
    (after_append.file ≡ store.file)
    ⊎ Replaced platform.formats
        (throws_after file_error)
        (ok tt)
        (operation platform append_call)
        store
        after_append
        file_error
with_write_lock_on-err_example =
    with_write_lock_on-err platform.formats (throws_after file_error) (ok tt) (ok tt)
      (operation platform append_call) store after_append file_error stat_fails

abbrev blank : ControlPlaneStore
blank = record store { state = empty_state; loaded = false }

write-from_file_case :
    ((with_write_lock platform.formats (ok tt) (operation platform append_call) store).0
      ≡ (with_write_lock platform.formats (ok tt) (operation platform append_call) blank).0)
    × ((with_write_lock platform.formats (ok tt) (operation platform append_call) store).1.file
        ≡ (with_write_lock platform.formats (ok tt) (operation platform append_call) blank).1.file)
write-from_file_case =
    write-from_file platform.formats (ok tt) (operation platform append_call) store blank refl

-- Two processes append and remove in turn.
abbrev turns : List Turn
turns =
    (0, ok tt, append_call)
    ∷ (1, ok tt, Operation.removes_session "s1" 110)
    ∷ (0, ok tt, append_call)
    ∷ []

run_shared-serial_example :
    run_shared platform turns store.file (λ _. blank)
    ≡ (run platform (map (λ t. (t.1, t.2)) turns) store).file
run_shared-serial_example = run_shared-serial platform turns (λ _. blank) store

run-Indexed_example :
    StoredAs Indexed (run platform ((ok tt, append_call) ∷ (ok tt, bad_call) ∷ []) store).file
run-Indexed_example =
    run-Indexed platform ((ok tt, append_call) ∷ (ok tt, bad_call) ∷ []) store keyed

prunes : lookup "s2" (prune_terminated_sessions 1 state).sessions ≡ none
unfolding prune_terminated_sessions lookup base_layer.Base.Sort.sort base_layer.Base.Dict.erase
prunes = refl

finds : lookup "s2" state.sessions ≡ some early_end
unfolding lookup
finds = refl

leaves : Memᴰ late_end (values (prune_terminated_sessions 1 state).sessions)
unfolding prune_terminated_sessions base_layer.Base.Sort.sort base_layer.Base.Dict.erase
leaves = Memᴰ.tail (Memᴰ.head refl)

prune-at_most_case : terminated_count (prune_terminated_sessions 1 state) ≤ 1
prune-at_most_case = prune-at_most 1 state keyed.1 (omega arith)

prune-only_terminated_case : is_terminated early_end ≡ true
prune-only_terminated_case = prune-only_terminated 1 state "s2" early_end keyed.1 finds prunes

prune-oldest_example : ended early_end ≤ ended late_end
prune-oldest_example = prune-oldest 1 state "s2" early_end late_end keyed.1 finds prunes leaves refl

lists_hosts : (list_hosts platform 200 store).0 ≡ ok (eu ∷ us ∷ full ∷ [])
unfolding list_hosts base_layer.Store.Monad.reading base_layer.Store.File.refresh_from_disk
    effective_hosts base_layer.Base.Sort.sort base_layer.Types.Schema.valid_session
    base_layer.Types.Schema.valid_metadata base_layer.Base.sized base_layer.Types.Schema.valid_host
    base_layer.Types.Schema.valid_capacity base_layer.Types.Schema.valid_metrics
lists_hosts = refl

lists_reservations :
    (list_host_create_reservations platform 200 (some "h1") reserved_store).0
    ≡ ok (reserved.reservation ∷ [])
unfolding list_host_create_reservations base_layer.Store.Monad.reading
    base_layer.Store.File.refresh_from_disk base_layer.Base.Sort.sort
    base_layer.Types.Schema.valid_session base_layer.Types.Schema.valid_metadata
    base_layer.Base.sized base_layer.Types.Schema.valid_host base_layer.Types.Schema.valid_capacity
    base_layer.Types.Schema.valid_metrics base_layer.Types.Schema.valid_create_reservation
lists_reservations = refl

lists_events : (list_session_events platform after_append).0 ≡ ok (event "s1" ∷ [])
unfolding list_session_events base_layer.Store.Monad.reading base_layer.Store.File.refresh_from_disk
    base_layer.Base.Sort.sort base_layer.Types.Schema.valid_session
    base_layer.Types.Schema.valid_metadata base_layer.Base.sized base_layer.Types.Schema.valid_host
    base_layer.Types.Schema.valid_capacity base_layer.Types.Schema.valid_metrics
    base_layer.Types.Schema.valid_event
lists_events = refl

gets_events : (get_session_events platform "s2" after_append).0 ≡ ok []
unfolding get_session_events base_layer.Store.Monad.reading base_layer.Store.File.refresh_from_disk
    base_layer.Base.Sort.sort base_layer.Store.Reads.events_of lookup
    base_layer.Types.Schema.valid_session base_layer.Types.Schema.valid_metadata
    base_layer.Base.sized base_layer.Types.Schema.valid_host base_layer.Types.Schema.valid_capacity
    base_layer.Types.Schema.valid_metrics base_layer.Types.Schema.valid_event
gets_events = refl
