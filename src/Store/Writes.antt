-- ===== src/Store/Writes.antt =====
-- The changes that the writing calls make under the lock, the commit of a session apart.
use base_layer.Base.{
  ℕ, ◌+◌, ◌-◌, Option, none, some, List, [], ◌∷◌, ◌++◌, String, ◌==◌, ltb, find, drop, length,
}
use base_layer.Base.Dict.{insert, erase}
use base_layer.Types.{
  StateFile, HostRecord, SessionRecord, SessionEventRecord, IdempotencyRecord,
  HostCreateReservation,
}
use base_layer.Types.Schema.{
  parse_host, parse_session, parse_event, parse_idempotency, parse_create_reservation,
}
use base_layer.Types.Platform.{Platform}
use base_layer.Scheduler.{choose_host, pool_ready, coalesce, sole_supported, sole, pool_profile}
use base_layer.Store.Monad.{M, ◌>>=◌, ◌>>◌, pure, lift, modify, gets}
use base_layer.Store.Effective.{cleanup_expired_reservations, effective_hosts}
use base_layer.Store.Reads.{events_of}

-- `[...existing, event].slice(-256)`
unfoldable pub append_event : List SessionEventRecord → SessionEventRecord → List SessionEventRecord
append_event existing event =
    let all_events = existing ++ (event ∷ []) in drop (length all_events - 256) all_events

unfoldable pub put_event : SessionEventRecord → StateFile → StateFile
unfolding append_event events_of
put_event event s = record s {
  session_events =
      insert event.session_id (append_event (events_of s event.session_id) event) s.session_events;
}

unfoldable pub put_host : HostRecord → StateFile → StateFile
put_host host s = record s { hosts = insert host.host_id host s.hosts }

unfoldable pub put_session : SessionRecord → StateFile → StateFile
put_session session s = record s { sessions = insert session.session_id session s.sessions }

unfoldable pub drop_session : String → StateFile → StateFile
drop_session id s = record s {
  sessions = erase id s.sessions;
  session_events = erase id s.session_events;
}

unfoldable pub drop_reservation : String → StateFile → StateFile
drop_reservation id s = record s { host_create_reservations = erase id s.host_create_reservations }

unfoldable pub put_reservation : HostCreateReservation → StateFile → StateFile
put_reservation reservation s = record s {
  host_create_reservations =
      insert reservation.reservation_id reservation s.host_create_reservations;
}

unfoldable pub put_idempotency : String → IdempotencyRecord → StateFile → StateFile
put_idempotency key entry s = record s {
  idempotency_records = insert key entry s.idempotency_records;
}

pub record ReserveInput : Type 0 where
  pub session_id : String
  pub preferred_region : Option String
  pub runtime_profile : Option String
  pub ttl_ms : ℕ

pub record Reserved : Type 0 where
  pub host : HostRecord
  pub reservation : HostCreateReservation

abbrev pub or_host : Option HostRecord → HostRecord → HostRecord
or_host none host = host
or_host (some reserved) host = reserved

-- `input.runtimeProfile ?? …`
unfoldable pub reserved_profile : Option String → HostRecord → Option String
reserved_profile asked host = coalesce asked (
    coalesce (sole_supported host.supported_runtime_profiles)
      (pool_profile (sole host.metrics.warm_pools)))

-- `matchingWarmPool` is looked for under a truthy profile, as in `pool_ready`.
unfoldable pub new_reservation : ReserveInput → String → ℕ → HostRecord → HostCreateReservation
unfolding reserved_profile pool_ready
new_reservation input id now host =
    let profile = reserved_profile input.runtime_profile host in
    record {
      reservation_id = id;
      session_id = input.session_id;
      host_id = host.host_id;
      runtime_profile = profile;
      preferred_region = input.preferred_region;
      warm_expected = ltb 0 (pool_ready host.metrics.warm_pools profile);
      created_at = now;
      expires_at = now + input.ttl_ms;
    }

module _ (platform : Platform) where
  open platform use {formats}

  -- `upsertHost`
  unfoldable pub upsert_host : HostRecord → M HostRecord
  unfolding put_host
  upsert_host host = do
    parsed ← lift (parse_host formats host)
    modify (put_host parsed)
    pure parsed

  -- `reserveHostForCreate`, with the new reservation's id
  unfoldable pub reserve_host_for_create : ReserveInput → String → ℕ → M Reserved
  unfolding new_reservation put_reservation
  reserve_host_for_create input id now = do
    modify (cleanup_expired_reservations now)
    hosts ← gets (effective_hosts platform.locale_compare now)
    host ← lift (
        choose_host platform.percent hosts (record {
          preferred_region = input.preferred_region;
          runtime_profile = input.runtime_profile;
        }))
    reservation ← lift (parse_create_reservation formats (new_reservation input id now host))
    modify (put_reservation reservation)
    after ← gets (effective_hosts platform.locale_compare now)
    pure (record {
      host = or_host (find (λ entry. entry.host_id == host.host_id) after) host;
      reservation = reservation;
    })

  -- `releaseHostCreateReservation`
  unfoldable pub release_host_create_reservation : String → ℕ → M (Unit {0})
  unfolding drop_reservation
  release_host_create_reservation id now = do
    modify (cleanup_expired_reservations now)
    modify (drop_reservation id)

  -- `upsertSession`
  unfoldable pub upsert_session : SessionRecord → ℕ → M SessionRecord
  unfolding put_session
  upsert_session session now = do
    modify (cleanup_expired_reservations now)
    parsed ← lift (parse_session formats session)
    modify (put_session parsed)
    pure parsed

  -- `parsedEvent`, with what it appends
  unfoldable pub add_event : Option SessionEventRecord → M (Option SessionEventRecord)
  unfolding put_event
  add_event none = pure none
  add_event (some event) = do
    parsed ← lift (parse_event event)
    modify (put_event parsed)
    pure (some parsed)

  -- `upsertSessionAndAppendEvent`
  unfoldable pub upsert_session_and_append_event :
      SessionRecord → Option SessionEventRecord → ℕ → M (SessionRecord × Option SessionEventRecord)
  unfolding add_event put_session
  upsert_session_and_append_event session event now = do
    modify (cleanup_expired_reservations now)
    parsed ← lift (parse_session formats session)
    modify (put_session parsed)
    parsed_event ← add_event event
    pure (parsed, parsed_event)

  -- `appendSessionEvent`
  unfoldable pub append_session_event : SessionEventRecord → ℕ → M SessionEventRecord
  unfolding put_event
  append_session_event event now = do
    modify (cleanup_expired_reservations now)
    parsed ← lift (parse_event event)
    modify (put_event parsed)
    pure parsed

  -- `upsertIdempotencyRecord`
  unfoldable pub upsert_idempotency_record : String → IdempotencyRecord → ℕ → M IdempotencyRecord
  unfolding put_idempotency
  upsert_idempotency_record key entry now = do
    modify (cleanup_expired_reservations now)
    parsed ← lift (parse_idempotency entry)
    modify (put_idempotency key parsed)
    pure parsed

  -- `removeSession`
  unfoldable pub remove_session : String → ℕ → M (Unit {0})
  unfolding drop_session
  remove_session id now = do modify (cleanup_expired_reservations now); modify (drop_session id)
