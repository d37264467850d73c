-- ===== src/Store/Reads.antt =====
-- The calls that read: each refreshes the copy in memory first.
use base_layer.Base.{
  ℕ, Bool, true, Option, none, some, List, [], ◌∷◌, ◌++◌, String, ◌==◌, if◌then◌else◌, filter, find,
  truthy, same_text, Result,
}
use base_layer.Base.Int.{ℤ, sub_ℕ}
use base_layer.Base.Dict.{lookup, values}
use base_layer.Base.Sort.{sort}
use base_layer.Types.{
  StateFile, HostRecord, SessionRecord, SessionEventRecord, IdempotencyRecord,
  HostCreateReservation,
}
use base_layer.Types.Platform.{Platform}
use base_layer.Query.{ControlPlaneSessionQuery, matches_query}
use base_layer.Store.File.{ControlPlaneStore}
use base_layer.Store.Monad.{reading}
use base_layer.Store.Effective.{effective_hosts, is_live, by_created}

-- `(left, right) => right.createdAt.localeCompare(left.createdAt)`
abbrev newest_first : SessionRecord → SessionRecord → ℤ
newest_first left right = sub_ℕ right.created_at left.created_at

unfoldable pub sessions_of : StateFile → List SessionRecord
sessions_of s = sort newest_first (values s.sessions)

-- `events ?? []`
abbrev pub or_empty : Option (List SessionEventRecord) → List SessionEventRecord
or_empty none = []
or_empty (some events) = events

unfoldable pub events_of : StateFile → String → List SessionEventRecord
events_of s id = or_empty (lookup id s.session_events)

abbrev by_ts : SessionEventRecord → SessionEventRecord → ℤ
by_ts left right = sub_ℕ left.ts right.ts

-- `list.flat()`
flat : List (List SessionEventRecord) → List SessionEventRecord
flat [] = []
flat (events ∷ rest) = events ++ flat rest

-- `hostId ? reservation.hostId === hostId : true`
abbrev of_host : Option String → HostCreateReservation → Bool
of_host host_id reservation =
    if truthy host_id then same_text (some reservation.host_id) host_id else true

module _ (platform : Platform) where
  unfoldable pub list_hosts : ℕ → ControlPlaneStore → Result (List HostRecord) × ControlPlaneStore
  list_hosts now = reading platform.formats (effective_hosts platform.locale_compare now)

  unfoldable pub get_host :
      ℕ → String → ControlPlaneStore → Result (Option HostRecord) × ControlPlaneStore
  get_host now id =
      reading platform.formats
        (λ s. find (λ host. host.host_id == id) (effective_hosts platform.locale_compare now s))

  unfoldable pub list_host_create_reservations :
      ℕ
      → Option String
      → ControlPlaneStore
      → Result (List HostCreateReservation) × ControlPlaneStore
  list_host_create_reservations now host_id = reading platform.formats λ s.
      sort by_created
        (filter (of_host host_id) (filter (is_live now) (values s.host_create_reservations)))

  unfoldable pub list_sessions : ControlPlaneStore → Result (List SessionRecord) × ControlPlaneStore
  list_sessions = reading platform.formats sessions_of

  unfoldable pub query_sessions :
      ControlPlaneSessionQuery → ControlPlaneStore → Result (List SessionRecord) × ControlPlaneStore
  query_sessions query = reading platform.formats λ s. filter (matches_query query) (sessions_of s)

  unfoldable pub get_session :
      String → ControlPlaneStore → Result (Option SessionRecord) × ControlPlaneStore
  get_session id = reading platform.formats λ s. lookup id s.sessions

  unfoldable pub list_session_events :
      ControlPlaneStore → Result (List SessionEventRecord) × ControlPlaneStore
  unfolding flat
  list_session_events = reading platform.formats λ s. sort by_ts (flat (values s.session_events))

  unfoldable pub get_session_events :
      String → ControlPlaneStore → Result (List SessionEventRecord) × ControlPlaneStore
  get_session_events id = reading platform.formats λ s. sort by_ts (events_of s id)

  unfoldable pub get_idempotency_record :
      String → ControlPlaneStore → Result (Option IdempotencyRecord) × ControlPlaneStore
  get_idempotency_record key = reading platform.formats λ s. lookup key s.idempotency_records
