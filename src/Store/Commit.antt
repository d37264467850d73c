-- ===== src/Store/Commit.antt =====
-- `commitSessionMutation`: one write for all that a request changes.
use base_layer.Base.{
  ℕ, Bool, Option, none, some, List, [], ◌∷◌, String, if◌then◌else◌, filter, drop, truthy, nat_eq,
}
use base_layer.Base.Int.{ℤ, sub_ℕ}
use base_layer.Base.Dict.{insert, values}
use base_layer.Base.Sort.{sort}
use base_layer.Types.{
  StateFile, SessionRecord, SessionEventRecord, IdempotencyRecord, HostDeleteReservation,
  terminated, same_status,
}
use base_layer.Types.Schema.{parse_session, parse_idempotency, parse_delete_reservation}
use base_layer.Types.Platform.{Platform}
use base_layer.Store.Monad.{M, ◌>>=◌, ◌>>◌, pure, lift, modify}
use base_layer.Store.Effective.{cleanup_expired_reservations}
use base_layer.Store.Writes.{
  put_session, drop_session, drop_reservation, put_idempotency, add_event,
}

-- `endedAt ?? createdAt`
abbrev pub ended : SessionRecord → ℕ
ended session = elim session.ended_at [ none ↦ session.created_at | some at ↦ at ]

abbrev pub latest_ended_first : SessionRecord → SessionRecord → ℤ
latest_ended_first left right = sub_ℕ (ended right) (ended left)

abbrev pub is_terminated : SessionRecord → Bool
is_terminated session = same_status session.status terminated

unfoldable pub terminated_sessions : StateFile → List SessionRecord
terminated_sessions s = sort latest_ended_first (filter is_terminated (values s.sessions))

unfoldable pub drop_sessions : List SessionRecord → StateFile → StateFile
unfolding drop_session
drop_sessions [] s = s
drop_sessions (session ∷ rest) s = drop_sessions rest (drop_session session.session_id s)

-- `#pruneTerminatedSessions`, with the number of terminated sessions that are kept (0: all)
unfoldable pub prune_terminated_sessions : ℕ → StateFile → StateFile
unfolding terminated_sessions drop_sessions
prune_terminated_sessions retention s =
    if nat_eq retention 0 then s else drop_sessions (drop retention (terminated_sessions s)) s

pub record SessionMutation : Type 0 where
  pub release_reservation_id : Option String
  pub add_delete_reservation : Option HostDeleteReservation
  pub session : Option SessionRecord
  pub event : Option SessionEventRecord
  pub idempotency : Option (String × IdempotencyRecord)
  pub remove_session_id : Option String

pub record Committed : Type 0 where
  pub session : Option SessionRecord
  pub event : Option SessionEventRecord
  pub idempotency : Option IdempotencyRecord

-- `if (id) change(id)`
abbrev pub when_given : (String → StateFile → StateFile) → Option String → StateFile → StateFile
when_given change none s = s
when_given change (some id) s = if truthy (some id) then change id s else s

unfoldable pub put_delete_reservation : HostDeleteReservation → StateFile → StateFile
put_delete_reservation reservation s = record s {
  host_delete_reservations =
      insert reservation.reservation_id reservation s.host_delete_reservations;
}

module _ (platform : Platform) where
  open platform use {formats}

  unfoldable pub add_delete : Option HostDeleteReservation → M (Unit {0})
  unfolding put_delete_reservation
  add_delete none = pure tt
  add_delete (some reservation) = do
    parsed ← lift (parse_delete_reservation formats reservation)
    modify (put_delete_reservation parsed)

  unfoldable pub set_session : Option SessionRecord → M (Option SessionRecord)
  unfolding put_session
  set_session none = pure none
  set_session (some session) = do
    parsed ← lift (parse_session formats session)
    modify (put_session parsed)
    pure (some parsed)

  unfoldable pub set_idempotency :
      Option (String × IdempotencyRecord) → M (Option IdempotencyRecord)
  unfolding put_idempotency
  set_idempotency none = pure none
  set_idempotency (some (key, entry)) = do
    parsed ← lift (parse_idempotency entry)
    modify (put_idempotency key parsed)
    pure (some parsed)

  unfoldable pub commit_session_mutation : ℕ → SessionMutation → ℕ → M Committed
  unfolding add_delete set_session set_idempotency add_event prune_terminated_sessions
      drop_reservation drop_session
  commit_session_mutation retention input now = do
    modify (cleanup_expired_reservations now)
    modify (when_given drop_reservation input.release_reservation_id)
    add_delete input.add_delete_reservation
    modify (when_given drop_session input.remove_session_id)
    session ← set_session input.session
    event ← add_event platform input.event
    idempotency ← set_idempotency input.idempotency
    modify (prune_terminated_sessions retention)
    pure (record { session = session; event = event; idempotency = idempotency })
