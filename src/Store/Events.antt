-- ===== src/Store/Events.antt =====
-- Keys, ids and histories in the state of src/api/store.ts, through every writing call.
use base_layer.Base.{
  ℕ, ◌-◌, ◌≤◌, List, [], ◌∷◌, ◌++◌, ◌≡◌, refl, sym, arith, drop, length, String, inl, inr,
  Option-cases, Result, length-drop, subst, zero, suc,
}
use base_layer.Base.Dict.{
  Dict, Entries, Keyed, insert-Keyed, erase-Keyed, lookup, insert-Entries, erase-Entries,
  remove_if-Entries, lookup-Entries,
}
use base_layer.Types.{
  StateFile, SessionRecord, SessionEventRecord, HostCreateReservation, HostDeleteReservation,
}
use base_layer.Types.Platform.{Platform}
use base_layer.Store.File.{ControlPlaneStore, empty_state}
use base_layer.Store.Reads.{events_of}
use base_layer.Store.Effective.{cleanup_expired_reservations}
use base_layer.Store.Identity.{HostsKeyed}
use base_layer.Store.Writes.{
  append_event, put_host, put_session, put_event, put_reservation, put_idempotency, drop_session,
  drop_reservation,
}
use base_layer.Store.Commit.{put_delete_reservation}
use base_layer.Store.Operation.{Operation, run}
use base_layer.Store.Closed.{Closed}
use base_layer.Store.Runs.{StoredAs, run-StoredAs}

-- `append` keeps what both parts have, and `drop` what the whole has.
abbrev Each : {A : Type 0} → (A → Type 0) → List A → Type 0
Each P [] = Unit {0}
Each P (x ∷ xs) = P x × Each P xs

append-Each :
    {A : Type 0} (P : A → Type 0) (xs ys : List A) → Each P xs → Each P ys → Each P (xs ++ ys)
append-Each P [] ys h k = k
append-Each P (x ∷ xs) ys (p, h) k = (p, append-Each P xs ys h k)

drop-Each : {A : Type 0} (P : A → Type 0) (n : ℕ) (xs : List A) → Each P xs → Each P (drop n xs)
drop-Each P zero xs h = h
drop-Each P (suc n) [] h = tt
drop-Each P (suc n) (x ∷ xs) (p, h) = drop-Each P n xs h

abbrev pub History : String → List SessionEventRecord → Type 0
History id events = Each (λ e. e.session_id ≡ id) events × (length events ≤ 256)

append-History :
    (id : String) (events : List SessionEventRecord) (e : SessionEventRecord)
    → e.session_id ≡ id
    → History id events
    → History id (append_event events e)
unfolding append_event
append-History id events e same (own, few) =
    let joined = events ++ (e ∷ []) in
    (
      drop-Each _ (length joined - 256) joined (append-Each _ events (e ∷ []) own (same, tt)),
      omega (arith, length-drop (length joined - 256) joined),
    )

abbrev pub SessionsKeyed : Dict SessionRecord → Type 0
SessionsKeyed d = Keyed (λ x. SessionRecord.session_id x) d

-- Hosts, sessions, events, create reservations and delete reservations.
abbrev pub Indexed : StateFile → Type 0
Indexed s =
    HostsKeyed s.hosts
    × SessionsKeyed s.sessions
    × Entries History s.session_events
    × Entries (λ k v. HostCreateReservation.reservation_id v ≡ k) s.host_create_reservations
    × Entries (λ k v. HostDeleteReservation.reservation_id v ≡ k) s.host_delete_reservations

events_of-History : (s : StateFile) (id : String) → Indexed s → History id (events_of s id)
unfolding events_of
events_of-History s id (_, _, es, _, _) = elim (Option-cases (lookup id s.session_events)) [
  | inl e ↦ rw e (tt, omega arith)
  | inr (events, e) ↦ rw e (lookup-Entries _ id s.session_events es e)
]

module _ (platform : Platform) where
  Indexed-Closed : Closed platform Indexed
  unfolding cleanup_expired_reservations put_host put_reservation drop_reservation put_session
      put_event put_idempotency put_delete_reservation drop_session
  Indexed-Closed = record {
    cleanup = λ now s (a, b, c, d, e). (
      a,
      b,
      c,
      remove_if-Entries _ _ s.host_create_reservations d,
      remove_if-Entries _ _ s.host_delete_reservations e,
    );
    host = λ h s t (a, b, c, d, e). (insert-Keyed _ h s.hosts a, b, c, d, e);
    reservation = λ r s t (a, b, c, d, e).
        (a, b, c, insert-Entries _ _ r s.host_create_reservations (λ _ p. sym p) d, e);
    release = λ id s (a, b, c, d, e). (a, b, c, erase-Entries _ id s.host_create_reservations d, e);
    session = λ x s t (a, b, c, d, e). (a, insert-Keyed _ x s.sessions b, c, d, e);
    event = λ x s t (a, b, c, d, e). (
      a,
      b,
      insert-Entries History _ _ s.session_events
          (λ j p.
            subst (λ k. History k (append_event (events_of s x.session_id) x)) (sym p)
              (append-History x.session_id (events_of s x.session_id) x refl
                (events_of-History s x.session_id (a, b, c, d, e))))
          c,
      d,
      e,
    );
    idempotency = λ key x s t w. w;
    deletion = λ r s t (a, b, c, d, e).
        (a, b, c, d, insert-Entries _ _ r s.host_delete_reservations (λ _ p. sym p) e);
    removal = λ id s (a, b, c, d, e).
        (a, erase-Keyed _ id s.sessions b, erase-Entries _ id s.session_events c, d, e);
  }

  -- In every state that writing calls make from a well-indexed file, calls that throw included, hosts,
  -- sessions and reservations stand under their own ids, and a session's history has at most 256 events,
  -- all its own.
  pub run-Indexed :
      (calls : List (Result (Unit {0}) × Operation)) (store : ControlPlaneStore)
      → StoredAs Indexed store.file
      → StoredAs Indexed (run platform calls store).file
  unfolding empty_state
  run-Indexed calls store h =
      run-StoredAs platform Indexed (tt, tt, tt, tt, tt) Indexed-Closed calls store h
