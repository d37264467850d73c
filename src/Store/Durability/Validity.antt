-- ===== src/Store/Durability/Validity.antt =====
-- The schema of the state, record by record, and that every writing call keeps it.
use base_layer.Base.{
  ℕ, zero, suc, ◌-◌, Bool, true, List, [], ◌∷◌, ◌++◌, ◌≡◌, arith, all, drop, length, String, inl,
  inr, Option-cases,
}
use base_layer.Base.Dict.{
  Dict, Entries, lookup, insert-Entries, erase-Entries, remove_if-Entries, lookup-Entries,
  all-Entries, Entries-all,
}
use base_layer.Types.{StateFile, SessionEventRecord}
use base_layer.Types.Schema.{
  Formats, valid_host, valid_session, valid_event, valid_idempotency, valid_create_reservation,
  valid_delete_reservation,
}
use base_layer.Types.Platform.{Platform}
use base_layer.Store.File.{valid_state, empty_state}
use base_layer.Store.Reads.{events_of}
use base_layer.Store.Effective.{cleanup_expired_reservations}
use base_layer.Store.Writes.{
  append_event, put_host, put_session, put_event, put_reservation, put_idempotency, drop_session,
  drop_reservation,
}
use base_layer.Store.Commit.{put_delete_reservation}
use base_layer.Store.Closed.{Closed}

all-append :
    {A : Type 0} (p : A → Bool) (xs ys : List A)
    → all p xs ≡ true
    → all p ys ≡ true
    → all p (xs ++ ys) ≡ true
all-append p [] ys h k = k
all-append p (x ∷ xs) ys h k = ground (arith, all-append p xs ys)

all-drop :
    {A : Type 0} (p : A → Bool) (n : ℕ) (xs : List A) → all p xs ≡ true → all p (drop n xs) ≡ true
all-drop p zero xs h = h
all-drop p (suc n) [] h = h
all-drop p (suc n) (x ∷ xs) h = all-drop p n xs (ground arith)

module _ (formats : Formats) where
  abbrev pub Passes : {V : Type 0} → (V → Bool) → Dict V → Type 0
  Passes test d = Entries (λ _ v. test v ≡ true) d

  -- Sessions, hosts, events, idempotency records, create reservations, delete reservations.
  abbrev pub Valid : StateFile → Type 0
  Valid s =
      Passes (valid_session formats) s.sessions
      × Passes (valid_host formats) s.hosts
      × Passes (all valid_event) s.session_events
      × Passes valid_idempotency s.idempotency_records
      × Passes (valid_create_reservation formats) s.host_create_reservations
      × Passes (valid_delete_reservation formats) s.host_delete_reservations

  pub empty-Valid : Valid empty_state
  unfolding empty_state
  empty-Valid = (tt, tt, tt, tt, tt, tt)

  pub valid_state-Valid : (s : StateFile) → valid_state formats s ≡ true → Valid s
  unfolding valid_state
  valid_state-Valid s h = (
    all-Entries _ s.sessions (ground arith),
    all-Entries _ s.hosts (ground arith),
    all-Entries _ s.session_events (ground arith),
    all-Entries _ s.idempotency_records (ground arith),
    all-Entries _ s.host_create_reservations (ground arith),
    all-Entries _ s.host_delete_reservations (ground arith),
  )

  pub Valid-valid_state : (s : StateFile) → Valid s → valid_state formats s ≡ true
  unfolding valid_state
  Valid-valid_state s (a, b, c, d, e, f) = ground (
    arith,
    Entries-all _ s.sessions a,
    Entries-all _ s.hosts b,
    Entries-all _ s.session_events c,
    Entries-all _ s.idempotency_records d,
    Entries-all _ s.host_create_reservations e,
    Entries-all _ s.host_delete_reservations f,
  )

  events_of-Valid :
      (s : StateFile) (id : String) → Valid s → all valid_event (events_of s id) ≡ true
  unfolding events_of
  events_of-Valid s id v = elim (Option-cases (lookup id s.session_events)) [
    | inl e ↦ rw e
    | inr (es, e) ↦ rw e (lookup-Entries _ id s.session_events v.2 e)
  ]

  append-valid :
      (es : List SessionEventRecord) (e : SessionEventRecord)
      → all valid_event es ≡ true
      → valid_event e ≡ true
      → all valid_event (append_event es e) ≡ true
  unfolding append_event
  append-valid es e h k =
      all-drop _ (length (es ++ (e ∷ [])) - 256) _ (all-append _ es (e ∷ []) h (ground arith))

module _ (platform : Platform) where
  open platform use {formats}

  -- No writing call puts into the state what its schema refuses.
  pub Valid-Closed : Closed platform (Valid formats)
  unfolding cleanup_expired_reservations put_host put_reservation drop_reservation put_session
      put_event put_idempotency put_delete_reservation drop_session
  Valid-Closed = record {
    cleanup = λ now s (a, b, c, d, e, f). (
      a,
      b,
      c,
      d,
      remove_if-Entries _ _ s.host_create_reservations e,
      remove_if-Entries _ _ s.host_delete_reservations f,
    );
    host = λ h s t (a, b, c, d, e, f). (a, insert-Entries _ _ h s.hosts (λ _ _. t) b, c, d, e, f);
    reservation = λ r s t (a, b, c, d, e, f).
        (a, b, c, d, insert-Entries _ _ r s.host_create_reservations (λ _ _. t) e, f);
    release =
        λ id s (a, b, c, d, e, f). (a, b, c, d, erase-Entries _ id s.host_create_reservations e, f);
    session =
        λ x s t (a, b, c, d, e, f). (insert-Entries _ _ x s.sessions (λ _ _. t) a, b, c, d, e, f);
    event = λ x s t (a, b, c, d, e, f). (
      a,
      b,
      insert-Entries _ _ _ s.session_events
          (λ _ _.
            append-valid formats (events_of s x.session_id) x
              (events_of-Valid formats s x.session_id (a, b, c, d, e, f)) t)
          c,
      d,
      e,
      f,
    );
    idempotency = λ key x s t (a, b, c, d, e, f).
        (a, b, c, insert-Entries _ key x s.idempotency_records (λ _ _. t) d, e, f);
    deletion = λ r s t (a, b, c, d, e, f).
        (a, b, c, d, e, insert-Entries _ _ r s.host_delete_reservations (λ _ _. t) f);
    removal = λ id s (a, b, c, d, e, f).
        (erase-Entries _ id s.sessions a, b, erase-Entries _ id s.session_events c, d, e, f);
  }
