-- ===== src/Agent/Launch/Laws.antt =====
-- Sessions and launches never exceed the limit by more than the warm pool's size.
use base_layer.Base.{
  ℕ, ◌+◌, ◌≤◌, Bool, true, false, none, [], ◌∷◌, String, ◌==◌, ◌≡◌, ◌≢◌, ◌⊎◌, ltb, refl, arith,
  length, includes, Bool-cases, inl, inr, eq_iff, ◌∙◌, sym,
}
use base_layer.Base.Dict.{Dict, lookup, insert, erase, lookup-insert, lookup-erase}
use base_layer.Base.Sets.{add, remove, length-remove, length-add, includes-add, includes-remove}
use base_layer.Agent.Launch.{
  Launches, idle_launches, LaunchMove, prune_from, prune_stale_launch_reservations,
  has_launch_capacity, try_reserve, settle_launch, launch_move, LaunchReachable, Allowed,
}

length-insert : (id : String) (at : ℕ) (d : Dict ℕ) → length (insert id at d) ≤ length d + 1
unfolding insert
length-insert id at [] = omega arith
length-insert id at ((j, x) ∷ d) = ground (arith, length-insert id at d)

length-erase : (id : String) (d : Dict ℕ) → length (erase id d) ≤ length d
unfolding erase
length-erase id [] = omega arith
length-erase id ((j, x) ∷ d) = ground (arith, length-erase id d)

length-erase_there :
    (id : String) (d : Dict ℕ) → lookup id d ≢ none → length (erase id d) + 1 ≤ length d
unfolding erase lookup
length-erase_there id [] h = absurd (h refl)
length-erase_there id ((j, x) ∷ d) h = elim (Bool-cases (j == id)) [
  | inl t ↦ rw t (omega (arith, length-erase id d))
  | inr t ↦ rw t (omega (arith, length-erase_there id d (rw t at h)))
]

module _ (max_sessions warm_pool_size stale_threshold_ms : ℕ) where
  length-prune_from :
      (now : ℕ) (has_machine : String → Bool) (s : Launches) (d : Dict ℕ)
      → length (prune_from true max_sessions warm_pool_size stale_threshold_ms now has_machine s d)
        ≤ length d
  unfolding prune_from
  length-prune_from now has_machine s [] = omega arith
  length-prune_from now has_machine s ((id, at) ∷ d) =
      ground (arith, length-prune_from now has_machine s d)

  -- The reservation of a launch that is under way is never pruned.
  lookup-prune_from :
      (now : ℕ) (has_machine : String → Bool) (s : Launches) (d : Dict ℕ) (j : String)
      → includes s.launching j ≡ true
      → lookup j
          (prune_from true max_sessions warm_pool_size stale_threshold_ms now has_machine s d)
        ≡ lookup j d
  unfolding prune_from lookup
  lookup-prune_from now has_machine s [] j h = refl
  lookup-prune_from now has_machine s ((id, at) ∷ d) j h =
      ground (arith, lookup-prune_from now has_machine s d j h, eq_iff id j)

  -- No session is launched without a reservation, and there is room for the sessions and the launches.
  record IsWithin (s : Launches) : Type 0 where
    room : length s.sessions + length s.reservations ≤ max_sessions + warm_pool_size
    ready : s.warm_ready ≤ warm_pool_size
    held : (j : String) → includes s.launching j ≡ true → lookup j s.reservations ≢ none

  settle-IsWithin :
      (id : String) (s : Launches)
      → IsWithin s
      → includes s.launching id ≡ true
      → (n : ℕ) → n ≤ length s.sessions + 1
      → (n + length (erase id s.reservations) ≤ max_sessions + warm_pool_size)
        × ((j : String)
            → includes (remove id s.launching) j ≡ true
            → lookup j (erase id s.reservations) ≢ none)
  settle-IsWithin id s w l n h = (
    omega (arith, length-erase_there id s.reservations (w.held id l), w.room),
    λ j e.
        ground
          (arith, includes-remove id j s.launching, lookup-erase id j s.reservations, w.held j),
  )

  prune-IsWithin :
      (now : ℕ) (has_machine : String → Bool) (s : Launches)
      → IsWithin s
      → IsWithin (
          prune_stale_launch_reservations true max_sessions warm_pool_size stale_threshold_ms now
            has_machine s)
  unfolding prune_stale_launch_reservations
  prune-IsWithin now has_machine s w =
      let kept = lookup-prune_from now has_machine s s.reservations in
      record {
        room = omega (arith, length-prune_from now has_machine s s.reservations, w.room);
        ready = w.ready;
        held = λ j e k. w.held j e (sym (kept j e) ∙ k);
      }

  begin-IsWithin :
      (id : String) (now : ℕ) (has_machine : String → Bool) (s : Launches)
      → IsWithin s
      → IsWithin
          (try_reserve true max_sessions warm_pool_size stale_threshold_ms id now has_machine s).0
  unfolding try_reserve prune_stale_launch_reservations has_launch_capacity
  begin-IsWithin id now has_machine s w =
      let d =
        prune_from true max_sessions warm_pool_size stale_threshold_ms now has_machine s
          s.reservations in
      let shorter = length-prune_from now has_machine s s.reservations in
      let kept = lookup-prune_from now has_machine s s.reservations in
      elim (Bool-cases (ltb (length s.sessions + length d) (max_sessions + s.warm_ready))) [
        | inl t ↦ rw t (record {
          room = ground (arith, length-insert id now d, w.ready);
          ready = w.ready;
          held = λ j e.
              ground
                (arith, includes-add id j s.launching, lookup-insert id j now d, w.held j, kept j);
        })
        | inr t ↦ rw t (prune-IsWithin now has_machine s w)
      ]

  move-IsWithin :
      (m : LaunchMove) (s : Launches)
      → Allowed true max_sessions warm_pool_size stale_threshold_ms m s
      → IsWithin s
      → IsWithin (launch_move true max_sessions warm_pool_size stale_threshold_ms m s)
  unfolding launch_move settle_launch
  move-IsWithin (LaunchMove.begins id now has_machine) s a w = begin-IsWithin id now has_machine s w
  move-IsWithin LaunchMove.claims_warm s a w = record {
    room = w.room;
    ready = omega (arith, w.ready);
    held = w.held;
  }
  move-IsWithin (LaunchMove.succeeds id) s a w =
      let (r, h) =
        settle-IsWithin id s w (a refl) (length (add id s.sessions)) (length-add id s.sessions) in
      record { room = r; ready = w.ready; held = h }
  move-IsWithin (LaunchMove.fails id) s a w =
      let (r, h) = settle-IsWithin id s w (a refl) (length s.sessions) (omega arith) in
      record { room = r; ready = w.ready; held = h }
  move-IsWithin (LaunchMove.terminates id) s a w = record {
    room = omega (arith, length-remove id s.sessions, w.room);
    ready = w.ready;
    held = w.held;
  }
  move-IsWithin LaunchMove.fills_warm s a w = record {
    room = w.room;
    ready = omega arith;
    held = w.held;
  }
  move-IsWithin (LaunchMove.prunes now has_machine) s a w = prune-IsWithin now has_machine s w

  Reachable-IsWithin :
      {s : Launches}
      → LaunchReachable true max_sessions warm_pool_size stale_threshold_ms s
      → IsWithin s
  unfolding idle_launches includes
  Reachable-IsWithin LaunchReachable.start = record {
    room = omega arith;
    ready = omega arith;
    held = λ j e. ground (arith, e);
  }
  Reachable-IsWithin (LaunchReachable.then_move {s} r m a) =
      move-IsWithin m s a (Reachable-IsWithin r)

  -- In the mode of microVMs, where no id is launched again while it is being launched and the warm pool
  -- is not filled above its size: however launches begin, succeed and fail, sessions end, the pool is
  -- filled and claimed and stale reservations are pruned, the sessions and the reservations are together never more than the configured
  -- number of sessions and the size of the warm pool, and every launch that is under way has a
  -- reservation: none is pruned as stale.
  pub launch-within_capacity :
      {s : Launches} (id : String)
      → LaunchReachable true max_sessions warm_pool_size stale_threshold_ms s
      → (length s.sessions + length s.reservations ≤ max_sessions + warm_pool_size)
        × ((includes s.launching id ≡ false) ⊎ (lookup id s.reservations ≢ none))
  launch-within_capacity {s} id r =
      let w = Reachable-IsWithin r in
      (
        w.room,
        elim (Bool-cases (includes s.launching id)) [ inl t ↦ inr (w.held id t) | inr t ↦ inl t ],
      )
