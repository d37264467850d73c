-- ===== src/Firecracker/Machines/Reconcile.antt =====
-- Which sessions the reconciliation ends.
use base_layer.Base.{
  ℕ, Bool, true, false, ◌&&◌, ◌||◌, not, Option, none, some, List, [], ◌∷◌, ◌++◌, String, ◌==◌, ◌≡◌,
  refl, sym, ap, ◌∙◌, arith, includes, if◌then◌else◌, Bool-cases, inl, inr, eq_iff, Memᴰ, filter,
  map,
}
use base_layer.Base.Dict.{Dict, lookup, lookup-insert, lookup-erase}
use base_layer.Base.Sets.{includes-append}
use base_layer.Firecracker.Machines.{
  Machines, session_ids, forget_warm, forget_session, destroy, restored, terminate_machine,
  terminate_session, terminate_all, reconcile_tracked_sessions, tracked_ids,
}

terminate-lookup :
    (x id : String) (m : Machines)
    → lookup id (terminate_session x m).sessions ≡ (if x == id then none else lookup id m.sessions)
unfolding terminate_session forget_warm forget_session destroy
terminate-lookup x id m = go (lookup x m.sessions) refl
  where
    go :
        (o : Option ℕ)
        → lookup x m.sessions ≡ o
        → lookup id (terminate_machine x o m).sessions
          ≡ (if x == id then none else lookup id m.sessions)
    go none e = elim (Bool-cases (x == id)) [
      | inl t ↦ rw t (rw (← (eq_iff x id).0 t) e)
      | inr t ↦ rw t
    ]
    go (some machine) e = lookup-erase x id m.sessions

terminate_all-lookup :
    (xs : List String) (id : String) (m : Machines)
    → lookup id (terminate_all xs m).sessions
      ≡ (if includes xs id then none else lookup id m.sessions)
unfolding includes
terminate_all-lookup [] id m = refl
terminate_all-lookup (x ∷ xs) id m =
    terminate_all-lookup xs id (terminate_session x m)
    ∙ ap (λ o. if includes xs id then none else o) (terminate-lookup x id m)
    ∙ nested (x == id) (includes xs id) (lookup id m.sessions)
  where
    nested :
        (a b : Bool) (o : Option ℕ)
        → (if b then none else (if a then none else o)) ≡ (if a || b then none else o)
    nested a b o = ground arith

includes-filter_ids :
    (p : String → Bool) (xs : List String) (id : String)
    → includes (filter p xs) id ≡ (p id && includes xs id)
unfolding includes
includes-filter_ids p [] id = ground arith
includes-filter_ids p (x ∷ xs) id =
    ground (arith, includes-filter_ids p xs id, eq_iff x id, ap p {x = x} {y = id})

missing-lookup :
    (d : Dict ℕ) (id : String) → includes (map (λ e. e.0) d) id ≡ false → lookup id d ≡ none
unfolding includes lookup
missing-lookup [] id h = refl
missing-lookup ((j, x) ∷ d) id h = ground (arith, missing-lookup d id)

found-includes :
    (d : Dict ℕ) (id : String) {x : ℕ}
    → lookup id d ≡ some x
    → includes (map (λ e. e.0) d) id ≡ true
found-includes d id {x} h = elim (Bool-cases (includes (map (λ e. e.0) d) id)) [
  | inl t ↦ t
  | inr t ↦ absurd (clash (sym (missing-lookup d id t) ∙ h))
]
  where
    clash : ◌≡◌ {A = Option ℕ} none (some x) → ⊥
    clash e = ground arith

-- The reconciliation ends the sessions that are neither tracked nor warm, and no other.
pub reconcile_tracked_sessions-lookup :
    (tracked : List String) (m : Machines) (id : String)
    → lookup id (reconcile_tracked_sessions tracked m).sessions
      ≡ (if includes tracked id || includes m.warm_ids id then lookup id m.sessions else none)
unfolding reconcile_tracked_sessions session_ids
reconcile_tracked_sessions-lookup tracked m id =
    let keeps : String → Bool = λ i. not (includes tracked i) && not (includes m.warm_ids i) in
    terminate_all-lookup (filter keeps (map (λ e. e.0) m.sessions)) id m
    ∙ ground (
      arith,
      includes-filter_ids keeps (map (λ e. e.0) m.sessions) id,
      missing-lookup m.sessions id,
    )

terminate-destroyed :
    (x : String) (m : Machines) (o : Option ℕ) {machine : ℕ}
    → Memᴰ machine m.destroyed
    → Memᴰ machine (terminate_machine x o m).destroyed
unfolding forget_warm forget_session destroy
terminate-destroyed x m none h = h
terminate-destroyed x m (some y) h = Memᴰ.tail h

destroyed-kept :
    (xs : List String) (m : Machines) {machine : ℕ}
    → Memᴰ machine m.destroyed
    → Memᴰ machine (terminate_all xs m).destroyed
unfolding terminate_session
destroyed-kept [] m h = h
destroyed-kept (x ∷ xs) m h =
    destroyed-kept xs (terminate_session x m) (terminate-destroyed x m (lookup x m.sessions) h)

terminate_all-destroyed :
    (xs : List String) (id : String) (m : Machines) {machine : ℕ}
    → includes xs id ≡ true
    → lookup id m.sessions ≡ some machine
    → Memᴰ machine (terminate_all xs m).destroyed
unfolding includes terminate_session forget_warm forget_session destroy
terminate_all-destroyed [] id m h e = absurd (ground arith)
terminate_all-destroyed (x ∷ xs) id m {machine} h e = elim (Bool-cases (x == id)) [
  | inl t ↦
      let there : lookup x m.sessions ≡ some machine = rw ((eq_iff x id).0 t) e in
      destroyed-kept xs (terminate_session x m) (rw there (Memᴰ.head refl))
  | inr t ↦
      terminate_all-destroyed xs id (terminate_session x m) (rw t at h)
        (terminate-lookup x id m ∙ rw t e)
]

-- A launch puts its machine into the orchestrator's table before the agent has the session in its own. A
-- reconciliation that comes in between, with the agent's sessions and its warm pool as the tracked ones,
-- takes the session away and destroys the machine of the launch.
pub reconcile_tracked_sessions-drops_launch :
    (agent_sessions warm_pool_ids : List String) (id : String) (machine : ℕ) (m : Machines)
    → includes agent_sessions id ≡ false
    → includes warm_pool_ids id ≡ false
    → includes m.warm_ids id ≡ false
    → (lookup id
          (reconcile_tracked_sessions
            (tracked_ids agent_sessions warm_pool_ids)
            (restored id machine m)).sessions
        ≡ none)
      × Memᴰ machine
          (reconcile_tracked_sessions
            (tracked_ids agent_sessions warm_pool_ids)
            (restored id machine m)).destroyed
unfolding restored tracked_ids reconcile_tracked_sessions session_ids
reconcile_tracked_sessions-drops_launch agent_sessions warm_pool_ids id machine m a b c =
    let tracked = agent_sessions ++ warm_pool_ids in
    let untracked : includes tracked id ≡ false =
      includes-append agent_sessions warm_pool_ids id ∙ rw (a, b) in
    let after = restored id machine m in
    let there : lookup id after.sessions ≡ some machine =
      lookup-insert id id machine m.sessions ∙ rw ((eq_iff id id).1 refl) in
    let keeps : String → Bool = λ i. not (includes tracked i) && not (includes m.warm_ids i) in
    (
      reconcile_tracked_sessions-lookup tracked after id ∙ rw (untracked, c),
      terminate_all-destroyed (filter keeps (map (λ e. e.0) after.sessions)) id after
          (includes-filter_ids keeps (map (λ e. e.0) after.sessions) id
            ∙ rw (untracked, c, found-includes after.sessions id there))
          there,
    )
