-- ===== src/Firecracker/Machines.antt =====
-- The orchestrator's tables of machines: which session has which machine, and which sessions are warm. A
-- machine is a number, its handle; its process, its slot and its files are not modelled. A method that
-- awaits is two moves: what it does up to its wait, and what follows when that ends one way or the other.
pub mod Warm
pub mod Probe
pub mod Reconcile
mod Tests
use base_layer.Base.{
  ℕ, ◌+◌, ◌-◌, Bool, true, false, ◌&&◌, ◌||◌, not, Option, none, some, List, [], ◌∷◌, ◌++◌, String,
  ◌==◌, max, ltb, filter, includes, length, map, if◌then◌else◌, truthy, same_text,
}
use base_layer.Base.Dict.{Dict, lookup, insert, erase}
use base_layer.Base.Sets.{add, remove}
use base_layer.Types.{SessionActivityState, launching, interactive_idle}

pub record Machines : Type 0 where
  -- `#sessions`
  pub sessions : Dict ℕ
  -- the activity of each entry of `#schedulerStates`
  pub activities : Dict SessionActivityState
  -- `#warmSessionIds`, `#warmSessionProfiles` and `#warmSessionLastProbeAt`
  pub warm_ids : List String
  pub warm_profiles : Dict String
  pub last_probe_at : Dict ℕ
  -- the machines that `#destroyMachine` has been called for
  pub destroyed : List ℕ

unfoldable pub no_machines : Machines
no_machines = record {
  sessions = [];
  activities = [];
  warm_ids = [];
  warm_profiles = [];
  last_probe_at = [];
  destroyed = [];
}

-- `runtimeProfile ? profiles.get(id) === runtimeProfile : true`
abbrev pub in_profile : Option String → Dict String → String → Bool
in_profile profile profiles id =
    if truthy profile then same_text (lookup id profiles) profile else true

unfoldable pub warm_session_ids : Option String → Machines → List String
warm_session_ids profile m = filter (in_profile profile m.warm_profiles) m.warm_ids

unfoldable pub warm_ready_count : Option String → Machines → ℕ
warm_ready_count profile m =
    if truthy profile
    then length (filter (λ id. same_text (lookup id m.warm_profiles) profile) m.warm_ids)
    else length m.warm_ids

unfoldable pub session_ids : Machines → List String
session_ids m = map (λ e. e.0) m.sessions

-- `alive` says whether a machine's process has neither an exit code nor a signal.
abbrev pub machine_alive : (ℕ → Bool) → Option ℕ → Bool
machine_alive alive none = false
machine_alive alive (some machine) = alive machine

unfoldable pub has_session : (ℕ → Bool) → String → Machines → Bool
has_session alive id m = machine_alive alive (lookup id m.sessions)

-- The deletions from the three tables of warm sessions.
unfoldable pub forget_warm : String → Machines → Machines
forget_warm id m = record m {
  warm_ids = remove id m.warm_ids;
  warm_profiles = erase id m.warm_profiles;
  last_probe_at = erase id m.last_probe_at;
}

unfoldable pub forget_session : String → Machines → Machines
forget_session id m = record m {
  sessions = erase id m.sessions;
  activities = erase id m.activities;
}

unfoldable pub destroy : ℕ → Machines → Machines
destroy machine m = record m { destroyed = machine ∷ m.destroyed }

-- `restoreSession` has put the machine into `#sessions`.
unfoldable pub restored : String → ℕ → Machines → Machines
restored id machine m = record m {
  sessions = insert id machine m.sessions;
  activities = insert id launching m.activities;
}

-- `prepareWarmSession` behind the verification of its machine: that succeeds, or throws.
unfoldable pub warm_prepared : String → String → ℕ → Machines → Machines
warm_prepared id profile now m = record m {
  activities = insert id interactive_idle m.activities;
  warm_ids = add id m.warm_ids;
  warm_profiles = insert id profile m.warm_profiles;
  last_probe_at = insert id now m.last_probe_at;
}

unfoldable pub warm_refused : String → ℕ → Machines → Machines
unfolding forget_session destroy
warm_refused id machine m =
    destroy machine (record (forget_session id m) { last_probe_at = erase id m.last_probe_at })

abbrev pub moved_activity :
    Option SessionActivityState → String → Dict SessionActivityState → Dict SessionActivityState
moved_activity none id activities = activities
moved_activity (some activity) id activities = insert id activity activities

-- `claimWarmSession` up to its verification: the machine that is to be verified, if any.
abbrev pub claim_machine : Bool → String → String → Option ℕ → Machines → Machines × Option ℕ
claim_machine live warm_id id none m = (
  record m { warm_ids = remove warm_id m.warm_ids; warm_profiles = erase warm_id m.warm_profiles },
  none,
)
claim_machine false warm_id id (some machine) m = (
  destroy machine (
      forget_session warm_id (record m {
        warm_ids = remove warm_id m.warm_ids;
        warm_profiles = erase warm_id m.warm_profiles;
      })),
  none,
)
claim_machine true warm_id id (some machine) m =
    let left = forget_session warm_id (forget_warm warm_id m) in
    (
      record left {
        sessions = insert id machine left.sessions;
        activities =
            insert id launching (moved_activity (lookup warm_id m.activities) id left.activities);
      },
      some machine,
    )

unfoldable pub claim_warm_session : (ℕ → Bool) → String → String → Machines → Machines × Option ℕ
unfolding forget_warm forget_session destroy has_session
claim_warm_session alive warm_id id m =
    if includes m.warm_ids warm_id
    then claim_machine (has_session alive warm_id m) warm_id id (lookup warm_id m.sessions) m
    else (m, none)

-- The verification of a claimed machine throws.
unfoldable pub claim_refused : String → ℕ → Machines → Machines
unfolding forget_session destroy
claim_refused id machine m =
    destroy machine (record (forget_session id m) { last_probe_at = erase id m.last_probe_at })

abbrev pub terminate_machine : String → Option ℕ → Machines → Machines
terminate_machine id none m = m
terminate_machine id (some machine) m = destroy machine (forget_session id (forget_warm id m))

-- `terminateSession` and `destroyMachine`
unfoldable pub terminate_session : String → Machines → Machines
unfolding forget_warm forget_session destroy
terminate_session id m = terminate_machine id (lookup id m.sessions) m

abbrev pub terminate_all : List String → Machines → Machines
terminate_all [] m = m
terminate_all (id ∷ rest) m = terminate_all rest (terminate_session id m)

-- `reconcileTrackedSessions`
unfoldable pub reconcile_tracked_sessions : List String → Machines → Machines
unfolding terminate_session session_ids
reconcile_tracked_sessions tracked m =
    terminate_all
      (filter (λ id. not (includes tracked id) && not (includes m.warm_ids id)) (session_ids m)) m

abbrev pub probe_time : Option ℕ → ℕ
probe_time none = 0
probe_time (some at) = at

abbrev pub probe_machine : ℕ → String → Option ℕ → Machines → Machines × Option ℕ
probe_machine now id none m = (forget_warm id m, none)
probe_machine now id (some machine) m =
    (record m { last_probe_at = insert id now m.last_probe_at }, some machine)

-- One round of `revalidateWarmSessions` up to its probe: the machine that is probed, if any.
unfoldable pub probe_warm : ℕ → ℕ → String → Machines → Machines × Option ℕ
unfolding forget_warm
probe_warm interval now id m =
    if ltb (now - probe_time (lookup id m.last_probe_at)) (max 250 interval)
    then (m, none)
    else probe_machine now id (lookup id m.sessions) m

-- The probe throws.
unfoldable pub probe_failed : String → ℕ → Machines → Machines
unfolding forget_warm forget_session destroy
probe_failed id machine m = destroy machine (forget_session id (forget_warm id m))

-- What `monitorSessions` of src/node-agent/agent.ts calls tracked: its own sessions and its warm pool.
unfoldable pub tracked_ids : List String → List String → List String
tracked_ids agent_sessions warm_pool_ids = agent_sessions ++ warm_pool_ids
