-- ===== src/Agent/Crashes.antt =====
-- `#recordCrash` and `#countCrashes` of src/node-agent/agent.ts.
use base_layer.Base.{ℕ, ◌-◌, ◌&&◌, not, List, [], ◌∷◌, ◌++◌, ltb, leb, if◌then◌else◌, nat_eq, count}

abbrev five_minutes_ms : ℕ
five_minutes_ms = 300000

-- The loop of `#recordCrash`: an event at time 0 is falsy and ends it.
unfoldable pub shift_old : ℕ → List ℕ → List ℕ
shift_old cutoff [] = []
shift_old cutoff (event ∷ rest) =
    let later = shift_old cutoff rest in
    if not (nat_eq event 0) && ltb event cutoff then later else event ∷ rest

unfoldable pub record_crash : ℕ → List ℕ → List ℕ
unfolding shift_old
record_crash now events = shift_old (now - five_minutes_ms) (events ++ (now ∷ []))

unfoldable pub count_crashes : ℕ → List ℕ → ℕ
count_crashes since events = count (λ event. leb since event) events
