-- ===== src/Agent/Overrun.antt =====
-- Schedules of `AsyncGate` (src/node-agent/agent.ts) on which an `acquire` comes before a woken waiter.
use base_layer.Base.{
  ℕ, zero, suc, ◌+◌, ◌-◌, ◌≤◌, ◌<◌, true, false, List, [], ◌∷◌, ◌≡◌, refl, ap, subst, arith, leb,
  nat_eq,
}
use base_layer.Agent.Gate.{
  AsyncGate, idle_gate, without, Move, acquire, resume, release, move, Reachable,
}

abbrev tickets : ℕ → List ℕ
tickets zero = []
tickets (suc n) = n ∷ tickets n

-- A gate with a number of active tickets and no other.
abbrev busy : ℕ → AsyncGate
busy n = record { active = n; waiters = []; woken = []; holders = tickets n }

module _ (limit : ℕ) where
  one_more : (n : ℕ) → n < limit → move limit (Move.acquires n) (busy n) ≡ busy (suc n)
  unfolding move acquire
  one_more n h =
      let z : leb limit 0 ≡ false = ground arith in
      let b : leb limit n ≡ false = ground arith in
      rw (z, b)
        (ap (λ a. record { active = a; waiters = []; woken = []; holders = n ∷ tickets n })
          (omega arith))

  busy-Reachable : (n : ℕ) → n ≤ limit → Reachable limit (busy n)
  unfolding idle_gate
  busy-Reachable zero h = Reachable.start
  busy-Reachable (suc n) h =
      subst (Reachable limit) (one_more n (omega arith))
        (Reachable.then_move (busy-Reachable n (omega arith)) (Move.acquires n))

-- The gate is full and 7 waits; the last ticket is released; 8 calls `acquire` before 7 goes on.
module _ (k : ℕ) where
  abbrev waiting : AsyncGate
  waiting = record { active = suc k; waiters = 7 ∷ []; woken = []; holders = tickets (suc k) }

  abbrev woken : AsyncGate
  woken = record { active = k; waiters = []; woken = 7 ∷ []; holders = tickets k }

  abbrev overtaken : AsyncGate
  overtaken = record { active = suc k; waiters = []; woken = 7 ∷ []; holders = 8 ∷ tickets k }

  positive : leb (suc k) 0 ≡ false
  positive = ground arith

  waits : move (suc k) (Move.acquires 7) (busy (suc k)) ≡ waiting
  unfolding move acquire
  waits = let b : leb (suc k) (suc k) ≡ true = ground arith in rw (positive, b)

  wakes : move (suc k) (Move.releases k) waiting ≡ woken
  unfolding move release without
  wakes =
      let e : nat_eq k k ≡ true = ground arith in let d : suc k - 1 ≡ k = omega arith in rw (e, d)

  overtakes : move (suc k) (Move.acquires 8) woken ≡ overtaken
  unfolding move acquire
  overtakes =
      let b : leb (suc k) k ≡ false = ground arith in
      let d : k + 1 ≡ suc k = omega arith in rw (positive, b, d)

  overtaken-Reachable : Reachable (suc k) overtaken
  overtaken-Reachable = subst (Reachable (suc k)) overtakes (
      Reachable.then_move
        (subst (Reachable (suc k)) wakes (
          Reachable.then_move
            (subst (Reachable (suc k)) waits (
              Reachable.then_move (busy-Reachable (suc k) (suc k) (omega arith)) (Move.acquires 7)))
            (Move.releases k)))
        (Move.acquires 8))

-- For every positive limit some schedule makes one ticket more active than the limit: an `acquire`
-- that is called between a release and the next step of the waiter that it wakes overtakes it, and both
-- go on.
pub gate-overrun :
    (limit : ℕ) → 0 < limit → (g : AsyncGate) × Reachable limit g × (g.active ≡ limit + 1)
unfolding move resume
gate-overrun zero h = absurd (omega arith)
gate-overrun (suc k) h = (
  move (suc k) Move.resumes (overtaken k),
  Reachable.then_move (overtaken-Reachable k) Move.resumes,
  refl,
)
