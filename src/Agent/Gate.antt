-- ===== src/Agent/Gate.antt =====
-- `AsyncGate`. A caller is a ticket. Between the release that resolves a waiter's promise and the
-- waiter's next step other code may run, so a woken ticket is neither waiting nor active.
use base_layer.Base.{ℕ, ◌+◌, ◌-◌, List, [], ◌∷◌, ◌++◌, ◌≡◌, leb, nat_eq, if◌then◌else◌, any}

pub record AsyncGate : Type 0 where
  pub active : ℕ
  pub waiters : List ℕ
  pub woken : List ℕ
  -- The tickets whose release function has not been called.
  pub holders : List ℕ

unfoldable pub idle_gate : AsyncGate
idle_gate = record { active = 0; waiters = []; woken = []; holders = [] }

abbrev pub enter : ℕ → AsyncGate → AsyncGate
enter ticket gate = record gate { active = gate.active + 1; holders = ticket ∷ gate.holders }

-- `this.#waiters.shift()?.()`
abbrev pub wake : List ℕ → AsyncGate → AsyncGate
wake [] gate = gate
wake (ticket ∷ rest) gate = record gate { waiters = rest; woken = gate.woken ++ (ticket ∷ []) }

unfoldable pub without : ℕ → List ℕ → List ℕ
without ticket [] = []
without ticket (t ∷ ts) = let rest = without ticket ts in if nat_eq t ticket then ts else t ∷ rest

-- What the program may do next: call `acquire`, go on in a woken `acquire`, call a release function.
pub data Move : Type 0 where
  acquires : ℕ → Move
  resumes : Move
  releases : ℕ → Move

module _ (limit : ℕ) where
  -- `acquire`, up to its wait
  unfoldable pub acquire : ℕ → AsyncGate → AsyncGate
  acquire ticket gate =
      if leb limit 0
      then gate
      else if leb limit gate.active
      then record gate { waiters = gate.waiters ++ (ticket ∷ []) }
      else enter ticket gate

  -- The woken `acquire` that was resolved first goes on.
  abbrev pub resumed : List ℕ → AsyncGate → AsyncGate
  resumed [] gate = gate
  resumed (ticket ∷ rest) gate = enter ticket (record gate { woken = rest })

  unfoldable pub resume : AsyncGate → AsyncGate
  resume gate = resumed gate.woken gate

  -- The release function of a ticket
  unfoldable pub release : ℕ → AsyncGate → AsyncGate
  unfolding without
  release ticket gate =
      if any (λ t. nat_eq t ticket) gate.holders
      then wake gate.waiters
          (record gate { active = gate.active - 1; holders = without ticket gate.holders })
      else gate

  unfoldable pub move : Move → AsyncGate → AsyncGate
  unfolding acquire resume release
  move (Move.acquires ticket) gate = acquire ticket gate
  move Move.resumes gate = resume gate
  move (Move.releases ticket) gate = release ticket gate

  -- The gates that some schedule leads to.
  pub data Reachable : AsyncGate → Type 0 where
    start : Reachable idle_gate
    then_move : {gate : AsyncGate} → Reachable gate → (m : Move) → Reachable (move m gate)

  abbrev pub Prompt : Move → AsyncGate → Type 0
  Prompt (Move.acquires ticket) gate = gate.woken ≡ []
  Prompt m gate = Unit {0}

  -- The gates that are led to where no `acquire` is called while a woken one has yet to go on.
  pub data PromptlyReachable : AsyncGate → Type 0 where
    start : PromptlyReachable idle_gate
    then_move :
        {gate : AsyncGate}
        → PromptlyReachable gate
        → (m : Move) → Prompt m gate
        → PromptlyReachable (move m gate)
