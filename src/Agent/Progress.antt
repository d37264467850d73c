-- ===== src/Agent/Progress.antt =====
-- Invariants of `AsyncGate` (src/node-agent/agent.ts) on its schedules.
use base_layer.Base.{
  ℕ, ◌+◌, ◌-◌, ◌≤◌, ◌<◌, true, false, List, [], ◌∷◌, ◌≡◌, refl, ap, arith, leb, nat_eq, Bool-cases,
  inl, inr, ◌⊎◌, any, length, length-append,
}
use base_layer.Agent.Gate.{
  AsyncGate, idle_gate, wake, without, Move, acquire, resumed, resume, release, move, Reachable,
  PromptlyReachable,
}

abbrev Accounted : ℕ → AsyncGate → Type 0
Accounted limit g =
    (g.active ≡ length g.holders) × (0 < length g.waiters → limit ≤ g.active + length g.woken)

length-without :
    (ticket : ℕ) (ts : List ℕ)
    → any (λ t. nat_eq t ticket) ts ≡ true
    → length (without ticket ts) + 1 ≡ length ts
unfolding without
length-without ticket [] h = absurd (ground arith)
length-without ticket (t ∷ ts) h = elim (Bool-cases (nat_eq t ticket)) [
  | inl e ↦ rw e (omega arith)
  | inr e ↦ rw e (omega (arith, length-without ticket ts (rw e at h)))
]

module _ (limit : ℕ) where
  acquire-Accounted :
      (t : ℕ) (g : AsyncGate) → Accounted limit g → Accounted limit (acquire limit t g)
  unfolding acquire
  acquire-Accounted t g (own, full) = elim (Bool-cases (leb limit 0)) [
    | inl z ↦ rw z (own, full)
    | inr z ↦ elim (Bool-cases (leb limit g.active)) [
      | inl b ↦ rw (z, b) (own, λ _. ground arith)
      | inr b ↦ rw (z, b) (omega arith, λ w. omega (arith, full w))
    ]
  ]

  resume-Accounted : (g : AsyncGate) → Accounted limit g → Accounted limit (resume limit g)
  unfolding resume
  resume-Accounted g w = go g.active g.waiters g.woken g.holders w
    where
      go :
          (active : ℕ) (waiters woken holders : List ℕ)
          → Accounted limit
              (record { active = active; waiters = waiters; woken = woken; holders = holders })
          → Accounted limit (
              resumed limit woken
                (record { active = active; waiters = waiters; woken = woken; holders = holders }))
      go active waiters [] holders w = w
      go active waiters (t ∷ rest) holders (own, full) = (omega arith, λ k. omega (arith, full k))

  wake-Accounted :
      (g : AsyncGate)
      → (g.active ≡ length g.holders)
      → (0 < length g.waiters → limit ≤ g.active + length g.woken + 1)
      → Accounted limit (wake g.waiters g)
  wake-Accounted g own full = go g.active g.waiters g.woken g.holders own full
    where
      go :
          (active : ℕ) (waiters woken holders : List ℕ)
          → active ≡ length holders
          → (0 < length waiters → limit ≤ active + length woken + 1)
          → Accounted limit (
              wake waiters
                (record { active = active; waiters = waiters; woken = woken; holders = holders }))
      go active [] woken holders own full = (own, λ k. absurd (omega arith))
      go active (t ∷ rest) woken holders own full =
          (own, λ k. omega (arith, full (omega arith), length-append woken (t ∷ [])))

  release-Accounted :
      (t : ℕ) (g : AsyncGate) → Accounted limit g → Accounted limit (release limit t g)
  unfolding release
  release-Accounted t g (own, full) = elim (Bool-cases (any (λ h. nat_eq h t) g.holders)) [
    | inl e ↦ rw e (
        wake-Accounted (record g { active = g.active - 1; holders = without t g.holders })
          (omega (arith, length-without t g.holders e)) (λ k. omega (arith, full k)))
    | inr e ↦ rw e (own, full)
  ]

  Reachable-Accounted : (g : AsyncGate) → Reachable limit g → Accounted limit g
  unfolding move idle_gate
  Reachable-Accounted g Reachable.start = (refl, λ k. absurd (omega arith))
  Reachable-Accounted g (Reachable.then_move r (Move.acquires t)) =
      acquire-Accounted t _ (Reachable-Accounted _ r)
  Reachable-Accounted g (Reachable.then_move r Move.resumes) =
      resume-Accounted _ (Reachable-Accounted _ r)
  Reachable-Accounted g (Reachable.then_move r (Move.releases t)) =
      release-Accounted t _ (Reachable-Accounted _ r)

-- On every schedule, `active` is the number of tickets whose release function has not been called,
-- and no ticket waits while the gate has room for it: the woken and the active tickets fill it.
pub gate-no_lost_wakeup :
    (limit : ℕ) (g : AsyncGate)
    → Reachable limit g
    → (g.active ≡ length g.holders) × ((length g.waiters ≡ 0) ⊎ (limit ≤ g.active + length g.woken))
gate-no_lost_wakeup limit g r =
    let (own, full) = Reachable-Accounted limit g r in
    (
      own,
      elim (Bool-cases (nat_eq (length g.waiters) 0)) [
        | inl e ↦ inl (ground arith)
        | inr e ↦ inr (full (ground arith))
      ],
    )

-- The active and the woken tickets are within the limit.
abbrev pub Within : ℕ → AsyncGate → Type 0
Within limit g = (g.active + length g.woken ≤ limit) × (g.active ≡ length g.holders)

module _ (limit : ℕ) (positive : 0 < limit) where
  acquire-Within :
      (t : ℕ) (g : AsyncGate) → g.woken ≡ [] → Within limit g → Within limit (acquire limit t g)
  unfolding acquire
  acquire-Within t g none_woken (few, own) =
      let z : leb limit 0 ≡ false = ground arith in
      elim (Bool-cases (leb limit g.active)) [
        | inl b ↦ rw (z, b) (few, own)
        | inr b ↦ rw (z, b) (omega (arith, ap length none_woken, few, room _ _ b), omega arith)
      ]
    where
      room : (a b : ℕ) → leb a b ≡ false → b < a
      room a b h = ground arith

  resume-Within : (g : AsyncGate) → Within limit g → Within limit (resume limit g)
  unfolding resume
  resume-Within g w = go g.active g.waiters g.woken g.holders w
    where
      go :
          (active : ℕ) (waiters woken holders : List ℕ)
          → Within limit
              (record { active = active; waiters = waiters; woken = woken; holders = holders })
          → Within limit (
              resumed limit woken
                (record { active = active; waiters = waiters; woken = woken; holders = holders }))
      go active waiters [] holders w = w
      go active waiters (t ∷ rest) holders (few, own) = (omega arith, omega arith)

  release-Within : (t : ℕ) (g : AsyncGate) → Within limit g → Within limit (release limit t g)
  unfolding release
  release-Within t g (few, own) = elim (Bool-cases (any (λ h. nat_eq h t) g.holders)) [
    | inl e ↦ rw e (
        go (g.active - 1) g.waiters g.woken (without t g.holders)
          (omega (arith, length-without t g.holders e))
          (omega (arith, length-without t g.holders e)))
    | inr e ↦ rw e (few, own)
  ]
    where
      go :
          (active : ℕ) (waiters woken holders : List ℕ)
          → active ≡ length holders
          → active + length woken + 1 ≤ limit
          → Within limit (
              wake waiters
                (record { active = active; waiters = waiters; woken = woken; holders = holders }))
      go active [] woken holders own few = (omega arith, own)
      go active (t ∷ rest) woken holders own few =
          (omega (arith, length-append woken (t ∷ [])), own)

  -- Where no `acquire` is called between a release and the next step of the waiter that it wakes, a gate
  -- with a positive limit never has more active tickets than the limit.
  pub gate-Within_limit : (g : AsyncGate) → PromptlyReachable limit g → Within limit g
  unfolding move idle_gate
  gate-Within_limit g PromptlyReachable.start = (omega arith, refl)
  gate-Within_limit g (PromptlyReachable.then_move r (Move.acquires t) p) =
      acquire-Within t _ p (gate-Within_limit _ r)
  gate-Within_limit g (PromptlyReachable.then_move r Move.resumes p) =
      resume-Within _ (gate-Within_limit _ r)
  gate-Within_limit g (PromptlyReachable.then_move r (Move.releases t) p) =
      release-Within t _ (gate-Within_limit _ r)
