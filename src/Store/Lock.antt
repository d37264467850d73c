-- ===== src/Store/Lock.antt =====
-- The loop of `#withWriteLock` that creates the lock file.
use base_layer.Base.{
  ℕ, ◌+◌, ◌*◌, ◌≤◌, max, ◌↔◌, Option, none, some, List, [], ◌∷◌, Result, ok, err, lock_timeout,
  file_error, leb, if◌then◌else◌, ◌≡◌, ◌≢◌, ◌⊎◌, arith, length,
}

abbrev store_lock_timeout_ms : ℕ
store_lock_timeout_ms = 5000

abbrev store_lock_wait_ms : ℕ
store_lock_wait_ms = 25

-- What one round meets: the file is created, it is there (with the time that the clock then shows),
-- or opening it fails otherwise.
pub data Attempt : Type 0 where
  opened : Attempt
  exists : ℕ → Attempt
  refused : Attempt

-- The loop over the rounds; `none` while it still waits.
unfoldable pub acquire : ℕ → List Attempt → Option (Result (Unit {0}))
acquire started_at [] = none
acquire started_at (Attempt.opened ∷ rest) = some (ok tt)
acquire started_at (Attempt.refused ∷ rest) = some (err file_error)
acquire started_at (Attempt.exists now ∷ rest) =
    let later = acquire started_at rest in
    if leb (started_at + store_lock_timeout_ms) now then some (err lock_timeout) else later

-- The rounds as a clock allows them: a round that finds the file sleeps before the next one, which
-- comes no earlier than `from`.
abbrev pub Paced : ℕ → List Attempt → Type 0
Paced from [] = Unit {0}
Paced from (Attempt.opened ∷ rest) = Unit {0}
Paced from (Attempt.refused ∷ rest) = Unit {0}
Paced from (Attempt.exists now ∷ rest) = (from ≤ now) × Paced (now + store_lock_wait_ms) rest

acquire_bounded :
    (started_at from : ℕ) (attempts : List Attempt)
    → Paced from attempts
    → acquire started_at attempts ≡ none
    → from + store_lock_wait_ms * length attempts ≤ max from (started_at + 5024)
unfolding acquire
acquire_bounded started_at from [] p h = omega arith
acquire_bounded started_at from (Attempt.opened ∷ rest) p h = absurd (ground arith)
acquire_bounded started_at from (Attempt.refused ∷ rest) p h = absurd (ground arith)
acquire_bounded started_at from (Attempt.exists now ∷ rest) p h =
    ground (arith, acquire_bounded started_at (now + 25) rest p.1)

-- A writer waits for the lock through 200 rounds at most: if each round in which the lock file exists
-- is followed by a sleep of 25 ms, the loop has ended, by success or by an error, after any 201.
pub acquire_ends :
    (started_at : ℕ) (attempts : List Attempt)
    → Paced started_at attempts
    → 201 ≤ length attempts
    → acquire started_at attempts ≢ none
acquire_ends started_at attempts p long h =
    omega (arith, acquire_bounded started_at started_at attempts p h)

-- Whether some round so far has met the file at the deadline or later.
abbrev pub Overdue : ℕ → List Attempt → Type 0
Overdue started_at [] = ⊥
Overdue started_at (Attempt.opened ∷ rest) = ⊥
Overdue started_at (Attempt.refused ∷ rest) = ⊥
Overdue started_at (Attempt.exists now ∷ rest) =
    (started_at + store_lock_timeout_ms ≤ now) ⊎ Overdue started_at rest

-- A writer gives up for a timeout exactly when it has met the lock file in every round up to one that
-- is 5 seconds late.
pub acquire_timeout_iff :
    (started_at : ℕ) (attempts : List Attempt)
    → (acquire started_at attempts ≡ some (err lock_timeout)) ↔ Overdue started_at attempts
unfolding acquire
acquire_timeout_iff started_at [] = ground arith
acquire_timeout_iff started_at (Attempt.opened ∷ rest) = ground arith
acquire_timeout_iff started_at (Attempt.refused ∷ rest) = ground arith
acquire_timeout_iff started_at (Attempt.exists now ∷ rest) =
    ground (arith, acquire_timeout_iff started_at rest)
