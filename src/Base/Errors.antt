-- ===== src/Base/Errors.antt =====
-- Exceptions as values: a call returns its result or the error that it throws.
use Prim.Native.String.{String}
use mathlib.Core.Path.{◌≡◌, refl}
use mathlib.Core.Logic.{◌⊎◌, inl, inr}
use native.Mathlib.Omega.{arith}

-- The classes of error that a caller tells apart: `SchedulerError`, zod's, those of `JSON.parse`
-- and of the file system, and a plain `Error` with its message.
pub data Error : Type 0 where
  scheduler_error : Error
  zod_error : Error
  syntax_error : Error
  file_error : Error
  lock_timeout : Error
  remote_timeout : Error
  remote_error : Error
  message : String → Error

-- What a call does: it throws, or it returns a value.
pub data Result {ℓ} (V : Type ℓ) : Type ℓ where
  err : (thrown : Error) → Result V
  ok : (returned : V) → Result V

infixl 5 ◌>>=◌ ◌>>◌
-- A step after another: what the first throws, the whole throws.
abbrev pub ◌>>=◌ {ℓ₁ ℓ₂} :
    {V : Type ℓ₁} {W : Type ℓ₂} (first : Result V) (next : V → Result W) → Result W
err thrown >>= next = err thrown
ok returned >>= next = next returned

abbrev pub ◌>>◌ {ℓ} : {W : Type ℓ} (first : Result (Unit {0})) (second : Result W) → Result W
first >> second = first >>= (λ _. second)

-- A chain that returns has a first step that returns, and goes on from its value.
pub bind-eq-ok {ℓ₁ ℓ₂} :
    {V : Type ℓ₁} {W : Type ℓ₂} (first : Result V) (next : V → Result W) {out : W}
    → (first >>= next) ≡ ok out
    → (v : V) × (first ≡ ok v) × (next v ≡ ok out)
bind-eq-ok (err thrown) next whole = absurd (ground arith)
bind-eq-ok (ok returned) next whole = (returned, refl, whole)

pub Result-cases {ℓ} :
    {A : Type ℓ} (r : Result A) → ((a : A) × (r ≡ ok a)) ⊎ ((e : Error) × (r ≡ err e))
Result-cases (ok a) = inl (a, refl)
Result-cases (err e) = inr (e, refl)
