-- ===== src/Types/Platform.antt =====
-- What the program takes from its platform and from zod: collation, floating-point rounding, and the
-- tests of URLs and UUIDs. Each is a parameter of the model.
use base_layer.Base.{ℕ, String}
use base_layer.Base.Int.{ℤ}
use base_layer.Types.Schema.{Formats}

pub record Platform : Type 0 where
  -- `left.localeCompare(right)`
  pub locale_compare : String → String → ℤ
  -- `Math.round((part / whole) * 100)`, in double arithmetic
  pub percent : ℕ → ℕ → ℕ
  pub formats : Formats
