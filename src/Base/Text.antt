-- ===== src/Base/Text.antt =====
-- Texts: truthiness, the length in UTF-16 units that JavaScript counts, and `includes`.
use Prim.Native.Nat.{ℕ, ◌+◌}
use Prim.Native.Char.{code}
use Prim.Native.String.{String}
use mathlib.Core.Path.{◌≡◌, sym}
use mathlib.Core.Logic.{◌↔◌, inl, inr}
use mathlib.Core.Bool.{Bool, true, false, not, ◌||◌, ◌&&◌}
use mathlib.Core.Option.{Option, none, some}
use mathlib.Core.List.{List, [], ◌∷◌, Memᴰ}
use native.Mathlib.Omega.{arith}
use text.Mathlib.Text.{◌==◌}
use text.Mathlib.TextEquality.{eq_iff}
use base_layer.Base.Tests.{ltb, leb, nat_eq, if◌then◌else◌, Bool-cases}

-- `s.length`: a character above U+FFFF counts twice.
unfoldable pub utf16_length : String → ℕ
utf16_length String.[] = 0
utf16_length (String.◌∷◌ c s) = (if ltb (code c) 0x10000 then 1 else 2) + utf16_length s

-- The characters as numbers.
abbrev pub codes : String → List ℕ
codes String.[] = []
codes (String.◌∷◌ c s) = code c ∷ codes s

-- `startsWith`, on characters
unfoldable pub starts_with : List ℕ → List ℕ → Bool
starts_with cs [] = true
starts_with [] (w ∷ ws) = false
starts_with (c ∷ cs) (w ∷ ws) = nat_eq c w && starts_with cs ws

-- `z.string().min(lo).max(hi)`
unfoldable pub sized : ℕ → ℕ → String → Bool
unfolding utf16_length
sized lo hi s = leb lo (utf16_length s) && leb (utf16_length s) hi

-- `if (value)` on a text that may be missing: a missing and an empty one are both falsy.
abbrev pub truthy : Option String → Bool
truthy none = false
truthy (some s) = not (s == "")

-- `left === right`, both possibly `undefined`
abbrev pub same_text : Option String → Option String → Bool
same_text none none = true
same_text none (some t) = false
same_text (some s) none = false
same_text (some s) (some t) = s == t

pub same_text_iff : (a b : Option String) → (same_text a b ≡ true) ↔ (a ≡ b)
same_text_iff none none = ground arith
same_text_iff none (some t) = ground arith
same_text_iff (some s) none = ground arith
same_text_iff (some s) (some t) = ground (arith, eq_iff s t)

-- `list.includes(text)`
unfoldable pub includes : List String → String → Bool
includes [] s = false
includes (t ∷ ts) s = t == s || includes ts s

pub includes-mem : (ts : List String) (s : String) → includes ts s ≡ true → Memᴰ s ts
unfolding includes
includes-mem [] s h = absurd (ground arith)
includes-mem (t ∷ ts) s h = elim (Bool-cases (t == s)) [
  | inl e ↦ Memᴰ.head (sym ((eq_iff t s).0 e))
  | inr e ↦ Memᴰ.tail (includes-mem ts s (rw e at h))
]
