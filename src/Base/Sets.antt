-- ===== src/Base/Sets.antt =====
-- A JavaScript `Set` of texts, as the list of its elements in the order of insertion.
use Prim.Native.Nat.{◌+◌, ◌≤◌}
use Prim.Native.String.{String}
use mathlib.Core.Path.{◌≡◌, refl, sym, ap, ◌∙◌}
use mathlib.Core.Bool.{true, false, ◌||◌}
use mathlib.Core.Logic.{inl, inr}
use mathlib.Core.List.{List, [], ◌∷◌, ◌++◌}
use native.Mathlib.Omega.{arith}
use text.Mathlib.Text.{◌==◌}
use text.Mathlib.TextEquality.{eq_iff}
use base_layer.Base.Tests.{if◌then◌else◌, Bool-cases}
use base_layer.Base.Lists.{length, length-append}
use base_layer.Base.Text.{includes}

-- `set.add(id)`
abbrev pub add : String → List String → List String
add id ids = if includes ids id then ids else ids ++ (id ∷ [])

-- `set.delete(id)`
unfoldable pub remove : String → List String → List String
remove id [] = []
remove id (x ∷ ids) = let rest = remove id ids in if x == id then rest else x ∷ rest

pub length-remove : (id : String) (ids : List String) → length (remove id ids) ≤ length ids
unfolding remove
length-remove id [] = omega arith
length-remove id (x ∷ ids) = ground (arith, length-remove id ids)

pub length-add : (id : String) (ids : List String) → length (add id ids) ≤ length ids + 1
length-add id ids = ground (arith, length-append ids (id ∷ []))

pub includes-append :
    (xs ys : List String) (j : String) → includes (xs ++ ys) j ≡ (includes xs j || includes ys j)
unfolding includes
includes-append [] ys j = refl
includes-append (x ∷ xs) ys j = ground (arith, includes-append xs ys j)

pub includes-add :
    (id j : String) (ids : List String) → includes (add id ids) j ≡ (includes ids j || id == j)
unfolding includes
includes-add id j ids = elim (Bool-cases (includes ids id)) [
  | inl t ↦ rw t (elim (Bool-cases (id == j)) [
    | inl same ↦
        let e : includes ids j ≡ true = ap (includes ids) (sym ((eq_iff id j).0 same)) ∙ t in
        rw (same, e)
    | inr other ↦ rw other (ground arith)
  ])
  | inr t ↦ rw t (includes-append ids (id ∷ []) j ∙ ground arith)
]

pub includes-remove :
    (id j : String) (ids : List String)
    → includes (remove id ids) j ≡ (if id == j then false else includes ids j)
unfolding remove includes
includes-remove id j [] = ground arith
includes-remove id j (x ∷ ids) =
    ground (arith, includes-remove id j ids, eq_iff id j, eq_iff x id, eq_iff x j)
