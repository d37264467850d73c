-- ===== src/Base/Sort.antt =====
-- `Array.prototype.sort`: a stable sort by a comparator that returns a signed number, modelled by
-- insertion. An element goes before the first later one that the comparator does not put first.
pub mod Order
use mathlib.Core.Path.{◌≡◌, refl}
use mathlib.Core.Bool.{Bool}
use mathlib.Core.Logic.{inl, inr}
use mathlib.Core.List.{List, [], ◌∷◌, Memᴰ}
use native.Mathlib.Omega.{arith}
use base_layer.Base.Tests.{if◌then◌else◌, Bool-cases, leb}
use base_layer.Base.Lists.{count}
use base_layer.Base.Int.{ℤ, pos_part, neg_part}

-- `comparator(a, b) <= 0`
abbrev pub not_after {ℓ} : {A : Type ℓ} → (A → A → ℤ) → A → A → Bool
not_after cmp a b = leb (pos_part (cmp a b)) (neg_part (cmp a b))

module _ {ℓ} {A : Type ℓ} (cmp : A → A → ℤ) where
  unfoldable pub insert_sorted : A → List A → List A
  insert_sorted x [] = x ∷ []
  insert_sorted x (y ∷ ys) =
      let rest = insert_sorted x ys in if not_after cmp x y then x ∷ y ∷ ys else y ∷ rest

  unfoldable pub sort : List A → List A
  unfolding insert_sorted
  sort [] = []
  sort (x ∷ xs) = insert_sorted x (sort xs)

  pub insert_sorted-mem :
      (x : A) (ys : List A) {a : A} → Memᴰ a (x ∷ ys) → Memᴰ a (insert_sorted x ys)
  unfolding insert_sorted
  insert_sorted-mem x [] m = m
  insert_sorted-mem x (y ∷ ys) m = elim (Bool-cases (not_after cmp x y)) [
    | inl e ↦ rw e m
    | inr e ↦ rw e (down m (insert_sorted-mem x ys))
  ]
    where
      down :
          {a : A}
          → Memᴰ a (x ∷ y ∷ ys)
          → (Memᴰ a (x ∷ ys) → Memᴰ a (insert_sorted x ys))
          → Memᴰ a (y ∷ insert_sorted x ys)
      down (Memᴰ.head e) rec = Memᴰ.tail (rec (Memᴰ.head e))
      down (Memᴰ.tail (Memᴰ.head e)) rec = Memᴰ.head e
      down (Memᴰ.tail (Memᴰ.tail m)) rec = Memᴰ.tail (rec (Memᴰ.tail m))

  pub mem-insert_sorted :
      (x : A) (ys : List A) {a : A} → Memᴰ a (insert_sorted x ys) → Memᴰ a (x ∷ ys)
  unfolding insert_sorted
  mem-insert_sorted x [] m = m
  mem-insert_sorted x (y ∷ ys) m = elim (Bool-cases (not_after cmp x y)) [
    | inl e ↦ rw (e, insert_sorted) at m
    | inr e ↦ up (rw (e, insert_sorted) at m) (mem-insert_sorted x ys)
  ]
    where
      up :
          {a : A}
          → Memᴰ a (y ∷ insert_sorted x ys)
          → (Memᴰ a (insert_sorted x ys) → Memᴰ a (x ∷ ys))
          → Memᴰ a (x ∷ y ∷ ys)
      up (Memᴰ.head e) rec = Memᴰ.tail (Memᴰ.head e)
      up (Memᴰ.tail m) rec = swap (rec m)
        where
          swap : {a : A} → Memᴰ a (x ∷ ys) → Memᴰ a (x ∷ y ∷ ys)
          swap (Memᴰ.head e) = Memᴰ.head e
          swap (Memᴰ.tail m) = Memᴰ.tail (Memᴰ.tail m)

  pub sort-mem : (xs : List A) {a : A} → Memᴰ a xs → Memᴰ a (sort xs)
  unfolding sort
  sort-mem [] m = elim m [ ]
  sort-mem (x ∷ xs) (Memᴰ.head e) = insert_sorted-mem x (sort xs) (Memᴰ.head e)
  sort-mem (x ∷ xs) (Memᴰ.tail m) = insert_sorted-mem x (sort xs) (Memᴰ.tail (sort-mem xs m))

  pub mem-sort : (xs : List A) {a : A} → Memᴰ a (sort xs) → Memᴰ a xs
  unfolding sort
  mem-sort [] m = elim m [ ]
  mem-sort (x ∷ xs) m = cases (mem-insert_sorted x (sort xs) m) (mem-sort xs)
    where
      cases : {a : A} → Memᴰ a (x ∷ sort xs) → (Memᴰ a (sort xs) → Memᴰ a xs) → Memᴰ a (x ∷ xs)
      cases (Memᴰ.head e) rec = Memᴰ.head e
      cases (Memᴰ.tail m) rec = Memᴰ.tail (rec m)

  count-insert_sorted :
      (p : A → Bool) (x : A) (ys : List A) → count p (insert_sorted x ys) ≡ count p (x ∷ ys)
  unfolding insert_sorted
  count-insert_sorted p x [] = refl
  count-insert_sorted p x (y ∷ ys) = ground (arith, count-insert_sorted p x ys)

  -- Sorting keeps how many elements pass a test.
  pub count-sort : (p : A → Bool) (xs : List A) → count p (sort xs) ≡ count p xs
  unfolding sort
  count-sort p [] = refl
  count-sort p (x ∷ xs) = omega (arith, count-insert_sorted p x (sort xs), count-sort p xs)
