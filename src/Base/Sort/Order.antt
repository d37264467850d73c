-- ===== src/Base/Sort/Order.antt =====
-- The result of a sort is in order, where the comparator is a total preorder.
use mathlib.Core.Path.{◌≡◌, refl, subst}
use mathlib.Core.Bool.{true, false}
use mathlib.Core.Logic.{inl, inr}
use mathlib.Core.List.{List, [], ◌∷◌, Memᴰ}
use base_layer.Base.Tests.{Bool-cases}
use base_layer.Base.Int.{ℤ}
use base_layer.Base.Sort.{not_after, insert_sorted, sort, mem-insert_sorted, mem-sort, sort-mem}

module _ {ℓ} {A : Type ℓ} (cmp : A → A → ℤ) where
  -- Every element comes no later than those behind it.
  abbrev pub IsSorted : List A → Type ℓ
  IsSorted [] = Unit
  IsSorted (x ∷ xs) = ((y : A) → Memᴰ y xs → not_after cmp x y ≡ true) × IsSorted xs

  pub record IsOrder : Type ℓ where
    pub trans :
        (a b c : A) → not_after cmp a b ≡ true → not_after cmp b c ≡ true → not_after cmp a c ≡ true
    pub total : (a b : A) → not_after cmp a b ≡ false → not_after cmp b a ≡ true

module _ {ℓ} {A : Type ℓ} {cmp : A → A → ℤ} (order : IsOrder cmp) where
  below_cons :
      (x y : A) (ys : List A)
      → not_after cmp x y ≡ true
      → ((z : A) → Memᴰ z ys → not_after cmp y z ≡ true)
      → (z : A) → Memᴰ z (y ∷ ys)
      → not_after cmp x z ≡ true
  below_cons x y ys e low z (Memᴰ.head same) = rw same e
  below_cons x y ys e low z (Memᴰ.tail m) = order.trans x y z e (low z m)

  below_inserted :
      (x y : A) (ys : List A)
      → not_after cmp y x ≡ true
      → ((z : A) → Memᴰ z ys → not_after cmp y z ≡ true)
      → (z : A) → Memᴰ z (x ∷ ys)
      → not_after cmp y z ≡ true
  below_inserted x y ys e low z (Memᴰ.head same) = rw same e
  below_inserted x y ys e low z (Memᴰ.tail m) = low z m

  insert_sorted-IsSorted :
      (x : A) (ys : List A) → IsSorted cmp ys → IsSorted cmp (insert_sorted cmp x ys)
  unfolding insert_sorted
  insert_sorted-IsSorted x [] s = (λ y m. elim m [ ], tt)
  insert_sorted-IsSorted x (y ∷ ys) (low, s) = elim (Bool-cases (not_after cmp x y)) [
    | inl e ↦ rw e (below_cons x y ys e low, (low, s))
    | inr e ↦ rw e (
      λ z m. below_inserted x y ys (order.total x y e) low z (mem-insert_sorted cmp x ys m),
      insert_sorted-IsSorted x ys s,
    )
  ]

  pub sort-IsSorted : (xs : List A) → IsSorted cmp (sort cmp xs)
  unfolding sort
  sort-IsSorted [] = tt
  sort-IsSorted (x ∷ xs) = insert_sorted-IsSorted x (sort cmp xs) (sort-IsSorted xs)

  not_after_self : (x : A) → not_after cmp x x ≡ true
  not_after_self x = elim (Bool-cases (not_after cmp x x)) [ inl e ↦ e | inr e ↦ order.total x x e ]

  first_below :
      (x : A) (xs : List A)
      → IsSorted cmp (x ∷ xs)
      → (y : A) → Memᴰ y (x ∷ xs)
      → not_after cmp x y ≡ true
  first_below x xs s y (Memᴰ.head same) = rw same (not_after_self x)
  first_below x xs s y (Memᴰ.tail m) = s.0 y m

  -- The first element of the result comes no later than any element of the list.
  pub sort-head :
      (xs : List A) {h : A} {rest : List A}
      → sort cmp xs ≡ h ∷ rest
      → Memᴰ h xs × ((y : A) → Memᴰ y xs → not_after cmp h y ≡ true)
  sort-head xs {h} {rest} e = (
    mem-sort cmp xs (rw e (Memᴰ.head refl)),
    λ y m.
        first_below h rest (subst (IsSorted cmp) e (sort-IsSorted xs)) y
          (subst (Memᴰ y) e (sort-mem cmp xs m)),
  )
