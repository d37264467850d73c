-- ===== src/Base/Lists.antt =====
-- Lists measured by native numbers and walked by Boolean tests, under the library's names.
use Prim.Native.Nat.{ℕ, zero, suc, ◌+◌, ◌-◌, min}
use mathlib.Core.Path.{◌≡◌, refl, sym, subst}
use mathlib.Core.Bool.{Bool, true, false, ◌&&◌, ◌||◌}
use mathlib.Core.List.{List, [], ◌∷◌, ◌++◌, Memᴰ}
use mathlib.Core.Option.{Option, none, some}
use mathlib.Core.Logic.{inl, inr}
use native.Mathlib.Omega.{arith}
use base_layer.Base.Tests.{if◌then◌else◌, Bool-cases}

module _ {ℓ} {A : Type ℓ} where
  abbrev pub length : List A → ℕ
  length [] = 0
  length (x ∷ xs) = suc (length xs)

  pub length-append : (xs ys : List A) → length (xs ++ ys) ≡ length xs + length ys
  length-append [] ys = omega arith
  length-append (x ∷ xs) ys = omega (arith, length-append xs ys)

  abbrev pub take : ℕ → List A → List A
  take zero xs = []
  take (suc n) [] = []
  take (suc n) (x ∷ xs) = x ∷ take n xs

  abbrev pub drop : ℕ → List A → List A
  drop zero xs = xs
  drop (suc n) [] = []
  drop (suc n) (x ∷ xs) = drop n xs

  pub length-drop : (n : ℕ) (xs : List A) → length (drop n xs) ≡ length xs - n
  length-drop zero xs = omega arith
  length-drop (suc n) [] = omega arith
  length-drop (suc n) (x ∷ xs) = omega (arith, length-drop n xs)

  pub length-take : (n : ℕ) (xs : List A) → length (take n xs) ≡ min n (length xs)
  length-take zero xs = omega arith
  length-take (suc n) [] = omega arith
  length-take (suc n) (x ∷ xs) = omega (arith, length-take n xs)

  -- `xs.filter(p)`
  abbrev pub filter : (A → Bool) → List A → List A
  filter p [] = []
  filter p (x ∷ xs) = let rest = filter p xs in if p x then x ∷ rest else rest

  -- `xs.find(p)`
  abbrev pub find : (A → Bool) → List A → Option A
  find p [] = none
  find p (x ∷ xs) = let rest = find p xs in if p x then some x else rest

  -- `xs.some(p)`
  abbrev pub any : (A → Bool) → List A → Bool
  any p [] = false
  any p (x ∷ xs) = p x || any p xs

  -- `xs.every(p)`
  abbrev pub all : (A → Bool) → List A → Bool
  all p [] = true
  all p (x ∷ xs) = p x && all p xs

  -- How many elements pass the test.
  abbrev pub count : (A → Bool) → List A → ℕ
  count p [] = 0
  count p (x ∷ xs) = (if p x then 1 else 0) + count p xs

module _ {ℓ} {A : Type ℓ} (p : A → Bool) where
  mem_guarded :
      {x a : A} {xs : List A} (b : Bool)
      → p x ≡ b
      → (Memᴰ a (filter p xs) → Memᴰ a xs × (p a ≡ true))
      → Memᴰ a (if b then x ∷ filter p xs else filter p xs)
      → Memᴰ a (x ∷ xs) × (p a ≡ true)
  mem_guarded true e rec (Memᴰ.head same) = (Memᴰ.head same, rw same e)
  mem_guarded true e rec (Memᴰ.tail m) = (Memᴰ.tail (rec m).0, (rec m).1)
  mem_guarded false e rec m = (Memᴰ.tail (rec m).0, (rec m).1)

  -- What a filter keeps was there and passes the test.
  pub mem-filter : (xs : List A) {a : A} → Memᴰ a (filter p xs) → Memᴰ a xs × (p a ≡ true)
  mem-filter [] m = elim m [ ]
  mem-filter (x ∷ xs) m = mem_guarded (p x) refl (mem-filter xs) m

  -- What was there and passes the test is kept.
  pub filter-mem : (xs : List A) {a : A} → Memᴰ a xs → p a ≡ true → Memᴰ a (filter p xs)
  filter-mem [] m e = elim m [ ]
  filter-mem (x ∷ xs) {a} (Memᴰ.head same) e =
      let e' : p x ≡ true = subst (λ y. p y ≡ true) same e in rw e' (Memᴰ.head same)
  filter-mem (x ∷ xs) (Memᴰ.tail m) e = elim (Bool-cases (p x)) [
    | inl t ↦ rw t (Memᴰ.tail (filter-mem xs m e))
    | inr f ↦ rw f (filter-mem xs m e)
  ]

  pub filter-append : (xs ys : List A) → filter p (xs ++ ys) ≡ filter p xs ++ filter p ys
  filter-append [] ys = refl
  filter-append (x ∷ xs) ys = ground (arith, filter-append xs ys)

  pub count-append : (xs ys : List A) → count p (xs ++ ys) ≡ count p xs + count p ys
  count-append [] ys = omega arith
  count-append (x ∷ xs) ys = omega (arith, count-append xs ys)

  pub length-filter : (xs : List A) → length (filter p xs) ≡ count p xs
  length-filter [] = refl
  length-filter (x ∷ xs) = ground (arith, length-filter xs)

  pub any-mem : (xs : List A) → any p xs ≡ true → (a : A) × Memᴰ a xs × (p a ≡ true)
  any-mem [] h = absurd (ground arith)
  any-mem (x ∷ xs) h = elim (Bool-cases (p x)) [
    | inl t ↦ (x, Memᴰ.head refl, t)
    | inr f ↦ let (a, m, e) = any-mem xs (rw f at h) in (a, Memᴰ.tail m, e)
  ]

  pub mem-any : (xs : List A) {a : A} → Memᴰ a xs → p a ≡ true → any p xs ≡ true
  mem-any [] m e = elim m [ ]
  mem-any (x ∷ xs) (Memᴰ.head same) e =
      let e' : p x ≡ true = subst (λ y. p y ≡ true) same e in rw e'
  mem-any (x ∷ xs) (Memᴰ.tail m) e = ground (arith, mem-any xs m e)

  pub find-mem : (xs : List A) {a : A} → find p xs ≡ some a → Memᴰ a xs × (p a ≡ true)
  find-mem [] h = absurd (ground arith)
  find-mem (x ∷ xs) {a} h = elim (Bool-cases (p x)) [
    | inl t ↦ let e : x ≡ a = ground arith in (Memᴰ.head (sym e), rw (← e) t)
    | inr f ↦ let (m, e) = find-mem xs (rw f at h) in (Memᴰ.tail m, e)
  ]

  pub find-none : (xs : List A) {a : A} → find p xs ≡ none → Memᴰ a xs → p a ≡ false
  find-none [] h m = elim m [ ]
  find-none (x ∷ xs) h (Memᴰ.head same) = rw same (ground arith)
  find-none (x ∷ xs) h (Memᴰ.tail m) = find-none xs (ground arith) m
