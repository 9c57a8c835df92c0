-- ===== src/Common/Lists.antt =====
-- Lists measured and indexed by native numbers, and a predicate on all elements.
use Prim.Native.Nat.{ℕ, zero, suc, ◌+◌, ◌≤◌}
use mathlib.Core.Path.{◌≡◌}
use mathlib.Core.Bool.{Bool, true, false}
use mathlib.Core.Option.{Option, none, some}
use mathlib.Core.List.{List, [], ◌∷◌, ◌++◌}
use native.Mathlib.Omega.{arith}
use mvisor_win_vgpu_driver.Common.Compare.{if◌then◌else◌, ◌==◌}

module _ {ℓ} {A : Type ℓ} where
  abbrev pub length : List A → ℕ
  length [] = 0
  length (x ∷ xs) = suc (length xs)

  abbrev pub get_elem? : List A → ℕ → Option A
  get_elem? [] i = none
  get_elem? (x ∷ xs) zero = some x
  get_elem? (x ∷ xs) (suc i) = get_elem? xs i

  abbrev pub get_or : List A → ℕ → A → A
  get_or [] i d = d
  get_or (x ∷ xs) zero d = x
  get_or (x ∷ xs) (suc i) d = get_or xs i d

  -- Without the element at an index; out of range nothing changes.
  abbrev pub remove_at : List A → ℕ → List A
  remove_at [] i = []
  remove_at (x ∷ xs) zero = xs
  remove_at (x ∷ xs) (suc i) = x ∷ remove_at xs i

  -- The first element that passes a test.
  abbrev pub find_first : (A → Bool) → List A → Option A
  find_first p [] = none
  find_first p (x ∷ xs) = if p x then some x else find_first p xs

  -- A write through a pointer to the first element that passes the test.
  abbrev pub modify_first : (A → Bool) → (A → A) → List A → List A
  modify_first p f [] = []
  modify_first p f (x ∷ xs) = if p x then f x ∷ xs else x ∷ modify_first p f xs

  abbrev pub remove_first : (A → Bool) → List A → List A
  remove_first p [] = []
  remove_first p (x ∷ xs) = if p x then xs else x ∷ remove_first p xs

  abbrev pub take : ℕ → List A → List A
  take zero xs = []
  take (suc n) [] = []
  take (suc n) (x ∷ xs) = x ∷ take n xs

  -- A write out of bounds changes nothing.
  abbrev pub set : List A → ℕ → A → List A
  set [] i v = []
  set (x ∷ xs) zero v = v ∷ xs
  set (x ∷ xs) (suc i) v = x ∷ set xs i v

  pub length-append : (xs ys : List A) → length (xs ++ ys) ≡ length xs + length ys
  length-append [] ys = omega arith
  length-append (x ∷ xs) ys = omega (arith, length-append xs ys)

abbrev pub All {ℓ κ} : {A : Type ℓ} → (A → Type κ) → List A → Type κ
All P [] = Unit
All P (x ∷ xs) = P x × All P xs

module _ {ℓ κ} {A : Type ℓ} (P : A → Type κ) where
  pub All-append : (xs ys : List A) → All P xs → All P ys → All P (xs ++ ys)
  All-append [] ys hx hy = hy
  All-append (x ∷ xs) ys hx hy = (hx.0, All-append xs ys hx.1 hy)

  pub All-remove_at : (xs : List A) (i : ℕ) → All P xs → All P (remove_at xs i)
  All-remove_at [] i h = h
  All-remove_at (x ∷ xs) zero h = h.1
  All-remove_at (x ∷ xs) (suc i) h = (h.0, All-remove_at xs i h.1)

  pub All-set : (xs : List A) (i : ℕ) (a : A) → P a → All P xs → All P (set xs i a)
  All-set [] i a p h = h
  All-set (x ∷ xs) zero a p h = (p, h.1)
  All-set (x ∷ xs) (suc i) a p h = (h.0, All-set xs i a p h.1)

-- A sum over a list of numbers that a function assigns.
abbrev pub sum_of {ℓ} : {A : Type ℓ} → (A → ℕ) → List A → ℕ
sum_of f [] = 0
sum_of f (x ∷ xs) = f x + sum_of f xs

module _ {ℓ} {A : Type ℓ} (f : A → ℕ) where
  pub sum_of-append : (xs ys : List A) → sum_of f (xs ++ ys) ≡ sum_of f xs + sum_of f ys
  sum_of-append [] ys = omega arith
  sum_of-append (x ∷ xs) ys = omega (arith, sum_of-append xs ys)

  -- What `remove_at` takes out is what the index named.
  pub sum_of-remove_at :
      (xs : List A) (i : ℕ) (a : A)
      → get_elem? xs i ≡ some a
      → f a + sum_of f (remove_at xs i) ≡ sum_of f xs
  sum_of-remove_at [] i a h = ground arith
  sum_of-remove_at (x ∷ xs) zero a h = ground arith
  sum_of-remove_at (x ∷ xs) (suc i) a h = omega (arith, sum_of-remove_at xs i a h)

  pub sum_of-set :
      (xs : List A) (i : ℕ) (a b : A)
      → get_elem? xs i ≡ some a
      → sum_of f (set xs i b) + f a ≡ sum_of f xs + f b
  sum_of-set [] i a b h = ground arith
  sum_of-set (x ∷ xs) zero a b h = ground arith
  sum_of-set (x ∷ xs) (suc i) a b h = omega (arith, sum_of-set xs i a b h)

-- How often a number occurs.
abbrev pub count : ℕ → List ℕ → ℕ
count i [] = 0
count i (x ∷ xs) = (if x == i then 1 else 0) + count i xs

abbrev pub contains : ℕ → List ℕ → Bool
contains i [] = false
contains i (x ∷ xs) = if x == i then true else contains i xs

abbrev pub IsDistinct : List ℕ → Type 0
IsDistinct xs = (i : ℕ) → count i xs ≤ 1
