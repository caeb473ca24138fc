-- ===== src/Base/Lists.antt =====
-- Lists measured and indexed by native numbers, under the library's names.
use Prim.Native.Nat.{ℕ, zero, suc, ◌+◌, ◌≤◌}
use mathlib.Core.Path.{◌≡◌, refl, ap}
use mathlib.Core.List.{List, [], ◌∷◌, ◌++◌}
use mathlib.Core.Option.{Option, none, some, none-ne-some, some-injective}
use native.Mathlib.Omega.{arith}

module _ {ℓ} {A : Type ℓ} where
  abbrev pub length : List A → ℕ
  length [] = 0
  length (x ∷ xs) = suc (length xs)

  abbrev pub take : ℕ → List A → List A
  take (suc k) (a ∷ l) = a ∷ take k l
  take (suc k) [] = []
  take zero l = []

  abbrev pub drop : ℕ → List A → List A
  drop zero xs = xs
  drop (suc n) [] = []
  drop (suc n) (x ∷ xs) = drop n xs

  abbrev pub get_elem? : List A → ℕ → Option A
  get_elem? [] n = none
  get_elem? (x ∷ l) zero = some x
  get_elem? (x ∷ l) (suc n) = get_elem? l n

  -- The list without its n-th element.
  abbrev pub remove_at : ℕ → List A → List A
  remove_at n [] = []
  remove_at zero (x ∷ l) = l
  remove_at (suc n) (x ∷ l) = x ∷ remove_at n l

  -- A write out of bounds changes nothing.
  abbrev pub set : List A → ℕ → A → List A
  set [] n v = []
  set (x ∷ l) zero v = v ∷ l
  set (x ∷ l) (suc n) v = x ∷ set l n v

  abbrev pub sum_by : (A → ℕ) → List A → ℕ
  sum_by f [] = 0
  sum_by f (x ∷ l) = f x + sum_by f l

  -- What an element contributes to a sum.
  pub sum_by-set :
      (f : A → ℕ) (l : List A) (n : ℕ) (x : A)
      → get_elem? l n ≡ some x
      → (rest : ℕ) × (sum_by f l ≡ rest + f x) × ((y : A) → sum_by f (set l n y) ≡ rest + f y)
  sum_by-set f [] n x h = absurd (none-ne-some x h)
  sum_by-set f (z ∷ l) zero x h =
      (sum_by f l, omega (arith, ap f (some-injective z x h)), λ y. omega arith)
  sum_by-set f (z ∷ l) (suc n) x h =
      let (rest, before, after) = sum_by-set f l n x h in
      (f z + rest, omega (arith, before), λ y. omega (arith, after y))

  pub sum_by-append : (f : A → ℕ) (xs ys : List A) → sum_by f (xs ++ ys) ≡ sum_by f xs + sum_by f ys
  sum_by-append f [] ys = omega arith
  sum_by-append f (x ∷ xs) ys = omega (arith, sum_by-append f xs ys)

  pub length-remove_at :
      (n : ℕ) (l : List A) (x : A)
      → get_elem? l n ≡ some x
      → suc (length (remove_at n l)) ≡ length l
  length-remove_at n [] x h = absurd (none-ne-some x h)
  length-remove_at zero (y ∷ l) x h = refl
  length-remove_at (suc n) (y ∷ l) x h = ap suc (length-remove_at n l x h)

  pub length-append : (xs ys : List A) → length (xs ++ ys) ≡ length xs + length ys
  length-append [] ys = omega arith
  length-append (x ∷ xs) ys = omega (arith, length-append xs ys)

  pub take-append : (xs ys : List A) → take (length xs) (xs ++ ys) ≡ xs
  take-append [] ys = refl
  take-append (x ∷ xs) ys = ap (◌∷◌ x) (take-append xs ys)

  pub drop-append : (xs ys : List A) → drop (length xs) (xs ++ ys) ≡ ys
  drop-append [] ys = refl
  drop-append (x ∷ xs) ys = drop-append xs ys

  pub take_of_length-le : (k : ℕ) (l : List A) → length l ≤ k → take k l ≡ l
  take_of_length-le (suc k) (a ∷ l) h = ap (λ m. a ∷ m) (take_of_length-le k l (omega arith))
  take_of_length-le (suc k) [] h = refl
  take_of_length-le zero (a ∷ l) h = absurd (omega arith)
  take_of_length-le zero [] h = refl

  -- A predicate of every element, computing to a tuple.
  abbrev pub All {κ} : (A → Type κ) → List A → Type κ
  All P [] = Unit
  All P (x ∷ xs) = P x × All P xs

  pub All-append {κ} : (P : A → Type κ) (xs ys : List A) → All P xs → All P ys → All P (xs ++ ys)
  All-append P [] ys hx hy = hy
  All-append P (x ∷ xs) ys hx hy = (hx.0, All-append P xs ys hx.1 hy)
