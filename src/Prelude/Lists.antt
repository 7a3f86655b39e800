-- ===== src/Prelude/Lists.antt =====
-- Go's slices as lists, with lengths and indices in the native numbers.
use Prim.Native.Nat.{ℕ, zero, suc, ◌+◌}
use mathlib.Core.Path.{◌≡◌, refl}
use mathlib.Core.Bool.{Bool, true, false, ◌&&◌}
use go_blockchain_watcher.Prelude.Tests.{if◌then◌else◌}
use mathlib.Core.Option.{Option, none, some}
use mathlib.Core.List.{List, [], ◌∷◌, ◌++◌}
use native.Mathlib.Omega.{arith}

module _ {ℓ} {A : Type ℓ} where
  abbrev pub length : List A → ℕ
  length [] = 0
  length (x ∷ xs) = suc (length xs)

  abbrev pub get_elem? : List A → ℕ → Option A
  get_elem? [] i = none
  get_elem? (x ∷ xs) zero = some x
  get_elem? (x ∷ xs) (suc i) = get_elem? xs i

  abbrev pub take : ℕ → List A → List A
  take zero xs = []
  take (suc n) [] = []
  take (suc n) (x ∷ xs) = x ∷ take n xs

  abbrev pub drop : ℕ → List A → List A
  drop zero xs = xs
  drop (suc n) [] = []
  drop (suc n) (x ∷ xs) = drop n xs

  -- append(xs, x)
  abbrev pub appended : List A → A → List A
  appended xs x = xs ++ x ∷ []

  pub length-append : (xs ys : List A) → length (xs ++ ys) ≡ length xs + length ys
  length-append [] ys = omega arith
  length-append (x ∷ xs) ys = omega (arith, length-append xs ys)

  pub nil_of_length : (xs : List A) → length xs ≡ 0 → xs ≡ []
  nil_of_length [] h = refl
  nil_of_length (x ∷ xs) h = absurd (omega arith)

  -- The first element that passes the test, the change of it alone, and all that pass.
  abbrev pub first : (A → Bool) → List A → Option A
  first p [] = none
  first p (x ∷ xs) = if p x then some x else first p xs

  abbrev pub modify_first : (A → Bool) → (A → A) → List A → List A
  modify_first p f [] = []
  modify_first p f (x ∷ xs) = if p x then f x ∷ xs else x ∷ modify_first p f xs

  abbrev pub select : (A → Bool) → List A → List A
  select p [] = []
  select p (x ∷ xs) = let rest = select p xs in if p x then x ∷ rest else rest

  -- The elements that pass a test are still found, changed, if the change keeps the test.
  pub first-modify_first :
      (p : A → Bool) (f : A → A) (xs : List A) (x : A)
      → first p xs ≡ some x
      → p (f x) ≡ true
      → first p (modify_first p f xs) ≡ some (f x)
  first-modify_first p f [] x h k = ground arith
  first-modify_first p f (y ∷ xs) x h k = ground (arith, first-modify_first p f xs x)

  pub first-append :
      (p : A → Bool) (xs : List A) (x : A)
      → first p xs ≡ none
      → p x ≡ true
      → first p (xs ++ x ∷ []) ≡ some x
  first-append p [] x h k = ground arith
  first-append p (y ∷ xs) x h k = ground (arith, first-append p xs x)

  -- The first element that passes a test also is the first that passes this test and another.
  pub first_refine :
      (p q : A → Bool) (xs : List A) (x : A)
      → first p xs ≡ some x
      → q x ≡ true
      → first (λ y. p y && q y) xs ≡ some x
  first_refine p q [] x h k = ground (arith, h)
  first_refine p q (y ∷ xs) x h k = ground (arith, first_refine p q xs x)

  first_outside :
      (p q : A → Bool) (xs : List A) → select p xs ≡ [] → first (λ y. p y && q y) xs ≡ none
  first_outside p q [] h = refl
  first_outside p q (y ∷ xs) h = ground (arith, first_outside p q xs)

  -- Once the only element that passes the first test fails the second, no element passes both.
  pub first_gone :
      (p q : A → Bool) (f : A → A) (xs : List A) (x : A)
      → select p xs ≡ x ∷ []
      → q (f x) ≡ false
      → first (λ y. p y && q y) (modify_first p f xs) ≡ none
  first_gone p q f [] x h k = refl
  first_gone p q f (y ∷ xs) x h k = ground (arith, first_gone p q f xs x, first_outside p q xs)

  pub first_passes : (p : A → Bool) (xs : List A) (x : A) → first p xs ≡ some x → p x ≡ true
  first_passes p [] x h = ground (arith, h)
  first_passes p (y ∷ xs) x h = ground (arith, first_passes p xs x)

  pub select-first :
      (p : A → Bool) (xs ys : List A) (x : A) → select p xs ≡ x ∷ ys → first p xs ≡ some x
  select-first p [] ys x h = ground (arith, h)
  select-first p (y ∷ xs) ys x h = ground (arith, select-first p xs ys x)
