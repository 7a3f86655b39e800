-- ===== src/Currencies/Pages.antt =====
-- The pages of `GetBatch` in src/adapters/supported_currency_adapter.go. An `int` has 64 bits, and a
-- slice expression that is out of range panics, which is `none`.
use go_blockchain_watcher.Prelude.{
  ℕ, zero, suc, ◌+◌, ◌-◌, ◌%◌, ◌^◌, ◌<◌, ◌≤◌, ◌≡◌, refl, Bool, true, false, ◌&&◌, Option, none,
  some, List, [], ◌∷◌, length, take, drop, leb, ltb, if◌then◌else◌, arith, ap, sym, ◌∙◌, Bool-cases,
  inl, inr,
}
use go_blockchain_watcher.Values.{ℤ, pos, negsuc, signed, add_int}

-- x ≥ n
abbrev at_least : ℤ → ℕ → Bool
at_least (pos m) n = leb n m
at_least (negsuc m) n = false

-- x > n
abbrev above : ℤ → ℕ → Bool
above (pos m) n = ltb n m
above (negsuc m) n = false

-- The value is one of an `int`.
abbrev pub IsInt : ℤ → Type 0
IsInt (pos n) = n < 2 ^ 63
IsInt (negsuc n) = n < 2 ^ 63

module _ {A : Type 0} where
  -- xs[from:to]. The capacity of the slice is taken to be its length, to which `page` cuts the end.
  abbrev pub slice : ℤ → ℤ → List A → Option (List A)
  slice (negsuc m) to xs = none
  slice (pos m) (negsuc n) xs = none
  slice (pos m) (pos n) xs =
      if leb m n && leb n (length xs) then some (take (n - m) (drop m xs)) else none

  unfoldable pub page : ℤ → ℤ → List A → Option (List A)
  unfolding signed
  page limit skip xs =
      let end = add_int skip limit in
      if at_least skip (length xs)
      then some []
      else slice skip (if above end (length xs) then pos (length xs) else end) xs

  -- The page in other words.
  abbrev pub expected : ℤ → ℤ → List A → Option (List A)
  expected limit (negsuc k) xs = none
  expected (negsuc l) (pos k) xs = if leb (length xs) k then some [] else none
  expected (pos l) (pos k) xs =
      if leb (length xs) k
      then some []
      else if ltb (k + l) (2 ^ 63)
      then some (take l (drop k xs))
      else none

  take_all : (n : ℕ) (xs : List A) → length xs ≤ n → take n xs ≡ xs
  take_all zero [] h = refl
  take_all zero (x ∷ xs) h = elim h [ ]
  take_all (suc n) [] h = refl
  take_all (suc n) (x ∷ xs) h = ap (λ ys. x ∷ ys) (take_all n xs (omega arith))

  take-nil : (n : ℕ) → take {A = A} n [] ≡ []
  take-nil zero = refl
  take-nil (suc n) = refl

  drop_all : (n : ℕ) (xs : List A) → length xs ≤ n → drop n xs ≡ []
  drop_all zero [] h = refl
  drop_all zero (x ∷ xs) h = elim h [ ]
  drop_all (suc n) [] h = refl
  drop_all (suc n) (x ∷ xs) h = drop_all n xs (omega arith)

  length-drop : (n : ℕ) (xs : List A) → length (drop n xs) ≡ length xs - n
  length-drop zero xs = omega arith
  length-drop (suc n) [] = omega arith
  length-drop (suc n) (x ∷ xs) = omega (arith, length-drop n xs)

  cut :
      (k n l : ℕ) (xs : List A)
      → k < length xs
      → n ≡ k + l
      → slice (pos k) (if above (pos n) (length xs) then pos (length xs) else pos n) xs
        ≡ some (take l (drop k xs))
  cut k n l xs inside e = elim (Bool-cases (ltb (length xs) n)) [
    | inl short ↦
        let from : leb k (length xs) ≡ true = ground (arith, inside) in
        let to : leb (length xs) (length xs) ≡ true = ground arith in
        rw (short, from, to)
          (ap some (
            take_all (length xs - k) (drop k xs) (omega (arith, length-drop k xs))
            ∙ sym (take_all l (drop k xs) (ground (arith, length-drop k xs, short, e)))))
    | inr full ↦
        let from : leb k n ≡ true = ground (arith, e) in
        let to : leb n (length xs) ≡ true = ground (arith, full) in
        rw (full, from, to) (ap (λ n. some (take n (drop k xs))) (omega (arith, e)))
  ]

  page_lem_inside :
      (l k : ℕ) (xs : List A)
      → IsInt (pos l)
      → IsInt (pos k)
      → k < length xs
      → k + l < 2 ^ 63
      → page (pos l) (pos k) xs ≡ some (take l (drop k xs))
  unfolding page signed
  page_lem_inside l k xs hl hk inside fits =
      let outside : leb (length xs) k ≡ false = ground (arith, inside) in
      let sum : (k % 2 ^ 64 + l % 2 ^ 64) % 2 ^ 64 ≡ k + l = omega (arith, fits) in
      let low : ltb (k + l) (2 ^ 63) ≡ true = ground (arith, fits) in
      rw (outside, sum, low) (cut k (k + l) l xs inside refl)

  -- A sum that leaves the range of an `int` is negative.
  page_lem_overflow :
      (l k : ℕ) (xs : List A)
      → IsInt (pos l)
      → IsInt (pos k)
      → k < length xs
      → 2 ^ 63 ≤ k + l
      → page (pos l) (pos k) xs ≡ none
  unfolding page signed
  page_lem_overflow l k xs hl hk inside over =
      let outside : leb (length xs) k ≡ false = ground (arith, inside) in
      let sum : (k % 2 ^ 64 + l % 2 ^ 64) % 2 ^ 64 ≡ k + l = omega (arith, hl, hk) in
      let high : ltb (k + l) (2 ^ 63) ≡ false = ground (arith, over) in rw (outside, sum, high) refl

  page_lem_negative :
      (l k : ℕ) (xs : List A)
      → IsInt (negsuc l)
      → IsInt (pos k)
      → k < length xs
      → page (negsuc l) (pos k) xs ≡ none
  unfolding page signed
  page_lem_negative l k xs hl hk inside =
      let outside : leb (length xs) k ≡ false = ground (arith, inside) in
      elim (Bool-cases (ltb l k)) [
        | inl less ↦
            let sum : (k % 2 ^ 64 + (2 ^ 64 - 1 - l % 2 ^ 64)) % 2 ^ 64 ≡ k - 1 - l =
              ground (arith, hl, hk, less) in
            let low : ltb (k - 1 - l) (2 ^ 63) ≡ true = ground (arith, hk) in
            let short : ltb (length xs) (k - 1 - l) ≡ false = ground (arith, inside) in
            let from : leb k (k - 1 - l) ≡ false = ground (arith, less) in
            rw (outside, sum, low) (rw (short, from) refl)
        | inr more ↦
            let sum : (k % 2 ^ 64 + (2 ^ 64 - 1 - l % 2 ^ 64)) % 2 ^ 64 ≡ k + (2 ^ 64 - 1 - l) =
              ground (arith, hl, hk, more) in
            let high : ltb (k + (2 ^ 64 - 1 - l)) (2 ^ 63) ≡ false = ground (arith, hl, more) in
            rw (outside, sum, high) refl
      ]

  -- For a limit and a number of currencies to skip that are any values of an `int`, the page panics
  -- if the number to skip is negative; it is empty if that number is not, and there are no more
  -- currencies than it; else it panics if the limit is negative or the sum of the two is no `int`, and
  -- is the currencies after the skipped ones, up to the limit, if neither is so.
  pub page_lem :
      (limit skip : ℤ) (xs : List A)
      → IsInt limit
      → IsInt skip
      → page limit skip xs ≡ expected limit skip xs
  unfolding page
  page_lem limit (negsuc k) xs hl hk = refl
  page_lem (negsuc l) (pos k) xs hl hk = elim (Bool-cases (leb (length xs) k)) [
    | inl outside ↦ rw outside refl
    | inr inside ↦ page_lem_negative l k xs hl hk (ground (arith, inside)) ∙ rw inside refl
  ]
  page_lem (pos l) (pos k) xs hl hk = elim (Bool-cases (leb (length xs) k)) [
    | inl outside ↦ rw outside refl
    | inr inside ↦
        let more : k < length xs = ground (arith, inside) in
        elim (Bool-cases (ltb (k + l) (2 ^ 63))) [
          | inl fits ↦
              page_lem_inside l k xs hl hk more (ground (arith, fits)) ∙ rw (inside, fits) refl
          | inr over ↦
              page_lem_overflow l k xs hl hk more (ground (arith, over)) ∙ rw (inside, over) refl
        ]
  ]

  pub page_outside :
      (limit : ℤ) (k : ℕ) (xs : List A) → length xs ≤ k → page limit (pos k) xs ≡ some []
  unfolding page
  page_outside limit k xs h =
      let outside : leb (length xs) k ≡ true = ground (arith, h) in rw outside refl
