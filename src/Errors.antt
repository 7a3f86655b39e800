-- ===== src/Errors.antt =====
-- Go's `error` values, the (value, error) results, and methods that change a store and may fail.
use go_blockchain_watcher.Prelude.{String, ◌≡◌, refl, ◌⊎◌, inl, inr, Option, none, some}

-- `errors.New`, and `fmt.Errorf` with a `%w` verb.
pub data Error : Type 0 where
  errors_new : String → Error
  errorf : String → Error → Error

pub data Result {ℓ} (A : Type ℓ) : Type ℓ where
  ok : A → Result A
  err : Error → Result A

-- A method reads and changes the store, and what it has changed stays changed when it fails.
abbrev pub Exec : Type 0 → Type 0 → Type 0
Exec S A = S → Result A × S

module _ {S A : Type 0} where
  abbrev pub pure : A → Exec S A
  pure a s = (ok a, s)

  abbrev pub fail : Error → Exec S A
  fail e s = (err e, s)

  -- A method that returns a pointer reports `nil` by an error of its own.
  abbrev pub or_fail : Error → Option A → Exec S A
  or_fail e none s = (err e, s)
  or_fail e (some a) s = (ok a, s)

module _ {S A B : Type 0} where
  abbrev pub continue : Result A → (A → Exec S B) → Exec S B
  continue (ok a) f s = f a s
  continue (err e) f s = (err e, s)

  infixl 5 ◌>>=◌ ◌>>◌
  abbrev pub ◌>>=◌ : Exec S A → (A → Exec S B) → Exec S B
  ◌>>=◌ m f s = let (r, t) = m s in continue r f t

  abbrev pub ◌>>◌ : Exec S A → Exec S B → Exec S B
  m >> k = m >>= λ _. k

pub Result-cases :
    {A : Type 0} (r : Result A) → ((a : A) × (r ≡ ok a)) ⊎ ((e : Error) × (r ≡ err e))
Result-cases (ok a) = inl (a, refl)
Result-cases (err e) = inr (e, refl)

pub err-ne-ok : {A : Type 0} {e : Error} {a : A} → err e ≡ ok a → ⊥
err-ne-ok h = cc

pub ok-injective : {A : Type 0} {a b : A} → ok a ≡ ok b → a ≡ b
ok-injective h = cc

-- `fmt.Errorf(message + ": %w", err)` on the way out of a call.
abbrev pub wrap_result : {A : Type 0} → String → Result A → Result A
wrap_result message (ok a) = ok a
wrap_result message (err e) = err (errorf message e)

abbrev pub wrap : {S A : Type 0} → String → Exec S A → Exec S A
wrap message m s = let (r, t) = m s in (wrap_result message r, t)

-- A call that only reads the store, or none of it.
abbrev pub read : {S A : Type 0} → (S → Result A) → Exec S A
read m s = (m s, s)
