-- ===== src/Workers/Evm/Payments/Amounts.antt =====
-- The number in parseTransactionAmount of internal/worker/evm/processor.go: `SetString` of `big.Int` in
-- base 16. The text is taken to be ASCII.
use Prim.Native.Char.{code}
use package.text.Mathlib.Text.{starts_with}
use go_blockchain_watcher.Prelude.{
  ℕ, zero, suc, ◌+◌, ◌-◌, ◌*◌, String, ◌&&◌, Option, none, some, eqb, leb, ltb, if◌then◌else◌,
}
use go_blockchain_watcher.Values.{ℤ, pos, negsuc}
use go_blockchain_watcher.Workers.Evm.Payments.Transfers.{text_length, drop_text}

-- The value of a hexadecimal digit, by its code.
abbrev digit_of : ℕ → Option ℕ
digit_of c =
    if leb 48 c && leb c 57
    then some (c - 48)
    else if leb 97 c && leb c 102
    then some (c - 87)
    else if leb 65 c && leb c 70
    then some (c - 55)
    else none

unfoldable pub hex_digits : ℕ → String → Option ℕ
hex_digits n String.[] = some n
hex_digits n (String.◌∷◌ c rest) = elim (digit_of (code c)) [
  | none ↦ none
  | some d ↦ hex_digits (n * 16 + d) rest
]

-- At least one digit.
abbrev magnitude : String → Option ℕ
magnitude String.[] = none
magnitude (String.◌∷◌ c rest) = hex_digits 0 (String.◌∷◌ c rest)

abbrev negated : ℕ → ℤ
negated zero = pos 0
negated (suc n) = negsuc n

abbrev with_sign : (ℕ → ℤ) → Option ℕ → Option ℤ
with_sign sign none = none
with_sign sign (some n) = some (sign n)

abbrev pub set_string : String → Option ℤ
set_string String.[] = none
set_string (String.◌∷◌ c rest) =
    if eqb (code c) 45
    then with_sign negated (magnitude rest)
    else if eqb (code c) 43
    then with_sign pos (magnitude rest)
    else with_sign pos (magnitude (String.◌∷◌ c rest))

abbrev pub without_prefix : String → String
without_prefix v = if ltb 2 (text_length v) && starts_with v "0x" then drop_text 2 v else v
