-- ===== src/Values.antt =====
-- Values of the Go standard library that the entities hold: times, floating-point numbers, and the
-- dynamic values of `interface{}`.
use go_blockchain_watcher.Prelude.{
  ℕ, ◌+◌, ◌-◌, ◌*◌, ◌/◌, ◌%◌, ◌^◌, String, Bool, ◌||◌, eqb, leb, ltb, if◌then◌else◌,
}

-- `time.Time` as the nanoseconds since the zero time, January 1 of the year 1 in UTC.
abbrev pub Time : Type 0
Time = ℕ

abbrev pub zero_time : Time
zero_time = 0

-- `Time.IsZero`
abbrev pub is_zero_time : Time → Bool
is_zero_time t = eqb t 0

-- `int64`; `negsuc n` is -(n + 1).
pub data ℤ : Type 0 where
  pos : ℕ → ℤ
  negsuc : ℕ → ℤ

-- The integer that a pattern of 64 bits stands for, and the pattern of an integer.
unfoldable pub signed : ℕ → ℤ
signed n = if ltb n (2 ^ 63) then pos n else negsuc (2 ^ 64 - n - 1)

abbrev pub bits : ℤ → ℕ
bits (pos n) = n % 2 ^ 64
bits (negsuc n) = 2 ^ 64 - 1 - n % 2 ^ 64

-- `int` addition, which wraps around.
abbrev pub add_int : ℤ → ℤ → ℤ
add_int x y = signed ((bits x + bits y) % 2 ^ 64)

abbrev pub unix_epoch : ℕ
unix_epoch = 62135596800

-- `Time.Unix`: the seconds since January 1, 1970.
abbrev pub unix : Time → ℤ
unix t =
    let seconds = t / 10 ^ 9 in
    if leb unix_epoch seconds then pos (seconds - unix_epoch) else negsuc (unix_epoch - seconds - 1)

-- A day of 24 hours, for `Time.Add`.
abbrev pub day : Time
day = 24 * 3600 * 10 ^ 9

-- `float64` as the 64 bits of its binary encoding.
abbrev pub Float64 : Type 0
Float64 = ℕ

-- `f == 0` holds for the two zeros, whose bits are all clear but for the sign.
abbrev pub is_zero_float : Float64 → Bool
is_zero_float f = eqb f 0 || eqb f (2 ^ 63)

-- The dynamic values that the program tells apart.
pub data Value : Type 0 where
  text : String → Value
  float64 : Float64 → Value
  int64 : ℤ → Value
  other : Value
