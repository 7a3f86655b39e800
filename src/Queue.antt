-- ===== src/Queue.antt =====
-- managers/queue/queue.go: the names of keys and of repeat jobs, and the jobs themselves. The proofs
-- about the IDs are here, the others in the modules below.
pub mod Keys
pub mod Jobs
pub mod Adding
pub mod Status
pub mod Repeat
pub mod Processing
pub mod Examples
use Prim.Native.Char.{Char, code}
use Prim.Native.String.{◌++◌}
use go_blockchain_watcher.Prelude.{
  ℕ, ◌+◌, ◌*◌, ◌%◌, ◌^◌, String, ◌≡◌, refl, ap, ◌∙◌, Bool, true, false, not, ◌&&◌, Option, none,
  some, List, [], ◌∷◌, ◌==◌, arith, eqb, if◌then◌else◌,
}
use text.Mathlib.TextLemmas.{nil-append, cons-append, append_assoc}
use text.Mathlib.Text.{starts_with}
use text.Mathlib.TextPositions.{starts_with-append}

pub data JobState : Type 0 where
  waiting active completed failed delayed stalled : JobState

-- `D` stands for `map[string]interface{}`.
pub record JobData (D : Type 0) : Type 0 where
  pub id : String
  pub queue_name : String
  pub payload : D
  pub opts : D
  pub timestamp : ℕ
  pub processed_on : ℕ
  pub finished_on : ℕ
  pub attempts : ℕ
  pub state : JobState
  pub name : String

pub record BullRepeatData (D : Type 0) : Type 0 where
  pub id : String
  pub queue_name : String
  pub payload : D
  pub name : String
  pub opts : D
  pub every : ℕ

unfoldable pub get_bull_key : String → String → String
get_bull_key queue_name suffix = "bull:" ++ (queue_name ++ (":" ++ suffix))

unfoldable pub get_repeat_job_key : String → String → String
get_repeat_job_key queue_name job_id = "bull:" ++ (queue_name ++ (":repeat:" ++ job_id))

unfoldable pub is_repeat_job_id : String → Bool
is_repeat_job_id job_id = starts_with job_id "repeat:"

-- `strings.Split(s, ":")`
prepend : Char → List String → List String
prepend c [] = (String.◌∷◌ c String.[]) ∷ []
prepend c (w ∷ ws) = (String.◌∷◌ c w) ∷ ws

split : String → List String
unfolding prepend
split String.[] = String.[] ∷ []
split (String.◌∷◌ c s) =
    let rest = split s in if eqb (code c) b':' then String.[] ∷ rest else prepend c rest

parse_parts : List String → Option (String × String)
parse_parts (a ∷ b ∷ c ∷ []) = if a == "repeat" then some (b, c) else none
parse_parts _ = none

unfoldable pub parse_repeat_job_id : String → Option (String × String)
unfolding split parse_parts
parse_repeat_job_id job_id = parse_parts (split job_id)

-- The format of the IDs that `AddJob` and `rescheduleRepeatJob` make.
unfoldable pub repeat_job_id : String → String → String
repeat_job_id hash timestamp = "repeat:" ++ (hash ++ (":" ++ timestamp))

abbrev pub NoColon : String → Type 0
NoColon String.[] = Unit
NoColon (String.◌∷◌ c s) = (eqb (code c) b':' ≡ false) × NoColon s

colon-append : (rest : String) → ":" ++ rest ≡ String.◌∷◌ ":" rest
colon-append rest = cons-append ":" "" rest ∙ ap (String.◌∷◌ ":") (nil-append rest)

split-colon : (w rest : String) → NoColon w → split (w ++ (":" ++ rest)) ≡ w ∷ split rest
unfolding split
split-colon String.[] rest h = rw (nil-append (":" ++ rest), colon-append rest) refl
split-colon (String.◌∷◌ c w) rest h =
    rw (cons-append c w (":" ++ rest), h.0, split-colon w rest h.1) refl

split_word : (w : String) → NoColon w → split w ≡ w ∷ []
unfolding split
split_word String.[] h = refl
split_word (String.◌∷◌ c w) h = rw (h.0, split_word w h.1) refl

-- The ID that a repeat job gets from a hash and a time stamp without colons is parsed back into them.
pub parse-repeat_job_id :
    (hash timestamp : String)
    → NoColon hash
    → NoColon timestamp
    → parse_repeat_job_id (repeat_job_id hash timestamp) ≡ some (hash, timestamp)
unfolding parse_repeat_job_id repeat_job_id
parse-repeat_job_id hash timestamp h t =
    rw
      (
        append_assoc "repeat" ":" (hash ++ (":" ++ timestamp)),
        split-colon "repeat" (hash ++ (":" ++ timestamp))
            (refl, (refl, (refl, (refl, (refl, (refl, tt)))))),
        split-colon hash timestamp h,
        split_word timestamp t,
      )
      refl

pub is_repeat-repeat_job_id :
    (hash timestamp : String) → is_repeat_job_id (repeat_job_id hash timestamp) ≡ true
unfolding is_repeat_job_id repeat_job_id
is_repeat-repeat_job_id hash timestamp = starts_with-append "repeat:" (hash ++ (":" ++ timestamp))
