-- ===== src/Queue/Processing.antt =====
-- The life of a job: one round of the loop of `processQueue` of managers/queue/queue.go, and
-- `ScheduleJob`.
pub mod Completion
use go_blockchain_watcher.Prelude.{
  ℕ, String, ◌≡◌, ◌≢◌, refl, sym, ap, ◌∙◌, Bool, true, false, Option, none, some, List, [], ◌∷◌,
  ◌++◌, arith, ◌==◌, eq_iff, eq_refl, if◌then◌else◌,
}
use go_blockchain_watcher.Errors.{Error, Result, ok, err, Exec}
use go_blockchain_watcher.Redis.{
  Redis, RedisLaws, Command, rpush, lpush, lrem, set, Entry, absent, text, items, items_of,
  of_items, without, run_commands, put,
}
use go_blockchain_watcher.Queue.{active, completed, failed, JobData, get_bull_key, is_repeat_job_id}
use go_blockchain_watcher.Queue.Keys.{get_bull_key-ne}
use go_blockchain_watcher.Queue.Jobs.{Codec, add_job, get_job, reschedule_repeat_job}

-- The readings of the clock in a round: by `GetJob`, at the start and the end of the job, and the two
-- of `rescheduleRepeatJob`.
pub record Clock : Type 0 where
  pub got : ℕ
  pub started : ℕ
  pub finished : ℕ
  pub named : ℕ
  pub rescheduled : ℕ

-- `jobBytes, _ := json.Marshal(job)`
abbrev pub bytes_of : Result String → String
bytes_of (ok t) = t
bytes_of (err e) = ""

abbrev pub has_failed : Result (Unit {0}) → Bool
has_failed (ok _) = false
has_failed (err e) = true

abbrev pub list_of : Bool → String
list_of b = if b then "failed" else "completed"

module _ {D S : Type 0} (redis : Redis S) (codec : Codec D) where
  abbrev pub start_commands : String → String → String → List Command
  start_commands q id bytes =
      set (get_bull_key q id) bytes ∷ rpush (get_bull_key q "active") id ∷ []

  abbrev pub finish_commands : String → String → String → Bool → List Command
  finish_commands q id bytes b =
      set (get_bull_key q id) bytes
      ∷ lrem (get_bull_key q "active") id
      ∷ lpush (get_bull_key q (list_of b)) id
      ∷ []

  abbrev pub started_job : Clock → JobData D → JobData D
  started_job clock job = record job { state = active; processed_on = clock.started }

  abbrev pub finished_job : Clock → Bool → JobData D → JobData D
  finished_job clock b job = record job {
    state = if b then failed else completed;
    processed_on = clock.started;
    finished_on = clock.finished;
  }

  module _ (handler : D → Exec S (Unit {0})) (q : String) (clock : Clock) where
    -- A repeat job is not stored; an error of the rescheduling is logged.
    run_repeat_job : String → JobData D → S → S
    run_repeat_job id job s =
        (reschedule_repeat_job redis codec q id clock.named clock.rescheduled
          (handler job.payload s).1).1

    run_handled : String → JobData D → Result (Unit {0}) × S → S
    run_handled id job (r, s) =
        (redis.exec
          (finish_commands q id
            (bytes_of (codec.marshal_job (finished_job clock (has_failed r) job))) (has_failed r))
          s).1

    run_started : String → JobData D → Result (List ℕ) × S → S
    unfolding run_handled
    run_started id job (err e, t) = t
    run_started id job (ok ns, t) = run_handled id job (handler job.payload t)

    run_plain_job : String → JobData D → S → S
    unfolding run_started
    run_plain_job id job s =
        run_started id job (
          redis.exec (start_commands q id (bytes_of (codec.marshal_job (started_job clock job)))) s)

    run_job : String → Result (JobData D) × S → S
    unfolding run_repeat_job run_plain_job
    run_job id (err e, s) = s
    run_job id (ok job, s) =
        if is_repeat_job_id id then run_repeat_job id job s else run_plain_job id job s

    -- An error of BLPOP, its timeout included, starts the next round.
    run_popped : Result (Option String) × S → S
    unfolding run_job
    run_popped (err e, t) = t
    run_popped (ok none, t) = t
    run_popped (ok (some id), t) = run_job id (get_job redis codec q id clock.got t)

    pub process_queue_round : S → S
    unfolding run_popped
    process_queue_round s = run_popped (redis.blpop (get_bull_key q "wait") s)

  -- `ScheduleJob`
  pub schedule_job : String → D → D → ℕ → ℕ → ℕ → Exec S String
  schedule_job q payload options now nano later =
      add_job redis codec q payload options now nano later

pub items_of-of_items : (xs : List String) → items_of (of_items xs) ≡ xs
items_of-of_items [] = refl
items_of-of_items (x ∷ xs) = refl

pub without-append : (v : String) (xs : List String) → without v (xs ++ v ∷ []) ≡ without v xs
without-append v [] = ground (arith, eq_refl v)
without-append v (x ∷ xs) = ground (arith, without-append v xs)
