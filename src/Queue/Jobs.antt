-- ===== src/Queue/Jobs.antt =====
-- The queue manager of managers/queue/queue.go: adding, reading, rescheduling and consuming jobs.
use Prim.Native.String.{◌++◌}
use go_blockchain_watcher.Prelude.{
  ℕ, ◌+◌, ◌*◌, ◌%◌, ◌^◌, String, Bool, Option, none, some, List, [], ◌∷◌, ◌==◌, if◌then◌else◌,
}
use go_blockchain_watcher.Errors.{
  Error, errors_new, errorf, Result, ok, err, Exec, pure, fail, read, wrap, ◌>>=◌, ◌>>◌,
}
use go_blockchain_watcher.Map.{Map, lookup, is_empty}
use go_blockchain_watcher.Values.{ℤ, signed}
use go_blockchain_watcher.Redis.{Redis, Command, rpush, set, publish}
use go_blockchain_watcher.Queue.{
  waiting, JobData, BullRepeatData, get_bull_key, get_repeat_job_key, is_repeat_job_id,
  parse_repeat_job_id, repeat_job_id,
}

-- `opts["repeat"]`: no map, a map whose "every" is a number, or one where the conversion panics.
pub data RepeatOption : Type 0 where
  no_repeat : RepeatOption
  every : ℕ → RepeatOption
  every_missing : RepeatOption

-- The JSON encoder and decoder at the types of this file, the printing of numbers and of the hashed
-- text, and the reading of the options.
pub record Codec (D : Type 0) : Type 0 where
  pub marshal_job : JobData D → Result String
  pub unmarshal_job : String → Result (JobData D)
  pub marshal_repeat : BullRepeatData D → Result String
  pub unmarshal_repeat : String → Result (BullRepeatData D)
  pub unmarshal_map : String → Result D
  pub empty_map : D
  pub repeat_option : D → RepeatOption
  pub decimal : ℕ → String
  pub hexadecimal : ℤ → String
  pub hashed_bytes : String → D → List ℕ

-- `int` arithmetic on 64 bits, by the bit pattern.
unfoldable pub hash_loop : ℕ → List ℕ → ℕ
hash_loop hash [] = hash
hash_loop hash (b ∷ bs) = hash_loop ((31 * hash + b) % 2 ^ 64) bs

-- `generateHash`
unfoldable pub generate_hash : {D : Type 0} → Codec D → String → D → String
unfolding hash_loop signed
generate_hash codec queue_name payload =
    codec.hexadecimal (signed (hash_loop 0 (codec.hashed_bytes queue_name payload)))

-- How a round of a worker ends.
pub data Round (D : Type 0) : Type 0 where
  stops : Round D
  skips : Round D
  handles : D → Round D

abbrev pub waiting_job : {D : Type 0} → String → String → D → D → ℕ → String → JobData D
waiting_job id queue_name payload opts now name = record {
  id = id;
  queue_name = queue_name;
  payload = payload;
  opts = opts;
  timestamp = now;
  processed_on = 0;
  finished_on = 0;
  attempts = 1;
  state = waiting;
  name = name;
}

name_field : Map String → String
name_field fields = elim (lookup "name" fields) [ none ↦ "" | some t ↦ t ]

module _ {D S : Type 0} (redis : Redis S) (codec : Codec D) where
  abbrev pub repeat_definition : String → String → D → D → ℕ → BullRepeatData D
  repeat_definition job_id queue_name payload opts n = record {
    id = job_id;
    queue_name = queue_name;
    payload = payload;
    name = "";
    opts = opts;
    every = n;
  }

  -- The ID, after the definition of a repeat job has been stored. `now` is the time in seconds,
  -- `nano` that in nanoseconds.
  unfoldable pub job_id_of : String → D → D → ℕ → ℕ → RepeatOption → Exec S String
  job_id_of queue_name payload opts now nano no_repeat = pure (codec.decimal nano)
  job_id_of queue_name payload opts now nano every_missing =
      fail (errors_new "panic: interface conversion")
  job_id_of queue_name payload opts now nano (every n) = do
    let job_id = repeat_job_id (generate_hash codec queue_name payload) (codec.decimal now)
    bytes ←
        wrap "failed to marshal repeat job"
          (read (λ _. codec.marshal_repeat (repeat_definition job_id queue_name payload opts n)))
    wrap "failed to store repeat job" (redis.set (get_repeat_job_key queue_name job_id) bytes)
    pure job_id

  -- The pipeline that adds a job.
  abbrev pub add_commands : String → String → String → List Command
  add_commands queue_name job_id bytes =
      rpush (get_bull_key queue_name "wait") job_id
      ∷ set (get_bull_key queue_name job_id) bytes
      ∷ publish (get_bull_key queue_name "events") "added"
      ∷ []

  -- `AddJob`; `later` is the second reading of the clock.
  unfoldable pub add_job : String → D → D → ℕ → ℕ → ℕ → Exec S String
  add_job queue_name payload opts now nano later = do
    job_id ← job_id_of queue_name payload opts now nano (codec.repeat_option opts)
    bytes ←
        wrap "failed to marshal job"
          (read (λ _. codec.marshal_job (waiting_job job_id queue_name payload opts later "")))
    wrap "failed to execute Redis pipeline" (redis.exec (add_commands queue_name job_id bytes))
    pure job_id

  -- A field of the hash: a missing, empty or unreadable one is the empty map.
  map_field : Map String → String → D
  map_field fields key = elim (lookup key fields) [
    | none ↦ codec.empty_map
    | some t ↦
        if t == ""
        then codec.empty_map
        else elim (codec.unmarshal_map t) [ ok d ↦ d | err e ↦ codec.empty_map ]
  ]

  abbrev pub synthetic_job : String → String → ℕ → JobData D
  synthetic_job queue_name job_id now =
      waiting_job job_id queue_name codec.empty_map codec.empty_map now ""

  -- The fallback on GET, after HGETALL has failed.
  unfoldable pub job_of_json : String → String → ℕ → Result (Option String) → Result (JobData D)
  job_of_json queue_name job_id now (err e) = err (errorf "failed to get repeat job" e)
  job_of_json queue_name job_id now (ok none) = ok (synthetic_job queue_name job_id now)
  job_of_json queue_name job_id now (ok (some json)) = elim (codec.unmarshal_repeat json) [
    | err e ↦ ok (synthetic_job queue_name job_id now)
    | ok d ↦ ok (waiting_job job_id queue_name d.payload d.opts now d.name)
  ]

  unfoldable pub job_of_fields : String → String → ℕ → Map String → JobData D
  unfolding map_field name_field
  job_of_fields queue_name job_id now fields =
      if is_empty fields
      then synthetic_job queue_name job_id now
      else waiting_job job_id queue_name (map_field fields "data") (map_field fields "opts") now
          (name_field fields)

  -- `getRepeatJob` after the parsing of the ID.
  unfoldable pub get_parsed : String → String → ℕ → Option (String × String) → Exec S (JobData D)
  unfolding job_of_json job_of_fields
  get_parsed queue_name job_id now none s = (err (errors_new "invalid repeat job ID format"), s)
  get_parsed queue_name job_id now (some (hash, timestamp)) s =
      let key = get_bull_key queue_name ("repeat:" ++ hash) in
      elim (redis.hgetall key s) [
        | err e ↦ (job_of_json queue_name job_id now (redis.get key s), s)
        | ok fields ↦ (ok (job_of_fields queue_name job_id now fields), s)
      ]

  unfoldable pub get_repeat_job : String → String → ℕ → Exec S (JobData D)
  get_repeat_job queue_name job_id now =
      get_parsed queue_name job_id now (parse_repeat_job_id job_id)

  -- `redis.Nil` becomes an error of its own.
  decode_job : Option String → Exec S (JobData D)
  decode_job none = fail (errors_new "job not found")
  decode_job (some json) = wrap "failed to unmarshal job" (read (λ _. codec.unmarshal_job json))

  unfoldable pub get_job : String → String → ℕ → Exec S (JobData D)
  unfolding get_repeat_job decode_job
  get_job queue_name job_id now =
      if is_repeat_job_id job_id then get_repeat_job queue_name job_id now else do
        json ← wrap "failed to get job" (read (redis.get (get_bull_key queue_name job_id)))
        decode_job json

  -- The error of `redis.Nil` is wrapped here.
  decode_repeat : Option String → Exec S (BullRepeatData D)
  decode_repeat none = fail (errorf "failed to get repeat job" (errors_new "redis: nil"))
  decode_repeat (some json) =
      wrap "failed to unmarshal repeat job" (read (λ _. codec.unmarshal_repeat json))

  abbrev pub reschedule_commands : String → String → String → List Command
  reschedule_commands queue_name job_id bytes =
      rpush (get_bull_key queue_name "wait") job_id
      ∷ set (get_bull_key queue_name job_id) bytes
      ∷ []

  -- `rescheduleRepeatJob` after the parsing of the ID; the result is the new ID, which the source only
  -- logs.
  unfoldable pub reschedule_parsed :
      String → String → ℕ → ℕ → Option (String × String) → Exec S String
  unfolding decode_repeat
  reschedule_parsed queue_name job_id now later none =
      fail (errors_new "invalid repeat job ID format")
  reschedule_parsed queue_name job_id now later (some (hash, timestamp)) = do
    json ← wrap "failed to get repeat job" (read (redis.get (get_repeat_job_key queue_name job_id)))
    repeat_job ← decode_repeat json
    let new_job_id = repeat_job_id hash (codec.decimal now)
    let job = waiting_job new_job_id queue_name repeat_job.payload repeat_job.opts later ""
    bytes ← wrap "failed to marshal job" (read (λ _. codec.marshal_job job))
    wrap "failed to execute Redis pipeline"
        (redis.exec (reschedule_commands queue_name new_job_id bytes))
    pure new_job_id

  unfoldable pub reschedule_repeat_job : String → String → ℕ → ℕ → Exec S String
  reschedule_repeat_job queue_name job_id now later =
      reschedule_parsed queue_name job_id now later (parse_repeat_job_id job_id)

  -- What a worker does with the value that it popped.
  consume : Option (D → Result (Unit {0})) → Option String → Round D
  consume handler none = skips
  consume handler (some value) = elim (codec.unmarshal_map value) [
    | err e ↦ skips
    | ok payload ↦ elim handler [ none ↦ skips | some h ↦ handles payload ]
  ]

  -- One round of a worker of `ProcessJobs`: BLPOP with no timeout, on the key that is the queue's
  -- bare name. An error of the handler is only logged.
  pub process_round : (Error → Bool) → Option (D → Result (Unit {0})) → String → S → Round D × S
  unfolding consume
  process_round is_cancelled handler queue_name s =
      let (r, t) = redis.blpop queue_name s in
      elim r [
        | err e ↦ (if is_cancelled e then stops else skips, t)
        | ok value ↦ (consume handler value, t)
      ]
