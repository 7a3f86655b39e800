-- ===== src/Queue/Examples.antt =====
-- The theorems on the queues (managers/queue/queue.go) at a Redis server in memory and a small
-- encoder, whose payloads are Booleans.
use Prim.Native.String.{◌++◌}
use go_blockchain_watcher.Prelude.{
  ℕ, arith, eq_iff, zero, suc, String, ◌≡◌, ◌≢◌, refl, Bool, true, false, some, inl, [], ◌∷◌, ◌==◌,
  if◌then◌else◌,
}
use go_blockchain_watcher.Errors.{Exec, Error, errors_new, ok, err}
use go_blockchain_watcher.Map.{Map}
use go_blockchain_watcher.Values.{ℤ, pos}
use go_blockchain_watcher.Redis.{items_of, without, absent, text, items}
use go_blockchain_watcher.Redis.Memory.{Memory, memory, entry, memory-RedisLaws}
use go_blockchain_watcher.Queue.{
  JobData, completed, get_bull_key, get_repeat_job_key, is_repeat_job_id, parse_repeat_job_id,
  repeat_job_id,
}
use go_blockchain_watcher.Queue.Jobs.{
  Codec, no_repeat, every, waiting_job, synthetic_job, generate_hash, add_job, job_id_of, get_job,
  reschedule_repeat_job, reschedule_parsed,
}
use go_blockchain_watcher.Queue.Processing.{
  Clock, process_queue_round, start_commands, started_job, bytes_of,
}
use go_blockchain_watcher.Queue.Processing.Completion.{IsPlainId, process_queue_round_moves}
use go_blockchain_watcher.Queue.Adding.{get_job-add_job, add_job_unseen}
use go_blockchain_watcher.Queue.Repeat.{reschedule_once, get_job-add_repeat_job}
use go_blockchain_watcher.Queue.Status.{get_queue_status, clear_queue, clear_queue_lem}

abbrev strokes : ℕ → String
strokes zero = ""
strokes (suc n) = "1" ++ strokes n

abbrev word : ℤ → String
word n = "f0"

-- The encoder writes the ID, and the decoder makes the job of this ID.
abbrev small : Codec Bool
small = record {
  marshal_job = λ j. ok j.id;
  unmarshal_job = λ t. ok (waiting_job t "mail" true false 5 "");
  marshal_repeat = λ d. ok d.id;
  unmarshal_repeat = λ t.
      ok record { id = t; queue_name = "mail"; payload = true; name = ""; opts = true; every = 60 };
  unmarshal_map = λ t. err (errors_new "no map");
  empty_map = false;
  repeat_option = λ o. if o then every 60 else no_repeat;
  decimal = strokes;
  hexadecimal = word;
  hashed_bytes = λ q d. 109 ∷ 97 ∷ [];
}

abbrev nothing : Memory
nothing j = absent

added_mail : (add_job memory small "mail" true false 2 3 5 nothing).0 ≡ ok "111"
unfolding add_job job_id_of
added_mail = refl

stored_mail :
    memory.get (get_bull_key "mail" "111") (add_job memory small "mail" true false 2 3 5 nothing).1
    ≡ ok (some "111")
unfolding add_job job_id_of get_bull_key
stored_mail = refl

get_job-add_job_example :
    (get_job memory small "mail" "111" 9 (add_job memory small "mail" true false 2 3 5 nothing).1).0
    ≡ ok (waiting_job "111" "mail" true false 5 "")
get_job-add_job_example =
    get_job-add_job memory small entry memory-RedisLaws "mail" true false 2 3 5 9 "111" nothing
      decoded refl (unfold is_repeat_job_id in refl) added_mail (some "111") stored_mail
  where
    decoded :
        (t : String)
        → small.marshal_job (waiting_job (small.decimal 3) "mail" true false 5 "") ≡ ok t
        → small.unmarshal_job t ≡ ok (waiting_job (small.decimal 3) "mail" true false 5 "")
    decoded t h = ground (arith, h)

add_job_unseen_example :
    (add_job memory small "mail" true false 2 3 5 nothing).1 "mail" ≡ nothing "mail"
add_job_unseen_example =
    add_job_unseen memory small entry memory-RedisLaws "mail" true false 2 3 5 "111" nothing
      added_mail

-- The definition of the repeat job "repeat:f0:11".
abbrev defined : Memory
defined j = if get_repeat_job_key "mail" "repeat:f0:11" == j then text "d" else absent

reschedule_once_example :
    (e : Error) × (reschedule_repeat_job memory small "mail" "repeat:f0:111" 4 4
        (reschedule_repeat_job memory small "mail" (repeat_job_id "f0" "11") 3 3 defined).1
      ≡ (
        err e,
        (reschedule_repeat_job memory small "mail" (repeat_job_id "f0" "11") 3 3 defined).1,
      ))
reschedule_once_example =
    reschedule_once memory small entry memory-RedisLaws "mail" "f0" "11" "repeat:f0:111" 3 3 4 4
      defined (refl, (refl, tt)) (refl, (refl, tt)) (refl, (refl, (refl, tt)))
      (unfold get_repeat_job_key repeat_job_id in refl) rescheduled
  where
    rescheduled :
        (reschedule_repeat_job memory small "mail" (repeat_job_id "f0" "11") 3 3 defined).0
        ≡ ok "repeat:f0:111"
    rescheduled =
        unfold reschedule_repeat_job reschedule_parsed get_repeat_job_key repeat_job_id
          parse_repeat_job_id in
        refl

get_job-add_repeat_job_example :
    (get_job memory small "mail" "repeat:f0:11" 9
      (add_job memory small "mail" true true 2 3 5 nothing).1).0
    ≡ ok (synthetic_job memory small "mail" "repeat:f0:11" 9)
get_job-add_repeat_job_example =
    get_job-add_repeat_job memory small entry memory-RedisLaws "mail" true true 2 3 5 9 60
      "repeat:f0:11" [] nothing (unfold generate_hash in (refl, (refl, tt))) (refl, (refl, tt)) refl
      refl (unfold add_job job_id_of repeat_job_id generate_hash in refl)
      (unfold add_job job_id_of repeat_job_id generate_hash get_bull_key get_repeat_job_key in refl)

-- A queue with two jobs that wait.
abbrev busy : Memory
busy j = if get_bull_key "mail" "wait" == j then items ("1" ∷ "2" ∷ []) else absent

clear_queue_lem_example :
    let t = (clear_queue memory "mail" busy).1 in
    (t (get_bull_key "mail" "wait") ≡ absent)
    × (t (get_bull_key "mail" "active") ≡ absent)
    × (t (get_bull_key "mail" "completed") ≡ absent)
    × (t (get_bull_key "mail" "failed") ≡ absent)
    × (t (get_bull_key "mail" "delayed") ≡ absent)
    × (t (get_bull_key "mail" "stalled") ≡ absent)
    × ((j : String)
        → j ≢ get_bull_key "mail" "wait"
        → j ≢ get_bull_key "mail" "active"
        → j ≢ get_bull_key "mail" "completed"
        → j ≢ get_bull_key "mail" "failed"
        → j ≢ get_bull_key "mail" "delayed"
        → j ≢ get_bull_key "mail" "stalled"
        → t j ≡ busy j)
    × ((m : Map ℤ)
        → (get_queue_status memory "mail" t).0 ≡ ok m
        → m
          ≡ ("waiting", pos 0)
            ∷ ("active", pos 0)
            ∷ ("completed", pos 0)
            ∷ ("failed", pos 0)
            ∷ ("delayed", pos 0)
            ∷ ("total", pos 0)
            ∷ [])
clear_queue_lem_example =
    clear_queue_lem memory entry memory-RedisLaws "mail" busy (unfold clear_queue in refl)

-- A queue with one job that waits.
abbrev waits : Memory
waits j =
    if get_bull_key "mail" "wait" == j
    then items ("111" ∷ [])
    else if get_bull_key "mail" "111" == j
    then text "111"
    else absent

abbrev taken : Memory
taken = (memory.blpop (get_bull_key "mail" "wait") waits).1

abbrev mail : JobData Bool
mail = waiting_job "111" "mail" true false 5 ""

abbrev clock : Clock
clock = record { got = 9; started = 10; finished = 11; named = 12; rescheduled = 13 }

abbrev begun : Memory
begun =
    (memory.exec
      (start_commands memory small "mail" "111"
        (bytes_of (small.marshal_job (started_job memory small clock mail))))
      taken).1

abbrev sends : Bool → Exec Memory (Unit {0})
sends d s = (ok tt, s)

process_queue_round_moves_example :
    let v = process_queue_round memory small sends "mail" clock waits in
    (items_of (waits (get_bull_key "mail" "wait"))
      ≡ "111" ∷ items_of (v (get_bull_key "mail" "wait")))
    × (items_of (v (get_bull_key "mail" "active"))
        ≡ without "111" (items_of (waits (get_bull_key "mail" "active"))))
    × (items_of (v (get_bull_key "mail" "completed"))
        ≡ "111" ∷ items_of (waits (get_bull_key "mail" "completed")))
    × (v (get_bull_key "mail" "111") ≡ text "111")
process_queue_round_moves_example =
    process_queue_round_moves memory small entry memory-RedisLaws sends "mail" clock "111" "111"
      "completed" completed mail [] [] (ok tt) waits taken begun plain (unfold get_bull_key in refl)
      (unfold get_job is_repeat_job_id get_bull_key in refl) (unfold is_repeat_job_id in refl) refl
      refl (inl (refl, refl, refl)) refl refl
  where
    plain : IsPlainId "111"
    plain = record {
      wait = ground (arith, eq_iff "111" "wait");
      active = ground (arith, eq_iff "111" "active");
      completed = ground (arith, eq_iff "111" "completed");
      failed = ground (arith, eq_iff "111" "failed");
    }
