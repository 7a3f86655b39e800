-- ===== src/Queue/Processing/Completion.antt =====
-- What a round of `processQueue` of managers/queue/queue.go does to the lists of the queue.
use go_blockchain_watcher.Prelude.{
  ℕ, String, ◌≡◌, ◌≢◌, ◌⊎◌, inl, inr, refl, sym, ap, subst, if◌then◌else◌, ◌∙◌, Bool, true, false,
  Option, some, List, ◌∷◌, arith, ◌==◌, eq_iff, eq_refl,
}
use go_blockchain_watcher.Errors.{Error, Result, ok, err, Exec}
use go_blockchain_watcher.Redis.{
  Redis, RedisLaws, Entry, text, items_of, of_items, without, run_commands, put,
}
use go_blockchain_watcher.Queue.{
  JobData, JobState, completed, failed, get_bull_key, is_repeat_job_id,
}
use go_blockchain_watcher.Queue.Keys.{get_bull_key-ne}
use go_blockchain_watcher.Queue.Jobs.{Codec, get_job}
use go_blockchain_watcher.Queue.Processing.{
  Clock, has_failed, list_of, start_commands, finish_commands, started_job, finished_job,
  process_queue_round, run_popped, run_job, run_plain_job, run_started, run_handled, bytes_of,
  items_of-of_items, without-append,
}

-- The ID of a job that no list of the queue has as its name.
pub record IsPlainId (id : String) : Type 0 where
  pub wait : id ≢ "wait"
  pub active : id ≢ "active"
  pub completed : id ≢ "completed"
  pub failed : id ≢ "failed"

module _ (q id : String) (plain : IsPlainId id) where
  abbrev key : String → String
  key x = get_bull_key q x

  active-ne-wait : (key "active" == key "wait") ≡ false
  active-ne-wait = get_bull_key-ne q "active" "wait" (ground (arith, eq_iff "active" "wait"))

  wait-ne-active : (key "wait" == key "active") ≡ false
  wait-ne-active = get_bull_key-ne q "wait" "active" (ground (arith, eq_iff "wait" "active"))

  list-ne-wait : (b : Bool) → (key (list_of b) == key "wait") ≡ false
  list-ne-wait true = get_bull_key-ne q "failed" "wait" (ground (arith, eq_iff "failed" "wait"))
  list-ne-wait false =
      get_bull_key-ne q "completed" "wait" (ground (arith, eq_iff "completed" "wait"))

  list-ne-active : (b : Bool) → (key (list_of b) == key "active") ≡ false
  list-ne-active true =
      get_bull_key-ne q "failed" "active" (ground (arith, eq_iff "failed" "active"))
  list-ne-active false =
      get_bull_key-ne q "completed" "active" (ground (arith, eq_iff "completed" "active"))

  wait-ne-list : (b : Bool) → (key "wait" == key (list_of b)) ≡ false
  wait-ne-list true = get_bull_key-ne q "wait" "failed" (ground (arith, eq_iff "wait" "failed"))
  wait-ne-list false =
      get_bull_key-ne q "wait" "completed" (ground (arith, eq_iff "wait" "completed"))

  active-ne-list : (b : Bool) → (key "active" == key (list_of b)) ≡ false
  active-ne-list true =
      get_bull_key-ne q "active" "failed" (ground (arith, eq_iff "active" "failed"))
  active-ne-list false =
      get_bull_key-ne q "active" "completed" (ground (arith, eq_iff "active" "completed"))

  id-ne-list : (b : Bool) → (key id == key (list_of b)) ≡ false
  id-ne-list true = get_bull_key-ne q id "failed" plain.failed
  id-ne-list false = get_bull_key-ne q id "completed" plain.completed

  id-ne-wait : (key id == key "wait") ≡ false
  id-ne-wait = get_bull_key-ne q id "wait" plain.wait

  id-ne-active : (key id == key "active") ≡ false
  id-ne-active = get_bull_key-ne q id "active" plain.active

  active-ne-id : (key "active" == key id) ≡ false
  active-ne-id = get_bull_key-ne q "active" id (λ e. plain.active (sym e))

  list-ne-id : (b : Bool) → (key (list_of b) == key id) ≡ false
  list-ne-id true = get_bull_key-ne q "failed" id (λ e. plain.failed (sym e))
  list-ne-id false = get_bull_key-ne q "completed" id (λ e. plain.completed (sym e))

module _ {D S : Type 0} (redis : Redis S) (codec : Codec D) (view : S → String → Entry)
    (laws : RedisLaws redis view) where
  -- The lists after the two pipelines.
  moved :
      (q id start finish : String) (rest : List String) (b : Bool) (v0 v1 v2 v3 : String → Entry)
      → IsPlainId id
      → ((j : String) → v1 j ≡ put v0 (get_bull_key q "wait") (of_items rest) j)
      → ((j : String) → v2 j ≡ run_commands (start_commands redis codec q id start) v1 j)
      → ((j : String) → v3 j ≡ run_commands (finish_commands redis codec q id finish b) v2 j)
      → (items_of (v3 (get_bull_key q "wait")) ≡ rest)
        × (items_of (v3 (get_bull_key q "active"))
            ≡ without id (items_of (v0 (get_bull_key q "active"))))
        × (items_of (v3 (get_bull_key q (list_of b)))
            ≡ id ∷ items_of (v0 (get_bull_key q (list_of b))))
        × (v3 (get_bull_key q id) ≡ text finish)
  moved q id start finish rest b v0 v1 v2 v3 plain h1 h2 h3 =
      let w = get_bull_key q "wait" in
      let a = get_bull_key q "active" in
      let l = get_bull_key q (list_of b) in
      let k = get_bull_key q id in
      (
        ground (
          arith,
          h3 w,
          list-ne-wait q id plain b,
          active-ne-wait q id plain,
          id-ne-wait q id plain,
          h2 w,
          h1 w,
          eq_refl w,
          items_of-of_items rest,
        ),
        ground (
          arith,
          h3 a,
          list-ne-active q id plain b,
          id-ne-active q id plain,
          h2 a,
          h1 a,
          wait-ne-active q id plain,
          eq_refl a,
          items_of-of_items (without id (items_of (v2 a))),
          without-append id (items_of (v0 a)),
        ),
        ground (
          arith,
          h3 l,
          eq_refl l,
          active-ne-list q id plain b,
          id-ne-list q id plain b,
          h2 l,
          h1 l,
          wait-ne-list q id plain b,
        ),
        ground (arith, h3 k, list-ne-id q id plain b, active-ne-id q id plain, eq_refl k),
      )

  module _ (handler : D → Exec S (Unit {0})) (q : String) (clock : Clock) where
    -- The round of a job that is read, started, handled and finished.
    round_of_job :
        (id : String) (job : JobData D) (ns : List ℕ) (r : Result (Unit {0})) (s t u : S)
        → redis.blpop (get_bull_key q "wait") s ≡ (ok (some id), t)
        → get_job redis codec q id clock.got t ≡ (ok job, t)
        → is_repeat_job_id id ≡ false
        → redis.exec
            (start_commands redis codec q id
              (bytes_of (codec.marshal_job (started_job redis codec clock job))))
            t
          ≡ (ok ns, u)
        → handler job.payload u ≡ (r, u)
        → process_queue_round redis codec handler q clock s
          ≡ (redis.exec
              (finish_commands redis codec q id
                (bytes_of (codec.marshal_job (finished_job redis codec clock (has_failed r) job)))
                (has_failed r))
              u).1
    unfolding process_queue_round run_popped run_job run_plain_job run_started run_handled
    round_of_job id job ns r s t u popped got once started handled =
        ap (run_popped redis codec handler q clock) popped
        ∙ ap (run_job redis codec handler q clock id) got
        ∙ rw once refl
        ∙ ap (run_started redis codec handler q clock id job) started
        ∙ ap (run_handled redis codec handler q clock id job) handled

    -- The lists and the stored job after a round, in the words of the code.
    round_moves :
        (id finish : String) (job : JobData D) (ns ns' : List ℕ) (r : Result (Unit {0})) (s t u : S)
        → IsPlainId id
        → redis.blpop (get_bull_key q "wait") s ≡ (ok (some id), t)
        → get_job redis codec q id clock.got t ≡ (ok job, t)
        → is_repeat_job_id id ≡ false
        → redis.exec
            (start_commands redis codec q id
              (bytes_of (codec.marshal_job (started_job redis codec clock job))))
            t
          ≡ (ok ns, u)
        → handler job.payload u ≡ (r, u)
        → codec.marshal_job (finished_job redis codec clock (has_failed r) job) ≡ ok finish
        → (redis.exec (finish_commands redis codec q id finish (has_failed r)) u).0 ≡ ok ns'
        → let v = process_queue_round redis codec handler q clock s in
          (items_of (view s (get_bull_key q "wait"))
            ≡ id ∷ items_of (view v (get_bull_key q "wait")))
          × (items_of (view v (get_bull_key q "active"))
              ≡ without id (items_of (view s (get_bull_key q "active"))))
          × (items_of (view v (get_bull_key q (list_of (has_failed r))))
              ≡ id ∷ items_of (view s (get_bull_key q (list_of (has_failed r)))))
          × (view v (get_bull_key q id) ≡ text finish)
    round_moves id finish job ns ns' r s t u plain popped got once started handled encoded done =
        let start = bytes_of (codec.marshal_job (started_job redis codec clock job)) in
        let (rest, first, w1) =
          laws.blpop_ok (get_bull_key q "wait") id s
            (ap (λ (x : Result (Option String) × S). x.0) popped) in
        let (_, w2) =
          laws.exec_ok (start_commands redis codec q id start) t ns
            (ap (λ (x : Result (List ℕ) × S). x.0) started) in
        let (_, w3) =
          laws.exec_ok (finish_commands redis codec q id finish (has_failed r)) u ns' done in
        let same = round_of_job id job ns r s t u popped got once started handled in
        let (a, b, c, d) =
          moved q id start finish rest (has_failed r) (view s) (view t) (view u)
            (view (redis.exec (finish_commands redis codec q id finish (has_failed r)) u).1) plain
            (λ j. ap (λ (x : Result (Option String) × S). view x.1 j) (sym popped) ∙ w1 j)
            (λ j. ap (λ (x : Result (List ℕ) × S). view x.1 j) (sym started) ∙ w2 j) w3 in
        rw same (rw encoded (first ∙ ap (λ x. id ∷ x) (sym a), b, c, d))

    -- The state and the list of a job that has ended.
    outcome :
        (r : Result (Unit {0})) (state : JobState) (list : String)
        → ((r ≡ ok tt) × (state ≡ completed) × (list ≡ "completed"))
          ⊎ ((e : Error) × (r ≡ err e) × (state ≡ failed) × (list ≡ "failed"))
        → (list_of (has_failed r) ≡ list) × ((if has_failed r then failed else completed) ≡ state)
    outcome r state list h = elim h [
      | inl (x, y, z) ↦ (
        ap (λ (r : Result (Unit {0})). list_of (has_failed r)) x ∙ sym z,
        ap (λ (r : Result (Unit {0})). if has_failed r then failed else completed) x ∙ sym y,
      )
      | inr (e, x, y, z) ↦ (
        ap (λ (r : Result (Unit {0})). list_of (has_failed r)) x ∙ sym z,
        ap (λ (r : Result (Unit {0})). if has_failed r then failed else completed) x ∙ sym y,
      )
    ]

    -- A round of `processQueue` that takes a job that is not repeated, and whose ID is none of wait,
    -- active, completed and failed, from the list of those that wait, and in which Redis and the
    -- encoder answer and the handler leaves the queue alone, takes the first ID from the waiting list
    -- and, if the handler succeeds, puts it first in the list of the completed jobs, and stores the
    -- job as completed; if it fails, it does so with the failed ones, and stores the job as failed.
    -- The job is stored with the times at which the handler started and finished; the active list
    -- has lost its entries of this ID only.
    pub process_queue_round_moves :
        (id finish list : String) (state : JobState) (job : JobData D) (ns ns' : List ℕ)
        (r : Result (Unit {0})) (s t u : S)
        → IsPlainId id
        → redis.blpop (get_bull_key q "wait") s ≡ (ok (some id), t)
        → get_job redis codec q id clock.got t ≡ (ok job, t)
        → is_repeat_job_id id ≡ false
        → redis.exec
            (start_commands redis codec q id
              (bytes_of (codec.marshal_job (started_job redis codec clock job))))
            t
          ≡ (ok ns, u)
        → handler job.payload u ≡ (r, u)
        → ((r ≡ ok tt) × (state ≡ completed) × (list ≡ "completed"))
          ⊎ ((e : Error) × (r ≡ err e) × (state ≡ failed) × (list ≡ "failed"))
        → codec.marshal_job (record job {
          state = state;
          processed_on = clock.started;
          finished_on = clock.finished;
        })
          ≡ ok finish
        → (redis.exec (finish_commands redis codec q id finish (has_failed r)) u).0 ≡ ok ns'
        → let v = process_queue_round redis codec handler q clock s in
          (items_of (view s (get_bull_key q "wait"))
            ≡ id ∷ items_of (view v (get_bull_key q "wait")))
          × (items_of (view v (get_bull_key q "active"))
              ≡ without id (items_of (view s (get_bull_key q "active"))))
          × (items_of (view v (get_bull_key q list)) ≡ id ∷ items_of (view s (get_bull_key q list)))
          × (view v (get_bull_key q id) ≡ text finish)
    process_queue_round_moves id finish list state job ns ns' r s t u plain popped got once started
          handled ended encoded done =
        let (same_list, same_state) = outcome r state list ended in
        let v = process_queue_round redis codec handler q clock s in
        subst
          (λ (l : String).
            (items_of (view s (get_bull_key q "wait"))
              ≡ id ∷ items_of (view v (get_bull_key q "wait")))
            × (items_of (view v (get_bull_key q "active"))
                ≡ without id (items_of (view s (get_bull_key q "active"))))
            × (items_of (view v (get_bull_key q l)) ≡ id ∷ items_of (view s (get_bull_key q l)))
            × (view v (get_bull_key q id) ≡ text finish))
          same_list
          (round_moves id finish job ns ns' r s t u plain popped got once started handled
            (ap
                (λ (x : JobState). codec.marshal_job (record job {
                  state = x;
                  processed_on = clock.started;
                  finished_on = clock.finished;
                }))
                same_state
              ∙ encoded)
            done)
