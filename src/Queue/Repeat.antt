-- ===== src/Queue/Repeat.antt =====
-- Repeat jobs of managers/queue/queue.go: their hashes, and what `GetJob` and `rescheduleRepeatJob`
-- find of the definition that `AddJob` has stored.
use Prim.Native.String.{◌++◌}
use go_blockchain_watcher.Prelude.{
  ℕ, ◌+◌, ◌*◌, ◌%◌, ◌^◌, String, ◌≡◌, refl, sym, ap, subst, ◌∙◌, Option, none, some, List, [], ◌∷◌,
  arith, inl, inr,
}
use go_blockchain_watcher.Errors.{Error, errors_new, errorf, ok, err, Result-cases, err-ne-ok, Exec}
use go_blockchain_watcher.Map.{Map}
use go_blockchain_watcher.Redis.{Redis, RedisLaws, Entry, absent, text, run_commands, put}
use go_blockchain_watcher.Queue.{
  get_bull_key, get_repeat_job_key, repeat_job_id, NoColon, parse-repeat_job_id,
  is_repeat-repeat_job_id,
}
use go_blockchain_watcher.Queue.Keys.{
  get_bull_key-ne, get_repeat_job_key_lem, wait-ne-repeat, id-ne-repeat_id,
  repeat_job_id-ne-repeat_hash, repeat_id-ne-repeat_hash,
}
use go_blockchain_watcher.Queue.Jobs.{
  Codec, every, waiting_job, generate_hash, hash_loop, add_job, get_job, get_repeat_job,
  synthetic_job, job_of_fields, reschedule_repeat_job, reschedule_parsed, get_parsed, add_commands,
  reschedule_commands,
}
use go_blockchain_watcher.Queue.Adding.{added, view-job_id_of, job_id_of_cases}

-- The polynomial without overflow.
abbrev pub polynomial : ℕ → List ℕ → ℕ
polynomial h [] = h
polynomial h (b ∷ bs) = polynomial (31 * h + b) bs

-- The loop of `generateHash`, started from a number reduced modulo 2^64, computes the polynomial of
-- the bytes at 31, modulo 2^64.
pub hash_loop-polynomial :
    (h : ℕ) (bs : List ℕ) → hash_loop (h % 2 ^ 64) bs ≡ polynomial h bs % 2 ^ 64
unfolding hash_loop
hash_loop-polynomial h [] = refl
hash_loop-polynomial h (b ∷ bs) =
    ap (λ x. hash_loop x bs) (omega arith) ∙ hash_loop-polynomial (31 * h + b) bs

module _ {D S : Type 0} (redis : Redis S) (codec : Codec D) (view : S → String → Entry)
    (laws : RedisLaws redis view) where
  -- A GET of a key that holds nothing gives no text.
  get_absent :
      (k : String) (s : S) (v : Option String) → view s k ≡ absent → redis.get k s ≡ ok v → v ≡ none
  get_absent k s none h e = refl
  get_absent k s (some x) h e = ground (arith, h, laws.get_ok k s (some x) e)

  hgetall_absent :
      (k : String) (s : S) (m : Map String) → view s k ≡ absent → redis.hgetall k s ≡ ok m → m ≡ []
  hgetall_absent k s m h e = ground (arith, h, laws.hgetall_ok k s m e)

  reschedule_parsed_lem :
      (q h t : String) (now later : ℕ)
      → NoColon h
      → NoColon t
      → reschedule_repeat_job redis codec q (repeat_job_id h t) now later
        ≡ reschedule_parsed redis codec q (repeat_job_id h t) now later (some (h, t))
  unfolding reschedule_repeat_job
  reschedule_parsed_lem q h t now later hh ht =
      ap (λ o. reschedule_parsed redis codec q (repeat_job_id h t) now later o)
        (parse-repeat_job_id h t hh ht)

  -- What a rescheduling that succeeds stores.
  parsed_rescheduled :
      (q i h t id : String) (now later : ℕ) (s : S)
      → (reschedule_parsed redis codec q i now later (some (h, t)) s).0 ≡ ok id
      → (bytes : String) × (id ≡ repeat_job_id h (codec.decimal now))
        × ((j : String)
            → view (reschedule_parsed redis codec q i now later (some (h, t)) s).1 j
              ≡ run_commands (reschedule_commands redis codec q id bytes) (view s) j)
  unfolding reschedule_parsed
  parsed_rescheduled q i h t id now later s done =
      elim (Result-cases (redis.get (get_repeat_job_key q i) s)) [
        | inl (none, g) ↦ absurd (err-ne-ok (rw g at done))
        | inl (some json, g) ↦ elim (Result-cases (codec.unmarshal_repeat json)) [
          | inl (d, c) ↦
              elim (Result-cases
                (codec.marshal_job (waiting_job made q d.payload d.opts later ""))) [
                  | inl (bytes, m) ↦
                      elim (Result-cases
                        (redis.exec (reschedule_commands redis codec q made bytes) s).0) [
                          | inl (ns, x) ↦
                              let same : id ≡ made = ground (arith, rw (g, c, m, x) at done) in
                              (
                                bytes,
                                same,
                                λ j.
                                    rw (g, c, m, x, same)
                                      ((laws.exec_ok (reschedule_commands redis codec q made bytes)
                                          s ns x).1
                                        j),
                              )
                          | inr (y, x) ↦ absurd (err-ne-ok (rw (g, c, m, x) at done))
                        ]
                  | inr (y, m) ↦ absurd (err-ne-ok (rw (g, c, m) at done))
                ]
          | inr (y, c) ↦ absurd (err-ne-ok (rw (g, c) at done))
        ]
        | inr (y, g) ↦ absurd (err-ne-ok (rw g at done))
      ]
    where
      made : String
      made = repeat_job_id h (codec.decimal now)

  -- Without a definition under the ID's own key, rescheduling fails and changes nothing.
  parsed_missing :
      (q i h t : String) (now later : ℕ) (s : S)
      → view s (get_repeat_job_key q i) ≡ absent
      → (e : Error) × (reschedule_parsed redis codec q i now later (some (h, t)) s ≡ (err e, s))
  unfolding reschedule_parsed
  parsed_missing q i h t now later s gone =
      elim (Result-cases (redis.get (get_repeat_job_key q i) s)) [
        | inl (v, x) ↦ (
          errorf "failed to get repeat job" (errors_new "redis: nil"),
          rw (x, get_absent (get_repeat_job_key q i) s v gone x) refl,
        )
        | inr (y, x) ↦ (errorf "failed to get repeat job" y, rw x refl)
      ]

  -- A repeat job runs on for one more round only: `rescheduleRepeatJob` stores the definition under no
  -- new key, so that the job with the ID that it has made cannot be rescheduled itself, unless a
  -- definition with that ID was there before.
  pub reschedule_once :
      (q h t id : String) (now later now' later' : ℕ) (s : S)
      → NoColon h
      → NoColon t
      → NoColon (codec.decimal now)
      → view s (get_repeat_job_key q (repeat_job_id h (codec.decimal now))) ≡ absent
      → (reschedule_repeat_job redis codec q (repeat_job_id h t) now later s).0 ≡ ok id
      → (e : Error) × (reschedule_repeat_job redis codec q id now' later'
            (reschedule_repeat_job redis codec q (repeat_job_id h t) now later s).1
          ≡ (err e, (reschedule_repeat_job redis codec q (repeat_job_id h t) now later s).1))
  reschedule_once q h t id now later now' later' s hh ht hn gone done =
      let e1 = reschedule_parsed_lem q h t now later hh ht in
      let made = repeat_job_id h (codec.decimal now) in
      let e2 = reschedule_parsed_lem q h (codec.decimal now) now' later' hh hn in
      let (bytes, same, w) =
        parsed_rescheduled q (repeat_job_id h t) h t id now later s
          (ap (λ (f : Exec S String). (f s).0) (sym e1) ∙ done) in
      let u = (reschedule_repeat_job redis codec q (repeat_job_id h t) now later s).1 in
      let v = (reschedule_parsed redis codec q (repeat_job_id h t) now later (some (h, t)) s).1 in
      let u≡v : u ≡ v = ap (λ (f : Exec S String). (f s).1) e1 in
      let left : view v (get_repeat_job_key q made) ≡ absent =
        w (get_repeat_job_key q made)
        ∙ rw
            (
              same,
              get_repeat_job_key_lem q made,
              get_bull_key-ne q made ("repeat:" ++ made) (id-ne-repeat_id made),
              get_bull_key-ne q "wait" ("repeat:" ++ made) (wait-ne-repeat made),
            )
            (ap (view s) (sym (get_repeat_job_key_lem q made)) ∙ gone) in
      let (e, p) =
        parsed_missing q made h (codec.decimal now) now' later' u
          (ap (λ x. view x (get_repeat_job_key q made)) u≡v ∙ left) in
      (
        e,
        subst (λ i. reschedule_repeat_job redis codec q i now' later' u ≡ (err e, u)) (sym same)
            (ap (λ (f : Exec S String). f u) e2 ∙ p),
      )

  get_parsed_unknown :
      (q i h t : String) (after : ℕ) (s : S)
      → redis.hgetall (get_bull_key q ("repeat:" ++ h)) s ≡ ok []
      → (get_parsed redis codec q i after (some (h, t)) s).0
        ≡ ok (synthetic_job redis codec q i after)
  unfolding get_parsed job_of_fields
  get_parsed_unknown q i h t after s answered = rw (answered, get_parsed) refl

  -- `GetJob` of a repeat job whose hash has no entry.
  get_job_unknown :
      (q h t : String) (after : ℕ) (s : S)
      → NoColon h
      → NoColon t
      → redis.hgetall (get_bull_key q ("repeat:" ++ h)) s ≡ ok []
      → (get_job redis codec q (repeat_job_id h t) after s).0
        ≡ ok (synthetic_job redis codec q (repeat_job_id h t) after)
  unfolding get_job get_repeat_job
  get_job_unknown q h t after s hh ht answered = rw (is_repeat-repeat_job_id h t) (
      ap (λ o. (get_parsed redis codec q (repeat_job_id h t) after o s).0)
        (parse-repeat_job_id h t hh ht)
      ∙ get_parsed_unknown q (repeat_job_id h t) h t after s answered)

  -- None of the keys that `AddJob` writes for a repeat job is the key of the hash.
  add_commands-hash :
      (q h t bytes def : String) (s u : S)
      → ((j : String)
          → view u j ≡ put (view s) (get_repeat_job_key q (repeat_job_id h t)) (text def) j)
      → run_commands
          (add_commands redis codec q (repeat_job_id h t) bytes)
          (view u)
          (get_bull_key q ("repeat:" ++ h))
        ≡ view s (get_bull_key q ("repeat:" ++ h))
  add_commands-hash q h t bytes def s u x =
      rw
        (
          x (get_bull_key q ("repeat:" ++ h)),
          get_repeat_job_key_lem q (repeat_job_id h t),
          get_bull_key-ne q (repeat_job_id h t) ("repeat:" ++ h) (repeat_job_id-ne-repeat_hash h t),
          get_bull_key-ne q "wait" ("repeat:" ++ h) (wait-ne-repeat h),
          get_bull_key-ne q ("repeat:" ++ repeat_job_id h t) ("repeat:" ++ h)
              (repeat_id-ne-repeat_hash h t),
        )
        refl

  -- The payload of a repeat job is lost: `AddJob` stores the definition under the whole ID, and
  -- `GetJob` reads the key of the hash alone. When that key held nothing before, and Redis answers the
  -- HGETALL, `GetJob` gives a job with the ID of the added one, the empty payload and the empty options.
  pub get_job-add_repeat_job :
      (q : String) (payload opts : D) (now nano later after n : ℕ) (id : String) (m : Map String)
      (s : S)
      → NoColon (generate_hash codec q payload)
      → NoColon (codec.decimal now)
      → codec.repeat_option opts ≡ every n
      → view s (get_bull_key q ("repeat:" ++ generate_hash codec q payload)) ≡ absent
      → (add_job redis codec q payload opts now nano later s).0 ≡ ok id
      → redis.hgetall
          (get_bull_key q ("repeat:" ++ generate_hash codec q payload))
          (add_job redis codec q payload opts now nano later s).1
        ≡ ok m
      → (get_job redis codec q id after (add_job redis codec q payload opts now nano later s).1).0
        ≡ ok (synthetic_job redis codec q id after)
  get_job-add_repeat_job q payload opts now nano later after n id m s hh hn repeats gone done
        answered =
      let (made, u, e) =
        job_id_of_cases redis codec view laws q payload opts now nano later id s done in
      let (bytes, b, same, w) =
        added redis codec view laws q payload opts now nano later made id s u e done in
      let (def, made_as, x) =
        view-job_id_of redis codec view laws q payload opts now nano n made s u (rw repeats at e) in
      let h = generate_hash codec q payload in
      let t = codec.decimal now in
      let key = get_bull_key q ("repeat:" ++ h) in
      let end = (add_job redis codec q payload opts now nano later s).1 in
      let absent_still : view end key ≡ absent =
        w key
        ∙ rw made_as (add_commands-hash q h t bytes def s u (λ j. rw made_as at (x j)))
        ∙ gone in
      subst (λ i. (get_job redis codec q i after end).0 ≡ ok (synthetic_job redis codec q i after))
        (sym (same ∙ made_as))
        (get_job_unknown q h t after end hh hn
          (answered ∙ ap ok (hgetall_absent key end m absent_still answered)))
