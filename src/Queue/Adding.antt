-- ===== src/Queue/Adding.antt =====
-- What `AddJob` of managers/queue/queue.go stores, and who can see it.
use Prim.Native.String.{◌++◌}
use go_blockchain_watcher.Prelude.{
  ℕ, String, ◌≡◌, refl, sym, ap, subst, false, Option, none, some, arith, eq_refl, inl, inr,
}
use go_blockchain_watcher.Errors.{errors_new, Result, ok, err, Result-cases, err-ne-ok}
use go_blockchain_watcher.Redis.{Redis, RedisLaws, Entry, text, run_commands, put}
use go_blockchain_watcher.Queue.{get_bull_key, get_repeat_job_key, is_repeat_job_id, repeat_job_id}
use go_blockchain_watcher.Queue.Keys.{get_bull_key-ne-name, get_repeat_job_key_lem}
use go_blockchain_watcher.Queue.Jobs.{
  Codec, RepeatOption, no_repeat, every, every_missing, waiting_job, generate_hash, job_id_of,
  add_commands, add_job, get_job, repeat_definition,
}

module _ {D S : Type 0} (redis : Redis S) (codec : Codec D) (view : S → String → Entry)
    (laws : RedisLaws redis view) where
  -- A job that was added, from the state in which its ID was made.
  pub added :
      (q : String) (payload opts : D) (now nano later : ℕ) (id r : String) (s u : S)
      → job_id_of redis codec q payload opts now nano (codec.repeat_option opts) s ≡ (ok id, u)
      → (add_job redis codec q payload opts now nano later s).0 ≡ ok r
      → (bytes : String) × (codec.marshal_job (waiting_job id q payload opts later "") ≡ ok bytes)
        × (r ≡ id)
        × ((j : String)
            → view (add_job redis codec q payload opts now nano later s).1 j
              ≡ run_commands (add_commands redis codec q id bytes) (view u) j)
  unfolding add_job
  added q payload opts now nano later id r s u e done =
      elim (Result-cases (codec.marshal_job (waiting_job id q payload opts later ""))) [
        | inl (bytes, m) ↦
            elim (Result-cases (redis.exec (add_commands redis codec q id bytes) u).0) [
              | inl (ns, x) ↦ (
                bytes,
                m,
                ground (arith, rw (e, m, x) at done),
                λ j. rw (e, m, x) ((laws.exec_ok (add_commands redis codec q id bytes) u ns x).1 j),
              )
              | inr (y, x) ↦ absurd (err-ne-ok (rw (e, m, x) at done))
            ]
        | inr (y, m) ↦ absurd (err-ne-ok (rw (e, m) at done))
      ]

  -- A GET that is answered gives the text that the key holds.
  pub get_text :
      (k t : String) (s : S) (v : Option String)
      → view s k ≡ text t
      → redis.get k s ≡ ok v
      → v ≡ some t
  get_text k t s none h e = ground (arith, h, laws.get_ok k s none e)
  get_text k t s (some x) h e = ground (arith, h, laws.get_ok k s (some x) e)

  -- The two ways to get an ID.
  pub job_id_of_cases :
      (q : String) (payload opts : D) (now nano later : ℕ) (r : String) (s : S)
      → (add_job redis codec q payload opts now nano later s).0 ≡ ok r
      → (id : String) × (u : S) × (job_id_of redis codec q payload opts now nano
            (codec.repeat_option opts)
            s
          ≡ (ok id, u))
  unfolding add_job
  job_id_of_cases q payload opts now nano later r s done =
      elim (Result-cases
        (job_id_of redis codec q payload opts now nano (codec.repeat_option opts) s).0) [
          | inl (id, e) ↦ (
            id,
            (job_id_of redis codec q payload opts now nano (codec.repeat_option opts) s).1,
            λ i. (
              e i,
              (job_id_of redis codec q payload opts now nano (codec.repeat_option opts) s).1,
            ),
          )
          | inr (x, e) ↦ absurd (err-ne-ok (rw e at done))
        ]

  -- The definition of a repeat job is the only entry that changes while its ID is made.
  pub view-job_id_of :
      (q : String) (payload opts : D) (now nano n : ℕ) (id : String) (s u : S)
      → job_id_of redis codec q payload opts now nano (every n) s ≡ (ok id, u)
      → (bytes : String) × (id ≡ repeat_job_id (generate_hash codec q payload) (codec.decimal now))
        × ((j : String) → view u j ≡ put (view s) (get_repeat_job_key q id) (text bytes) j)
  unfolding job_id_of
  view-job_id_of q payload opts now nano n id s u e =
      elim (Result-cases
        (codec.marshal_repeat (repeat_definition redis codec made q payload opts n))) [
          | inl (bytes, m) ↦ elim (Result-cases (redis.set (get_repeat_job_key q made) bytes s).0) [
            | inl (_, x) ↦
                let e' = rw (m, x) at e in
                let same : id ≡ made = ground (arith, e') in
                (
                  bytes,
                  same,
                  λ j.
                      rw (same, ← ap (λ (p : Result String × S). p.1) e')
                        (laws.set_ok (get_repeat_job_key q made) bytes s x j),
                )
            | inr (y, x) ↦ absurd (err-ne-ok (ap (λ (p : Result String × S). p.0) (rw (m, x) at e)))
          ]
          | inr (y, m) ↦ absurd (err-ne-ok (ap (λ (p : Result String × S). p.0) (rw m at e)))
        ]
    where
      made : String
      made = repeat_job_id (generate_hash codec q payload) (codec.decimal now)

  -- `AddJob` of a job that is not repeated, when it succeeds, stores the job so that `GetJob` with the
  -- returned ID gives it back as it was made, whenever Redis answers the GET; the ID printed from the
  -- clock does not look like a repeat job's, and the JSON decoder gives back the job that was encoded.
  pub get_job-add_job :
      (q : String) (payload opts : D) (now nano later after : ℕ) (id : String) (s : S)
      → ((t : String)
          → codec.marshal_job (waiting_job (codec.decimal nano) q payload opts later "") ≡ ok t
          → codec.unmarshal_job t ≡ ok (waiting_job (codec.decimal nano) q payload opts later ""))
      → codec.repeat_option opts ≡ no_repeat
      → is_repeat_job_id (codec.decimal nano) ≡ false
      → (add_job redis codec q payload opts now nano later s).0 ≡ ok id
      → (v : Option String)
      → redis.get (get_bull_key q id) (add_job redis codec q payload opts now nano later s).1 ≡ ok v
      → (get_job redis codec q id after (add_job redis codec q payload opts now nano later s).1).0
        ≡ ok (waiting_job id q payload opts later "")
  unfolding get_job
  get_job-add_job q payload opts now nano later after id s inverse once plain done v answered =
      let (bytes, m, same, w) =
        added q payload opts now nano later (codec.decimal nano) id s s
          (unfold job_id_of in rw once refl) done in
      let made = codec.decimal nano in
      let t = (add_job redis codec q payload opts now nano later s).1 in
      let stored : view t (get_bull_key q made) ≡ text bytes =
        rw (w (get_bull_key q made)) (simp eq_refl) in
      let found : v ≡ some bytes =
        get_text (get_bull_key q made) bytes t v stored (rw same at answered) in
      let back = inverse bytes m in
      subst (λ i. (get_job redis codec q i after t).0 ≡ ok (waiting_job i q payload opts later ""))
        (sym same) (rw (plain, rw same at answered, found, back) refl)

  -- Making an ID leaves the entry of the bare name.
  pub job_id_of-name :
      (q : String) (payload opts : D) (now nano : ℕ) (o : RepeatOption) (id : String) (s u : S)
      → job_id_of redis codec q payload opts now nano o s ≡ (ok id, u)
      → view u q ≡ view s q
  job_id_of-name q payload opts now nano no_repeat id s u e =
      unfold job_id_of in ap (λ (p : Result String × S). view p.1 q) (sym e)
  job_id_of-name q payload opts now nano (every n) id s u e =
      let (bytes, same, w) = view-job_id_of q payload opts now nano n id s u e in
      rw (w q, get_repeat_job_key_lem q id, get_bull_key-ne-name q ("repeat:" ++ id)) refl
  job_id_of-name q payload opts now nano every_missing id s u e =
      err-absurd (unfold job_id_of in ap (λ (p : Result String × S). p.0) e)
    where
      err-absurd : err (errors_new "panic: interface conversion") ≡ ok id → view u q ≡ view s q
      err-absurd e = absurd (err-ne-ok e)

  -- A job that `AddJob` has added is never in the list that `ProcessJobs` waits on: that list is the
  -- one that the queue's bare name holds, and `AddJob` leaves it as it was.
  pub add_job_unseen :
      (q : String) (payload opts : D) (now nano later : ℕ) (id : String) (s : S)
      → (add_job redis codec q payload opts now nano later s).0 ≡ ok id
      → view (add_job redis codec q payload opts now nano later s).1 q ≡ view s q
  add_job_unseen q payload opts now nano later id s done =
      let (made, u, e) = job_id_of_cases q payload opts now nano later id s done in
      let (bytes, m, same, w) = added q payload opts now nano later made id s u e done in
      rw
        (
          w q,
          get_bull_key-ne-name q made,
          get_bull_key-ne-name q "wait",
          job_id_of-name q payload opts now nano (codec.repeat_option opts) made s u e,
        )
        refl
