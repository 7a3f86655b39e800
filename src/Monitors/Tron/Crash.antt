-- ===== src/Monitors/Tron/Crash.antt =====
-- What a job of the monitor of managers/workers/tron_block_monitor.go does when a block makes it panic,
-- and when none does.
use go_blockchain_watcher.Prelude.{
  ℕ, zero, suc, ◌+◌, ◌-◌, ◌<◌, ◌≡◌, ◌≢◌, refl, sym, ap, ◌∙◌, Bool, true, false, Option, none, some,
  List, ◌++◌, eqb, ltb, arith,
}
use go_blockchain_watcher.Errors.{errors_new, Result, ok, err}
use go_blockchain_watcher.Redis.{Redis}
use go_blockchain_watcher.Cache.{Dynamic, ResponseCodec}
use go_blockchain_watcher.Cache
use go_blockchain_watcher.Monitors.Follow
use go_blockchain_watcher.Monitors.Follow.{blocks_from, blocks_from_alike, process_heights_lem}
use go_blockchain_watcher.Monitors.Tron.Blocks.{
  TronBlock, BlockData, Attempt, found, failed, panicked,
}
use go_blockchain_watcher.Monitors.Tron.{
  Endpoint, next_height, process_heights, block_at_height, get_current_block, last_height,
  save_height, after_loop, process_current, process_block_monitor_job, tron_block_identifier, Run,
}

-- What an attempt that does not panic gives.
abbrev pub result_of : Attempt → Result BlockData
result_of (found b) = ok b
result_of (failed e) = err e
result_of panicked = err (errors_new "panic")

next-clean :
    (a : Attempt) (next : List BlockData → Bool × List BlockData) (log : List BlockData)
    → a ≢ panicked
    → next_height a next log ≡ next (Follow.publish (result_of a) log)
next-clean (found b) next log clean = refl
next-clean (failed e) next log clean = refl
next-clean panicked next log clean = absurd (clean refl)

module _ (attempt : ℕ → Attempt) where
  -- The first rounds, when they do not panic.
  heights-clean :
      (k n height : ℕ) (log : List BlockData)
      → ((i : ℕ) → i < k → attempt (height + i) ≢ panicked)
      → process_heights attempt (k + n) height log
        ≡ process_heights attempt n
            (height + k)
            (Follow.process_heights (λ h. result_of (attempt h)) k height log)
  unfolding process_heights Follow.process_heights
  heights-clean zero n height log clean =
      let e : 0 + n ≡ n = omega arith in
      let f : height ≡ height + 0 = omega arith in
      ap (λ (m : ℕ). process_heights attempt m height log) e
      ∙ ap (λ (h : ℕ). process_heights attempt n h log) f
  heights-clean (suc k) n height log clean =
      let e : suc k + n ≡ suc (k + n) = omega arith in
      let here : attempt height ≢ panicked =
        λ p. clean 0 (omega arith) (ap attempt (omega arith) ∙ p) in
      let log' = Follow.publish (result_of (attempt height)) log in
      let later : (i : ℕ) → i < k → attempt (height + 1 + i) ≢ panicked =
        λ i b p. clean (suc i) (omega (arith, b)) (ap attempt (omega arith) ∙ p) in
      let f : height + 1 + k ≡ height + suc k = omega arith in
      ap (λ (m : ℕ). process_heights attempt m height log) e
      ∙ next-clean (attempt height) (process_heights attempt (k + n) (height + 1)) log here
      ∙ heights-clean k n (height + 1) log' later
      ∙ ap
          (λ (h : ℕ).
            process_heights attempt n h
              (Follow.process_heights (λ h. result_of (attempt h)) k (height + 1) log'))
          f

  -- No round panics.
  heights_end :
      (k height : ℕ) (log : List BlockData)
      → ((i : ℕ) → i < k → attempt (height + i) ≢ panicked)
      → process_heights attempt k height log
        ≡ (false, log ++ blocks_from (λ h. result_of (attempt h)) k height)
  unfolding process_heights
  heights_end k height log clean =
      let e : k ≡ k + 0 = omega arith in
      ap (λ (m : ℕ). process_heights attempt m height log) e
      ∙ heights-clean k 0 height log clean
      ∙ ap (λ l. (false, l)) (process_heights_lem (λ h. result_of (attempt h)) k height log)

  -- A round panics.
  heights_panic :
      (n k height : ℕ) (log : List BlockData)
      → k < n
      → ((i : ℕ) → i < k → attempt (height + i) ≢ panicked)
      → attempt (height + k) ≡ panicked
      → process_heights attempt n height log
        ≡ (true, log ++ blocks_from (λ h. result_of (attempt h)) k height)
  unfolding process_heights
  heights_panic n k height log below clean bad =
      let e : n ≡ k + suc (n - k - 1) = omega (arith, below) in
      ap (λ (m : ℕ). process_heights attempt m height log) e
      ∙ heights-clean k (suc (n - k - 1)) height log clean
      ∙ rw bad (ap (λ l. (true, l)) (process_heights_lem (λ h. result_of (attempt h)) k height log))

module _ {S : Type 0} (redis : Redis S) (codec : ResponseCodec) where
  abbrev job : Endpoint → S → List BlockData → Option (Result (Unit {0})) × S × List BlockData
  job web s log = process_block_monitor_job web redis codec s log

  abbrev pub good_blocks : Endpoint → ℕ → ℕ → List BlockData
  good_blocks web n height = blocks_from (λ h. result_of (block_at_height web h)) n height

  -- A job that has new heights runs the loop.
  job_loops :
      (web : Endpoint) (cached : Dynamic) (b : TronBlock) (s : S) (log : List BlockData)
      → Cache.get redis codec tron_block_identifier s ≡ ok cached
      → get_current_block web ≡ ok b
      → 0 < last_height web cached
      → last_height web cached < b.block_header.raw_data.number
      → job web s log
        ≡ after_loop web redis codec b.block_header.raw_data.number s (
            process_heights
              (block_at_height web)
              (b.block_header.raw_data.number - last_height web cached)
              (last_height web cached + 1)
              log)
  unfolding process_block_monitor_job process_current
  job_loops web cached b s log read fetched some_height more =
      let known : eqb (last_height web cached) 0 ≡ false = ground (arith, some_height) in
      let newer : ltb (last_height web cached) b.block_header.raw_data.number ≡ true =
        ground (arith, more) in
      rw read (rw fetched (rw known (rw newer refl)))

  -- A job of the Tron monitor that reads a cached height other than zero and a later current one, and
  -- in which no block's addresses make it panic, publishes, behind the events from before, exactly the
  -- blocks that can be read above the cached height up to the current one, in the order of the
  -- heights, and ends as the saving of the current height for an hour ends.
  pub job_publishes :
      (web : Endpoint) (cached : Dynamic) (b : TronBlock) (s : S) (log : List BlockData)
      → Cache.get redis codec tron_block_identifier s ≡ ok cached
      → get_current_block web ≡ ok b
      → 0 < last_height web cached
      → last_height web cached < b.block_header.raw_data.number
      → ((i : ℕ)
          → i < b.block_header.raw_data.number - last_height web cached
          → block_at_height web (last_height web cached + 1 + i) ≢ panicked)
      → process_block_monitor_job web redis codec s log ≡ (
          let saved = save_height web redis codec b.block_header.raw_data.number 3600 s in
          (
            some saved.0,
            saved.1,
            log
                ++ good_blocks web
                    (b.block_header.raw_data.number - last_height web cached)
                    (last_height web cached + 1),
          ))
  job_publishes web cached b s log read fetched some_height more clean =
      let last = last_height web cached in
      let current = b.block_header.raw_data.number in
      job_loops web cached b s log read fetched some_height more
      ∙ ap (λ r. after_loop web redis codec current s r)
          (heights_end (block_at_height web) (current - last) (last + 1) log clean)

  -- Once a job panics:
  job_panics :
      (web : Endpoint) (cached : Dynamic) (b : TronBlock) (k : ℕ) (s : S) (log : List BlockData)
      → Cache.get redis codec tron_block_identifier s ≡ ok cached
      → get_current_block web ≡ ok b
      → 0 < last_height web cached
      → last_height web cached + k < b.block_header.raw_data.number
      → ((i : ℕ) → i < k → block_at_height web (last_height web cached + 1 + i) ≢ panicked)
      → block_at_height web (last_height web cached + 1 + k) ≡ panicked
      → job web s log ≡ (none, s, log ++ good_blocks web k (last_height web cached + 1))
  job_panics web cached b k s log read fetched some_height more clean bad =
      let last = last_height web cached in
      let current = b.block_header.raw_data.number in
      job_loops web cached b s log read fetched some_height (omega (arith, more))
      ∙ ap (λ r. after_loop web redis codec current s r)
          (heights_panic (block_at_height web) (current - last) k (last + 1) log
            (omega (arith, more)) clean bad)

  -- When a block above the cached height and up to the current one makes a job of the Tron monitor
  -- panic, as an address of one byte does, the job has published the blocks below it that can be read
  -- and saved nothing; a second job that reads the same height, with the same answers of the endpoint
  -- for this block and those between it and the cached height, the same conversion of the height and
  -- a current height at or above the block, publishes the blocks below once more and panics as well.
  pub job_crashes_again :
      (web web' : Endpoint) (cached : Dynamic) (b b' : TronBlock) (k : ℕ) (s : S)
      (log : List BlockData)
      → Cache.get redis codec tron_block_identifier s ≡ ok cached
      → get_current_block web ≡ ok b
      → get_current_block web' ≡ ok b'
      → 0 < last_height web cached
      → last_height web' cached ≡ last_height web cached
      → last_height web cached + k < b.block_header.raw_data.number
      → last_height web cached + k < b'.block_header.raw_data.number
      → ((i : ℕ) → i < k → block_at_height web (last_height web cached + 1 + i) ≢ panicked)
      → block_at_height web (last_height web cached + 1 + k) ≡ panicked
      → ((i : ℕ)
          → i < suc k
          → block_at_height web' (last_height web cached + 1 + i)
            ≡ block_at_height web (last_height web cached + 1 + i))
      → let first_job = process_block_monitor_job web redis codec s log in
        let blocks = good_blocks web k (last_height web cached + 1) in
        (first_job ≡ (none, s, log ++ blocks))
        × (process_block_monitor_job web' redis codec first_job.1 first_job.2
            ≡ (none, s, (log ++ blocks) ++ blocks))
  job_crashes_again web web' cached b b' k s log read fetched fetched' some_height same more more'
        clean bad alike =
      let last = last_height web cached in
      let blocks = good_blocks web k (last + 1) in
      let first_job = job_panics web cached b k s log read fetched some_height more clean bad in
      let second_job =
        job_panics web' cached b' k s (log ++ blocks) read fetched' (rw same some_height)
          (rw same more')
          (λ i below p. clean i below (sym (alike i (omega (arith, below))) ∙ (rw same at p)))
          (rw same (alike k (omega arith) ∙ bad)) in
      let again : good_blocks web' k (last_height web' cached + 1) ≡ blocks = rw same (
        blocks_from_alike _ _ k (last + 1)
          (λ i below. ap result_of (alike i (omega (arith, below))))) in
      (
        first_job,
        ap (λ (r : Run S). job web' r.1 r.2) first_job
            ∙ second_job
            ∙ ap (λ bs. (none, s, (log ++ blocks) ++ bs)) again,
      )
