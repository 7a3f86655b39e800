-- ===== src/Monitors/Bitcoin.antt =====
-- Which events the Bitcoin block monitor (managers/workers/bitcoin_block_monitor.go) publishes.
use mathlib.Core.List.{append_assoc}
use go_blockchain_watcher.Prelude.{
  ℕ, ◌+◌, ◌-◌, ◌<◌, String, ◌≡◌, refl, sym, ap, ◌∙◌, true, false, Option, none, some, List, ◌++◌,
  arith, eqb, ltb, inl, inr,
}
use go_blockchain_watcher.Errors.{Result, ok, Result-cases, err-ne-ok}
use go_blockchain_watcher.Redis.{Redis, RedisLaws, Entry, text}
use go_blockchain_watcher.Cache.{Dynamic, uint_value, ResponseCodec}
use go_blockchain_watcher.Cache
use go_blockchain_watcher.Monitors.Follow.{
  blocks_from_same, blocks_from, process_heights_lem, blocks_from-add,
}
use go_blockchain_watcher.Monitors.{
  Explorer, BlockData, BitcoinLatestBlockResponse, fetch_latest_block, block_at_height, last_height,
  bitcoin_block_identifier, process_latest, process_cached, process_block_monitor_job, save_height,
}

module _ {S : Type 0} (web : Explorer) (redis : Redis S) (codec : ResponseCodec)
    (view : S → String → Entry) (laws : RedisLaws redis view) where
  -- A round that finds new blocks.
  job_with_blocks :
      (cached : Dynamic) (latest : BitcoinLatestBlockResponse) (s : S) (log : List BlockData)
      → Cache.get redis codec bitcoin_block_identifier s ≡ ok cached
      → 0 < last_height web cached
      → fetch_latest_block web ≡ ok latest
      → last_height web cached < latest.height
      → process_block_monitor_job web redis codec s log ≡ (
        (save_height web redis codec latest.height s).0,
        (save_height web redis codec latest.height s).1,
        log
            ++ blocks_from
                (block_at_height web)
                (latest.height - last_height web cached)
                (last_height web cached + 1),
      )
  unfolding process_block_monitor_job process_cached process_latest
  job_with_blocks cached latest s log found positive fetched more =
      ap (λ r. process_cached web redis codec r s log) found
      ∙ ap (λ r. process_latest web redis codec (last_height web cached) r s log) fetched
      ∙ rw
          (
            not_zero,
            is_more,
            process_heights_lem (block_at_height web) (latest.height - last_height web cached)
                (last_height web cached + 1) log,
          )
          refl
    where
      not_zero : eqb (last_height web cached) 0 ≡ false
      not_zero = ground (arith, positive)

      is_more : ltb (last_height web cached) latest.height ≡ true
      is_more = ground (arith, more)

  text_at :
      (k t : String) (s : S) (v : Option String)
      → view s k ≡ text t
      → redis.get k s ≡ ok v
      → v ≡ some t
  text_at k t s none h e = ground (arith, h, laws.get_ok k s none e)
  text_at k t s (some x) h e = ground (arith, h, laws.get_ok k s (some x) e)

  -- What the cache gives after a height was saved.
  get-save_height :
      (web' : Explorer) (n : ℕ) (s : S) (v : Option String)
      → ((json : String)
          → codec.marshal (uint_value n) ≡ ok json
          → (d : Dynamic) × (codec.unmarshal json ≡ ok d) × (last_height web' d ≡ n))
      → (save_height web redis codec n s).0 ≡ ok tt
      → redis.get bitcoin_block_identifier (save_height web redis codec n s).1 ≡ ok v
      → (d : Dynamic) × (Cache.get redis codec bitcoin_block_identifier
            (save_height web redis codec n s).1
          ≡ ok d)
        × (last_height web' d ≡ n)
  unfolding Cache.set Cache.get
  get-save_height web' n s v reads done answered =
      elim (Result-cases (codec.marshal (uint_value n))) [
        | inl (json, m) ↦
            elim (Result-cases (redis.set_for 120 bitcoin_block_identifier json s).0) [
              | inl (_, x) ↦
                  let (d, u, h) = reads json m in
                  let answered' = rw m at answered in
                  let stored =
                    laws.set_for_ok 120 bitcoin_block_identifier json s x
                      bitcoin_block_identifier in
                  let t = (redis.set_for 120 bitcoin_block_identifier json s).1 in
                  let found = text_at bitcoin_block_identifier json t v stored answered' in
                  (d, rw m (rw (answered', found, u) refl), h)
              | inr (y, x) ↦ absurd (err-ne-ok (rw (m, x) at done))
            ]
        | inr (y, m) ↦ absurd (err-ne-ok (rw m at done))
      ]

-- Two ranges of heights that meet.
blocks_from-meet :
    (web web' : Explorer) (a b c : ℕ) (log : List BlockData)
    → ((h : ℕ) → block_at_height web' h ≡ block_at_height web h)
    → a < b
    → b < c
    → (log ++ blocks_from (block_at_height web) (b - a) (a + 1))
        ++ blocks_from (block_at_height web') (c - b) (b + 1)
      ≡ log ++ blocks_from (block_at_height web) (c - a) (a + 1)
blocks_from-meet web web' a b c log alike below above =
    append_assoc log (blocks_from (block_at_height web) (b - a) (a + 1))
      (blocks_from (block_at_height web') (c - b) (b + 1))
    ∙ ap (λ l. log ++ (blocks_from (block_at_height web) (b - a) (a + 1) ++ l))
        (blocks_from_same (block_at_height web') (block_at_height web) (c - b) (b + 1) alike
          ∙ ap (blocks_from (block_at_height web) (c - b)) next)
    ∙ ap (λ l. log ++ l) (sym (blocks_from-add (block_at_height web) (b - a) (c - b) (a + 1)))
    ∙ ap (λ n. log ++ blocks_from (block_at_height web) n (a + 1)) total
  where
    next : b + 1 ≡ a + 1 + (b - a)
    next = omega (arith, below)

    total : b - a + (c - b) ≡ c - a
    total = omega (arith, below, above)

module _ {S : Type 0} (redis : Redis S) (codec : ResponseCodec) (view : S → String → Entry)
    (laws : RedisLaws redis view) where
  -- Two consecutive jobs, of which the first succeeds, with the height that it saved still in the
  -- cache at the second, and with later blocks found by each, publish together every block that can be
  -- read above the cached height up to the second latest one, each once and in the order of the
  -- heights, if the explorer answers alike for the same height and the JSON codec gives back the
  -- first of these heights.
  pub consecutive_jobs :
      (web web' : Explorer) (cached : Dynamic) (latest latest' : BitcoinLatestBlockResponse) (s : S)
      (log : List BlockData) (v : Option String)
      → ((h : ℕ) → block_at_height web' h ≡ block_at_height web h)
      → ((json : String)
          → codec.marshal (uint_value latest.height) ≡ ok json
          → (d : Dynamic) × (codec.unmarshal json ≡ ok d) × (last_height web' d ≡ latest.height))
      → Cache.get redis codec bitcoin_block_identifier s ≡ ok cached
      → 0 < last_height web cached
      → fetch_latest_block web ≡ ok latest
      → fetch_latest_block web' ≡ ok latest'
      → last_height web cached < latest.height
      → latest.height < latest'.height
      → (process_block_monitor_job web redis codec s log).0 ≡ ok tt
      → redis.get bitcoin_block_identifier (process_block_monitor_job web redis codec s log).1
        ≡ ok v
      → (process_block_monitor_job web' redis codec
          (process_block_monitor_job web redis codec s log).1
          (process_block_monitor_job web redis codec s log).2).2
        ≡ log
          ++ blocks_from
              (block_at_height web)
              (latest'.height - last_height web cached)
              (last_height web cached + 1)
  consecutive_jobs web web' cached latest latest' s log v alike reads found positive fetched
        fetched' more more' done answered =
      let job =
        job_with_blocks web redis codec view laws cached latest s log found positive fetched more in
      let saved = (save_height web redis codec latest.height s).1 in
      let log' =
        log
        ++ blocks_from (block_at_height web) (latest.height - last_height web cached)
            (last_height web cached + 1) in
      let (d, e, h) =
        get-save_height web redis codec view laws web' latest.height s v reads
          (ap (λ (x : Result (Unit {0}) × S × List BlockData). x.0) (sym job) ∙ done)
          (ap
              (λ (x : Result (Unit {0}) × S × List BlockData).
                redis.get bitcoin_block_identifier x.1)
              (sym job)
            ∙ answered) in
      let second =
        job_with_blocks web' redis codec view laws d latest' saved log' e (omega (arith, h, more))
          fetched' (omega (arith, h, more')) in
      rw job (
        ap (λ (x : Result (Unit {0}) × S × List BlockData). x.2) second
        ∙ ap (λ n. log' ++ blocks_from (block_at_height web') (latest'.height - n) (n + 1)) h
        ∙ blocks_from-meet web web' (last_height web cached) latest.height latest'.height log alike
            more more')
