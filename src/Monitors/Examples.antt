-- ===== src/Monitors/Examples.antt =====
-- The theorem on the Bitcoin block monitor (managers/workers/bitcoin_block_monitor.go) and that on
-- the event manager (managers/events/event_manager.go) at small instances.

use go_blockchain_watcher.Prelude.{
  ℕ, String, ◌≡◌, refl, subst, true, some, [], ◌∷◌, ◌++◌, arith, ◌==◌, if◌then◌else◌,
}
use go_blockchain_watcher.Errors.{Result, ok, err, errors_new}
use go_blockchain_watcher.Values.{pos}
use go_blockchain_watcher.Redis.{absent, text}
use go_blockchain_watcher.Redis.Memory.{Memory, memory, entry, memory-RedisLaws}
use go_blockchain_watcher.Cache.{Dynamic, float_value, uint_value, ResponseCodec}
use go_blockchain_watcher.Cache
use go_blockchain_watcher.Monitors.{
  Explorer, block_at_height, block_of_answer, block_of_main, fetch_block_details, process_cached,
  process_latest, last_height, BitcoinLatestBlockResponse, fetch_latest_block,
  bitcoin_block_identifier, process_block_monitor_job,
}
use go_blockchain_watcher.Monitors.Bitcoin.{consecutive_jobs}
use go_blockchain_watcher.Monitors.Follow.{blocks_from}

-- An explorer whose latest block has the given height, and of which no block can be read but one.
abbrev explorer : ℕ → Explorer
explorer n = record {
  request = λ url. ok (200, url);
  decode_latest = λ t. ok record { hash = "h"; height = n; time = pos 9 };
  decode_blocks = λ t. ok (record { hash = "m"; height = 3; time = pos 9; main_chain = true } ∷ []);
  decode_raw = λ t. ok record { hash = t; height = 3; time = pos 9; transactions = "t" ∷ [] };
  decimal = λ h. "3";
  to_uint64 = λ f. f;
}

abbrev latest : ℕ → BitcoinLatestBlockResponse
latest n = record { hash = "h"; height = n; time = pos 9 }

-- A codec for two heights.
abbrev written : Dynamic → Result String
written (uint_value n) = ok "four"
written _ = err (errors_new "unsupported")

abbrev read_height : String → Dynamic
read_height t = if t == "two" then float_value 2 else float_value 4

abbrev heights : ResponseCodec
heights = record { marshal = written; unmarshal = λ t. ok (read_height t) }

abbrev at_two : Memory
at_two j = if bitcoin_block_identifier == j then text "two" else absent

abbrev next_store : Memory
next_store = (process_block_monitor_job (explorer 4) memory heights at_two []).1

consecutive_jobs_example :
    (process_block_monitor_job
      (explorer 5)
      memory
      heights
      (process_block_monitor_job (explorer 4) memory heights at_two []).1
      (process_block_monitor_job (explorer 4) memory heights at_two []).2).2
    ≡ [] ++ blocks_from (block_at_height (explorer 4)) 3 3
consecutive_jobs_example =
    consecutive_jobs memory heights entry memory-RedisLaws (explorer 4) (explorer 5) (float_value 2)
      (latest 4) (latest 5) at_two [] (some "four")
      (λ h. unfold block_at_height block_of_answer block_of_main fetch_block_details in refl) reads
      (unfold Cache.get in refl) (omega arith) (unfold fetch_latest_block in refl)
      (unfold fetch_latest_block in refl) (omega arith) (omega arith)
      (unfold process_block_monitor_job process_cached process_latest fetch_latest_block Cache.get
          Cache.set in
        refl)
      (unfold process_block_monitor_job process_cached process_latest fetch_latest_block Cache.get
          Cache.set in
        refl)
  where
    reads :
        (json : String)
        → heights.marshal (uint_value 4) ≡ ok json
        → (d : Dynamic) × (heights.unmarshal json ≡ ok d)
          × (last_height (explorer 5) d ≡ (latest 4).height)
    reads json h =
        let four : "four" ≡ json = cc in
        (
          read_height json,
          refl,
          subst (λ j. last_height (explorer 5) (read_height j) ≡ (latest 4).height) four refl,
        )
