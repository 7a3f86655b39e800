-- ===== src/Monitors.antt =====
-- managers/workers/bitcoin_block_monitor.go: the job that publishes an event for each new block. The
-- answers of the block explorer, the JSON decoders and the conversion of a `float64` to `uint64` are
-- parameters. The log holds the events that were published, oldest first.
pub mod Bitcoin
pub mod Follow
pub mod Evm
pub mod Solana
pub mod Tron
pub mod Examples
use Prim.Native.String.{◌++◌}
use go_blockchain_watcher.Prelude.{
  ℕ, zero, suc, ◌+◌, ◌-◌, String, Bool, true, false, Option, none, some, List, [], ◌∷◌, eqb, ltb,
  first, appended, map, if◌then◌else◌,
}
use go_blockchain_watcher.Errors.{Error, errors_new, errorf, Result, ok, err, wrap_result}
use go_blockchain_watcher.Values.{Float64, ℤ, pos, negsuc}
use go_blockchain_watcher.Redis.{Redis}
use go_blockchain_watcher.Cache.{
  Dynamic, nil_value, float_value, int_value, uint_value, number, other_value, ResponseCodec,
}
use go_blockchain_watcher.Cache
use go_blockchain_watcher.Monitors.Follow.{process_heights}

-- types.BlockData, the fields that are set for this chain.
pub record BlockData : Type 0 where
  pub chain_symbol : String
  pub block_number : ℕ
  pub block_hash : String
  pub timestamp : ℤ
  pub transactions : List String

pub record BitcoinBlockResponse : Type 0 where
  pub hash : String
  pub height : ℕ
  pub time : ℤ
  pub main_chain : Bool

pub record BitcoinLatestBlockResponse : Type 0 where
  pub hash : String
  pub height : ℕ
  pub time : ℤ

-- `transactions` holds the hashes.
pub record BitcoinRawBlockResponse : Type 0 where
  pub hash : String
  pub height : ℕ
  pub time : ℤ
  pub transactions : List String

-- A GET gives the status code and the body.
pub record Explorer : Type 0 where
  pub request : String → Result (ℕ × String)
  pub decode_latest : String → Result BitcoinLatestBlockResponse
  pub decode_blocks : String → Result (List BitcoinBlockResponse)
  pub decode_raw : String → Result BitcoinRawBlockResponse
  pub decimal : ℕ → String
  pub to_uint64 : Float64 → ℕ

abbrev pub bitcoin_block_identifier : String
bitcoin_block_identifier = "bitcoin:last-block-height"

module _ (web : Explorer) where
  abbrev pub decode_answer : {A : Type 0} → (String → Result A) → Result (ℕ × String) → Result A
  decode_answer decode (err e) = err (errorf "error making request" e)
  decode_answer decode (ok (code, body)) =
      if eqb code 200
      then wrap_result "error decoding response" (decode body)
      else err (errors_new "unexpected status code")

  pub fetch_latest_block : Result BitcoinLatestBlockResponse
  fetch_latest_block =
      decode_answer web.decode_latest (web.request "https://blockchain.info/latestblock")

  pub fetch_block_details : String → Result BitcoinRawBlockResponse
  fetch_block_details hash =
      decode_answer web.decode_raw (web.request ("https://blockchain.info/rawblock/" ++ hash))

  abbrev pub block_data : BitcoinRawBlockResponse → BlockData
  block_data raw = record {
    chain_symbol = "BTC";
    block_number = raw.height;
    block_hash = raw.hash;
    timestamp = raw.time;
    transactions = raw.transactions;
  }

  abbrev block_of_details : Result BitcoinRawBlockResponse → Result BlockData
  block_of_details (ok raw) = ok (block_data raw)
  block_of_details (err e) = err (errorf "error fetching block details" e)

  block_of_main : Option BitcoinBlockResponse → Result BlockData
  unfolding fetch_block_details
  block_of_main none = err (errors_new "no main chain block found")
  block_of_main (some b) = block_of_details (fetch_block_details b.hash)

  block_of_answer : Result (List BitcoinBlockResponse) → Result BlockData
  unfolding block_of_main
  block_of_answer (err e) = err e
  block_of_answer (ok bs) = block_of_main (first (λ (b : BitcoinBlockResponse). b.main_chain) bs)

  -- What `processBlockAtHeight` publishes, or its error.
  pub block_at_height : ℕ → Result BlockData
  unfolding block_of_answer
  block_at_height height = block_of_answer (
      decode_answer web.decode_blocks (
        web.request
          ("https://blockchain.info/block-height/" ++ (web.decimal height ++ "?format=json"))))

  -- The type switch on the cached value; `uint64(int)` wraps around.
  abbrev pub uint_of : ℤ → ℕ
  uint_of (pos n) = n
  uint_of (negsuc n) = 18446744073709551615 - n

  abbrev pub last_height : Dynamic → ℕ
  last_height (float_value f) = web.to_uint64 f
  last_height (int_value i) = uint_of i
  last_height (uint_value n) = n
  last_height (number (ok i)) = uint_of i
  last_height _ = 0

  module _ {S : Type 0} (redis : Redis S) (codec : ResponseCodec) where
    abbrev pub save_height : ℕ → S → Result (Unit {0}) × S
    save_height height s = Cache.set redis codec bitcoin_block_identifier (uint_value height) 120 s

    -- The part after the latest block was fetched.
    process_latest :
        ℕ
        → Result BitcoinLatestBlockResponse
        → S
        → List BlockData
        → Result (Unit {0}) × S × List BlockData
    process_latest last (err e) s log = (err e, s, log)
    process_latest last (ok latest) s log =
        if eqb last 0
        then (let (r, t) = save_height latest.height s in (r, t, log))
        else if ltb last latest.height
        then (let (r, t) = save_height latest.height s in
            (r, t, process_heights block_at_height (latest.height - last) (last + 1) log))
        else (ok tt, s, log)

    process_cached : Result Dynamic → S → List BlockData → Result (Unit {0}) × S × List BlockData
    unfolding process_latest
    process_cached (err e) s log = (err e, s, log)
    process_cached (ok cached) s log = process_latest (last_height cached) fetch_latest_block s log

    pub process_block_monitor_job : S → List BlockData → Result (Unit {0}) × S × List BlockData
    unfolding process_cached
    process_block_monitor_job s log =
        process_cached (Cache.get redis codec bitcoin_block_identifier s) s log
