-- ===== src/Monitors/Tron.antt =====
-- managers/workers/tron_block_monitor.go: the job that publishes an event for each new block. The
-- answers of the endpoint, the JSON decoders and the conversion of a `float64` are parameters; the
-- addresses are the bytes of their strings. A panic ends the job, and nobody recovers it.
pub mod Blocks
pub mod Crash
pub mod Examples
use go_blockchain_watcher.Prelude.{
  ℕ, zero, suc, ◌+◌, ◌-◌, String, Bool, true, false, Option, none, some, List, [], ◌∷◌, map, eqb,
  ltb, appended, if◌then◌else◌,
}
use go_blockchain_watcher.Errors.{
  Error, errors_new, errorf, Result, ok, err, wrap_result, Exec, pure, ◌>>=◌,
}
use go_blockchain_watcher.Values.{Float64, ℤ, pos, negsuc}
use go_blockchain_watcher.Redis.{Redis}
use go_blockchain_watcher.Cache.{Dynamic, float_value, int_value, uint_value, number, ResponseCodec}
use go_blockchain_watcher.Cache
use go_blockchain_watcher.Monitors.Tron.Blocks.{
  Attempt, BlockData, Bytes, ParameterValue, TransactionData, TronBlock, TronBlockHeader,
  TronBlockRawData, TronContract, TronTransaction, TronTransactionData, add_data, address_of,
  amount_of, data_of, event_of, hex_to_tron_address, transactions_data, with_addresses, found,
  failed, panicked,
}

-- A request gives the status code and the body. `value_field` is the field `value` of a text, if it
-- has one that is not null; `parameter_value` fills the fields that it can decode.
pub record Endpoint : Type 0 where
  pub get_now_block : Result (ℕ × String)
  pub get_block_by_num : ℕ → Result (ℕ × String)
  pub decode_block : String → Result TronBlock
  pub value_field : String → Result (Option String)
  pub decode_value : String → ParameterValue → ParameterValue
  pub to_uint64 : Float64 → ℕ

-- `constants.TronBlockIdentifier`
abbrev pub tron_block_identifier : String
tron_block_identifier = "tron:last-block-height"

-- The type switch on the cached value; `uint64(int)` wraps around.
abbrev pub uint_of : ℤ → ℕ
uint_of (pos n) = n
uint_of (negsuc n) = 18446744073709551615 - n

-- One iteration, and then the rest of the loop: a panic ends it.
abbrev pub next_height :
    Attempt → (List BlockData → Bool × List BlockData) → List BlockData → Bool × List BlockData
next_height (found b) next log = next (appended log b)
next_height (failed e) next log = next log
next_height panicked next log = (true, log)

-- The loop over the heights, with the number of rounds left; it gives whether it panicked.
unfoldable pub process_heights : (ℕ → Attempt) → ℕ → ℕ → List BlockData → Bool × List BlockData
process_heights attempt zero height log = (false, log)
process_heights attempt (suc n) height log =
    next_height (attempt height) (process_heights attempt n (height + 1)) log

-- The job's result, the store and the log; the result of a panic is `none`.
abbrev pub Run : Type 0 → Type 0
Run S = Option (Result (Unit {0})) × S × List BlockData

module _ (web : Endpoint) where
  abbrev pub decode_answer : Result (ℕ × String) → Result TronBlock
  decode_answer (err e) = err (errorf "error making request" e)
  decode_answer (ok (code, body)) =
      if eqb code 200
      then wrap_result "error decoding response" (web.decode_block body)
      else err (errors_new "unexpected status code")

  pub get_current_block : Result TronBlock
  get_current_block = decode_answer web.get_now_block

  unfoldable pub get_block_by_number : ℕ → Result TronBlock
  get_block_by_number height = decode_answer (web.get_block_by_num height)

  abbrev pub set_value : TronContract → ParameterValue → TronContract
  set_value c v = record {
    contract_type = c.contract_type;
    parameter = c.parameter;
    parameter_value = v;
  }

  -- The parameter's `value`, or else the whole parameter, is decoded into the value.
  abbrev pub parse_from : TronContract → Result (Option String) → TronContract
  parse_from c (ok (some v)) = set_value c (web.decode_value v c.parameter_value)
  parse_from c (ok none) = set_value c (web.decode_value c.parameter c.parameter_value)
  parse_from c (err e) = c

  abbrev pub parse_contract : TronContract → TronContract
  parse_contract c = parse_from c (web.value_field c.parameter)

  abbrev pub parse_transaction : TronTransaction → TronTransaction
  parse_transaction tx = record {
    tx_id = tx.tx_id;
    raw_data = record {
      contract = map parse_contract tx.raw_data.contract;
      ref_block_bytes = tx.raw_data.ref_block_bytes;
      ref_block_hash = tx.raw_data.ref_block_hash;
      expiration = tx.raw_data.expiration;
      timestamp = tx.raw_data.timestamp;
    };
    signature = tx.signature;
  }

  abbrev pub attempt_of : ℕ → Result TronBlock → Attempt
  attempt_of height (err e) = failed (errorf "error fetching block" e)
  attempt_of height (ok b) =
      event_of height b (transactions_data (map parse_transaction b.transactions))

  -- `processBlockAtHeight`, and what it publishes.
  unfoldable pub block_at_height : ℕ → Attempt
  block_at_height height = attempt_of height (get_block_by_number height)

  abbrev pub last_height : Dynamic → ℕ
  last_height (float_value f) = web.to_uint64 f
  last_height (int_value i) = uint_of i
  last_height (uint_value n) = n
  last_height (number (ok i)) = uint_of i
  last_height _ = 0

  module _ {S : Type 0} (redis : Redis S) (codec : ResponseCodec) where
    abbrev pub save_height : ℕ → ℕ → S → Result (Unit {0}) × S
    save_height height seconds s =
        Cache.set redis codec tron_block_identifier (uint_value height) seconds s

    -- The height is saved when the loop has ended without a panic.
    abbrev pub after_loop : ℕ → S → Bool × List BlockData → Run S
    after_loop current s (true, log) = (none, s, log)
    after_loop current s (false, log) = let (r, t) = save_height current 3600 s in (some r, t, log)

    unfoldable pub process_current : ℕ → Result TronBlock → S → List BlockData → Run S
    process_current last (err e) s log = (some (err e), s, log)
    process_current last (ok b) s log =
        let current = b.block_header.raw_data.number in
        if eqb last 0
        then (let (r, t) = save_height current 120 s in (some r, t, log))
        else if ltb last current
        then after_loop current s (process_heights block_at_height (current - last) (last + 1) log)
        else (some (ok tt), s, log)

    abbrev pub process_cached : Result Dynamic → S → List BlockData → Run S
    process_cached (err e) s log = (some (err e), s, log)
    process_cached (ok cached) s log = process_current (last_height cached) get_current_block s log

    unfoldable pub process_block_monitor_job : S → List BlockData → Run S
    process_block_monitor_job s log =
        process_cached (Cache.get redis codec tron_block_identifier s) s log

    -- `StartBlockMonitor`: the current height is saved, and the job is scheduled with it.
    abbrev pub schedule_from : (ℕ → Exec S String) → Result TronBlock → Exec S (Unit {0})
    schedule_from schedule (err e) = λ s. (err e, s)
    schedule_from schedule (ok b) = do
      _ ← save_height b.block_header.raw_data.number 3600
      _ ← schedule b.block_header.raw_data.number
      pure tt

    unfoldable pub start_block_monitor : (ℕ → Exec S String) → Exec S (Unit {0})
    start_block_monitor schedule = schedule_from schedule get_current_block
