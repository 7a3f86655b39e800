-- ===== src/Monitors/Solana.antt =====
-- managers/workers/solana_block_monitor.go: the job that publishes an event for each new slot. The
-- answers of the endpoint, the JSON decoders and the conversions of a `float64` are parameters. A
-- context with a timeout is the number of times that it will still be found alive.
pub mod Rpc
pub mod Slots
pub mod Retries
pub mod Examples
use go_blockchain_watcher.Prelude.{
  ℕ, zero, suc, ◌+◌, ◌-◌, ◌*◌, ◌/◌, ◌%◌, String, Bool, true, false, Option, none, some, List, [],
  ◌∷◌, ◌==◌, eqb, ltb, not, if◌then◌else◌,
}
use go_blockchain_watcher.Errors.{Error, errors_new, errorf, Result, ok, err, wrap_result}
use go_blockchain_watcher.Map.{Map, lookup}
use go_blockchain_watcher.Values.{Float64, ℤ, pos, negsuc, Value, text}
use go_blockchain_watcher.Redis.{Redis}
use go_blockchain_watcher.Cache.{Dynamic, float_value, int_value, uint_value, number, ResponseCodec}
use go_blockchain_watcher.Cache
use go_blockchain_watcher.Monitors.Follow.{publish}
use go_blockchain_watcher.Monitors.Solana.Rpc.{
  SolanaTransaction, SolanaBlock, Endpoint, get_current_slot, get_block,
}

-- types.BlockData, the fields that are set for this chain.
pub record BlockData : Type 0 where
  pub chain_symbol : String
  pub block_number : ℕ
  pub block_hash : String
  pub timestamp : ℤ
  pub transactions : List SolanaTransaction

-- `constants.SolanaBlockIdentifier`
abbrev pub solana_block_identifier : String
solana_block_identifier = "solana:last-block-height"

-- The transactions with a signature.
abbrev pub valid_transactions : List SolanaTransaction → List SolanaTransaction
valid_transactions [] = []
valid_transactions (tx ∷ txs) =
    let rest = valid_transactions txs in if tx.signature == "" then rest else tx ∷ rest

abbrev pub slot_block : ℕ → SolanaBlock → BlockData
slot_block slot b = record {
  chain_symbol = "SOL";
  block_number = slot;
  block_hash = b.blockhash;
  timestamp = b.block_time;
  transactions = valid_transactions b.transactions;
}

-- What `processSlot` publishes, which may be nothing, or its error. The flag tells whether the time of
-- the slot is over once its block was fetched.
abbrev pub slot_of_answer : ℕ → Bool → Result (Option SolanaBlock) → Result (Option BlockData)
slot_of_answer slot late (err e) = err (errorf "error fetching block for slot" e)
slot_of_answer slot late (ok none) = ok none
slot_of_answer slot late (ok (some b)) =
    if late
    then err (errors_new "context timeout while processing slot")
    else ok (some (slot_block slot b))

abbrev pub published : Result (Option BlockData) → Result BlockData
published (err e) = err e
published (ok none) = err (errors_new "no block data found for slot")
published (ok (some b)) = ok b

-- The slots of a batch, from a slot on and with the number of them left; `alive` counts the looks at
-- the context that are still answered. It gives that number, `currentSlot` and the log. When the time
-- is over, `currentSlot` is set to the last slot of the batch that was processed, or, at the first slot
-- of a batch, to the one that was cached.
module _ (slot_at : ℕ → Result BlockData) where
  unfoldable pub process_slots : ℕ → ℕ → ℕ → ℕ → ℕ → ℕ → List BlockData → ℕ × ℕ × List BlockData
  process_slots zero start last slot alive current log = (alive, current, log)
  process_slots (suc n) start last slot zero current log =
      (0, if ltb start slot then slot - 1 else last, log)
  process_slots (suc n) start last slot (suc alive) current log =
      process_slots n start last (slot + 1) alive current (publish (slot_at slot) log)

  abbrev pub batch_size : ℕ
  batch_size = 10

  abbrev pub batch_end : ℕ → ℕ → ℕ
  batch_end start current =
      if ltb current (start + batch_size - 1) then current else start + batch_size - 1

  -- The batches left, from the index of one on. A batch is not begun when the time is over.
  unfoldable pub process_batches : ℕ → ℕ → ℕ → ℕ → ℕ → List BlockData → ℕ × List BlockData
  process_batches zero index last alive current log = (current, log)
  process_batches (suc n) index last zero current log = (current, log)
  process_batches (suc n) index last (suc alive) current log =
      let start = last + 1 + index * batch_size in
      let r =
        process_slots (batch_end start current + 1 - start) start last start alive current log in
      process_batches n (index + 1) last r.0 r.1 r.2

  abbrev pub batches_of : ℕ → ℕ
  batches_of n = if ltb 0 (n % batch_size) then n / batch_size + 1 else n / batch_size

  -- It gives the slot that is saved, and the log.
  unfoldable pub process_new_slots : ℕ → ℕ → ℕ → List BlockData → ℕ × List BlockData
  process_new_slots last current alive log =
      process_batches (batches_of (current - last)) 0 last alive current log

module _ (endpoint : Endpoint) where
  open endpoint use {to_uint64}

  unfoldable pub slot_at : (ℕ → Bool) → ℕ → Result BlockData
  unfolding get_block
  slot_at late slot = published (slot_of_answer slot (late slot) (get_block endpoint slot))

  -- The type switch on the cached value; `uint64(int)` wraps around.
  abbrev pub uint_of : ℤ → ℕ
  uint_of (pos n) = n
  uint_of (negsuc n) = 18446744073709551615 - n

  abbrev pub last_slot : Dynamic → ℕ
  last_slot (float_value f) = to_uint64 f
  last_slot (int_value i) = uint_of i
  last_slot (uint_value n) = n
  last_slot (number (ok i)) = uint_of i
  last_slot _ = 0

  module _ {S : Type 0} (redis : Redis S) (codec : ResponseCodec) (late : ℕ → Bool)
      (alive : ℕ) where
    abbrev pub save_slot : ℕ → S → Result (Unit {0}) × S
    save_slot slot s = Cache.set redis codec solana_block_identifier (uint_value slot) 120 s

    abbrev pub save_new : ℕ × List BlockData → S → Result (Unit {0}) × S × List BlockData
    save_new (slot, log) s = let (r, t) = save_slot slot s in (r, t, log)

    -- The part after the current slot was fetched.
    unfoldable pub process_current :
        ℕ → Result ℕ → S → List BlockData → Result (Unit {0}) × S × List BlockData
    unfolding process_new_slots
    process_current last (err e) s log = (err e, s, log)
    process_current last (ok current) s log =
        if eqb last 0
        then save_new (current, log) s
        else if ltb last current
        then save_new (process_new_slots (slot_at late) last current alive log) s
        else (ok tt, s, log)

    unfoldable pub process_cached :
        Result Dynamic → S → List BlockData → Result (Unit {0}) × S × List BlockData
    unfolding process_current
    process_cached (err e) s log = (err e, s, log)
    process_cached (ok cached) s log =
        process_current (last_slot cached) (get_current_slot endpoint) s log

    -- The backup job only schedules itself again, if it can.
    abbrev pub is_backup : Option Value → Bool
    is_backup (some (text action)) = action == "ensure_monitor_job"
    is_backup _ = false

    unfoldable pub process_block_monitor_job :
        Map Value → S → List BlockData → Result (Unit {0}) × S × List BlockData
    unfolding process_cached
    process_block_monitor_job job s log =
        if is_backup (lookup "action" job)
        then (ok tt, s, log)
        else process_cached (Cache.get redis codec solana_block_identifier s) s log
