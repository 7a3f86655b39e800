-- ===== src/Monitors/Tron/Examples.antt =====
-- The theorems on the jobs of managers/workers/tron_block_monitor.go at small instances.
use go_blockchain_watcher.Prelude.{
  ℕ, zero, suc, ◌+◌, ◌<◌, ◌≡◌, ◌≢◌, refl, Option, none, List, [], ◌∷◌, ◌++◌, ◌==◌, eqb, arith,
  if◌then◌else◌,
}
use go_blockchain_watcher.Errors.{Result, ok}
use go_blockchain_watcher.Values.{pos}
use go_blockchain_watcher.Redis.{absent, text}
use go_blockchain_watcher.Redis.Memory.{Memory, memory}
use go_blockchain_watcher.Cache.{Dynamic, float_value, uint_value, ResponseCodec}
use go_blockchain_watcher.Cache
use go_blockchain_watcher.Monitors.Tron.Blocks.{
  TronBlock, BlockData, found, TronTransaction, ParameterValue, Bytes, panicked, transactions_data,
  hex_to_tron_address,
}
use go_blockchain_watcher.Monitors.Tron.{
  Endpoint, block_at_height, get_block_by_number, get_current_block, process_block_monitor_job,
}
use go_blockchain_watcher.Monitors.Tron.Crash.{good_blocks, job_crashes_again}

abbrev value : ParameterValue
value = record {
  owner_address = [];
  to_address = [];
  amount = 3;
  asset_name = "";
  contract_address = "";
}

-- A transaction from an address.
abbrev transaction : Bytes → TronTransaction
transaction address = record {
  tx_id = "t";
  raw_data = record {
    contract =
        record {
          contract_type = "TransferContract";
          parameter = "{}";
          parameter_value = record value { owner_address = address };
        }
        ∷ [];
    ref_block_bytes = "";
    ref_block_hash = "";
    expiration = pos 0;
    timestamp = pos 8;
  };
  signature = [];
}

-- A block with a height and the address of its transaction.
abbrev block : ℕ → Bytes → TronBlock
block n address = record {
  block_id = "b";
  block_header = record {
    raw_data = record {
      number = n;
      tx_trie_root = "";
      witness_address = "";
      parent_hash = "p";
      version = pos 1;
      timestamp = pos 9;
    };
    witness_signature = "";
  };
  transactions = transaction address ∷ [];
}

-- The endpoint is at block 6; block 4 has the given address, and the others have a long one.
abbrev endpoint : Bytes → Endpoint
endpoint address = record {
  get_now_block = ok (200, "now");
  get_block_by_num = λ n. ok (200, if eqb n 4 then "four" else "other");
  decode_block = λ t. ok (
      if t == "now"
      then block 6 []
      else if t == "four"
      then block 4 address
      else block 5 (52 ∷ 49 ∷ 50 ∷ []));
  value_field = λ t. ok none;
  decode_value = λ t v. v;
  to_uint64 = λ f. f;
}

abbrev heights : ResponseCodec
heights = record { marshal = λ d. ok "six"; unmarshal = λ t. ok (float_value 2) }

abbrev at_two : Memory
at_two j = if "tron:last-block-height" == j then text "two" else absent

abbrev job : Bytes → Option (Result (Unit {0})) × Memory × List BlockData
job address = process_block_monitor_job (endpoint address) memory heights at_two []

found-ne-panicked : {b : BlockData} → found b ≢ panicked
found-ne-panicked h = cc

-- The third block has no address of one byte.
third : (i : ℕ) → i < 1 → block_at_height (endpoint (52 ∷ [])) (3 + i) ≢ panicked
unfolding block_at_height get_block_by_number transactions_data hex_to_tron_address
third zero below e = found-ne-panicked e
third (suc i) below e = absurd (omega (arith, below))

job_crashes_again_example :
    let first_job = job (52 ∷ []) in
    let blocks = good_blocks memory heights (endpoint (52 ∷ [])) 1 3 in
    (first_job ≡ (none, at_two, [] ++ blocks))
    × (process_block_monitor_job (endpoint (52 ∷ [])) memory heights first_job.1 first_job.2
        ≡ (none, at_two, ([] ++ blocks) ++ blocks))
unfolding Cache.get get_current_block block_at_height get_block_by_number transactions_data
    hex_to_tron_address
job_crashes_again_example =
    job_crashes_again memory heights (endpoint (52 ∷ [])) (endpoint (52 ∷ [])) (float_value 2)
      (block 6 []) (block 6 []) 1 at_two [] refl refl refl (omega arith) refl (omega arith)
      (omega arith) third refl (λ i below. refl)
