-- ===== src/Monitors/Solana/Examples.antt =====
-- The theorems on managers/workers/solana_block_monitor.go at small instances.
use go_blockchain_watcher.Prelude.{
  ℕ, ◌<◌, String, ◌≡◌, refl, none, some, [], ◌==◌, eqb, arith, if◌then◌else◌,
}
use go_blockchain_watcher.Errors.{Result, ok, err, errors_new}
use go_blockchain_watcher.Values.{pos, negsuc}
use go_blockchain_watcher.Monitors.Follow.{process_heights}
use go_blockchain_watcher.Monitors.Solana.{BlockData, process_new_slots}
use go_blockchain_watcher.Monitors.Solana.Slots.{
  process_new_slots-in_time, process_new_slots_stopped,
}
use go_blockchain_watcher.Monitors.Solana.Rpc.{
  Endpoint, Fields, absent, rpc_error, SolanaRpcResponse, Answer, failed, make_request,
}
use go_blockchain_watcher.Monitors.Solana.Retries.{make_request_fails}

abbrev block : ℕ → Result BlockData
block slot = ok (record {
  chain_symbol = "SOL";
  block_number = slot;
  block_hash = "h";
  timestamp = pos 9;
  transactions = [];
})

process_new_slots-in_time_example :
    process_new_slots block 5 28 40 [] ≡ (28, process_heights block 23 6 [])
process_new_slots-in_time_example =
    process_new_slots-in_time block 5 28 40 [] (omega arith) (ground arith)

process_new_slots_stopped_example :
    (process_new_slots block 5 28 22 [] ≡ (28, process_heights block 20 6 []))
    × (process_new_slots block 5 28 23 [] ≡ (5, process_heights block 20 6 []))
process_new_slots_stopped_example = process_new_slots_stopped block 2 5 28 [] (omega arith)

-- An endpoint that is busy at first.
abbrev fields : String → Fields
fields body =
    if body == "busy"
    then record { result = none; error = rpc_error (some (negsuc 32004)) (some "busy") }
    else record { result = some "7"; error = absent }

abbrev body_of : ℕ → String
body_of k = if eqb k 0 then "busy" else "slot"

abbrev answer : ℕ → Answer
answer k = ok (200, ok (body_of k))

abbrev endpoint : Endpoint
endpoint = record {
  slot_answer = answer;
  block_answer = λ slot. answer;
  decode_response = λ body. (fields body, none);
  decode_slot = λ t. ok 7;
  decode_block = λ t.
      (record { blockhash = "h"; block_time = pos 9; block_height = 7; transactions = [] }, none);
  decode_custom_block = λ t. err (errors_new "no block");
  decode_transaction = λ t. err (errors_new "no transaction");
  to_int64 = λ f. pos f;
  to_uint64 = λ f. f;
  decimal = λ n. "-32005";
}

later_body : (k : ℕ) → 0 < k → body_of k ≡ "slot"
later_body k h = ground (arith, h)

make_request_fails_example :
    (r : SolanaRpcResponse) × (make_request endpoint answer
      ≡ failed (some r) (errors_new "RPC error: busy (code: -32005)"))
make_request_fails_example =
    make_request_fails endpoint answer body_of (negsuc 32004) "busy" refl (λ k h. refl)
      (λ k h. refl) (λ k h. rw (later_body k h) refl) "busy" (some (negsuc 32004)) (some "busy")
      refl refl refl refl refl
