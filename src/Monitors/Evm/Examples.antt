-- ===== src/Monitors/Evm/Examples.antt =====
-- The theorem on the jobs of managers/workers/evm_block_monitor.go at a small instance.
use Prim.Native.String.{◌++◌, len}
use package.text.Mathlib.TextLemmas.{append_cancel_left}
use package.text.Mathlib.TextPositions.{len-append}
use go_blockchain_watcher.Prelude.{
  ℕ, zero, suc, String, ◌≡◌, ◌≢◌, refl, ap, arith, inr, Option, some, [], ◌∷◌, ◌==◌, eqb,
  if◌then◌else◌,
}
use go_blockchain_watcher.Errors.{Result, ok, err, errors_new}
use go_blockchain_watcher.Map.{Map, lookup}
use go_blockchain_watcher.Values.{Value, float64, pos}
use go_blockchain_watcher.Redis.{absent, text}
use go_blockchain_watcher.Redis.Memory.{Memory, memory, entry, memory-RedisLaws}
use go_blockchain_watcher.Cache.{Dynamic, float_value, uint_value, ResponseCodec}
use go_blockchain_watcher.Cache
use go_blockchain_watcher.Monitors.Evm.{ChainConfig, Node, NodeBlock, process_block_monitor_job}
use go_blockchain_watcher.Monitors.Evm.Events.{height_key}
use go_blockchain_watcher.Monitors.Evm.Job.{process_block_monitor_job_follows}

abbrev strokes : ℕ → String
strokes zero = ""
strokes (suc n) = "1" ++ strokes n

-- A node of which every block but the fourth can be read; a client is a number.
abbrev node_block : ℕ → Result (Option NodeBlock)
node_block n =
    if eqb n 4
    then err (errors_new "timeout")
    else ok (
        some (record {
          number = n;
          hash = "h";
          time = 9;
          parent_hash = "p";
          transaction_hashes = "t" ∷ [];
        }))

abbrev node : Node ℕ
node = record {
  dial = λ url. ok 7;
  block_number = λ c. ok 5;
  block_by_number = λ c n. node_block n;
  decimal = strokes;
  to_int = λ f. pos f;
  to_uint64 = λ f. f;
}

abbrev ethereum : ChainConfig
ethereum = record {
  rpc_url = "https://mainnet.infura.io/v3/9aa3d95b3bc440fa88ea12eaa4456161";
  chain_id = 1;
  name = "Ethereum";
  symbol = "ETH";
}

abbrev heights : ResponseCodec
heights = record { marshal = λ d. ok "five"; unmarshal = λ t. ok (float_value 2) }

abbrev at_two : Memory
at_two j = if "evm:last-block-height_1" == j then text "two" else absent

abbrev job : Map Value
job = ("chainId", float64 1) ∷ []

strokes-inj : (m n : ℕ) → strokes m ≡ strokes n → m ≡ n
strokes-inj zero zero e = refl
strokes-inj zero (suc n) e = absurd (omega (arith, ap len e, len-append "1" (strokes n)))
strokes-inj (suc m) zero e = absurd (omega (arith, ap len e, len-append "1" (strokes m)))
strokes-inj (suc m) (suc n) e =
    ap suc (strokes-inj m n (append_cancel_left "1" (strokes m) (strokes n) e))

process_block_monitor_job_follows_example :
    let t = (process_block_monitor_job node memory heights job (at_two, [], [])).1 in
    (t.2 ≡ (
      record {
        chain_id = 1;
        chain_symbol = "ETH";
        block_number = 3;
        block_hash = "h";
        timestamp = 9;
        parent_hash = "p";
        transactions = "t" ∷ [];
      }
      ∷ record {
        chain_id = 1;
        chain_symbol = "ETH";
        block_number = 5;
        block_hash = "h";
        timestamp = 9;
        parent_hash = "p";
        transactions = "t" ∷ [];
      }
      ∷ []))
    × (t.1 ≡ (1, 7) ∷ [])
    × ((k : String) → k ≢ "evm:last-block-height_1" → entry t.0 k ≡ entry at_two k)
    × ((n : ℕ) → n ≢ 1 → entry t.0 (height_key node n) ≡ entry at_two (height_key node n))
unfolding process_block_monitor_job lookup Cache.get Cache.set
process_block_monitor_job_follows_example =
    process_block_monitor_job_follows node memory heights entry memory-RedisLaws job ethereum "ETH"
      7 [] ((1, 7) ∷ []) (float_value 2) 5 at_two [] strokes-inj refl
      (inr (λ x e. ground (arith, e), refl)) refl refl refl refl
