-- ===== src/Monitors/Evm/Events.antt =====
-- What a job of managers/workers/evm_block_monitor.go is to publish, and the key under which the height
-- of a chain is cached.
use Prim.Native.String.{◌++◌}
use text.Mathlib.TextLemmas.{append_assoc, append_cancel_left}
use go_blockchain_watcher.Prelude.{
  ℕ, zero, suc, ◌+◌, ◌≡◌, sym, String, Option, none, some, List, [], ◌∷◌,
}
use go_blockchain_watcher.Errors.{Result, ok, err}
use go_blockchain_watcher.Monitors.Evm.{ChainConfig, Node, NodeBlock, BlockData, cache_key}

-- The event of a block, if the node gives one, before the others.
abbrev pub event_before : ℕ → String → Result (Option NodeBlock) → List BlockData → List BlockData
event_before id symbol (err e) rest = rest
event_before id symbol (ok none) rest = rest
event_before id symbol (ok (some b)) rest =
    record {
      chain_id = id;
      chain_symbol = symbol;
      block_number = b.number;
      block_hash = b.hash;
      timestamp = b.time;
      parent_hash = b.parent_hash;
      transactions = b.transaction_hashes;
    }
    ∷ rest

module _ {Client : Type 0} (node : Node Client) where
  -- The events of so many heights from one on.
  abbrev pub events_from : Client → ℕ → String → ℕ → ℕ → List BlockData
  events_from client id symbol zero height = []
  events_from client id symbol (suc n) height =
      event_before id symbol (node.block_by_number client height)
        (events_from client id symbol n (height + 1))

  abbrev pub height_key : ℕ → String
  height_key id = "evm:last-block-height_" ++ node.decimal id

  pub height_key-inj : (m n : ℕ) → height_key m ≡ height_key n → node.decimal m ≡ node.decimal n
  height_key-inj m n e =
      append_cancel_left "evm:last-block-height_" (node.decimal m) (node.decimal n) e

  pub cache_key_lem : (c : ChainConfig) → cache_key node c ≡ height_key c.chain_id
  cache_key_lem c = sym (append_assoc "evm:last-block-height" "_" (node.decimal c.chain_id))
