-- ===== src/Monitors/Tron/Blocks.antt =====
-- The blocks of managers/workers/tron_block_monitor.go, and the event that is made of one.
use go_blockchain_watcher.Prelude.{ℕ, String, Option, none, some, List, [], ◌∷◌, ltb, if◌then◌else◌}
use go_blockchain_watcher.Errors.{Error}
use go_blockchain_watcher.Values.{ℤ}

-- The bytes of a string.
abbrev pub Bytes : Type 0
Bytes = List ℕ

pub record TronBlockRawData : Type 0 where
  pub number : ℕ
  pub tx_trie_root : String
  pub witness_address : String
  pub parent_hash : String
  pub version : ℤ
  pub timestamp : ℤ

pub record TronBlockHeader : Type 0 where
  pub raw_data : TronBlockRawData
  pub witness_signature : String

pub record ParameterValue : Type 0 where
  pub owner_address : Bytes
  pub to_address : Bytes
  pub amount : ℕ
  pub asset_name : String
  pub contract_address : String

-- `parameter` is the JSON text of the field.
pub record TronContract : Type 0 where
  pub contract_type : String
  pub parameter : String
  pub parameter_value : ParameterValue

pub record TronTransactionData : Type 0 where
  pub contract : List TronContract
  pub ref_block_bytes : String
  pub ref_block_hash : String
  pub expiration : ℤ
  pub timestamp : ℤ

pub record TronTransaction : Type 0 where
  pub tx_id : String
  pub raw_data : TronTransactionData
  pub signature : List String

pub record TronBlock : Type 0 where
  pub block_id : String
  pub block_header : TronBlockHeader
  pub transactions : List TronTransaction

-- The map that is made of a transaction: `none` is a key that is not set.
pub record TransactionData : Type 0 where
  pub tx_id : String
  pub timestamp : ℤ
  pub contract_type : Option String
  pub sender : Option Bytes
  pub recipient : Option Bytes
  pub amount : Option ℕ

-- types.BlockData, the fields that are set for this chain.
pub record BlockData : Type 0 where
  pub chain_symbol : String
  pub block_number : ℕ
  pub block_hash : String
  pub timestamp : ℤ
  pub parent_hash : String
  pub transactions : List TransactionData

-- The address without its first two bytes, behind a `T`; a slice of one byte panics.
unfoldable pub hex_to_tron_address : Bytes → Option Bytes
hex_to_tron_address (x ∷ y ∷ rest) = some (84 ∷ rest)
hex_to_tron_address _ = none

-- What an iteration over the heights comes to.
pub data Attempt : Type 0 where
  found : BlockData → Attempt
  failed : Error → Attempt
  panicked : Attempt

-- An address that is empty is not set.
abbrev pub address_of : Bytes → Option (Option Bytes)
address_of [] = some none
address_of (x ∷ rest) = elim (hex_to_tron_address (x ∷ rest)) [
  | none ↦ none
  | some a ↦ some (some a)
]

abbrev pub amount_of : ℕ → Option ℕ
amount_of n = if ltb 0 n then some n else none

abbrev pub with_addresses :
    TronTransaction
    → TronContract
    → Option (Option Bytes)
    → Option (Option Bytes)
    → Option TransactionData
with_addresses tx c (some sender) (some recipient) = some (record {
  tx_id = tx.tx_id;
  timestamp = tx.raw_data.timestamp;
  contract_type = some c.contract_type;
  sender = sender;
  recipient = recipient;
  amount = amount_of c.parameter_value.amount;
})
with_addresses tx c _ _ = none

-- Only the first contract is looked at. `none` is a panic.
abbrev pub data_of : TronTransaction → List TronContract → Option TransactionData
data_of tx [] = some (record {
  tx_id = tx.tx_id;
  timestamp = tx.raw_data.timestamp;
  contract_type = none;
  sender = none;
  recipient = none;
  amount = none;
})
data_of tx (c ∷ _) =
    with_addresses tx c (address_of c.parameter_value.owner_address)
      (address_of c.parameter_value.to_address)

abbrev pub add_data :
    Option TransactionData → Option (List TransactionData) → Option (List TransactionData)
add_data (some d) (some ds) = some (d ∷ ds)
add_data _ _ = none

unfoldable pub transactions_data : List TronTransaction → Option (List TransactionData)
transactions_data [] = some []
transactions_data (tx ∷ txs) = add_data (data_of tx tx.raw_data.contract) (transactions_data txs)

-- The event, or the panic.
abbrev pub event_of : ℕ → TronBlock → Option (List TransactionData) → Attempt
event_of height b none = panicked
event_of height b (some txs) = found (record {
  chain_symbol = "TRX";
  block_number = height;
  block_hash = b.block_id;
  timestamp = b.block_header.raw_data.timestamp;
  parent_hash = b.block_header.raw_data.parent_hash;
  transactions = txs;
})
