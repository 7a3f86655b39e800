-- ===== src/Workers/Evm/Payments/Transfers.antt =====
-- The transactions and the logs of token transfers of internal/worker/evm/processor.go. The texts of the
-- node are taken to be ASCII, so that a byte is a character.
use Prim.Native.String.{◌++◌}
use go_blockchain_watcher.Prelude.{
  ℕ, zero, suc, String, Option, none, some, List, get_elem?, ltb, length, if◌then◌else◌,
}
use go_blockchain_watcher.Map.{Map, lookup}
use go_blockchain_watcher.Values.{Value, text}

-- The fields of an AnkrTransaction that are set.
pub record AnkrTransaction : Type 0 where
  pub hash : String
  pub recipient : String
  pub sender : String
  pub value : String
  pub block_number : String
  pub block_hash : String

pub record TokenTransfer : Type 0 where
  pub transaction_hash : String
  pub block_number : String
  pub token_address : String
  pub sender : String
  pub recipient : String
  pub amount : String
  pub log_index : String

-- A log: its fields, and its `topics` if they are an array.
pub record RawLog : Type 0 where
  pub fields : Map Value
  pub topics : Option (List Value)

abbrev text_or_empty : Option Value → String
text_or_empty (some (text s)) = s
text_or_empty _ = ""

unfoldable pub text_field : String → Map Value → String
text_field key m = text_or_empty (lookup key m)

unfoldable pub convert_to_ankr_transaction : Map Value → AnkrTransaction
convert_to_ankr_transaction m = record {
  hash = text_field "hash" m;
  recipient = text_field "to" m;
  sender = text_field "from" m;
  value = text_field "value" m;
  block_number = text_field "blockNumber" m;
  block_hash = text_field "blockHash" m;
}

abbrev pub text_length : String → ℕ
text_length String.[] = 0
text_length (String.◌∷◌ c s) = suc (text_length s)

abbrev pub drop_text : ℕ → String → String
drop_text zero s = s
drop_text (suc n) String.[] = String.[]
drop_text (suc n) (String.◌∷◌ c s) = drop_text n s

-- The address of a topic, without its padding.
abbrev pub address_of_topic : Option Value → String
address_of_topic (some (text s)) = if ltb 65 (text_length s) then "0x" ++ drop_text 26 s else ""
address_of_topic _ = ""

abbrev pub topic_address : ℕ → Option (List Value) → String
topic_address i none = ""
topic_address i (some ts) = if ltb 2 (length ts) then address_of_topic (get_elem? ts i) else ""

abbrev pub raw_amount : String → String
raw_amount s = if ltb 2 (text_length s) then s else ""

unfoldable pub parse_token_transfer_log : RawLog → TokenTransfer
parse_token_transfer_log l = record {
  transaction_hash = text_field "transactionHash" l.fields;
  block_number = text_field "blockNumber" l.fields;
  token_address = text_field "address" l.fields;
  sender = topic_address 1 l.topics;
  recipient = topic_address 2 l.topics;
  amount = raw_amount (text_field "data" l.fields);
  log_index = text_field "logIndex" l.fields;
}
