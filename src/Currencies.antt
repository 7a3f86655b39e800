-- ===== src/Currencies.antt =====
-- The currencies, chains and supported currencies of models/models.go. The child modules are the
-- reads of config/mongodb/repositories.go and the adapters of src/adapters.
pub mod Reads
pub mod Pages
use go_blockchain_watcher.Prelude.{String, Bool}
use go_blockchain_watcher.Values.{Time, Float64, ℤ}

-- models.Currency
pub record Currency (ObjectId : Type 0) : Type 0 where
  pub id : ObjectId
  pub name : String
  pub symbol : String
  pub is_crypto : Bool
  pub logo : String
  pub website : String
  pub explorer : String
  pub description : String
  pub created_at : Time
  pub updated_at : Time

-- The dynamic values of a chain's `ChainID`: `nil`, the types of the `switch`, and any other.
pub data ChainId : Type 0 where
  absent : ChainId
  text : String → ChainId
  integer : ℤ → ChainId
  float64 : Float64 → ChainId
  other : String → ChainId

-- models.Chain
pub record Chain (ObjectId : Type 0) : Type 0 where
  pub id : ObjectId
  pub name : String
  pub symbol : String
  pub chain_id : ChainId
  pub network_type : String
  pub rpc_url : String
  pub explorer_url : String
  pub icon_url : String
  pub status : String
  pub created_at : Time
  pub updated_at : Time

-- `%d` and the conversion of a `float64` to `int` are parameters; `other` holds its text by `%v`.
unfoldable pub chain_id_string : (ℤ → String) → (Float64 → ℤ) → ChainId → String
chain_id_string decimal to_int absent = ""
chain_id_string decimal to_int (text s) = s
chain_id_string decimal to_int (integer n) = decimal n
chain_id_string decimal to_int (float64 f) = decimal (to_int f)
chain_id_string decimal to_int (other s) = s

-- models.SupportedCurrency
pub record SupportedCurrency (ObjectId : Type 0) : Type 0 where
  pub id : ObjectId
  pub chain_id : ObjectId
  pub currency_id : ObjectId
  pub token_address : String
  pub decimals : ℤ
  pub status : String
  pub created_at : Time
  pub updated_at : Time
