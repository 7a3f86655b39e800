-- ===== src/Accounts.antt =====
-- The accounts: the entity of src/types/account.go and the stored document of models/models.go.
-- `ObjectId` stands for the driver's `primitive.ObjectID`, and the current time is an argument.
pub mod Adapter
pub mod UseCase
pub mod Import
pub mod Persistence
pub mod Addresses
pub mod Examples
use go_blockchain_watcher.Prelude.{String, Bool, not, Option, none, some, ◌==◌, is_some}
use go_blockchain_watcher.Values.{Time, Float64}

-- types.Account
pub record Account (ObjectId : Type 0) : Type 0 where
  pub id : ObjectId
  pub currency_id : ObjectId
  pub chain_id : ObjectId
  pub wallet_id : ObjectId
  pub user_id : ObjectId
  pub supported_currency_id : ObjectId
  pub account_type : String
  pub wallet_address : String
  pub balance : Float64
  pub encrypted_private_key : String
  pub deleted_at : Option Time
  pub created_at : Time
  pub updated_at : Time

-- models.Account
pub record Document (ObjectId : Type 0) : Type 0 where
  pub id : ObjectId
  pub currency_id : ObjectId
  pub country_id : ObjectId
  pub bank_id : ObjectId
  pub wallet_id : ObjectId
  pub chain_id : ObjectId
  pub user_id : ObjectId
  pub physical_address_id : ObjectId
  pub supported_currency_id : ObjectId
  pub zap_id : String
  pub name : String
  pub holder_name : String
  pub number : String
  pub wallet_address : String
  pub is_player : Bool
  pub inflow_single_limit : Float64
  pub inflow_daily_limit : Float64
  pub outflow_single_limit : Float64
  pub outflow_daily_limit : Float64
  pub balance : Float64
  pub account_type : String
  pub position : String
  pub bench_status : Bool
  pub notes : String
  pub deleted_at : Option Time
  pub encrypted_private_key : String
  pub created_at : Time
  pub updated_at : Time

module _ {ObjectId : Type 0} where
  unfoldable pub new_account :
      ObjectId
      → ObjectId
      → Time
      → ObjectId
      → ObjectId
      → ObjectId
      → ObjectId
      → String
      → String
      → Account ObjectId
  new_account new_id nil_id now wallet_id user_id currency_id chain_id wallet_address key = record {
    id = new_id;
    currency_id = currency_id;
    chain_id = chain_id;
    wallet_id = wallet_id;
    user_id = user_id;
    supported_currency_id = nil_id;
    account_type = "";
    wallet_address = wallet_address;
    balance = 0;
    encrypted_private_key = key;
    deleted_at = none;
    created_at = now;
    updated_at = now;
  }

  unfoldable pub update_balance : Float64 → Time → Account ObjectId → Account ObjectId
  update_balance balance now a = record a { balance = balance; updated_at = now }

  unfoldable pub mark_as_deleted : Time → Account ObjectId → Account ObjectId
  mark_as_deleted now a = record a { deleted_at = some now; updated_at = now }

  unfoldable pub is_deleted : Account ObjectId → Bool
  is_deleted a = is_some a.deleted_at

  unfoldable pub has_wallet_address : Account ObjectId → Bool
  has_wallet_address a = not (a.wallet_address == "")
