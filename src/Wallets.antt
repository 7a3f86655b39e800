-- ===== src/Wallets.antt =====
-- The wallets: the entity of src/types/wallet.go and the stored document of models/models.go.
-- `ObjectId` stands for the driver's `primitive.ObjectID`, and the current time is an argument.
pub mod Adapter
pub mod UseCase
pub mod Persistence
pub mod Examples
use Prim.Native.String.{◌++◌}
use go_blockchain_watcher.Prelude.{
  ℕ, zero, suc, ◌+◌, ◌-◌, ◌^◌, String, Bool, true, false, Option, none, some, ◌==◌, eqb,
  if◌then◌else◌,
}
use go_blockchain_watcher.Values.{Time, ℤ, pos, negsuc}

-- types.Wallet
pub record Wallet (ObjectId : Type 0) : Type 0 where
  pub id : ObjectId
  pub user_id : ObjectId
  pub name : String
  pub wallet_group : String
  pub hashed_seed_phrase : String
  pub account_depth : ℤ
  pub primary_wallet : Bool
  pub is_linked : Bool
  pub zap_exchange_id : ObjectId
  pub is_deleted : Bool
  pub deleted_at : Option Time
  pub created_at : Time
  pub updated_at : Time

-- models.Wallet, whose tags name the stored fields.
pub record Document (ObjectId : Type 0) : Type 0 where
  pub id : ObjectId
  pub user_id : ObjectId
  pub name : String
  pub wallet_group : String
  pub hashed_seed_phrase : String
  pub account_depth : ℤ
  pub primary_wallet : Bool
  pub is_linked : Bool
  pub zap_exchange_id : ObjectId
  pub is_deleted : Bool
  pub deleted_at : Option Time
  pub created_at : Time
  pub updated_at : Time

-- `i++` on an `int` of 64 bits.
increment : ℤ → ℤ
increment (pos n) = if eqb n (2 ^ 63 - 1) then negsuc (2 ^ 63 - 1) else pos (n + 1)
increment (negsuc zero) = pos 0
increment (negsuc (suc n)) = negsuc n

module _ {ObjectId : Type 0} where
  -- `string(rune(i))` is the conversion `rune_string`, and the ID that of `primitive.NewObjectID`.
  pub new_wallet :
      (ℤ → String) → ObjectId → ObjectId → Time → ObjectId → String → String → ℤ → Wallet ObjectId
  new_wallet rune_string new_id nil_id now user_id name hashed_seed_phrase account_depth = record {
    id = new_id;
    user_id = user_id;
    name = name;
    wallet_group = "Group " ++ rune_string account_depth;
    hashed_seed_phrase = hashed_seed_phrase;
    account_depth = account_depth;
    primary_wallet = false;
    is_linked = false;
    zap_exchange_id = nil_id;
    is_deleted = false;
    deleted_at = none;
    created_at = now;
    updated_at = now;
  }

  pub mark_as_deleted : Time → Wallet ObjectId → Wallet ObjectId
  mark_as_deleted now w = record w { is_deleted = true; deleted_at = some now; updated_at = now }

  pub set_as_primary : Time → Wallet ObjectId → Wallet ObjectId
  set_as_primary now w = record w { primary_wallet = true; updated_at = now }

  pub increase_account_depth : Time → Wallet ObjectId → Wallet ObjectId
  unfolding increment
  increase_account_depth now w = record w {
    account_depth = increment w.account_depth;
    updated_at = now;
  }

  pub link_wallet : Time → ObjectId → Wallet ObjectId → Wallet ObjectId
  link_wallet now zap_exchange_id w = record w {
    is_linked = true;
    zap_exchange_id = zap_exchange_id;
    updated_at = now;
  }

  pub update_wallet : Time → String → String → Wallet ObjectId → Wallet ObjectId
  update_wallet now name wallet_group w = record w {
    name = if name == "" then w.name else name;
    wallet_group = if wallet_group == "" then w.wallet_group else wallet_group;
    updated_at = now;
  }
