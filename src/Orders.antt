-- ===== src/Orders.antt =====
-- The orders: the entity of src/types/order.go and the stored document of models/models.go.
-- `ObjectId` stands for the driver's `primitive.ObjectID`. A nil slice is the empty list.
pub mod Merge
pub mod Adapter
pub mod UseCase
pub mod Fields
pub mod Persistence
pub mod Examples
use go_blockchain_watcher.Prelude.{String, Option, none, some, List, [], ◌∷◌}
use go_blockchain_watcher.Map.{Map, insert}
use go_blockchain_watcher.Values.{Time, zero_time, unix, Float64, Value, int64}

-- types.Order
pub record Order (ObjectId : Type 0) : Type 0 where
  pub id : ObjectId
  pub platform : String
  pub v1_user_id : ObjectId
  pub user_id : ObjectId
  pub order_type : String
  pub flow : String
  pub currency_id : ObjectId
  pub buy_chain : ObjectId
  pub sell_chain : ObjectId
  pub open_amount : Float64
  pub amount : Float64
  pub refund_amount : Float64
  pub calculated_amount : Float64
  pub open_rate : Float64
  pub rate : Float64
  pub calculated_rate : Float64
  pub provider_fees_paid : Float64
  pub blockchain_fees_paid : Float64
  pub fees_gained : Float64
  pub provider_fees_to_pay : Float64
  pub blockchain_fees_to_pay : Float64
  pub fees_to_gain : Float64
  pub calculated_provider_fees_paid : Float64
  pub calculated_blockchain_fees_paid : Float64
  pub calculated_fees_gained : Float64
  pub status : String
  pub status_timestamps : Option (Map Value)
  pub v1_id : String
  pub deposit_account_ids : List ObjectId
  pub withdrawal_account_ids : List ObjectId
  pub refund_account_id : ObjectId
  pub transaction_ids : List ObjectId
  pub transaction_types : List String
  pub parent_order_id : ObjectId
  pub child_order_id : ObjectId
  pub provider : String
  pub provider_order_id : String
  pub buy_provider : String
  pub sell_provider : String
  pub margin : Float64
  pub rate_id : String
  pub expires_at : Time
  pub deleted_at : Option Time
  pub created_at : Time
  pub updated_at : Time

-- models.Order, whose tags name the stored fields.
pub record Document (ObjectId : Type 0) : Type 0 where
  pub id : ObjectId
  pub platform : String
  pub v1_user_id : ObjectId
  pub user_id : ObjectId
  pub order_type : String
  pub flow : String
  pub currency_id : ObjectId
  pub buy_chain : ObjectId
  pub sell_chain : ObjectId
  pub open_amount : Float64
  pub amount : Float64
  pub refund_amount : Float64
  pub calculated_amount : Float64
  pub open_rate : Float64
  pub rate : Float64
  pub calculated_rate : Float64
  pub provider_fees_paid : Float64
  pub blockchain_fees_paid : Float64
  pub fees_gained : Float64
  pub provider_fees_to_pay : Float64
  pub blockchain_fees_to_pay : Float64
  pub fees_to_gain : Float64
  pub calculated_provider_fees_paid : Float64
  pub calculated_blockchain_fees_paid : Float64
  pub calculated_fees_gained : Float64
  pub status : String
  pub status_timestamps : Option (Map Value)
  pub v1_id : String
  pub deposit_account_ids : List ObjectId
  pub withdrawal_account_ids : List ObjectId
  pub refund_account_id : ObjectId
  pub transaction_ids : List ObjectId
  pub transaction_types : List String
  pub parent_order : ObjectId
  pub child_order : ObjectId
  pub provider : String
  pub provider_order_id : String
  pub buy_provider : String
  pub sell_provider : String
  pub margin : Float64
  pub rate_id : String
  pub expires_at : Time
  pub deleted_at : Option Time
  pub created_at : Time
  pub updated_at : Time

-- Writing to a map that may be nil makes it first.
unfoldable pub stamp : String → Value → Option (Map Value) → Map Value
stamp status t none = insert status t []
stamp status t (some m) = insert status t m

module _ {ObjectId : Type 0} where
  -- The entity whose fields have their zero values.
  abbrev pub zero_order : ObjectId → Order ObjectId
  zero_order nil_id = record {
    id = nil_id;
    platform = "";
    v1_user_id = nil_id;
    user_id = nil_id;
    order_type = "";
    flow = "";
    currency_id = nil_id;
    buy_chain = nil_id;
    sell_chain = nil_id;
    open_amount = 0;
    amount = 0;
    refund_amount = 0;
    calculated_amount = 0;
    open_rate = 0;
    rate = 0;
    calculated_rate = 0;
    provider_fees_paid = 0;
    blockchain_fees_paid = 0;
    fees_gained = 0;
    provider_fees_to_pay = 0;
    blockchain_fees_to_pay = 0;
    fees_to_gain = 0;
    calculated_provider_fees_paid = 0;
    calculated_blockchain_fees_paid = 0;
    calculated_fees_gained = 0;
    status = "";
    status_timestamps = none;
    v1_id = "";
    deposit_account_ids = [];
    withdrawal_account_ids = [];
    refund_account_id = nil_id;
    transaction_ids = [];
    transaction_types = [];
    parent_order_id = nil_id;
    child_order_id = nil_id;
    provider = "";
    provider_order_id = "";
    buy_provider = "";
    sell_provider = "";
    margin = 0;
    rate_id = "";
    expires_at = zero_time;
    deleted_at = none;
    created_at = zero_time;
    updated_at = zero_time;
  }

  unfoldable pub new_order :
      ObjectId → ObjectId → Time → ObjectId → ObjectId → String → Float64 → Float64 → Order ObjectId
  new_order new_id nil_id now user_id currency_id flow amount rate = record (zero_order nil_id) {
    id = new_id;
    user_id = user_id;
    currency_id = currency_id;
    flow = flow;
    amount = amount;
    open_amount = amount;
    rate = rate;
    open_rate = rate;
    status = "CREATED";
    status_timestamps = some (("CREATED", int64 (unix now)) ∷ []);
    platform = "APP";
    created_at = now;
    updated_at = now;
  }

  -- `now := time.Time{}`
  unfoldable pub mark_as_deleted : Order ObjectId → Order ObjectId
  mark_as_deleted o = record o { deleted_at = some zero_time; updated_at = zero_time }

  unfoldable pub update_status : Time → String → Order ObjectId → Order ObjectId
  unfolding stamp
  update_status now status o = record o {
    status = status;
    status_timestamps = some (stamp status (int64 (unix now)) o.status_timestamps);
    updated_at = now;
  }
