-- ===== src/Orders/Merge.antt =====
-- The merge of `UpdateOrder` (src/usecases/order_usecase.go): a field that is set, by a value other
-- than its zero value, replaces the stored one.
use go_blockchain_watcher.Prelude.{
  String, ◌≡◌, refl, Bool, true, false, Option, none, some, List, [], ◌∷◌, ◌==◌, if◌then◌else◌,
}
use go_blockchain_watcher.Map.{Map}
use go_blockchain_watcher.Values.{Time, is_zero_time, Float64, is_zero_float, Value}
use go_blockchain_watcher.Orders.{Order, zero_order}

abbrev pub over_text : String → String → String
over_text new old = if new == "" then old else new

abbrev pub over_float : Float64 → Float64 → Float64
over_float new old = if is_zero_float new then old else new

abbrev pub over_time : Time → Time → Time
over_time new old = if is_zero_time new then old else new

abbrev pub over_list : {A : Type 0} → List A → List A → List A
over_list [] old = old
over_list (x ∷ xs) old = x ∷ xs

abbrev pub over_map : Option (Map Value) → Option (Map Value) → Option (Map Value)
over_map none old = old
over_map (some m) old = some m

abbrev pub over_id : {ObjectId : Type 0} → (ObjectId → Bool) → ObjectId → ObjectId → ObjectId
over_id is_zero new old = if is_zero new then old else new

-- A value that is set twice is set once.
again :
    {A : Type 0} (b : Bool) (new old : A)
    → (if b then (if b then old else new) else new) ≡ (if b then old else new)
again true new old = refl
again false new old = refl

text_twice : (new old : String) → over_text new (over_text new old) ≡ over_text new old
text_twice new old = again (new == "") new old

float_twice : (new old : Float64) → over_float new (over_float new old) ≡ over_float new old
float_twice new old = again (is_zero_float new) new old

time_twice : (new old : Time) → over_time new (over_time new old) ≡ over_time new old
time_twice new old = again (is_zero_time new) new old

list_twice : {A : Type 0} (new old : List A) → over_list new (over_list new old) ≡ over_list new old
list_twice [] old = refl
list_twice (x ∷ xs) old = refl

map_twice : (new old : Option (Map Value)) → over_map new (over_map new old) ≡ over_map new old
map_twice none old = refl
map_twice (some m) old = refl

id_twice :
    {A : Type 0} (is_zero : A → Bool) (new old : A)
    → over_id is_zero new (over_id is_zero new old) ≡ over_id is_zero new old
id_twice is_zero new old = again (is_zero new) new old

module _ {ObjectId : Type 0} (is_zero : ObjectId → Bool) where
  unfoldable pub merge : Order ObjectId → Order ObjectId → Order ObjectId
  merge o old = record {
    id = old.id;
    platform = over_text o.platform old.platform;
    v1_user_id = old.v1_user_id;
    user_id = over_id is_zero o.user_id old.user_id;
    order_type = old.order_type;
    flow = over_text o.flow old.flow;
    currency_id = over_id is_zero o.currency_id old.currency_id;
    buy_chain = over_id is_zero o.buy_chain old.buy_chain;
    sell_chain = over_id is_zero o.sell_chain old.sell_chain;
    open_amount = over_float o.open_amount old.open_amount;
    amount = over_float o.amount old.amount;
    refund_amount = over_float o.refund_amount old.refund_amount;
    calculated_amount = over_float o.calculated_amount old.calculated_amount;
    open_rate = over_float o.open_rate old.open_rate;
    rate = over_float o.rate old.rate;
    calculated_rate = over_float o.calculated_rate old.calculated_rate;
    provider_fees_paid = over_float o.provider_fees_paid old.provider_fees_paid;
    blockchain_fees_paid = over_float o.blockchain_fees_paid old.blockchain_fees_paid;
    fees_gained = over_float o.fees_gained old.fees_gained;
    provider_fees_to_pay = over_float o.provider_fees_to_pay old.provider_fees_to_pay;
    blockchain_fees_to_pay = over_float o.blockchain_fees_to_pay old.blockchain_fees_to_pay;
    fees_to_gain = over_float o.fees_to_gain old.fees_to_gain;
    calculated_provider_fees_paid =
        over_float o.calculated_provider_fees_paid old.calculated_provider_fees_paid;
    calculated_blockchain_fees_paid =
        over_float o.calculated_blockchain_fees_paid old.calculated_blockchain_fees_paid;
    calculated_fees_gained = over_float o.calculated_fees_gained old.calculated_fees_gained;
    status = over_text o.status old.status;
    status_timestamps = over_map o.status_timestamps old.status_timestamps;
    v1_id = old.v1_id;
    deposit_account_ids = over_list o.deposit_account_ids old.deposit_account_ids;
    withdrawal_account_ids = over_list o.withdrawal_account_ids old.withdrawal_account_ids;
    refund_account_id = over_id is_zero o.refund_account_id old.refund_account_id;
    transaction_ids = over_list o.transaction_ids old.transaction_ids;
    transaction_types = over_list o.transaction_types old.transaction_types;
    parent_order_id = over_id is_zero o.parent_order_id old.parent_order_id;
    child_order_id = over_id is_zero o.child_order_id old.child_order_id;
    provider = over_text o.provider old.provider;
    provider_order_id = over_text o.provider_order_id old.provider_order_id;
    buy_provider = over_text o.buy_provider old.buy_provider;
    sell_provider = over_text o.sell_provider old.sell_provider;
    margin = over_float o.margin old.margin;
    rate_id = over_text o.rate_id old.rate_id;
    expires_at = over_time o.expires_at old.expires_at;
    deleted_at = old.deleted_at;
    created_at = old.created_at;
    updated_at = old.updated_at;
  }

  -- To merge an order into one in which it was merged already changes nothing, and neither does the
  -- order whose fields have their zero values, which include the nil ID.
  pub merge_idem_and_zero :
      (nil_id : ObjectId) (o old : Order ObjectId)
      → is_zero nil_id ≡ true
      → (merge o (merge o old) ≡ merge o old) × (merge (zero_order nil_id) old ≡ old)
  unfolding merge
  merge_idem_and_zero nil_id o old h = (twice, rw h refl)
    where
      twice : merge o (merge o old) ≡ merge o old
      twice =
          rw
            (
              text_twice o.platform old.platform,
              id_twice is_zero o.user_id old.user_id,
              text_twice o.flow old.flow,
              id_twice is_zero o.currency_id old.currency_id,
              id_twice is_zero o.buy_chain old.buy_chain,
              id_twice is_zero o.sell_chain old.sell_chain,
              float_twice o.open_amount old.open_amount,
              float_twice o.amount old.amount,
              float_twice o.refund_amount old.refund_amount,
              float_twice o.calculated_amount old.calculated_amount,
              float_twice o.open_rate old.open_rate,
              float_twice o.rate old.rate,
              float_twice o.calculated_rate old.calculated_rate,
              float_twice o.provider_fees_paid old.provider_fees_paid,
              float_twice o.blockchain_fees_paid old.blockchain_fees_paid,
              float_twice o.fees_gained old.fees_gained,
              float_twice o.provider_fees_to_pay old.provider_fees_to_pay,
              float_twice o.blockchain_fees_to_pay old.blockchain_fees_to_pay,
              float_twice o.fees_to_gain old.fees_to_gain,
              float_twice o.calculated_provider_fees_paid old.calculated_provider_fees_paid,
              float_twice o.calculated_blockchain_fees_paid old.calculated_blockchain_fees_paid,
              float_twice o.calculated_fees_gained old.calculated_fees_gained,
              text_twice o.status old.status,
              map_twice o.status_timestamps old.status_timestamps,
              list_twice o.deposit_account_ids old.deposit_account_ids,
              list_twice o.withdrawal_account_ids old.withdrawal_account_ids,
              id_twice is_zero o.refund_account_id old.refund_account_id,
              list_twice o.transaction_ids old.transaction_ids,
              list_twice o.transaction_types old.transaction_types,
              id_twice is_zero o.parent_order_id old.parent_order_id,
              id_twice is_zero o.child_order_id old.child_order_id,
              text_twice o.provider old.provider,
              text_twice o.provider_order_id old.provider_order_id,
              text_twice o.buy_provider old.buy_provider,
              text_twice o.sell_provider old.sell_provider,
              float_twice o.margin old.margin,
              text_twice o.rate_id old.rate_id,
              time_twice o.expires_at old.expires_at,
            )
            refl
