-- ===== src/Orders/Persistence/Merged.antt =====
-- What `UpdateOrder` of src/usecases/order_usecase.go promises for each field of a stored order.
use go_blockchain_watcher.Prelude.{
  ◌≡◌, refl, sym, Bool, true, false, false≢true, Option, none, some, List, [], ◌∷◌, ◌==◌,
  if◌then◌else◌,
}
use go_blockchain_watcher.Map.{Map}
use go_blockchain_watcher.Values.{Time, is_zero_time, is_zero_float, Value}
use go_blockchain_watcher.Orders.{Order, Document}
use go_blockchain_watcher.Orders.Merge.{merge, over_list, over_map}
use go_blockchain_watcher.Orders.Adapter.{convert_order_model_to_domain}

-- The field has the old value if the new one is unset, and else the new one.
abbrev IsTaken : {A : Type 0} → Bool → A → A → A → Type 0
IsTaken unset new old r = (unset ≡ true → r ≡ old) × (unset ≡ false → r ≡ new)

abbrev is_empty : {A : Type 0} → List A → Bool
is_empty [] = true
is_empty (x ∷ xs) = false

abbrev is_none : {A : Type 0} → Option A → Bool
is_none none = true
is_none (some x) = false

-- The fields of the order `r` that is read at last, when the order `o` is written over the stored one
-- `d` at the time `now`.
pub record IsUpdated {ObjectId : Type 0} (is_zero : ObjectId → Bool) (now : Time)
    (o : Order ObjectId) (d : Document ObjectId) (r : Order ObjectId) : Type 0 where
  pub id : r.id ≡ d.id
  pub platform : IsTaken (o.platform == "") o.platform d.platform r.platform
  pub v1_user_id : r.v1_user_id ≡ d.v1_user_id
  pub user_id : IsTaken (is_zero o.user_id) o.user_id d.user_id r.user_id
  pub order_type : r.order_type ≡ d.order_type
  pub flow : IsTaken (o.flow == "") o.flow d.flow r.flow
  pub currency_id : IsTaken (is_zero o.currency_id) o.currency_id d.currency_id r.currency_id
  pub buy_chain : IsTaken (is_zero o.buy_chain) o.buy_chain d.buy_chain r.buy_chain
  pub sell_chain : IsTaken (is_zero o.sell_chain) o.sell_chain d.sell_chain r.sell_chain
  pub open_amount : IsTaken (is_zero_float o.open_amount) o.open_amount d.open_amount r.open_amount
  pub amount : IsTaken (is_zero_float o.amount) o.amount d.amount r.amount
  pub refund_amount :
      IsTaken (is_zero_float o.refund_amount) o.refund_amount d.refund_amount r.refund_amount
  pub calculated_amount :
      IsTaken
        (is_zero_float o.calculated_amount)
        o.calculated_amount
        d.calculated_amount
        r.calculated_amount
  pub open_rate : IsTaken (is_zero_float o.open_rate) o.open_rate d.open_rate r.open_rate
  pub rate : IsTaken (is_zero_float o.rate) o.rate d.rate r.rate
  pub calculated_rate :
      IsTaken
        (is_zero_float o.calculated_rate)
        o.calculated_rate
        d.calculated_rate
        r.calculated_rate
  pub provider_fees_paid :
      IsTaken
        (is_zero_float o.provider_fees_paid)
        o.provider_fees_paid
        d.provider_fees_paid
        r.provider_fees_paid
  pub blockchain_fees_paid :
      IsTaken
        (is_zero_float o.blockchain_fees_paid)
        o.blockchain_fees_paid
        d.blockchain_fees_paid
        r.blockchain_fees_paid
  pub fees_gained : IsTaken (is_zero_float o.fees_gained) o.fees_gained d.fees_gained r.fees_gained
  pub provider_fees_to_pay :
      IsTaken
        (is_zero_float o.provider_fees_to_pay)
        o.provider_fees_to_pay
        d.provider_fees_to_pay
        r.provider_fees_to_pay
  pub blockchain_fees_to_pay :
      IsTaken
        (is_zero_float o.blockchain_fees_to_pay)
        o.blockchain_fees_to_pay
        d.blockchain_fees_to_pay
        r.blockchain_fees_to_pay
  pub fees_to_gain :
      IsTaken (is_zero_float o.fees_to_gain) o.fees_to_gain d.fees_to_gain r.fees_to_gain
  pub calculated_provider_fees_paid :
      IsTaken
        (is_zero_float o.calculated_provider_fees_paid)
        o.calculated_provider_fees_paid
        d.calculated_provider_fees_paid
        r.calculated_provider_fees_paid
  pub calculated_blockchain_fees_paid :
      IsTaken
        (is_zero_float o.calculated_blockchain_fees_paid)
        o.calculated_blockchain_fees_paid
        d.calculated_blockchain_fees_paid
        r.calculated_blockchain_fees_paid
  pub calculated_fees_gained :
      IsTaken
        (is_zero_float o.calculated_fees_gained)
        o.calculated_fees_gained
        d.calculated_fees_gained
        r.calculated_fees_gained
  pub status : IsTaken (o.status == "") o.status d.status r.status
  pub status_timestamps :
      IsTaken
        (is_none o.status_timestamps)
        o.status_timestamps
        d.status_timestamps
        r.status_timestamps
  pub v1_id : r.v1_id ≡ d.v1_id
  pub deposit_account_ids :
      IsTaken
        (is_empty o.deposit_account_ids)
        o.deposit_account_ids
        d.deposit_account_ids
        r.deposit_account_ids
  pub withdrawal_account_ids :
      IsTaken
        (is_empty o.withdrawal_account_ids)
        o.withdrawal_account_ids
        d.withdrawal_account_ids
        r.withdrawal_account_ids
  pub refund_account_id :
      IsTaken
        (is_zero o.refund_account_id)
        o.refund_account_id
        d.refund_account_id
        r.refund_account_id
  pub transaction_ids :
      IsTaken (is_empty o.transaction_ids) o.transaction_ids d.transaction_ids r.transaction_ids
  pub transaction_types :
      IsTaken
        (is_empty o.transaction_types)
        o.transaction_types
        d.transaction_types
        r.transaction_types
  pub parent_order_id :
      IsTaken (is_zero o.parent_order_id) o.parent_order_id d.parent_order r.parent_order_id
  pub child_order_id :
      IsTaken (is_zero o.child_order_id) o.child_order_id d.child_order r.child_order_id
  pub provider : IsTaken (o.provider == "") o.provider d.provider r.provider
  pub provider_order_id :
      IsTaken
        (o.provider_order_id == "")
        o.provider_order_id
        d.provider_order_id
        r.provider_order_id
  pub buy_provider : IsTaken (o.buy_provider == "") o.buy_provider d.buy_provider r.buy_provider
  pub sell_provider :
      IsTaken (o.sell_provider == "") o.sell_provider d.sell_provider r.sell_provider
  pub margin : IsTaken (is_zero_float o.margin) o.margin d.margin r.margin
  pub rate_id : IsTaken (o.rate_id == "") o.rate_id d.rate_id r.rate_id
  pub expires_at : IsTaken (is_zero_time o.expires_at) o.expires_at d.expires_at r.expires_at
  pub deleted_at : r.deleted_at ≡ d.deleted_at
  pub created_at : r.created_at ≡ d.created_at
  pub updated_at : r.updated_at ≡ now

taken : {A : Type 0} (b : Bool) (new old : A) → IsTaken b new old (if b then old else new)
taken true new old = (λ h. refl, λ h. absurd (false≢true (sym h)))
taken false new old = (λ h. absurd (false≢true h), λ h. refl)

list_taken : {A : Type 0} (new old : List A) → IsTaken (is_empty new) new old (over_list new old)
list_taken [] old = (λ h. refl, λ h. absurd (false≢true (sym h)))
list_taken (x ∷ xs) old = (λ h. absurd (false≢true h), λ h. refl)

map_taken : (new old : Option (Map Value)) → IsTaken (is_none new) new old (over_map new old)
map_taken none old = (λ h. refl, λ h. absurd (false≢true (sym h)))
map_taken (some m) old = (λ h. absurd (false≢true h), λ h. refl)

pub merge-IsUpdated :
    {ObjectId : Type 0} (is_zero : ObjectId → Bool) (now : Time) (o : Order ObjectId)
    (d : Document ObjectId)
    → IsUpdated is_zero now o d
        (record (merge is_zero o (convert_order_model_to_domain d)) { updated_at = now })
unfolding merge convert_order_model_to_domain
merge-IsUpdated is_zero now o d = record {
  id = refl;
  platform = taken (o.platform == "") o.platform d.platform;
  v1_user_id = refl;
  user_id = taken (is_zero o.user_id) o.user_id d.user_id;
  order_type = refl;
  flow = taken (o.flow == "") o.flow d.flow;
  currency_id = taken (is_zero o.currency_id) o.currency_id d.currency_id;
  buy_chain = taken (is_zero o.buy_chain) o.buy_chain d.buy_chain;
  sell_chain = taken (is_zero o.sell_chain) o.sell_chain d.sell_chain;
  open_amount = taken (is_zero_float o.open_amount) o.open_amount d.open_amount;
  amount = taken (is_zero_float o.amount) o.amount d.amount;
  refund_amount = taken (is_zero_float o.refund_amount) o.refund_amount d.refund_amount;
  calculated_amount =
      taken (is_zero_float o.calculated_amount) o.calculated_amount d.calculated_amount;
  open_rate = taken (is_zero_float o.open_rate) o.open_rate d.open_rate;
  rate = taken (is_zero_float o.rate) o.rate d.rate;
  calculated_rate = taken (is_zero_float o.calculated_rate) o.calculated_rate d.calculated_rate;
  provider_fees_paid =
      taken (is_zero_float o.provider_fees_paid) o.provider_fees_paid d.provider_fees_paid;
  blockchain_fees_paid =
      taken (is_zero_float o.blockchain_fees_paid) o.blockchain_fees_paid d.blockchain_fees_paid;
  fees_gained = taken (is_zero_float o.fees_gained) o.fees_gained d.fees_gained;
  provider_fees_to_pay =
      taken (is_zero_float o.provider_fees_to_pay) o.provider_fees_to_pay d.provider_fees_to_pay;
  blockchain_fees_to_pay =
      taken (is_zero_float o.blockchain_fees_to_pay) o.blockchain_fees_to_pay
        d.blockchain_fees_to_pay;
  fees_to_gain = taken (is_zero_float o.fees_to_gain) o.fees_to_gain d.fees_to_gain;
  calculated_provider_fees_paid =
      taken (is_zero_float o.calculated_provider_fees_paid) o.calculated_provider_fees_paid
        d.calculated_provider_fees_paid;
  calculated_blockchain_fees_paid =
      taken (is_zero_float o.calculated_blockchain_fees_paid) o.calculated_blockchain_fees_paid
        d.calculated_blockchain_fees_paid;
  calculated_fees_gained =
      taken (is_zero_float o.calculated_fees_gained) o.calculated_fees_gained
        d.calculated_fees_gained;
  status = taken (o.status == "") o.status d.status;
  status_timestamps = map_taken o.status_timestamps d.status_timestamps;
  v1_id = refl;
  deposit_account_ids = list_taken o.deposit_account_ids d.deposit_account_ids;
  withdrawal_account_ids = list_taken o.withdrawal_account_ids d.withdrawal_account_ids;
  refund_account_id = taken (is_zero o.refund_account_id) o.refund_account_id d.refund_account_id;
  transaction_ids = list_taken o.transaction_ids d.transaction_ids;
  transaction_types = list_taken o.transaction_types d.transaction_types;
  parent_order_id = taken (is_zero o.parent_order_id) o.parent_order_id d.parent_order;
  child_order_id = taken (is_zero o.child_order_id) o.child_order_id d.child_order;
  provider = taken (o.provider == "") o.provider d.provider;
  provider_order_id = taken (o.provider_order_id == "") o.provider_order_id d.provider_order_id;
  buy_provider = taken (o.buy_provider == "") o.buy_provider d.buy_provider;
  sell_provider = taken (o.sell_provider == "") o.sell_provider d.sell_provider;
  margin = taken (is_zero_float o.margin) o.margin d.margin;
  rate_id = taken (o.rate_id == "") o.rate_id d.rate_id;
  expires_at = taken (is_zero_time o.expires_at) o.expires_at d.expires_at;
  deleted_at = refl;
  created_at = refl;
  updated_at = refl;
}
