-- ===== src/Orders/Adapter.antt =====
-- The orders' repository of config/mongodb/repositories.go over a collection of the driver, and
-- src/adapters/order_adapter.go, which makes it the interface of src/repositories.
use go_blockchain_watcher.Prelude.{
  String, Bool, true, false, not, ◌&&◌, Option, none, some, List, [], ◌∷◌, ◌==◌, if◌then◌else◌,
  is_some, map,
}
use go_blockchain_watcher.Errors.{Result, ok, err, Exec, pure, fail, or_fail, read, ◌>>=◌, ◌>>◌}
use go_blockchain_watcher.Values.{Time}
use go_blockchain_watcher.Mongo.{Collection}
use go_blockchain_watcher.Wallets.Adapter.{
  err_not_found, err_invalid_id, err_duplicate_key, matched,
}
use go_blockchain_watcher.Orders.{Order, Document}
use go_blockchain_watcher.Accounts.Adapter.{has_text}
use go_blockchain_watcher.Accounts

-- repositories.OrderRepository. `create` gives back the entity with the ID that it was given.
pub record OrderRepository (ObjectId S : Type 0) : Type 0 where
  pub get_by_id : ObjectId → Exec S (Option (Order ObjectId))
  pub get_by_user_id : ObjectId → Exec S (List (Order ObjectId))
  pub get_by_deposit_address : String → Exec S (Option (Order ObjectId))
  pub create : Order ObjectId → Exec S (Order ObjectId)
  pub update : Order ObjectId → Exec S (Unit {0})
  pub delete : ObjectId → Exec S (Unit {0})

module _ {ObjectId : Type 0} where
  unfoldable pub convert_order_model_to_domain : Document ObjectId → Order ObjectId
  convert_order_model_to_domain d = record {
    id = d.id;
    platform = d.platform;
    v1_user_id = d.v1_user_id;
    user_id = d.user_id;
    order_type = d.order_type;
    flow = d.flow;
    currency_id = d.currency_id;
    buy_chain = d.buy_chain;
    sell_chain = d.sell_chain;
    open_amount = d.open_amount;
    amount = d.amount;
    refund_amount = d.refund_amount;
    calculated_amount = d.calculated_amount;
    open_rate = d.open_rate;
    rate = d.rate;
    calculated_rate = d.calculated_rate;
    provider_fees_paid = d.provider_fees_paid;
    blockchain_fees_paid = d.blockchain_fees_paid;
    fees_gained = d.fees_gained;
    provider_fees_to_pay = d.provider_fees_to_pay;
    blockchain_fees_to_pay = d.blockchain_fees_to_pay;
    fees_to_gain = d.fees_to_gain;
    calculated_provider_fees_paid = d.calculated_provider_fees_paid;
    calculated_blockchain_fees_paid = d.calculated_blockchain_fees_paid;
    calculated_fees_gained = d.calculated_fees_gained;
    status = d.status;
    status_timestamps = d.status_timestamps;
    v1_id = d.v1_id;
    deposit_account_ids = d.deposit_account_ids;
    withdrawal_account_ids = d.withdrawal_account_ids;
    refund_account_id = d.refund_account_id;
    transaction_ids = d.transaction_ids;
    transaction_types = d.transaction_types;
    parent_order_id = d.parent_order;
    child_order_id = d.child_order;
    provider = d.provider;
    provider_order_id = d.provider_order_id;
    buy_provider = d.buy_provider;
    sell_provider = d.sell_provider;
    margin = d.margin;
    rate_id = d.rate_id;
    expires_at = d.expires_at;
    deleted_at = d.deleted_at;
    created_at = d.created_at;
    updated_at = d.updated_at;
  }

  unfoldable pub convert_order_domain_to_model : Order ObjectId → Document ObjectId
  convert_order_domain_to_model o = record {
    id = o.id;
    platform = o.platform;
    v1_user_id = o.v1_user_id;
    user_id = o.user_id;
    order_type = o.order_type;
    flow = o.flow;
    currency_id = o.currency_id;
    buy_chain = o.buy_chain;
    sell_chain = o.sell_chain;
    open_amount = o.open_amount;
    amount = o.amount;
    refund_amount = o.refund_amount;
    calculated_amount = o.calculated_amount;
    open_rate = o.open_rate;
    rate = o.rate;
    calculated_rate = o.calculated_rate;
    provider_fees_paid = o.provider_fees_paid;
    blockchain_fees_paid = o.blockchain_fees_paid;
    fees_gained = o.fees_gained;
    provider_fees_to_pay = o.provider_fees_to_pay;
    blockchain_fees_to_pay = o.blockchain_fees_to_pay;
    fees_to_gain = o.fees_to_gain;
    calculated_provider_fees_paid = o.calculated_provider_fees_paid;
    calculated_blockchain_fees_paid = o.calculated_blockchain_fees_paid;
    calculated_fees_gained = o.calculated_fees_gained;
    status = o.status;
    status_timestamps = o.status_timestamps;
    v1_id = o.v1_id;
    deposit_account_ids = o.deposit_account_ids;
    withdrawal_account_ids = o.withdrawal_account_ids;
    refund_account_id = o.refund_account_id;
    transaction_ids = o.transaction_ids;
    transaction_types = o.transaction_types;
    parent_order = o.parent_order_id;
    child_order = o.child_order_id;
    provider = o.provider;
    provider_order_id = o.provider_order_id;
    buy_provider = o.buy_provider;
    sell_provider = o.sell_provider;
    margin = o.margin;
    rate_id = o.rate_id;
    expires_at = o.expires_at;
    deleted_at = o.deleted_at;
    created_at = o.created_at;
    updated_at = o.updated_at;
  }

abbrev pub over_deleted_at : Option Time → Option Time → Option Time
over_deleted_at none old = old
over_deleted_at (some t) old = some t

-- `"deletedAt": nil` matches the documents without the field.
abbrev pub live : {ObjectId : Type 0} → Document ObjectId → Bool
live d = not (is_some d.deleted_at)

-- `same` is the filter's equality of IDs; a filter on an array field matches an element of it.
abbrev pub has_id :
    {ObjectId : Type 0} → (ObjectId → ObjectId → Bool) → ObjectId → List ObjectId → Bool
has_id same id [] = false
has_id same id (x ∷ xs) = let rest = has_id same id xs in if same x id then true else rest

module _ {ObjectId S : Type 0} (is_zero : ObjectId → Bool) (same : ObjectId → ObjectId → Bool)
    (orders : Collection (Document ObjectId) S)
    (accounts : Collection (Accounts.Document ObjectId) S) where
  -- `$set` with the document of the tags: a field with `omitempty` is left out at its zero value.
  unfoldable pub set_order : Document ObjectId → Document ObjectId → Document ObjectId
  set_order w d = record {
    id = if is_zero w.id then d.id else w.id;
    platform = w.platform;
    v1_user_id = if is_zero w.v1_user_id then d.v1_user_id else w.v1_user_id;
    user_id = w.user_id;
    order_type = if w.order_type == "" then d.order_type else w.order_type;
    flow = w.flow;
    currency_id = w.currency_id;
    buy_chain = if is_zero w.buy_chain then d.buy_chain else w.buy_chain;
    sell_chain = if is_zero w.sell_chain then d.sell_chain else w.sell_chain;
    open_amount = w.open_amount;
    amount = w.amount;
    refund_amount = w.refund_amount;
    calculated_amount = w.calculated_amount;
    open_rate = w.open_rate;
    rate = w.rate;
    calculated_rate = w.calculated_rate;
    provider_fees_paid = w.provider_fees_paid;
    blockchain_fees_paid = w.blockchain_fees_paid;
    fees_gained = w.fees_gained;
    provider_fees_to_pay = w.provider_fees_to_pay;
    blockchain_fees_to_pay = w.blockchain_fees_to_pay;
    fees_to_gain = w.fees_to_gain;
    calculated_provider_fees_paid = w.calculated_provider_fees_paid;
    calculated_blockchain_fees_paid = w.calculated_blockchain_fees_paid;
    calculated_fees_gained = w.calculated_fees_gained;
    status = w.status;
    status_timestamps = w.status_timestamps;
    v1_id = if w.v1_id == "" then d.v1_id else w.v1_id;
    deposit_account_ids = w.deposit_account_ids;
    withdrawal_account_ids = w.withdrawal_account_ids;
    refund_account_id =
        if is_zero w.refund_account_id then d.refund_account_id else w.refund_account_id;
    transaction_ids = w.transaction_ids;
    transaction_types = w.transaction_types;
    parent_order = if is_zero w.parent_order then d.parent_order else w.parent_order;
    child_order = if is_zero w.child_order then d.child_order else w.child_order;
    provider = if w.provider == "" then d.provider else w.provider;
    provider_order_id =
        if w.provider_order_id == "" then d.provider_order_id else w.provider_order_id;
    buy_provider = if w.buy_provider == "" then d.buy_provider else w.buy_provider;
    sell_provider = if w.sell_provider == "" then d.sell_provider else w.sell_provider;
    margin = w.margin;
    rate_id = if w.rate_id == "" then d.rate_id else w.rate_id;
    expires_at = w.expires_at;
    deleted_at = over_deleted_at w.deleted_at d.deleted_at;
    created_at = w.created_at;
    updated_at = w.updated_at;
  }

  unfoldable pub get_order_by_id : ObjectId → Exec S (Document ObjectId)
  get_order_by_id id = do
    found ← read (orders.find_one (λ d. same d.id id && live d))
    or_fail err_not_found found

  pub get_orders_by_user_id : ObjectId → Exec S (List (Document ObjectId))
  get_orders_by_user_id user_id = read (orders.find (λ d. same d.user_id user_id && live d))

  pub get_order_by_deposit_address : String → Exec S (Document ObjectId)
  get_order_by_deposit_address deposit_address = do
    found ← read (accounts.find_one (λ a. has_text a.wallet_address deposit_address))
    account ← or_fail err_not_found found
    order ← read (orders.find_one (λ d. has_id same account.id d.deposit_account_ids && live d))
    or_fail err_not_found order

  unfoldable pub duplicate_key : Result (Unit {0}) → Result (Unit {0})
  duplicate_key (ok u) = ok u
  duplicate_key (err e) = if orders.is_duplicate_key_error e then err err_duplicate_key else err e

  unfoldable pub create_order : ObjectId → Time → Document ObjectId → Exec S (Document ObjectId)
  unfolding duplicate_key
  create_order new_id now o = do
    let o' = record o {
      created_at = now;
      updated_at = now;
      id = if is_zero o.id then new_id else o.id;
    }
    λ s. let (r, t) = orders.insert_one o' s in (duplicate_key r, t)
    pure o'

  unfoldable pub update_order : Time → Document ObjectId → Exec S (Unit {0})
  unfolding set_order
  update_order now o = if is_zero o.id then fail err_invalid_id else do
    n ← orders.update_one (λ d. same d.id o.id) (set_order (record o { updated_at = now }))
    matched n

  unfoldable pub delete_order : Time → ObjectId → Exec S (Unit {0})
  delete_order now id = do
    n ←
        orders.update_one (λ d. same d.id id)
          (λ d. record d { deleted_at = some now; updated_at = now })
    matched n

  -- The adapter of src/adapters/order_adapter.go.
  unfoldable pub order_repository_adapter : ObjectId → Time → OrderRepository ObjectId S
  unfolding get_order_by_id get_orders_by_user_id get_order_by_deposit_address create_order
      update_order delete_order
  order_repository_adapter new_id now = record {
    get_by_id = λ id. do
      d ← get_order_by_id id
      pure (some (convert_order_model_to_domain d));
    get_by_user_id = λ user_id. do
      ds ← get_orders_by_user_id user_id
      pure (map convert_order_model_to_domain ds);
    get_by_deposit_address = λ deposit_address. do
      d ← get_order_by_deposit_address deposit_address
      pure (some (convert_order_model_to_domain d));
    create = λ o. do
      d ← create_order new_id now (convert_order_domain_to_model o)
      pure (record o { id = d.id });
    update = λ o. update_order now (convert_order_domain_to_model o);
    delete = delete_order now;
  }
