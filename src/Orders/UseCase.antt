-- ===== src/Orders/UseCase.antt =====
-- src/usecases/order_usecase.go, over any repository of orders and any of currencies.
use go_blockchain_watcher.Prelude.{◌+◌, String, Bool, Option, List, [], ◌∷◌, ◌==◌, if◌then◌else◌}
use go_blockchain_watcher.Errors.{Error, errors_new, Exec, pure, fail, or_fail, ◌>>=◌, ◌>>◌}
use go_blockchain_watcher.Map.{Map}
use go_blockchain_watcher.Values.{Time, day, Float64, Value, text, float64}
use go_blockchain_watcher.Orders.{Order, new_order, mark_as_deleted, update_status}
use go_blockchain_watcher.Orders.Merge.{over_text, over_list, over_id, merge}
use go_blockchain_watcher.Orders.Adapter.{OrderRepository}

abbrev pub err_order_not_found : Error
err_order_not_found = errors_new "order not found"

abbrev pub err_currency_not_found : Error
err_currency_not_found = errors_new "currency not found"

-- The repository's answer for a currency, of some type.
pub record CurrencyRepository (ObjectId C S : Type 0) : Type 0 where
  pub get_by_id : ObjectId → Exec S (Option C)

-- The cases of the `switch` of `UpdateOrderFields`.
pub data Field : Type 0 where
  the_status the_amount the_rate the_provider_order_id the_provider unknown : Field

abbrev pub field_of : String → Field
field_of name =
    if name == "status"
    then the_status
    else if name == "amount"
    then the_amount
    else if name == "rate"
    then the_rate
    else if name == "providerOrderId"
    then the_provider_order_id
    else if name == "provider"
    then the_provider
    else unknown

-- `if v, ok := value.(string); ok`
abbrev pub string_or : Value → String → String
string_or (text v) old = v
string_or _ old = old

abbrev pub float_or : Value → Float64 → Float64
float_or (float64 v) old = v
float_or _ old = old

module _ {ObjectId : Type 0} where
  abbrev pub set_field : Field → Value → Order ObjectId → Order ObjectId
  set_field the_status v o = record o { status = string_or v o.status }
  set_field the_amount v o = record o { amount = float_or v o.amount }
  set_field the_rate v o = record o { rate = float_or v o.rate }
  set_field the_provider_order_id v o = record o {
    provider_order_id = string_or v o.provider_order_id;
  }
  set_field the_provider v o = record o { provider = string_or v o.provider }
  set_field unknown v o = o

  abbrev pub apply_field : String → Value → Order ObjectId → Order ObjectId
  apply_field name v o = set_field (field_of name) v o

  -- The loop over the map, in the order of the list.
  unfoldable pub apply_fields : Map Value → Order ObjectId → Order ObjectId
  apply_fields [] o = o
  apply_fields ((field, value) ∷ updates) o = apply_fields updates (apply_field field value o)

module _ {ObjectId S : Type 0} (is_zero : ObjectId → Bool) (repo : OrderRepository ObjectId S) where
  -- The fields that `CreateOrder` sets after `NewOrder`.
  abbrev pub with_fields :
      Time
      → List ObjectId
      → List ObjectId
      → ObjectId
      → ObjectId
      → String
      → Order ObjectId
      → Order ObjectId
  with_fields now deposit_account_ids withdrawal_account_ids buy_chain sell_chain provider o =
      record o {
        deposit_account_ids = over_list deposit_account_ids o.deposit_account_ids;
        withdrawal_account_ids = over_list withdrawal_account_ids o.withdrawal_account_ids;
        buy_chain = over_id is_zero buy_chain o.buy_chain;
        sell_chain = over_id is_zero sell_chain o.sell_chain;
        provider = over_text provider o.provider;
        expires_at = now + day;
      }

  -- `later` is the second reading of the clock.
  unfoldable pub create_order :
      {C : Type 0}
      → CurrencyRepository ObjectId C S
      → ObjectId
      → ObjectId
      → Time
      → Time
      → ObjectId
      → ObjectId
      → String
      → Float64
      → Float64
      → List ObjectId
      → List ObjectId
      → ObjectId
      → ObjectId
      → String
      → Exec S (Order ObjectId)
  unfolding new_order
  create_order currencies new_id nil_id now later user_id currency_id flow amount rate
        deposit_account_ids withdrawal_account_ids buy_chain sell_chain provider =
      do
        found ← currencies.get_by_id currency_id
        or_fail err_currency_not_found found
        repo.create (
            with_fields later deposit_account_ids withdrawal_account_ids buy_chain sell_chain
              provider (new_order new_id nil_id now user_id currency_id flow amount rate))

  unfoldable pub get_order_by_id : ObjectId → Exec S (Order ObjectId)
  get_order_by_id id = do found ← repo.get_by_id id; or_fail err_order_not_found found

  pub get_orders_by_user_id : ObjectId → Exec S (List (Order ObjectId))
  get_orders_by_user_id user_id = repo.get_by_user_id user_id

  pub get_order_by_deposit_address : String → Exec S (Order ObjectId)
  get_order_by_deposit_address deposit_address = do
    found ← repo.get_by_deposit_address deposit_address
    or_fail err_order_not_found found

  unfoldable pub update_order : Order ObjectId → Exec S (Unit {0})
  unfolding merge
  update_order o = if is_zero o.id then fail (errors_new "order ID is required") else do
    found ← repo.get_by_id o.id
    existing ← or_fail err_order_not_found found
    repo.update (merge is_zero o existing)

  unfoldable pub update_order_fields : ObjectId → Map Value → Exec S (Unit {0})
  unfolding apply_fields
  update_order_fields id updates =
      if is_zero id then fail (errors_new "order ID is required") else do
        found ← repo.get_by_id id
        existing ← or_fail err_order_not_found found
        repo.update (apply_fields updates existing)

  unfoldable pub delete_order : ObjectId → Exec S (Unit {0})
  unfolding mark_as_deleted
  delete_order id = do
    found ← repo.get_by_id id
    existing ← or_fail err_order_not_found found
    repo.update (mark_as_deleted existing)

  unfoldable pub update_order_status : Time → ObjectId → String → Exec S (Order ObjectId)
  unfolding update_status
  update_order_status now id status = do
    found ← repo.get_by_id id
    existing ← or_fail err_order_not_found found
    let o = update_status now status existing
    repo.update o
    pure o
