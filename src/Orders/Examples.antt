-- ===== src/Orders/Examples.antt =====
-- The theorems on orders (src/usecases/order_usecase.go) at a collection in memory.
use go_blockchain_watcher.Prelude.{
  ℕ, ◌≡◌, refl, none, some, List, [], ◌∷◌, first, eqb, arith, eq_iff,
}
use go_blockchain_watcher.Errors.{Error, err}
use go_blockchain_watcher.Map.{insert}
use go_blockchain_watcher.Values.{zero_time, pos, int64, unix, text, float64}
use go_blockchain_watcher.Mongo.Memory.{
  memory, no_documents, documents, memory-CollectionLaws, is_zero_id, ids-ObjectIdLaws,
}
use go_blockchain_watcher.Orders.{Order, Document, zero_order, update_status, mark_as_deleted}
use go_blockchain_watcher.Orders.Merge.{merge, merge_idem_and_zero}
use go_blockchain_watcher.Orders.Adapter.{
  OrderRepository, order_repository_adapter, convert_order_model_to_domain,
  convert_order_domain_to_model,
}
use go_blockchain_watcher.Orders.UseCase
use go_blockchain_watcher.Orders.UseCase.{apply_fields}
use go_blockchain_watcher.Orders.Fields.{unchanged, exchanged, apply_fields-Reordered}
use go_blockchain_watcher.Orders.Persistence.Merged.{IsUpdated}
use go_blockchain_watcher.Orders.Persistence.Changes.{update_order-read, update_order_status-read}
use go_blockchain_watcher.Orders.Persistence.Deletion.{delete_order_hides}

abbrev stored : Document ℕ
stored = record {
  id = 4;
  platform = "APP";
  v1_user_id = 0;
  user_id = 9;
  order_type = "";
  flow = "SELL";
  currency_id = 2;
  buy_chain = 0;
  sell_chain = 0;
  open_amount = 77;
  amount = 77;
  refund_amount = 0;
  calculated_amount = 0;
  open_rate = 5;
  rate = 5;
  calculated_rate = 0;
  provider_fees_paid = 0;
  blockchain_fees_paid = 0;
  fees_gained = 0;
  provider_fees_to_pay = 0;
  blockchain_fees_to_pay = 0;
  fees_to_gain = 0;
  calculated_provider_fees_paid = 0;
  calculated_blockchain_fees_paid = 0;
  calculated_fees_gained = 0;
  status = "CREATED";
  status_timestamps = some (("CREATED", int64 (pos 1)) ∷ []);
  v1_id = "";
  deposit_account_ids = [];
  withdrawal_account_ids = [];
  refund_account_id = 0;
  transaction_ids = [];
  transaction_types = [];
  parent_order = 0;
  child_order = 0;
  provider = "changenow";
  provider_order_id = "";
  buy_provider = "";
  sell_provider = "";
  margin = 0;
  rate_id = "";
  expires_at = zero_time;
  deleted_at = none;
  created_at = 100;
  updated_at = 100;
}

abbrev change : Order ℕ
change = record (zero_order 0) { id = 4; provider_order_id = "p-1"; rate = 6 }

abbrev repository : OrderRepository ℕ (List (Document ℕ))
repository = order_repository_adapter is_zero_id eqb memory no_documents 77 200

abbrev loaded : Order ℕ
loaded = convert_order_model_to_domain stored

abbrev found : Order ℕ
found = record loaded { provider_order_id = "p-1"; rate = 6; updated_at = 200 }

merge_idem_and_zero_example :
    (merge is_zero_id change (merge is_zero_id change loaded) ≡ merge is_zero_id change loaded)
    × (merge is_zero_id (zero_order 0) loaded ≡ loaded)
merge_idem_and_zero_example = merge_idem_and_zero is_zero_id 0 change loaded refl

apply_fields-Reordered_example :
    apply_fields (("rate", float64 6) ∷ ("status", text "FILLED") ∷ []) loaded
    ≡ apply_fields (("status", text "FILLED") ∷ ("rate", float64 6) ∷ []) loaded
apply_fields-Reordered_example =
    apply_fields-Reordered (("rate", float64 6) ∷ ("status", text "FILLED") ∷ [])
      (("status", text "FILLED") ∷ ("rate", float64 6) ∷ []) loaded
      (exchanged [] [] "rate" "status" (float64 6) (text "FILLED")
        (ground (arith, eq_iff "rate" "status")) unchanged)

update_order-read_example : IsUpdated is_zero_id 200 change stored found
update_order-read_example =
    update_order-read 0 is_zero_id eqb ids-ObjectIdLaws memory no_documents documents
      memory-CollectionLaws 77 200 change found stored (stored ∷ []) refl refl refl
      (unfold UseCase.update_order order_repository_adapter convert_order_domain_to_model
          convert_order_model_to_domain merge in
        refl)
      (unfold UseCase.update_order UseCase.get_order_by_id order_repository_adapter
          convert_order_domain_to_model convert_order_model_to_domain merge in
        refl)

delete_order_hides_example :
    let t = (UseCase.delete_order is_zero_id repository 4 (stored ∷ [])).1 in
    ((e : Error) × ((UseCase.get_order_by_id is_zero_id repository 4 t).0 ≡ err e))
    × (first (λ d. eqb d.id 4) t
        ≡ some (record stored { deleted_at = some zero_time; updated_at = 200 }))
delete_order_hides_example =
    delete_order_hides 0 is_zero_id eqb ids-ObjectIdLaws memory no_documents documents
      memory-CollectionLaws 77 200 4 stored (stored ∷ []) refl refl refl
      (unfold UseCase.delete_order order_repository_adapter convert_order_domain_to_model
          convert_order_model_to_domain mark_as_deleted in
        refl)

abbrev filled : Order ℕ
filled = update_status 150 "FILLED" loaded

update_order_status-read_example :
    (record filled { updated_at = 200 } ≡ record filled { updated_at = 200 })
    × (filled ≡ record loaded {
      status = "FILLED";
      status_timestamps = some (("CREATED", int64 (pos 1)) ∷ ("FILLED", int64 (unix 150)) ∷ []);
      updated_at = 150;
    })
unfolding insert
update_order_status-read_example =
    update_order_status-read 0 is_zero_id eqb ids-ObjectIdLaws memory no_documents documents
      memory-CollectionLaws 77 200 4 150 "FILLED" filled (record filled { updated_at = 200 }) stored
      (stored ∷ []) refl refl refl
      (unfold UseCase.update_order_status order_repository_adapter convert_order_domain_to_model
          convert_order_model_to_domain update_status in
        refl)
      (unfold UseCase.update_order_status UseCase.get_order_by_id order_repository_adapter
          convert_order_domain_to_model convert_order_model_to_domain update_status in
        refl)
