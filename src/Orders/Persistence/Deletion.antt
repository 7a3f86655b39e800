-- ===== src/Orders/Persistence/Deletion.antt =====
-- What is left and what is read after `DeleteOrder` of src/usecases/order_usecase.go.
use go_blockchain_watcher.Prelude.{
  ◌≡◌, refl, sym, ap, ◌∙◌, Bool, true, false, ◌&&◌, some, List, [], ◌∷◌, inl, inr, first,
  modify_first, select, first-modify_first, first_gone, select-first,
}
use go_blockchain_watcher.Errors.{Error, Result, ok, err, err-ne-ok}
use go_blockchain_watcher.Values.{Time, zero_time}
use go_blockchain_watcher.Mongo.{Collection, CollectionLaws, ObjectIdLaws}
use go_blockchain_watcher.Accounts
use go_blockchain_watcher.Orders.{Document, mark_as_deleted}
use go_blockchain_watcher.Orders.Adapter.{
  OrderRepository, order_repository_adapter, set_order, convert_order_domain_to_model,
  convert_order_model_to_domain, live, over_deleted_at,
}
use go_blockchain_watcher.Orders.Adapter
use go_blockchain_watcher.Orders.UseCase
use go_blockchain_watcher.Orders.Persistence.{
  read_shown, id_of, set-deleted, deleted, docs-update_order, get_order_missing,
}

module _ {ObjectId S : Type 0} (nil_id : ObjectId) (is_zero : ObjectId → Bool)
    (same : ObjectId → ObjectId → Bool) (ids : ObjectIdLaws nil_id is_zero same)
    (orders : Collection (Document ObjectId) S)
    (accounts : Collection (Accounts.Document ObjectId) S) (docs : S → List (Document ObjectId))
    (laws : CollectionLaws orders docs) (new_id : ObjectId) (now : Time) where
  abbrev repo : OrderRepository ObjectId S
  repo = order_repository_adapter is_zero same orders accounts new_id now

  abbrev under : ObjectId → Document ObjectId → Bool
  under id d = same d.id id

  abbrev shown : ObjectId → Document ObjectId → Bool
  shown id d = same d.id id && live d

  abbrev update : Document ObjectId → S → Result (Unit {0}) × S
  update x s = Adapter.update_order is_zero same orders accounts now x s

  abbrev set_now : Document ObjectId → Document ObjectId → Document ObjectId
  set_now x d = set_order is_zero same orders accounts (record x { updated_at = now }) d

  delete_order_found :
      (id : ObjectId) (d : Document ObjectId) (s : S)
      → orders.find_one (shown id) s ≡ ok (some d)
      → UseCase.delete_order is_zero repo id s
        ≡ update (deleted nil_id is_zero same ids orders accounts docs laws new_id now d) s
  unfolding UseCase.delete_order order_repository_adapter deleted
  delete_order_found id d s e = rw e refl

  delete_order_failed :
      (id : ObjectId) (x : Error) (s : S)
      → orders.find_one (shown id) s ≡ err x
      → (UseCase.delete_order is_zero repo id s).0 ≡ err x
  unfolding UseCase.delete_order order_repository_adapter
  delete_order_failed id x s e = rw e refl

  -- After a `DeleteOrder` without an error of the only document with its ID, `GetOrderByID` fails,
  -- and the document is kept, marked as deleted at the zero time and not at the time of the call.
  pub delete_order_hides :
      (id : ObjectId) (d : Document ObjectId) (s : S)
      → is_zero id ≡ false
      → select (under id) (docs s) ≡ d ∷ []
      → live d ≡ true
      → (UseCase.delete_order is_zero repo id s).0 ≡ ok tt
      → let t = (UseCase.delete_order is_zero repo id s).1 in
        ((e : Error) × ((UseCase.get_order_by_id is_zero repo id t).0 ≡ err e))
        × (first (under id) (docs t)
            ≡ some (record d { deleted_at = some zero_time; updated_at = now }))
  delete_order_hides id d s nonzero only shows done =
      elim (read_shown nil_id is_zero same ids orders accounts docs laws new_id now id d s found
        shows) [
          | inl e ↦
              let same_call = delete_order_found id d s e in
              rw same_call (hidden (ap (λ (x : Result (Unit {0}) × S). x.0) (sym same_call) ∙ done))
          | inr (x, e) ↦ absurd (err-ne-ok (sym (delete_order_failed id x s e) ∙ done))
        ]
    where
      found : first (under id) (docs s) ≡ some d
      found = select-first (under id) (docs s) [] d only

      gone : Document ObjectId
      gone = record d { deleted_at = some zero_time; updated_at = now }

      sets :
          set_now (deleted nil_id is_zero same ids orders accounts docs laws new_id now d) d ≡ gone
      sets =
          set-deleted nil_id is_zero same ids orders accounts docs laws new_id now d
          ∙ unfold deleted convert_order_domain_to_model convert_order_model_to_domain
              mark_as_deleted in
            refl

      same_id : (deleted nil_id is_zero same ids orders accounts docs laws new_id now d).id ≡ id
      same_id =
          unfold deleted in
          id_of nil_id is_zero same ids orders accounts docs laws new_id now id d s found

      hidden :
          (update (deleted nil_id is_zero same ids orders accounts docs laws new_id now d) s).0
            ≡ ok tt
          → ((e : Error) × ((UseCase.get_order_by_id is_zero repo id
                  (update
                    (deleted nil_id is_zero same ids orders accounts docs laws new_id now d)
                    s).1).0
                ≡ err e))
            × (first (under id) (
                  docs
                    (update
                      (deleted nil_id is_zero same ids orders accounts docs laws new_id now d)
                      s).1)
                ≡ some gone)
      hidden done' =
          let after =
            docs-update_order nil_id is_zero same ids orders accounts docs laws new_id now
              (deleted nil_id is_zero same ids orders accounts docs laws new_id now d) s
              (ap is_zero same_id ∙ nonzero) done'
            ∙ ap
                (λ i.
                  modify_first (under i)
                    (set_now
                      (deleted nil_id is_zero same ids orders accounts docs laws new_id now d))
                    (docs s))
                same_id in
          (
            get_order_missing nil_id is_zero same ids orders accounts docs laws new_id now id
                (update (deleted nil_id is_zero same ids orders accounts docs laws new_id now d)
                  s).1
                (rw after (
                  first_gone (under id) live
                    (set_now
                      (deleted nil_id is_zero same ids orders accounts docs laws new_id now d))
                    (docs s) d only (rw sets refl))),
            rw after (
                first-modify_first (under id)
                  (set_now (deleted nil_id is_zero same ids orders accounts docs laws new_id now d))
                  (docs s) d found
                  (rw sets (
                    ap (λ i. same i id)
                      (id_of nil_id is_zero same ids orders accounts docs laws new_id now id d s
                        found)
                    ∙ (ids.same_iff id id).1 refl))
                ∙ ap some sets),
          )
