-- ===== src/Orders/Persistence/Changes.antt =====
-- What is read after `UpdateOrder` and `UpdateOrderStatus` of src/usecases/order_usecase.go.
use go_blockchain_watcher.Prelude.{
  String, ◌≡◌, refl, sym, subst, ap, ◌∙◌, Bool, true, false, ◌&&◌, Option, none, some, List, [],
  arith, inl, inr, first,
}
use go_blockchain_watcher.Errors.{Error, Result, ok, err, pure, continue, Result-cases, err-ne-ok}
use go_blockchain_watcher.Values.{Time, Value, unix, int64}
use go_blockchain_watcher.Mongo.{Collection, CollectionLaws, ObjectIdLaws}
use go_blockchain_watcher.Accounts
use go_blockchain_watcher.Orders.{Order, Document, update_status, stamp}
use go_blockchain_watcher.Map.{Map, insert}
use go_blockchain_watcher.Orders.Persistence.Merged.{IsUpdated, merge-IsUpdated}
use go_blockchain_watcher.Orders.Merge.{merge}
use go_blockchain_watcher.Orders.Adapter.{
  OrderRepository, order_repository_adapter, set_order, convert_order_domain_to_model,
  convert_order_model_to_domain, live, over_deleted_at,
}
use go_blockchain_watcher.Orders.Adapter
use go_blockchain_watcher.Orders.UseCase
use go_blockchain_watcher.Orders.Persistence.{
  read_shown, id_of, read_under, set-merged, set-stamped, merged, stamped,
}

-- The entries of a map, of which a nil one has none.
abbrev stamps_of : Option (Map Value) → Map Value
stamps_of none = []
stamps_of (some m) = m

stamp_lem :
    (status : String) (v : Value) (m : Option (Map Value))
    → stamp status v m ≡ insert status v (stamps_of m)
unfolding stamp
stamp_lem status v none = refl
stamp_lem status v (some m) = refl

module _ {ObjectId S : Type 0} (nil_id : ObjectId) (is_zero : ObjectId → Bool)
    (same : ObjectId → ObjectId → Bool) (ids : ObjectIdLaws nil_id is_zero same)
    (orders : Collection (Document ObjectId) S)
    (accounts : Collection (Accounts.Document ObjectId) S) (docs : S → List (Document ObjectId))
    (laws : CollectionLaws orders docs) (new_id : ObjectId) (now : Time) where
  abbrev repo : OrderRepository ObjectId S
  repo = order_repository_adapter is_zero same orders accounts new_id now

  abbrev under : ObjectId → Document ObjectId → Bool
  under id d = same d.id id

  abbrev shown : ObjectId → Document ObjectId → Bool
  shown id d = same d.id id && live d

  abbrev update : Document ObjectId → S → Result (Unit {0}) × S
  update x s = Adapter.update_order is_zero same orders accounts now x s

  abbrev set_now : Document ObjectId → Document ObjectId → Document ObjectId
  set_now x d = set_order is_zero same orders accounts (record x { updated_at = now }) d

  update_order_found :
      (o : Order ObjectId) (d : Document ObjectId) (s : S)
      → is_zero o.id ≡ false
      → orders.find_one (shown o.id) s ≡ ok (some d)
      → UseCase.update_order is_zero repo o s
        ≡ update (merged nil_id is_zero same ids orders accounts docs laws new_id now o d) s
  unfolding UseCase.update_order order_repository_adapter merged
  update_order_found o d s nonzero e = rw nonzero (rw e refl)

  update_order_failed :
      (o : Order ObjectId) (x : Error) (s : S)
      → is_zero o.id ≡ false
      → orders.find_one (shown o.id) s ≡ err x
      → (UseCase.update_order is_zero repo o s).0 ≡ err x
  unfolding UseCase.update_order order_repository_adapter
  update_order_failed o x s nonzero e = rw nonzero (rw e refl)

  update_order_merged :
      (o r : Order ObjectId) (d : Document ObjectId) (s : S)
      → is_zero o.id ≡ false
      → first (under o.id) (docs s) ≡ some d
      → live d ≡ true
      → (UseCase.update_order is_zero repo o s).0 ≡ ok tt
      → (UseCase.get_order_by_id is_zero repo o.id (UseCase.update_order is_zero repo o s).1).0
        ≡ ok r
      → r ≡ record (merge is_zero o (convert_order_model_to_domain d)) { updated_at = now }
  update_order_merged o r d s nonzero found shows done answered =
      elim (read_shown nil_id is_zero same ids orders accounts docs laws new_id now o.id d s found
        shows) [
          | inl e ↦
              let same_call = update_order_found o d s nonzero e in
              let p =
                id_of nil_id is_zero same ids orders accounts docs laws new_id now o.id d s found in
              read_under nil_id is_zero same ids orders accounts docs laws new_id now o.id
                (merged nil_id is_zero same ids orders accounts docs laws new_id now o d) d
                (record (merged nil_id is_zero same ids orders accounts docs laws new_id now o d) {
                  updated_at = now;
                })
                r s (unfold merged in p) nonzero found
                (set-merged nil_id is_zero same ids orders accounts docs laws new_id now o d)
                (unfold merged in p) (unfold merged in shows)
                (ap (λ (x : Result (Unit {0}) × S). x.0) (sym same_call) ∙ done)
                (ap
                    (λ (x : Result (Unit {0}) × S).
                      (UseCase.get_order_by_id is_zero repo o.id x.1).0)
                    (sym same_call)
                  ∙ answered)
              ∙ unfold merged convert_order_domain_to_model convert_order_model_to_domain merge in
                refl
          | inr (x, e) ↦ absurd (err-ne-ok (sym (update_order_failed o x s nonzero e) ∙ done))
        ]

  -- `GetOrderByID` after an `UpdateOrder` of a stored order that is not deleted, both without an error,
  -- gives an order in which each field has the new value if this is not its zero value, and else the
  -- stored one, but for these: the ID, the order type, the IDs of version 1 and the times of the
  -- creation and the deletion are as they were even if they were set, and the time of the update
  -- is that of the write.
  pub update_order-read :
      (o r : Order ObjectId) (d : Document ObjectId) (s : S)
      → is_zero o.id ≡ false
      → first (under o.id) (docs s) ≡ some d
      → live d ≡ true
      → (UseCase.update_order is_zero repo o s).0 ≡ ok tt
      → (UseCase.get_order_by_id is_zero repo o.id (UseCase.update_order is_zero repo o s).1).0
        ≡ ok r
      → IsUpdated is_zero now o d r
  update_order-read o r d s nonzero found shows done answered =
      subst (IsUpdated is_zero now o d)
        (sym (update_order_merged o r d s nonzero found shows done answered))
        (merge-IsUpdated is_zero now o d)

  update_order_status_found :
      (id : ObjectId) (later : Time) (status : String) (d : Document ObjectId) (s : S)
      → orders.find_one (shown id) s ≡ ok (some d)
      → UseCase.update_order_status is_zero repo later id status s
        ≡ continue
            (update
              (stamped nil_id is_zero same ids orders accounts docs laws new_id now later status d)
              s).0
            (λ _. pure (update_status later status (convert_order_model_to_domain d)))
            (update
              (stamped nil_id is_zero same ids orders accounts docs laws new_id now later status d)
              s).1
  unfolding UseCase.update_order_status order_repository_adapter stamped
  update_order_status_found id later status d s e = rw e refl

  update_order_status_failed :
      (id : ObjectId) (later : Time) (status : String) (x : Error) (s : S)
      → orders.find_one (shown id) s ≡ err x
      → (UseCase.update_order_status is_zero repo later id status s).0 ≡ err x
  unfolding UseCase.update_order_status order_repository_adapter
  update_order_status_failed id later status x s e = rw e refl

  -- `GetOrderByID` after an `UpdateOrderStatus` of a stored order that is not deleted, both without an
  -- error, gives the order that was returned, but for the time of the update: the stored order with
  -- the new status, and the time of the call under this status in the map of its time stamps, which is
  -- a new one if there was none.
  pub update_order_status-read :
      (id : ObjectId) (later : Time) (status : String) (o r : Order ObjectId)
      (d : Document ObjectId) (s : S)
      → is_zero id ≡ false
      → first (under id) (docs s) ≡ some d
      → live d ≡ true
      → (UseCase.update_order_status is_zero repo later id status s).0 ≡ ok o
      → (UseCase.get_order_by_id is_zero repo id
          (UseCase.update_order_status is_zero repo later id status s).1).0
        ≡ ok r
      → (r ≡ record o { updated_at = now })
        × (o ≡ record (convert_order_model_to_domain d) {
          status = status;
          status_timestamps =
              some (insert status (int64 (unix later)) (stamps_of d.status_timestamps));
          updated_at = later;
        })
  update_order_status-read id later status o r d s nonzero found shows done answered =
      elim (read_shown nil_id is_zero same ids orders accounts docs laws new_id now id d s found
        shows) [
          | inl e ↦
              elim (Result-cases
                (update
                  (stamped nil_id is_zero same ids orders accounts docs laws new_id now later status
                    d)
                  s).0) [
                    | inl (_, x) ↦
                        let call = update_order_status_found id later status d s e in
                        let returned : ok written ≡ ok o = rw (call, x) at done in
                        let is_written : written ≡ o = ground (arith, returned) in
                        let answered' : (UseCase.get_order_by_id is_zero repo id
                              (update
                                (stamped nil_id is_zero same ids orders accounts docs laws new_id
                                  now later status d)
                                s).1).0
                            ≡ ok r =
                          rw (call, x) at answered in
                        (
                          read_under nil_id is_zero same ids orders accounts docs laws new_id now id
                                (stamped nil_id is_zero same ids orders accounts docs laws new_id
                                  now later status d)
                                d
                                (record (stamped nil_id is_zero same ids orders accounts docs laws
                                  new_id now later status d) { updated_at = now })
                                r s (unfold stamped in p) nonzero found
                                (set-stamped nil_id is_zero same ids orders accounts docs laws
                                  new_id now later status d)
                                (unfold stamped in p) (unfold stamped in shows) x answered'
                              ∙ unfold stamped convert_order_domain_to_model
                                  convert_order_model_to_domain update_status in
                                ap (λ (y : Order ObjectId). record y { updated_at = now })
                                  is_written,
                          sym is_written
                              ∙ unfold convert_order_model_to_domain update_status in
                                ap
                                  (λ (m : Map Value). record (convert_order_model_to_domain d) {
                                    status = status;
                                    status_timestamps = some m;
                                    updated_at = later;
                                  })
                                  (stamp_lem status (int64 (unix later)) d.status_timestamps),
                        )
                    | inr (y, x) ↦ absurd (
                        err-ne-ok (rw (update_order_status_found id later status d s e, x) at done))
                  ]
          | inr (x, e) ↦
              absurd (err-ne-ok (sym (update_order_status_failed id later status x s e) ∙ done))
        ]
    where
      written : Order ObjectId
      written = update_status later status (convert_order_model_to_domain d)

      p : d.id ≡ id
      p = id_of nil_id is_zero same ids orders accounts docs laws new_id now id d s found
