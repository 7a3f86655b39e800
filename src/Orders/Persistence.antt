-- ===== src/Orders/Persistence.antt =====
-- What the order use cases (src/usecases/order_usecase.go) store, through the adapter and the
-- repository, in the collection of orders, and what they read afterwards.
pub mod Merged
pub mod Changes
pub mod Deletion
use go_blockchain_watcher.Prelude.{
  String, ◌≡◌, ◌⊎◌, refl, sym, ap, ◌∙◌, Bool, true, false, ◌&&◌, Option, none, some, List, [], ◌∷◌,
  arith, ◌==◌, if◌then◌else◌, inl, inr, Bool-cases, first, modify_first, select, first-modify_first,
  first_refine, first_gone, first_passes, select-first,
}
use go_blockchain_watcher.Errors.{Error, Result, ok, err, pure, continue, Result-cases, err-ne-ok}
use go_blockchain_watcher.Values.{Time, zero_time, unix, int64}
use go_blockchain_watcher.Mongo.{Collection, CollectionLaws, ObjectIdLaws}
use go_blockchain_watcher.Wallets.Adapter.{matched, matched-state, matched-ok, err_not_found}
use go_blockchain_watcher.Accounts
use go_blockchain_watcher.Orders.{Order, Document, mark_as_deleted, update_status, stamp}
use go_blockchain_watcher.Orders.Merge.{over_id, over_text, merge}
use go_blockchain_watcher.Orders.Adapter.{
  OrderRepository, order_repository_adapter, set_order, convert_order_domain_to_model,
  convert_order_model_to_domain, live, over_deleted_at,
}
use go_blockchain_watcher.Orders.Adapter
use go_blockchain_watcher.Orders.UseCase

-- A field of `$set` that is left out has the value that was to be set anyway.
keep : {A : Type 0} (b : Bool) (a : A) → (if b then a else a) ≡ a
keep true a = refl
keep false a = refl

keep_some : (a : Option Time) → over_deleted_at a a ≡ a
keep_some none = refl
keep_some (some t) = refl

omit_text :
    (new old : String)
    → (if over_text new old == "" then old else over_text new old) ≡ over_text new old
omit_text new old = elim (Bool-cases (new == "")) [
  | inl e ↦ rw e (keep (old == "") old)
  | inr e ↦ rw (e, e) refl
]

omit_id :
    {A : Type 0} (is_zero : A → Bool) (new old : A)
    → (if is_zero (over_id is_zero new old) then old else over_id is_zero new old)
      ≡ over_id is_zero new old
omit_id is_zero new old = elim (Bool-cases (is_zero new)) [
  | inl e ↦ rw e (keep (is_zero old) old)
  | inr e ↦ rw (e, e) refl
]

module _ {ObjectId S : Type 0} (nil_id : ObjectId) (is_zero : ObjectId → Bool)
    (same : ObjectId → ObjectId → Bool) (ids : ObjectIdLaws nil_id is_zero same)
    (orders : Collection (Document ObjectId) S)
    (accounts : Collection (Accounts.Document ObjectId) S) (docs : S → List (Document ObjectId))
    (laws : CollectionLaws orders docs) (new_id : ObjectId) (now : Time) where
  abbrev repo : OrderRepository ObjectId S
  repo = order_repository_adapter is_zero same orders accounts new_id now

  abbrev under : ObjectId → Document ObjectId → Bool
  under id d = same d.id id

  abbrev shown : ObjectId → Document ObjectId → Bool
  shown id d = same d.id id && live d

  abbrev update : Document ObjectId → S → Result (Unit {0}) × S
  update x s = Adapter.update_order is_zero same orders accounts now x s

  abbrev set_now : Document ObjectId → Document ObjectId → Document ObjectId
  set_now x d = set_order is_zero same orders accounts (record x { updated_at = now }) d

  -- A read that fails leaves an error, and one that succeeds has found what the store holds.
  find_cases :
      (id : ObjectId) (s : S) (r : Option (Document ObjectId))
      → first (shown id) (docs s) ≡ r
      → (orders.find_one (shown id) s ≡ ok r)
        ⊎ ((e : Error) × (orders.find_one (shown id) s ≡ err e))
  find_cases id s r h = elim (Result-cases (orders.find_one (shown id) s)) [
    | inl (q, e) ↦ inl (e ∙ ap ok (laws.find_one_ok (shown id) s q e ∙ h))
    | inr e ↦ inr e
  ]

  -- A successful update of an order sets the fields of its document.
  pub docs-update_order :
      (x : Document ObjectId) (s : S)
      → is_zero x.id ≡ false
      → (update x s).0 ≡ ok tt
      → docs (update x s).1 ≡ modify_first (under x.id) (set_now x) (docs s)
  unfolding Adapter.update_order
  docs-update_order x s nonzero done =
      let u = orders.update_one (under x.id) (set_now x) s in
      let done' : (continue u.0 matched u.1).0 ≡ ok tt = rw nonzero at done in
      let (n, e) = matched-ok u.0 u.1 done' in
      rw nonzero (rw (matched-state u.0 u.1) (laws.update_one_ok (under x.id) (set_now x) s n e).0)

  -- `GetOrderByID` gives the order of the document that is shown under the ID.
  get_order_found :
      (id : ObjectId) (d : Document ObjectId) (r : Order ObjectId) (s : S)
      → first (shown id) (docs s) ≡ some d
      → (UseCase.get_order_by_id is_zero repo id s).0 ≡ ok r
      → r ≡ convert_order_model_to_domain d
  unfolding UseCase.get_order_by_id order_repository_adapter
  get_order_found id d r s found done = elim (find_cases id s (some d) found) [
    | inl e ↦ let done' = rw e at done in ground (arith, done')
    | inr (x, e) ↦ absurd (err-ne-ok (rw e at done))
  ]

  pub get_order_missing :
      (id : ObjectId) (s : S)
      → first (shown id) (docs s) ≡ none
      → (e : Error) × ((UseCase.get_order_by_id is_zero repo id s).0 ≡ err e)
  unfolding UseCase.get_order_by_id order_repository_adapter
  get_order_missing id s missing = elim (find_cases id s none missing) [
    | inl e ↦ (err_not_found, rw e refl)
    | inr (x, e) ↦ (x, rw e refl)
  ]

  -- Reading after a successful update.
  read_after :
      (x d d' : Document ObjectId) (r : Order ObjectId) (s : S)
      → is_zero x.id ≡ false
      → first (under x.id) (docs s) ≡ some d
      → set_now x d ≡ d'
      → d'.id ≡ x.id
      → live d' ≡ true
      → (update x s).0 ≡ ok tt
      → (UseCase.get_order_by_id is_zero repo x.id (update x s).1).0 ≡ ok r
      → r ≡ convert_order_model_to_domain d'
  read_after x d d' r s nonzero found e same_id shows done answered =
      get_order_found x.id d' r (update x s).1
        (rw (docs-update_order x s nonzero done) (
          first_refine (under x.id) live (modify_first (under x.id) (set_now x) (docs s)) d'
            (first-modify_first (under x.id) (set_now x) (docs s) d found
                (rw e ((ids.same_iff d'.id x.id).1 same_id))
              ∙ ap some e)
            shows))
        answered

  pub read_under :
      (id : ObjectId) (x d d' : Document ObjectId) (r : Order ObjectId) (s : S)
      → x.id ≡ id
      → is_zero id ≡ false
      → first (under id) (docs s) ≡ some d
      → set_now x d ≡ d'
      → d'.id ≡ id
      → live d' ≡ true
      → (update x s).0 ≡ ok tt
      → (UseCase.get_order_by_id is_zero repo id (update x s).1).0 ≡ ok r
      → r ≡ convert_order_model_to_domain d'
  read_under id x d d' r s p nonzero found e same_id shows done answered =
      read_after x d d' r s (ap is_zero p ∙ nonzero) (ap (λ i. first (under i) (docs s)) p ∙ found)
        e (same_id ∙ sym p) shows done
        (ap (λ i. (UseCase.get_order_by_id is_zero repo i (update x s).1).0) p ∙ answered)

  -- What the use cases write of a stored document.
  pub merged : Order ObjectId → Document ObjectId → Document ObjectId
  unfolding convert_order_domain_to_model convert_order_model_to_domain merge
  merged o d = convert_order_domain_to_model (merge is_zero o (convert_order_model_to_domain d))

  pub stamped : Time → String → Document ObjectId → Document ObjectId
  unfolding convert_order_domain_to_model convert_order_model_to_domain update_status
  stamped later status d =
      convert_order_domain_to_model (update_status later status (convert_order_model_to_domain d))

  pub deleted : Document ObjectId → Document ObjectId
  unfolding convert_order_domain_to_model convert_order_model_to_domain mark_as_deleted
  deleted d = convert_order_domain_to_model (mark_as_deleted (convert_order_model_to_domain d))

  -- `$set` writes each of these whole.
  pub set-merged :
      (o : Order ObjectId) (d : Document ObjectId)
      → set_now (merged o d) d ≡ record (merged o d) { updated_at = now }
  unfolding set_order merged convert_order_domain_to_model convert_order_model_to_domain merge
  set-merged o d =
      rw
        (
          keep (is_zero d.id) d.id,
          keep_some d.deleted_at,
          keep (is_zero d.v1_user_id) d.v1_user_id,
          keep (d.order_type == "") d.order_type,
          keep (d.v1_id == "") d.v1_id,
          omit_id is_zero o.buy_chain d.buy_chain,
          omit_id is_zero o.sell_chain d.sell_chain,
          omit_id is_zero o.refund_account_id d.refund_account_id,
          omit_id is_zero o.parent_order_id d.parent_order,
          omit_id is_zero o.child_order_id d.child_order,
          omit_text o.provider d.provider,
          omit_text o.provider_order_id d.provider_order_id,
          omit_text o.buy_provider d.buy_provider,
          omit_text o.sell_provider d.sell_provider,
          omit_text o.rate_id d.rate_id,
        )
        refl

  pub set-stamped :
      (later : Time) (status : String) (d : Document ObjectId)
      → set_now (stamped later status d) d ≡ record (stamped later status d) { updated_at = now }
  unfolding set_order stamped convert_order_domain_to_model convert_order_model_to_domain
      update_status
  set-stamped later status d =
      rw
        (
          keep (is_zero d.id) d.id,
          keep_some d.deleted_at,
          keep (is_zero d.v1_user_id) d.v1_user_id,
          keep (is_zero d.buy_chain) d.buy_chain,
          keep (is_zero d.sell_chain) d.sell_chain,
          keep (is_zero d.refund_account_id) d.refund_account_id,
          keep (is_zero d.parent_order) d.parent_order,
          keep (is_zero d.child_order) d.child_order,
          keep (d.order_type == "") d.order_type,
          keep (d.v1_id == "") d.v1_id,
          keep (d.provider == "") d.provider,
          keep (d.provider_order_id == "") d.provider_order_id,
          keep (d.buy_provider == "") d.buy_provider,
          keep (d.sell_provider == "") d.sell_provider,
          keep (d.rate_id == "") d.rate_id,
        )
        refl

  pub set-deleted :
      (d : Document ObjectId) → set_now (deleted d) d ≡ record (deleted d) { updated_at = now }
  unfolding set_order deleted convert_order_domain_to_model convert_order_model_to_domain
      mark_as_deleted
  set-deleted d =
      rw
        (
          keep (is_zero d.id) d.id,
          keep (is_zero d.v1_user_id) d.v1_user_id,
          keep (is_zero d.buy_chain) d.buy_chain,
          keep (is_zero d.sell_chain) d.sell_chain,
          keep (is_zero d.refund_account_id) d.refund_account_id,
          keep (is_zero d.parent_order) d.parent_order,
          keep (is_zero d.child_order) d.child_order,
          keep (d.order_type == "") d.order_type,
          keep (d.v1_id == "") d.v1_id,
          keep (d.provider == "") d.provider,
          keep (d.provider_order_id == "") d.provider_order_id,
          keep (d.buy_provider == "") d.buy_provider,
          keep (d.sell_provider == "") d.sell_provider,
          keep (d.rate_id == "") d.rate_id,
        )
        refl

  pub id_of :
      (id : ObjectId) (d : Document ObjectId) (s : S)
      → first (under id) (docs s) ≡ some d
      → d.id ≡ id
  id_of id d s found = (ids.same_iff d.id id).0 (first_passes (under id) (docs s) d found)

  -- The order that a use case reads before it changes it.
  pub read_shown :
      (id : ObjectId) (d : Document ObjectId) (s : S)
      → first (under id) (docs s) ≡ some d
      → live d ≡ true
      → (orders.find_one (shown id) s ≡ ok (some d))
        ⊎ ((e : Error) × (orders.find_one (shown id) s ≡ err e))
  read_shown id d s found shows =
      find_cases id s (some d) (first_refine (under id) live (docs s) d found shows)
