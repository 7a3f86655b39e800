-- ===== src/Wallets/Adapter.antt =====
-- The wallets' repository of config/mongodb/repositories.go over a collection of the driver, and
-- src/adapters/wallet_adapter.go, which makes it the interface of src/repositories.
use go_blockchain_watcher.Prelude.{
  refl, ◌≡◌, ℕ, zero, suc, Bool, true, false, not, ◌&&◌, Option, none, some, List, ◌==◌,
  if◌then◌else◌, map,
}
use go_blockchain_watcher.Errors.{
  continue, Error, errors_new, Result, ok, err, Exec, pure, fail, or_fail, read, ◌>>=◌, ◌>>◌,
}
use go_blockchain_watcher.Values.{Time, pos}
use go_blockchain_watcher.Mongo.{Collection}
use go_blockchain_watcher.Wallets.{Wallet, Document}

-- repositories.WalletRepository. `create` gives back the entity with the ID that it was given.
pub record WalletRepository (ObjectId S : Type 0) : Type 0 where
  pub get_by_id : ObjectId → Exec S (Option (Wallet ObjectId))
  pub get_by_user_id : ObjectId → Exec S (List (Wallet ObjectId))
  pub create : Wallet ObjectId → Exec S (Wallet ObjectId)
  pub update : Wallet ObjectId → Exec S (Unit {0})
  pub delete : ObjectId → Exec S (Unit {0})

abbrev pub err_not_found : Error
err_not_found = errors_new "document not found"

abbrev pub err_invalid_id : Error
err_invalid_id = errors_new "invalid ID"

abbrev pub err_duplicate_key : Error
err_duplicate_key = errors_new "duplicate key error"

-- No document matched.
abbrev pub matched : {S : Type 0} → ℕ → Exec S (Unit {0})
matched zero = fail err_not_found
matched (suc n) = pure tt

pub matched-state : {S : Type 0} (r : Result ℕ) (t : S) → (continue r matched t).1 ≡ t
matched-state (ok zero) t = refl
matched-state (ok (suc n)) t = refl
matched-state (err e) t = refl

pub matched-ok :
    {S : Type 0} (r : Result ℕ) (t : S) → (continue r matched t).0 ≡ ok tt → (n : ℕ) × (r ≡ ok n)
matched-ok (ok n) t h = (n, refl)
matched-ok (err e) t h = absurd (cc)

-- The conversions copy five fields, and leave the others at their zero values.
module _ {ObjectId : Type 0} (nil_id : ObjectId) where
  unfoldable pub convert_wallet_model_to_domain : Document ObjectId → Wallet ObjectId
  convert_wallet_model_to_domain d = record {
    id = d.id;
    user_id = d.user_id;
    name = d.name;
    wallet_group = "";
    hashed_seed_phrase = "";
    account_depth = pos 0;
    primary_wallet = false;
    is_linked = false;
    zap_exchange_id = nil_id;
    is_deleted = false;
    deleted_at = none;
    created_at = d.created_at;
    updated_at = d.updated_at;
  }

  unfoldable pub convert_wallet_domain_to_model : Wallet ObjectId → Document ObjectId
  convert_wallet_domain_to_model w = record {
    id = w.id;
    user_id = w.user_id;
    name = w.name;
    wallet_group = "";
    hashed_seed_phrase = "";
    account_depth = pos 0;
    primary_wallet = false;
    is_linked = false;
    zap_exchange_id = nil_id;
    is_deleted = false;
    deleted_at = none;
    created_at = w.created_at;
    updated_at = w.updated_at;
  }

-- `is_zero` is `ObjectID.IsZero`, `same` the filter's equality of IDs.
module _ {ObjectId S : Type 0} (nil_id : ObjectId) (is_zero : ObjectId → Bool)
    (same : ObjectId → ObjectId → Bool) (wallets : Collection (Document ObjectId) S) where
  -- `$set` with the document of the tags: a field with `omitempty` is left out at its zero value.
  unfoldable pub set_wallet : Document ObjectId → Document ObjectId → Document ObjectId
  set_wallet w d = record {
    id = if is_zero w.id then d.id else w.id;
    user_id = w.user_id;
    name = w.name;
    wallet_group = w.wallet_group;
    hashed_seed_phrase =
        if w.hashed_seed_phrase == "" then d.hashed_seed_phrase else w.hashed_seed_phrase;
    account_depth = w.account_depth;
    primary_wallet = w.primary_wallet;
    is_linked = w.is_linked;
    zap_exchange_id = if is_zero w.zap_exchange_id then d.zap_exchange_id else w.zap_exchange_id;
    is_deleted = w.is_deleted;
    deleted_at = elim w.deleted_at [ none ↦ d.deleted_at | some t ↦ some t ];
    created_at = w.created_at;
    updated_at = w.updated_at;
  }

  unfoldable pub get_wallet_by_id : ObjectId → Exec S (Document ObjectId)
  get_wallet_by_id id = do
    found ← read (wallets.find_one (λ d. same d.id id))
    or_fail err_not_found found

  pub get_wallets_by_user_id : ObjectId → Exec S (List (Document ObjectId))
  get_wallets_by_user_id user_id =
      read (wallets.find (λ d. same d.user_id user_id && not d.is_deleted))

  unfoldable pub duplicate_key : Result (Unit {0}) → Result (Unit {0})
  duplicate_key (ok u) = ok u
  duplicate_key (err e) = if wallets.is_duplicate_key_error e then err err_duplicate_key else err e

  unfoldable pub create_wallet : ObjectId → Time → Document ObjectId → Exec S (Document ObjectId)
  unfolding duplicate_key
  create_wallet new_id now w = do
    let w' = record w {
      created_at = now;
      updated_at = now;
      id = if is_zero w.id then new_id else w.id;
    }
    λ s. let (r, t) = wallets.insert_one w' s in (duplicate_key r, t)
    pure w'

  unfoldable pub update_wallet : Time → Document ObjectId → Exec S (Unit {0})
  unfolding set_wallet
  update_wallet now w = if is_zero w.id then fail err_invalid_id else do
    n ← wallets.update_one (λ d. same d.id w.id) (set_wallet (record w { updated_at = now }))
    matched n

  unfoldable pub delete_wallet : Time → ObjectId → Exec S (Unit {0})
  delete_wallet now id = do
    n ←
        wallets.update_one (λ d. same d.id id)
          (λ d. record d { is_deleted = true; deleted_at = some now; updated_at = now })
    matched n

  -- The adapter of src/adapters/wallet_adapter.go.
  unfoldable pub wallet_repository_adapter : ObjectId → Time → WalletRepository ObjectId S
  unfolding get_wallet_by_id get_wallets_by_user_id create_wallet update_wallet delete_wallet
  wallet_repository_adapter new_id now = record {
    get_by_id = λ id. do
      d ← get_wallet_by_id id
      pure (some (convert_wallet_model_to_domain nil_id d));
    get_by_user_id = λ user_id. do
      ds ← get_wallets_by_user_id user_id
      pure (map (convert_wallet_model_to_domain nil_id) ds);
    create = λ w. do
      d ← create_wallet new_id now (convert_wallet_domain_to_model nil_id w)
      pure (record w { id = d.id });
    update = λ w. update_wallet now (convert_wallet_domain_to_model nil_id w);
    delete = delete_wallet now;
  }
