-- ===== src/Accounts/Adapter.antt =====
-- The accounts' repository of config/mongodb/repositories.go over a collection of the driver, and
-- src/adapters/account_adapter.go, which makes it the interface of src/repositories.
use go_blockchain_watcher.Prelude.{
  ℕ, String, Bool, false, not, ◌&&◌, Option, none, some, List, ◌==◌, if◌then◌else◌, is_some, map,
  ltb,
}
use go_blockchain_watcher.Errors.{
  Error, Result, ok, err, Exec, pure, fail, or_fail, read, ◌>>=◌, ◌>>◌,
}
use go_blockchain_watcher.Values.{Time}
use go_blockchain_watcher.Mongo.{Collection}
use go_blockchain_watcher.Wallets.Adapter.{
  err_not_found, err_invalid_id, err_duplicate_key, matched,
}
use go_blockchain_watcher.Accounts.{Account, Document}

-- What a method asks of the program's surroundings, which are part of the store's type:
-- `primitive.NewObjectID`, `time.Now`, and `ctx.Err`, where `none` is a context that goes on.
pub record World (ObjectId S : Type 0) : Type 0 where
  pub new_object_id : S → ObjectId
  pub now : S → Time
  pub context_error : S → Option Error

-- repositories.AccountRepository. `create` gives back the entity with the ID that it was given.
pub record AccountRepository (ObjectId S : Type 0) : Type 0 where
  pub get_by_id : ObjectId → Exec S (Option (Account ObjectId))
  pub get_by_wallet_id : ObjectId → Exec S (List (Account ObjectId))
  pub get_by_address : String → Exec S (Option (Account ObjectId))
  pub count_by_address : String → Exec S ℕ
  pub check_duplicate_account : String → ObjectId → ObjectId → ObjectId → Exec S Bool
  pub create : Account ObjectId → Exec S (Account ObjectId)
  pub update : Account ObjectId → Exec S (Unit {0})
  pub delete : ObjectId → Exec S (Unit {0})

module _ {ObjectId : Type 0} where
  unfoldable pub convert_account_model_to_domain : Document ObjectId → Account ObjectId
  convert_account_model_to_domain d = record {
    id = d.id;
    currency_id = d.currency_id;
    chain_id = d.chain_id;
    wallet_id = d.wallet_id;
    user_id = d.user_id;
    supported_currency_id = d.supported_currency_id;
    account_type = d.account_type;
    wallet_address = d.wallet_address;
    balance = d.balance;
    encrypted_private_key = d.encrypted_private_key;
    deleted_at = d.deleted_at;
    created_at = d.created_at;
    updated_at = d.updated_at;
  }

  -- The fields that the entity does not have are left at their zero values.
  unfoldable pub convert_account_domain_to_model : ObjectId → Account ObjectId → Document ObjectId
  convert_account_domain_to_model nil_id a = record {
    id = a.id;
    currency_id = a.currency_id;
    country_id = nil_id;
    bank_id = nil_id;
    wallet_id = a.wallet_id;
    chain_id = a.chain_id;
    user_id = a.user_id;
    physical_address_id = nil_id;
    supported_currency_id = a.supported_currency_id;
    zap_id = "";
    name = "";
    holder_name = "";
    number = "";
    wallet_address = a.wallet_address;
    is_player = false;
    inflow_single_limit = 0;
    inflow_daily_limit = 0;
    outflow_single_limit = 0;
    outflow_daily_limit = 0;
    balance = a.balance;
    account_type = a.account_type;
    position = "";
    bench_status = false;
    notes = "";
    deleted_at = a.deleted_at;
    encrypted_private_key = a.encrypted_private_key;
    created_at = a.created_at;
    updated_at = a.updated_at;
  }

abbrev pub over_deleted_at : Option Time → Option Time → Option Time
over_deleted_at none old = old
over_deleted_at (some t) old = some t

-- `"deletedAt": nil` matches the documents without the field.
abbrev pub live : {ObjectId : Type 0} → Document ObjectId → Bool
live d = not (is_some d.deleted_at)

-- A field with `omitempty` is not stored at its zero value, so that no filter on it matches: these
-- are the filters on such a field.
abbrev pub has_text : String → String → Bool
has_text stored s = stored == s && not (stored == "")

abbrev pub has_address : {ObjectId : Type 0} → String → Document ObjectId → Bool
has_address address d = has_text d.wallet_address address && live d

module _ {ObjectId S : Type 0} (nil_id : ObjectId) (is_zero : ObjectId → Bool)
    (same : ObjectId → ObjectId → Bool) (accounts : Collection (Document ObjectId) S) where
  -- `$set` with the document of the tags: a field with `omitempty` is left out at its zero value.
  unfoldable pub set_account : Document ObjectId → Document ObjectId → Document ObjectId
  set_account w d = record {
    id = if is_zero w.id then d.id else w.id;
    currency_id = if is_zero w.currency_id then d.currency_id else w.currency_id;
    country_id = if is_zero w.country_id then d.country_id else w.country_id;
    bank_id = if is_zero w.bank_id then d.bank_id else w.bank_id;
    wallet_id = if is_zero w.wallet_id then d.wallet_id else w.wallet_id;
    chain_id = if is_zero w.chain_id then d.chain_id else w.chain_id;
    user_id = if is_zero w.user_id then d.user_id else w.user_id;
    physical_address_id =
        if is_zero w.physical_address_id then d.physical_address_id else w.physical_address_id;
    supported_currency_id =
        if is_zero w.supported_currency_id
        then d.supported_currency_id
        else w.supported_currency_id;
    zap_id = if w.zap_id == "" then d.zap_id else w.zap_id;
    name = if w.name == "" then d.name else w.name;
    holder_name = if w.holder_name == "" then d.holder_name else w.holder_name;
    number = if w.number == "" then d.number else w.number;
    wallet_address = if w.wallet_address == "" then d.wallet_address else w.wallet_address;
    is_player = w.is_player;
    inflow_single_limit = w.inflow_single_limit;
    inflow_daily_limit = w.inflow_daily_limit;
    outflow_single_limit = w.outflow_single_limit;
    outflow_daily_limit = w.outflow_daily_limit;
    balance = w.balance;
    account_type = if w.account_type == "" then d.account_type else w.account_type;
    position = if w.position == "" then d.position else w.position;
    bench_status = w.bench_status;
    notes = if w.notes == "" then d.notes else w.notes;
    deleted_at = over_deleted_at w.deleted_at d.deleted_at;
    encrypted_private_key =
        if w.encrypted_private_key == "" then d.encrypted_private_key else w.encrypted_private_key;
    created_at = w.created_at;
    updated_at = w.updated_at;
  }

  abbrev pub has_id : ObjectId → ObjectId → Bool
  has_id stored id = same stored id && not (is_zero stored)

  unfoldable pub get_account_by_id : ObjectId → Exec S (Document ObjectId)
  get_account_by_id id = do
    found ← read (accounts.find_one (λ d. same d.id id && live d))
    or_fail err_not_found found

  pub get_accounts_by_wallet_id : ObjectId → Exec S (List (Document ObjectId))
  get_accounts_by_wallet_id wallet_id =
      read (accounts.find (λ d. has_id d.wallet_id wallet_id && live d))

  pub get_accounts_by_user_id : ObjectId → Exec S (List (Document ObjectId))
  get_accounts_by_user_id user_id = read (accounts.find (λ d. has_id d.user_id user_id && live d))

  unfoldable pub get_account_by_address : String → Exec S (Document ObjectId)
  get_account_by_address address = do
    found ← read (accounts.find_one (has_address address))
    or_fail err_not_found found

  unfoldable pub count_by_address : String → Exec S ℕ
  count_by_address address = read (accounts.count_documents (has_address address))

  -- The filter of `CheckDuplicateAccount`.
  abbrev pub duplicates : String → ObjectId → ObjectId → ObjectId → Document ObjectId → Bool
  duplicates address user_id chain_id currency_id d =
      has_address address d
      && (has_id d.user_id user_id
          && (has_id d.chain_id chain_id && has_id d.currency_id currency_id))

  unfoldable pub check_duplicate_account : String → ObjectId → ObjectId → ObjectId → Exec S Bool
  check_duplicate_account address user_id chain_id currency_id = do
    n ← read (accounts.count_documents (duplicates address user_id chain_id currency_id))
    pure (ltb 0 n)

  unfoldable pub duplicate_key : Result (Unit {0}) → Result (Unit {0})
  duplicate_key (ok u) = ok u
  duplicate_key (err e) = if accounts.is_duplicate_key_error e then err err_duplicate_key else err e

  -- What `CreateAccount` inserts.
  unfoldable pub inserted : ObjectId → Time → Document ObjectId → Document ObjectId
  inserted new_id now a = record a {
    created_at = now;
    updated_at = now;
    id = if is_zero a.id then new_id else a.id;
  }

  unfoldable pub create_account : ObjectId → Time → Document ObjectId → Exec S (Document ObjectId)
  unfolding duplicate_key
  create_account new_id now a = do
    λ s. let (r, t) = accounts.insert_one (inserted new_id now a) s in (duplicate_key r, t)
    pure (inserted new_id now a)

  unfoldable pub update_account : Time → Document ObjectId → Exec S (Unit {0})
  unfolding set_account
  update_account now a = if is_zero a.id then fail err_invalid_id else do
    n ← accounts.update_one (λ d. same d.id a.id) (set_account (record a { updated_at = now }))
    matched n

  unfoldable pub delete_account : Time → ObjectId → Exec S (Unit {0})
  delete_account now id = do
    n ←
        accounts.update_one (λ d. same d.id id)
          (λ d. record d { deleted_at = some now; updated_at = now })
    matched n

  -- The adapter of src/adapters/account_adapter.go.
  unfoldable pub account_repository_adapter : World ObjectId S → AccountRepository ObjectId S
  unfolding get_account_by_id get_accounts_by_wallet_id get_account_by_address count_by_address
      check_duplicate_account create_account update_account delete_account
  account_repository_adapter world = record {
    get_by_id = λ id. do
      d ← get_account_by_id id
      pure (some (convert_account_model_to_domain d));
    get_by_wallet_id = λ wallet_id. do
      ds ← get_accounts_by_wallet_id wallet_id
      pure (map convert_account_model_to_domain ds);
    get_by_address = λ address. do
      d ← get_account_by_address address
      pure (some (convert_account_model_to_domain d));
    count_by_address = count_by_address;
    check_duplicate_account = check_duplicate_account;
    create = λ a s.
        (do
          d ←
              create_account (world.new_object_id s) (world.now s)
                (convert_account_domain_to_model nil_id a)
          pure (record a { id = d.id }))
          s;
    update = λ a s. update_account (world.now s) (convert_account_domain_to_model nil_id a) s;
    delete = λ id s. delete_account (world.now s) id s;
  }
