-- ===== src/Accounts/Import/Derived.antt =====
-- The accounts that `ImportAccounts` of src/usecases/account_usecase.go adds for one batch of supported
-- currencies.
use go_blockchain_watcher.Prelude.{
  ℕ, zero, suc, Bool, true, false, not, ◌&&◌, ◌||◌, Option, none, some, List, [], ◌∷◌, ◌==◌,
  if◌then◌else◌, first, is_some,
}
use go_blockchain_watcher.Errors.{Error, ok, Exec, pure, ◌>>=◌}
use go_blockchain_watcher.Values.{Float64}
use go_blockchain_watcher.Currencies.{Currency, Chain, SupportedCurrency}
use go_blockchain_watcher.Accounts.{Account}
use go_blockchain_watcher.Accounts.Adapter.{World}
use go_blockchain_watcher.Accounts.Import.{
  balance_or_zero, flatten, or_skipped, after_visit, left_after, unless_stopped, Services, Visit,
  Progress, going, attempt, save, check_duplicate,
}

module _ {ObjectId S : Type 0} (nil_id : ObjectId) (is_zero : ObjectId → Bool)
    (same : ObjectId → ObjectId → Bool) (world : World ObjectId S)
    (services : Services ObjectId S) where
  open services use {
    accounts, wallets, currencies, chains, supported, supported_batch, fetch_account_balance,
    notify,
  }

  -- The keys of `existingAccountMap`: two texts of hexadecimal IDs are equal when the IDs are.
  abbrev pub exists : List (Account ObjectId) → SupportedCurrency ObjectId → Bool
  exists originals c = is_some (
      first
        (λ (a : Account ObjectId).
          (not (is_zero a.chain_id) && not (is_zero a.currency_id))
          && (same a.chain_id c.chain_id && same a.currency_id c.currency_id))
        originals)

  abbrev pub is_unadded : List (Account ObjectId) → SupportedCurrency ObjectId → Bool
  is_unadded originals c =
      not (is_zero c.chain_id || is_zero c.currency_id) && not (exists originals c)

  -- The account whose address the new one shares.
  abbrev pub supported_account :
      List (Account ObjectId) → SupportedCurrency ObjectId → Option (Account ObjectId)
  supported_account originals c =
      first (λ (a : Account ObjectId). not (is_zero a.chain_id) && same a.chain_id c.chain_id)
        originals

  unfoldable pub fetch_balance :
      Account ObjectId
      → Currency ObjectId
      → Chain ObjectId
      → Option (SupportedCurrency ObjectId)
      → Exec S Float64
  fetch_balance a currency chain c = if a.account_type == "ACCOUNT_CREATED" then pure 0 else do
    balance ← attempt (fetch_account_balance a.wallet_address currency chain c)
    pure (balance_or_zero balance)

  unfoldable pub derived_account :
      Account ObjectId → SupportedCurrency ObjectId → Float64 → S → Account ObjectId
  derived_account a c balance s = record {
    id = world.new_object_id s;
    currency_id = c.currency_id;
    chain_id = c.chain_id;
    wallet_id = a.wallet_id;
    user_id = a.user_id;
    supported_currency_id = c.id;
    account_type = "ACCOUNT_IMPORTED";
    wallet_address = a.wallet_address;
    balance = balance;
    encrypted_private_key = a.encrypted_private_key;
    deleted_at = none;
    created_at = world.now s;
    updated_at = world.now s;
  }

  unfoldable pub create_unless : ℕ → Account ObjectId → Bool → Exec S (Visit ObjectId)
  unfolding save
  create_unless count a true = pure Visit.skipped
  create_unless count a false = do
    saved ← save nil_id is_zero same world services count a
    pure (Visit.created saved.id)

  unfoldable pub derive :
      ℕ
      → Account ObjectId
      → SupportedCurrency ObjectId
      → Option (SupportedCurrency ObjectId)
      → Option (Currency ObjectId)
      → Option (Chain ObjectId)
      → Exec S (Visit ObjectId)
  unfolding fetch_balance derived_account check_duplicate create_unless
  derive count a c details (some currency) (some chain) = do
    balance ← fetch_balance a currency chain details
    a' ← λ s. (ok (derived_account a c balance s), s)
    is_duplicate ← check_duplicate nil_id is_zero same world services a'
    create_unless count a' is_duplicate
  derive count a c details _ _ = pure Visit.crashed

  unfoldable pub visit_account :
      ℕ → SupportedCurrency ObjectId → Option (Account ObjectId) → Exec S (Visit ObjectId)
  unfolding derive
  visit_account count c none = pure Visit.skipped
  visit_account count c (some a) = do
    currency ← currencies c.currency_id
    chain ← chains c.chain_id
    details ← attempt (supported c.id)
    derive count a c (flatten details) currency chain

  unfoldable pub visit :
      ℕ → List (Account ObjectId) → SupportedCurrency ObjectId → S → Visit ObjectId × S
  unfolding visit_account
  visit count originals c s =
      let (r, t) = visit_account count c (supported_account originals c) s in (or_skipped r, t)

  -- The two loops over the chunks of five and in a chunk, as one loop that counts what is left of the
  -- chunk; the context is looked at where a chunk begins.
  abbrev pub chunk_error : ℕ → S → Option Error
  chunk_error zero s = world.context_error s
  chunk_error (suc left) s = none

  unfoldable pub process_currencies :
      ℕ
      → List (Account ObjectId)
      → ℕ
      → List (SupportedCurrency ObjectId)
      → List ObjectId
      → S
      → Progress ObjectId × S
  unfolding visit
  process_currencies count originals left [] ids s = (going ids, s)
  process_currencies count originals left (c ∷ cs) ids s =
      let next =
        after_visit (process_currencies count originals (left_after left) cs) ids
          (visit count originals c s) in
      unless_stopped (chunk_error left s) ids next s
