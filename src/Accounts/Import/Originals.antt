-- ===== src/Accounts/Import/Originals.antt =====
-- The accounts of the list: `processOriginalAccounts` of src/usecases/account_usecase.go.
use go_blockchain_watcher.Prelude.{
  ℕ, Bool, true, false, not, ◌&&◌, Option, none, some, List, [], ◌∷◌, ◌==◌, if◌then◌else◌,
}
use go_blockchain_watcher.Errors.{Error, ok, Exec, pure, or_fail, ◌>>=◌, ◌>>◌}
use go_blockchain_watcher.Values.{is_zero_time, Float64}
use go_blockchain_watcher.Wallets.UseCase.{err_wallet_not_found}
use go_blockchain_watcher.Currencies.{SupportedCurrency}
use go_blockchain_watcher.Accounts.{Account, update_balance}
use go_blockchain_watcher.Accounts.Adapter.{World}
use go_blockchain_watcher.Accounts.UseCase.{err_currency_not_found}
use go_blockchain_watcher.Accounts.Import.{
  keep, after_original, Services, Processed, attempt, save, check_duplicate,
}

module _ {ObjectId S : Type 0} (nil_id : ObjectId) (is_zero : ObjectId → Bool)
    (same : ObjectId → ObjectId → Bool) (world : World ObjectId S)
    (services : Services ObjectId S) where
  open services use {
    accounts, wallets, currencies, chains, supported, supported_batch, fetch_account_balance,
    notify,
  }

  unfoldable pub with_times : Account ObjectId → S → Account ObjectId
  with_times a s =
      if is_zero_time a.created_at
      then record a { created_at = world.now s; updated_at = world.now s }
      else a

  unfoldable pub with_currency : SupportedCurrency ObjectId → Account ObjectId → Account ObjectId
  with_currency c a = record a {
    currency_id = if is_zero c.currency_id then a.currency_id else c.currency_id;
    chain_id = if is_zero c.chain_id then a.chain_id else c.chain_id;
  }

  unfoldable pub with_type : Account ObjectId → Account ObjectId
  with_type a = record a {
    account_type = if a.account_type == "" then "ACCOUNT_IMPORTED" else a.account_type;
  }

  -- The part up to the test for a duplicate.
  unfoldable pub prepare : Account ObjectId → Exec S (Account ObjectId)
  unfolding with_currency with_type
  prepare a = do
    wallet ← wallets.get_by_id a.wallet_id
    or_fail err_wallet_not_found wallet
    if is_zero a.supported_currency_id then pure (with_type a) else do
      found ← supported a.supported_currency_id
      c ← or_fail err_currency_not_found found
      pure (with_type (with_currency c a))

  unfoldable pub should_fetch_balance : Account ObjectId → Bool
  should_fetch_balance a =
      not (a.wallet_address == "")
      && (not (is_zero a.supported_currency_id) && not (a.account_type == "ACCOUNT_CREATED"))

  unfoldable pub original_balance : Account ObjectId → Exec S Float64
  original_balance a = do
    found ← supported a.supported_currency_id
    c ← or_fail err_currency_not_found found
    found_currency ← currencies c.currency_id
    currency ← or_fail err_currency_not_found found_currency
    found_chain ← chains c.chain_id
    chain ← or_fail err_currency_not_found found_chain
    fetch_account_balance a.wallet_address currency chain (Option.some c)

  unfoldable pub with_balance : Option Float64 → Account ObjectId → S → Account ObjectId
  unfolding update_balance
  with_balance none a s = a
  with_balance (some balance) a s = update_balance balance (world.now s) a

  unfoldable pub fetch_original : Account ObjectId → Exec S (Account ObjectId)
  unfolding should_fetch_balance original_balance with_balance
  fetch_original a =
      if should_fetch_balance a
      then (do balance ← attempt (original_balance a); λ s. (ok (with_balance balance a s), s))
      else pure a

  unfoldable pub save_unless :
      ℕ → Account ObjectId → Bool → Exec S (Account ObjectId × Option ObjectId)
  unfolding fetch_original save
  save_unless count a true = pure (a, Option.none)
  save_unless count a false = do
    a' ← fetch_original a
    saved ← save nil_id is_zero same world services count a'
    pure (saved, Option.some saved.id)

  unfoldable pub process_original :
      ℕ → Account ObjectId → Exec S (Account ObjectId × Option ObjectId)
  unfolding with_times prepare check_duplicate save_unless
  process_original count a s =
      (do
        a' ← prepare (with_times a s)
        is_duplicate ← check_duplicate nil_id is_zero same world services a'
        save_unless count a' is_duplicate)
        s

  unfoldable pub each_original :
      ℕ
      → Option Error
      → Option (Account ObjectId)
      → List (Option (Account ObjectId))
      → (List ObjectId → S → Processed ObjectId × S)
      → List ObjectId
      → S
      → Processed ObjectId × S
  unfolding process_original
  each_original count (some e) a rest next ids s =
      (record { ids = ids; failure = some e; accounts = a ∷ rest }, s)
  each_original count none none rest next ids s = keep none (next ids s)
  each_original count none (some a) rest next ids s =
      after_original a rest next ids (process_original count a s)

  unfoldable pub process_original_accounts :
      ℕ → List (Option (Account ObjectId)) → List ObjectId → S → Processed ObjectId × S
  unfolding each_original
  process_original_accounts count [] ids s =
      (record { ids = ids; failure = none; accounts = [] }, s)
  process_original_accounts count (a ∷ rest) ids s =
      each_original count (world.context_error s) a rest (process_original_accounts count rest) ids
        s
