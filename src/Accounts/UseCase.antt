-- ===== src/Accounts/UseCase.antt =====
-- The operations on single accounts of src/usecases/account_usecase.go, over any repositories.
use go_blockchain_watcher.Prelude.{String, Bool, Option, List, ◌==◌, ltb, if◌then◌else◌}
use go_blockchain_watcher.Errors.{Error, errors_new, Exec, pure, fail, or_fail, wrap, ◌>>=◌, ◌>>◌}
use go_blockchain_watcher.Wallets.Adapter.{WalletRepository}
use go_blockchain_watcher.Wallets.UseCase.{err_wallet_not_found}
use go_blockchain_watcher.Accounts.{Account, new_account, mark_as_deleted}
use go_blockchain_watcher.Accounts.Adapter.{World, AccountRepository}

abbrev pub err_account_not_found : Error
err_account_not_found = errors_new "account not found"

abbrev pub err_currency_not_found : Error
err_currency_not_found = errors_new "currency not found"

abbrev pub err_chain_not_found : Error
err_chain_not_found = errors_new "chain not found"

-- `GetByID` of a repository of currencies, chains or supported currencies.
abbrev pub Getter : Type 0 → Type 0 → Type 0 → Type 0
Getter ObjectId A S = ObjectId → Exec S (Option A)

module _ {ObjectId S : Type 0} (nil_id : ObjectId) (is_zero : ObjectId → Bool)
    (world : World ObjectId S) (repo : AccountRepository ObjectId S)
    (wallets : WalletRepository ObjectId S) where
  unfoldable pub check_wallet : ObjectId → Exec S (Unit {0})
  check_wallet wallet_id = do
    wallet ← wallets.get_by_id wallet_id
    or_fail err_wallet_not_found wallet
    pure tt

  unfoldable pub check_chain :
      {Chain : Type 0} → Getter ObjectId Chain S → ObjectId → Exec S (Unit {0})
  check_chain chains chain_id =
      if is_zero chain_id
      then pure tt
      else do chain ← chains chain_id; or_fail err_chain_not_found chain; pure tt

  -- The entity gets its ID and its times where it is made.
  unfoldable pub create_account :
      {Currency Chain : Type 0}
      → Getter ObjectId Currency S
      → Getter ObjectId Chain S
      → ObjectId
      → ObjectId
      → ObjectId
      → ObjectId
      → String
      → String
      → Exec S (Account ObjectId)
  unfolding check_wallet check_chain new_account
  create_account currencies chains wallet_id user_id currency_id chain_id wallet_address key = do
    check_wallet wallet_id
    currency ← currencies currency_id
    or_fail err_currency_not_found currency
    check_chain chains chain_id
    λ s.
        repo.create
          (new_account (world.new_object_id s) nil_id (world.now s) wallet_id user_id currency_id
            chain_id wallet_address key)
          s

  -- The answer may be `nil`, which the source does not test for.
  unfoldable pub create_or_find_account :
      ObjectId → ObjectId → String → Exec S (Option (Account ObjectId))
  unfolding new_account
  create_or_find_account user_id chain_id wallet_address = do
    count ← wrap "failed to count accounts by address" (repo.count_by_address wallet_address)
    if ltb 0 count then wrap "failed to get account" (repo.get_by_address wallet_address) else do
      a ← wrap "failed to create account" (λ s.
          repo.create
            (new_account (world.new_object_id s) nil_id (world.now s) nil_id user_id nil_id chain_id
              wallet_address "")
            s)
      pure (Option.some a)

  unfoldable pub get_account_by_id : ObjectId → Exec S (Account ObjectId)
  get_account_by_id id = do account ← repo.get_by_id id; or_fail err_account_not_found account

  unfoldable pub get_accounts_by_wallet_id : ObjectId → Exec S (List (Account ObjectId))
  unfolding check_wallet
  get_accounts_by_wallet_id wallet_id = do check_wallet wallet_id; repo.get_by_wallet_id wallet_id

  unfoldable pub get_account_by_address : String → Exec S (Account ObjectId)
  get_account_by_address address =
      if address == ""
      then fail (errors_new "wallet address is required")
      else do account ← repo.get_by_address address; or_fail err_account_not_found account

  unfoldable pub update_account : Account ObjectId → Exec S (Unit {0})
  update_account a =
      if is_zero a.id
      then fail (errors_new "account ID is required")
      else do existing ← repo.get_by_id a.id; or_fail err_account_not_found existing; repo.update a

  unfoldable pub delete_account : ObjectId → Exec S (Unit {0})
  unfolding mark_as_deleted
  delete_account id = do
    found ← repo.get_by_id id
    account ← or_fail err_account_not_found found
    λ s. repo.update (mark_as_deleted (world.now s) account) s
