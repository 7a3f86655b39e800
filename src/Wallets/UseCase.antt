-- ===== src/Wallets/UseCase.antt =====
-- src/usecases/wallet_usecase.go, over any repository.
use go_blockchain_watcher.Prelude.{String, Bool, List, if◌then◌else◌}
use go_blockchain_watcher.Errors.{Error, errors_new, Exec, fail, or_fail, ◌>>=◌, ◌>>◌}
use go_blockchain_watcher.Values.{Time, ℤ}
use go_blockchain_watcher.Wallets.{Wallet, new_wallet, mark_as_deleted}
use go_blockchain_watcher.Wallets.Adapter.{WalletRepository}

abbrev pub err_wallet_not_found : Error
err_wallet_not_found = errors_new "wallet not found"

abbrev pub err_invalid_user_id : Error
err_invalid_user_id = errors_new "invalid user ID"

module _ {ObjectId S : Type 0} (is_zero : ObjectId → Bool)
    (repo : WalletRepository ObjectId S) where
  unfoldable pub create_wallet :
      (ℤ → String)
      → ObjectId
      → ObjectId
      → Time
      → ObjectId
      → String
      → String
      → ℤ
      → Exec S (Wallet ObjectId)
  unfolding new_wallet
  create_wallet rune_string new_id nil_id now user_id name hashed_seed_phrase account_depth =
      if is_zero user_id
      then fail err_invalid_user_id
      else repo.create
          (new_wallet rune_string new_id nil_id now user_id name hashed_seed_phrase account_depth)

  unfoldable pub get_wallet_by_id : ObjectId → Exec S (Wallet ObjectId)
  get_wallet_by_id id = do wallet ← repo.get_by_id id; or_fail err_wallet_not_found wallet

  pub get_wallets_by_user_id : ObjectId → Exec S (List (Wallet ObjectId))
  get_wallets_by_user_id user_id =
      if is_zero user_id then fail err_invalid_user_id else repo.get_by_user_id user_id

  unfoldable pub update_wallet : Wallet ObjectId → Exec S (Unit {0})
  update_wallet w =
      if is_zero w.id
      then fail (errors_new "wallet ID is required")
      else do repo.get_by_id w.id; repo.update w

  unfoldable pub delete_wallet : Time → ObjectId → Exec S (Unit {0})
  unfolding mark_as_deleted
  delete_wallet now id = do
    found ← repo.get_by_id id
    wallet ← or_fail err_wallet_not_found found
    repo.update (mark_as_deleted now wallet)
