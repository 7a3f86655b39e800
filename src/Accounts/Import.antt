-- ===== src/Accounts/Import.antt =====
-- The import of accounts: `ImportAccounts` and `processOriginalAccounts` of
-- src/usecases/account_usecase.go, over any repositories. The accounts are pointers, of which `none` is
-- `nil`; they are taken to be distinct. A panic is recovered, and gives no IDs and no error.
pub mod Originals
pub mod Derived
pub mod Batches
pub mod Termination
pub mod Quiet
pub mod Steps
pub mod Visits
pub mod Invariant
pub mod Unique
pub mod Growth
pub mod NilAccounts
use go_blockchain_watcher.Prelude.{
  ℕ, zero, suc, ◌+◌, String, Bool, true, false, not, ◌&&◌, ◌||◌, Option, none, some, List, [], ◌∷◌,
  ◌++◌, ◌==◌, if◌then◌else◌, first, is_some, length,
}
use go_blockchain_watcher.Errors.{
  Error, errors_new, Result, ok, err, Exec, pure, or_fail, ◌>>=◌, ◌>>◌,
}
use go_blockchain_watcher.Values.{is_zero_time, Float64}
use go_blockchain_watcher.Wallets.Adapter.{WalletRepository}
use go_blockchain_watcher.Wallets.UseCase.{err_wallet_not_found}
use go_blockchain_watcher.Currencies.{Currency, Chain, SupportedCurrency}
use go_blockchain_watcher.Accounts.{Account, update_balance}
use go_blockchain_watcher.Accounts.Adapter.{World, AccountRepository}
use go_blockchain_watcher.Accounts.UseCase.{Getter, err_currency_not_found}

-- The repositories, the blockchain service and the request manager of the use case. `notify` is the
-- goroutine that posts an account to the Node.js server, and does nothing without a request manager.
-- `supported_batch` is `GetBatch`, whose limit and number of currencies to skip are not negative here.
pub record Services (ObjectId S : Type 0) : Type 0 where
  pub accounts : AccountRepository ObjectId S
  pub wallets : WalletRepository ObjectId S
  pub currencies : Getter ObjectId (Currency ObjectId) S
  pub chains : Getter ObjectId (Chain ObjectId) S
  pub supported : Getter ObjectId (SupportedCurrency ObjectId) S
  pub supported_batch : ℕ → ℕ → Exec S (List (SupportedCurrency ObjectId))
  pub fetch_account_balance :
      String
      → Currency ObjectId
      → Chain ObjectId
      → Option (SupportedCurrency ObjectId)
      → Exec S Float64
  pub notify : ℕ → Account ObjectId → S → S

-- What `processOriginalAccounts` returns, and the accounts as it leaves them. (After an error nobody
-- looks at them: the one of the error stands as it was before.)
pub record Processed (ObjectId : Type 0) : Type 0 where
  pub ids : List ObjectId
  pub failure : Option Error
  pub accounts : List (Option (Account ObjectId))

-- What became of a supported currency: no account, an account with its ID, or a panic.
pub data Visit (ObjectId : Type 0) : Type 0 where
  skipped : Visit ObjectId
  created : ObjectId → Visit ObjectId
  crashed : Visit ObjectId

-- Where a loop of the import stands: it goes on with the IDs, has returned, has panicked, or has run
-- out of fuel.
pub data Progress (ObjectId : Type 0) : Type 0 where
  going : List ObjectId → Progress ObjectId
  returned : List ObjectId → Option Error → Progress ObjectId
  panicked : Progress ObjectId
  unfinished : Progress ObjectId

-- `if err != nil { log }`: the error is dropped.
abbrev pub result_or_none : {A : Type 0} → Result A → Result (Option A)
result_or_none (ok a) = ok (some a)
result_or_none (err e) = ok none

abbrev pub attempt : {S A : Type 0} → Exec S A → Exec S (Option A)
attempt m s = let (r, t) = m s in (result_or_none r, t)

-- What the loops do with the outcome of a step; `next` is the rest of the loop.
abbrev pub balance_or_zero : Option Float64 → Float64
balance_or_zero none = 0
balance_or_zero (some b) = b

-- An error makes the loop continue with the next currency; a `nil` currency or chain is
-- dereferenced.
abbrev pub flatten : {A : Type 0} → Option (Option A) → Option A
flatten none = none
flatten (some a) = a

abbrev pub or_skipped : {ObjectId : Type 0} → Result (Visit ObjectId) → Visit ObjectId
or_skipped (ok v) = v
or_skipped (err e) = skipped

abbrev pub left_after : ℕ → ℕ
left_after zero = 4
left_after (suc left) = left

module _ {ObjectId S : Type 0} where
  abbrev pub keep : Option (Account ObjectId) → Processed ObjectId × S → Processed ObjectId × S
  keep a (r, s) = (record r { accounts = a ∷ r.accounts }, s)

  abbrev pub after_original :
      Account ObjectId
      → List (Option (Account ObjectId))
      → (List ObjectId → S → Processed ObjectId × S)
      → List ObjectId
      → Result (Account ObjectId × Option ObjectId) × S
      → Processed ObjectId × S
  after_original a rest next ids (err e, s) =
      (record { ids = ids; failure = some e; accounts = some a ∷ rest }, s)
  after_original a rest next ids (ok (a', none), s) = keep (some a') (next ids s)
  after_original a rest next ids (ok (a', some id), s) = keep (some a') (next (ids ++ id ∷ []) s)

  abbrev pub after_visit :
      (List ObjectId → S → Progress ObjectId × S)
      → List ObjectId
      → Visit ObjectId × S
      → Progress ObjectId × S
  after_visit next ids (skipped, s) = next ids s
  after_visit next ids (created id, s) = next (ids ++ id ∷ []) s
  after_visit next ids (crashed, s) = (panicked, s)

  abbrev pub unless_stopped :
      Option Error → List ObjectId → Progress ObjectId × S → S → Progress ObjectId × S
  unless_stopped none ids next s = next
  unless_stopped (some e) ids next s = (returned ids (some e), s)

  abbrev pub after_batch :
      (ℕ → List ObjectId → S → Progress ObjectId × S)
      → ℕ
      → Progress ObjectId × S
      → Progress ObjectId × S
  after_batch next processed (going ids, s) = next processed ids s
  after_batch next processed (returned ids e, s) = (returned ids e, s)
  after_batch next processed (panicked, s) = (panicked, s)
  after_batch next processed (unfinished, s) = (unfinished, s)

module _ {ObjectId S : Type 0} (nil_id : ObjectId) (is_zero : ObjectId → Bool)
    (same : ObjectId → ObjectId → Bool) (world : World ObjectId S)
    (services : Services ObjectId S) where
  open services use {
    accounts, wallets, currencies, chains, supported, supported_batch, fetch_account_balance,
    notify,
  }

  -- Saving an account, and telling the Node.js server.
  unfoldable pub save : ℕ → Account ObjectId → Exec S (Account ObjectId)
  save count a = do a' ← accounts.create a; λ s. (ok a', notify count a' s)

  unfoldable pub check_duplicate : Account ObjectId → Exec S Bool
  check_duplicate a =
      accounts.check_duplicate_account a.wallet_address a.user_id a.chain_id a.currency_id
