-- ===== src/Accounts/Import/Batches.antt =====
-- The loop over the batches, and `ImportAccounts` of src/usecases/account_usecase.go.
use go_blockchain_watcher.Prelude.{
  true, false, ℕ, zero, suc, ◌+◌, Bool, Option, none, some, List, [], ◌∷◌, length, select,
}
use go_blockchain_watcher.Errors.{Error, errors_new, Result, ok, err}
use go_blockchain_watcher.Currencies.{SupportedCurrency}
use go_blockchain_watcher.Accounts.{Account}
use go_blockchain_watcher.Accounts.Adapter.{World}
use go_blockchain_watcher.Accounts.Import.{
  after_batch, unless_stopped, Services, Processed, Progress, going, returned, panicked, unfinished,
}
use go_blockchain_watcher.Accounts.Import.Originals.{process_original_accounts}
use go_blockchain_watcher.Accounts.Import.Derived.{process_currencies, is_unadded}

abbrev pub batch_size : ℕ
batch_size = 10

abbrev pub add_present : {A : Type 0} → A → Option (List A) → Option (List A)
add_present x none = none
add_present x (some xs) = some (x ∷ xs)

-- The accounts, none of which is `nil`.
abbrev pub all_present : {A : Type 0} → List (Option A) → Option (List A)
all_present [] = some []
all_present (none ∷ xs) = none
all_present (some x ∷ xs) = add_present x (all_present xs)

-- The recovery from a panic; `none` is an import that ran out of fuel.
abbrev pub recovered :
    {ObjectId : Type 0} → Progress ObjectId → Option (List ObjectId × Option Error)
recovered (going ids) = some (ids, none)
recovered (returned ids e) = some (ids, e)
recovered panicked = some ([], none)
recovered unfinished = none

-- The guards on the first account and on the two services that the source compares with `nil`: no
-- user, has the repository of supported currencies, has the blockchain service.
abbrev pub refusal : Bool → Bool → Bool → Option Error
refusal true has_supported has_service = some (errors_new "first account has no user ID")
refusal false false has_service = some (errors_new "supportedCurrencyRepo is not initialized")
refusal false true false = some (errors_new "blockchainService is not initialized")
refusal false true true = none

module _ {ObjectId S : Type 0} (nil_id : ObjectId) (is_zero : ObjectId → Bool)
    (same : ObjectId → ObjectId → Bool) (world : World ObjectId S)
    (services : Services ObjectId S) where
  open services use {supported_batch}

  -- `count` is the number of accounts of the call, `originals` are its accounts.
  abbrev pub process_batch :
      ℕ
      → List (Account ObjectId)
      → (ℕ → List ObjectId → S → Progress ObjectId × S)
      → ℕ
      → List ObjectId
      → Result (List (SupportedCurrency ObjectId)) × S
      → Progress ObjectId × S
  process_batch count originals next processed ids (err e, s) = (returned ids (some e), s)
  process_batch count originals next processed ids (ok [], s) = (returned ids none, s)
  process_batch count originals next processed ids (ok (c ∷ cs), s) =
      after_batch next (processed + length (c ∷ cs)) (
        process_currencies nil_id is_zero same world services count originals 0
          (select (is_unadded nil_id is_zero same world services originals) (c ∷ cs)) ids s)

  abbrev pub next_batch :
      ℕ
      → List (Account ObjectId)
      → (ℕ → List ObjectId → S → Progress ObjectId × S)
      → ℕ
      → List ObjectId
      → Option Error
      → S
      → Progress ObjectId × S
  next_batch count originals next processed ids (some e) s = (returned ids (some e), s)
  next_batch count originals next processed ids none s =
      process_batch count originals next processed ids (supported_batch batch_size processed s)

  unfoldable pub process_batches :
      ℕ → ℕ → List (Account ObjectId) → ℕ → List ObjectId → S → Progress ObjectId × S
  process_batches zero count originals processed ids s = (unfinished, s)
  process_batches (suc fuel) count originals processed ids s =
      next_batch count originals (process_batches fuel count originals) processed ids
        (world.context_error s) s

  -- The part after the accounts of the list were saved.
  unfoldable pub import_batches :
      ℕ → ℕ → Option (List (Account ObjectId)) → List ObjectId → S → Progress ObjectId × S
  unfolding process_batches
  import_batches fuel count none ids s = (panicked, s)
  import_batches fuel count (some originals) ids s = process_batches fuel count originals 0 ids s

  unfoldable pub import_saved : ℕ → ℕ → Processed ObjectId × S → Progress ObjectId × S
  unfolding import_batches
  import_saved fuel count (r, s) =
      unless_stopped r.failure r.ids (import_batches fuel count (all_present r.accounts) r.ids s) s

  unfoldable pub import_list :
      Bool → Bool → ℕ → List (Option (Account ObjectId)) → S → Progress ObjectId × S
  unfolding import_saved
  import_list has_supported has_service fuel [] s =
      (returned [] (some (errors_new "no accounts to import")), s)
  import_list has_supported has_service fuel (none ∷ rest) s = (panicked, s)
  import_list has_supported has_service fuel (some a ∷ rest) s =
      unless_stopped (refusal (is_zero a.user_id) has_supported has_service) []
        (import_saved fuel (length (some a ∷ rest)) (
          process_original_accounts nil_id is_zero same world services (length (some a ∷ rest))
            (some a ∷ rest) [] s))
        s

  unfoldable pub import_accounts :
      Bool
      → Bool
      → ℕ
      → List (Option (Account ObjectId))
      → S
      → Option (List ObjectId × Option Error) × S
  unfolding import_list
  import_accounts has_supported has_service fuel list s =
      let (r, t) =
        unless_stopped (world.context_error s) []
          (import_list has_supported has_service fuel list s) s in
      (recovered r, t)
