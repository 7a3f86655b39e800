-- ===== src/Accounts/Import/NilAccounts.antt =====
-- A `nil` among the accounts of an import (src/usecases/account_usecase.go): the first loop passes over
-- it, and the map of the existing accounts dereferences it.
use go_blockchain_watcher.Prelude.{
  ℕ, ◌≡◌, refl, ap, Bool, true, false, Option, none, some, List, [], ◌∷◌, ◌++◌, length,
}
use go_blockchain_watcher.Errors.{Error, Result, ok, err}
use go_blockchain_watcher.Accounts.{Account}
use go_blockchain_watcher.Accounts.Adapter.{World}
use go_blockchain_watcher.Accounts.Import.{
  Services, Processed, keep, after_original, Progress, panicked,
}
use go_blockchain_watcher.Accounts.Import.Originals.{
  process_original, each_original, process_original_accounts,
}
use go_blockchain_watcher.Accounts.Import.Batches.{
  all_present, add_present, recovered, import_batches, import_saved, import_list, import_accounts,
}

module _ {ObjectId S : Type 0} (nil_id : ObjectId) (is_zero : ObjectId → Bool)
    (same : ObjectId → ObjectId → Bool) (world : World ObjectId S)
    (services : Services ObjectId S) where
  abbrev Accounts : Type 0
  Accounts = List (Option (Account ObjectId))

  abbrev pub has_nil : Accounts → Bool
  has_nil [] = false
  has_nil (none ∷ rest) = true
  has_nil (some a ∷ rest) = has_nil rest

  -- Without a failure, a `nil` of the list is still in it after the first loop.
  abbrev Lost : Processed ObjectId × S → Type 0
  Lost p = p.0.failure ≡ none → all_present p.0.accounts ≡ none

  keep-Lost :
      (a : Option (Account ObjectId)) (p : Processed ObjectId × S) → Lost p → Lost (keep a p)
  keep-Lost none (r, t) h e = refl
  keep-Lost (some a) (r, t) h e = ap (add_present a) (h e)

  after_original-Lost :
      (a : Account ObjectId) (rest : Accounts) (next : List ObjectId → S → Processed ObjectId × S)
      (ids : List ObjectId) (p : Result (Account ObjectId × Option ObjectId) × S)
      → ((js : List ObjectId) (t : S) → Lost (next js t))
      → Lost (after_original a rest next ids p)
  after_original-Lost a rest next ids (err x, t) h e = absurd (cc)
  after_original-Lost a rest next ids (ok (a', none), t) h e =
      keep-Lost (some a') (next ids t) (h ids t) e
  after_original-Lost a rest next ids (ok (a', some id), t) h e =
      keep-Lost (some a') (next (ids ++ id ∷ []) t) (h (ids ++ id ∷ []) t) e

  nil_each :
      (count : ℕ) (stop : Option Error) (rest : Accounts)
      (next : List ObjectId → S → Processed ObjectId × S) (ids : List ObjectId) (s : S)
      → Lost (each_original nil_id is_zero same world services count stop none rest next ids s)
  unfolding each_original
  nil_each count (some x) rest next ids s e = refl
  nil_each count none rest next ids s e = keep_nil (next ids s) e
    where
      keep_nil : (p : Processed ObjectId × S) → Lost (keep none p)
      keep_nil (r, t) e' = refl

  each_original-Lost :
      (count : ℕ) (stop : Option Error) (a : Account ObjectId) (rest : Accounts)
      (next : List ObjectId → S → Processed ObjectId × S) (ids : List ObjectId) (s : S)
      → ((js : List ObjectId) (t : S) → Lost (next js t))
      → Lost (each_original nil_id is_zero same world services count stop (some a) rest next ids s)
  unfolding each_original
  each_original-Lost count (some x) a rest next ids s h e = absurd (cc)
  each_original-Lost count none a rest next ids s h e =
      after_original-Lost a rest next ids
        (process_original nil_id is_zero same world services count a s) h e

  process_original_accounts-Lost :
      (count : ℕ) (list : Accounts) (ids : List ObjectId) (s : S)
      → has_nil list ≡ true
      → Lost (process_original_accounts nil_id is_zero same world services count list ids s)
  unfolding process_original_accounts
  process_original_accounts-Lost count [] ids s h = absurd (cc)
  process_original_accounts-Lost count (none ∷ rest) ids s h =
      nil_each count (world.context_error s) rest
        (process_original_accounts nil_id is_zero same world services count rest) ids s
  process_original_accounts-Lost count (some a ∷ rest) ids s h =
      each_original-Lost count (world.context_error s) a rest
        (process_original_accounts nil_id is_zero same world services count rest) ids s
        (λ js t. process_original_accounts-Lost count rest js t h)

  saved_lost :
      (fuel count : ℕ) (p : Processed ObjectId × S)
      → p.0.failure ≡ none
      → all_present p.0.accounts ≡ none
      → import_saved nil_id is_zero same world services fuel count p ≡ (panicked, p.1)
  unfolding import_saved import_batches
  saved_lost fuel count (r, t) e l = rw e (rw l refl)

  -- `ImportAccounts` of a list that begins with an account with a user and has a `nil` after it: when
  -- the context goes on, both services are there, and the loop over the list ends without an error,
  -- then, whatever accounts that loop has stored, the import returns no IDs and no error, and adds no
  -- further account.
  pub import_accounts_loses_ids :
      (fuel : ℕ) (a : Account ObjectId) (rest : Accounts) (s : S)
      → world.context_error s ≡ none
      → is_zero a.user_id ≡ false
      → has_nil rest ≡ true
      → (process_original_accounts nil_id is_zero same world services
          (length (some a ∷ rest))
          (some a ∷ rest)
          []
          s).0.failure
        ≡ none
      → import_accounts nil_id is_zero same world services true true fuel (some a ∷ rest) s ≡ (
        some ([], none),
        (process_original_accounts nil_id is_zero same world services
            (length (some a ∷ rest))
            (some a ∷ rest)
            []
            s).1,
      )
  unfolding import_accounts import_list
  import_accounts_loses_ids fuel a rest s going_on user has_one done =
      let list : Accounts = some a ∷ rest in
      let saved =
        process_original_accounts nil_id is_zero same world services (length list) list [] s in
      rw going_on (
        rw user (
          ap (λ (p : Progress ObjectId × S). (recovered p.0, p.1))
            (saved_lost fuel (length list) saved done
              (process_original_accounts-Lost (length list) list [] s has_one done))))
