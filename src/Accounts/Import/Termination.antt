-- ===== src/Accounts/Import/Termination.antt =====
-- The loop over the batches ends: `ImportAccounts` of src/usecases/account_usecase.go with `GetBatch`
-- of src/adapters/supported_currency_adapter.go.
use go_blockchain_watcher.Prelude.{
  ℕ, zero, suc, ◌+◌, ◌-◌, ◌<◌, ◌≤◌, ◌≡◌, ◌≢◌, refl, ap, Bool, Option, none, some, List, [], ◌∷◌,
  ◌++◌, length, arith, sym, ◌∙◌, inl, inr, Bool-cases, leb,
}
use go_blockchain_watcher.Errors.{Error, Result, ok, err, Result-cases, err-ne-ok}
use go_blockchain_watcher.Values.{pos}
use go_blockchain_watcher.Currencies.{SupportedCurrency}
use go_blockchain_watcher.Currencies.Reads.{get_batch, or_panic}
use go_blockchain_watcher.Currencies.Pages.{page_outside}
use go_blockchain_watcher.Accounts.{Account}
use go_blockchain_watcher.Accounts.Adapter.{World}
use go_blockchain_watcher.Accounts.Import.{
  after_visit, unless_stopped, left_after, after_batch, Services, Processed, Visit, skipped,
  created, crashed, Progress, going, returned, panicked, unfinished,
}
use go_blockchain_watcher.Accounts.Import.Originals.{process_original_accounts}
use go_blockchain_watcher.Accounts.Import.Derived.{process_currencies, visit, chunk_error}
use go_blockchain_watcher.Accounts.Import.Batches.{
  batch_size, all_present, recovered, process_batch, next_batch, refusal, process_batches,
  import_batches, import_saved, import_list, import_accounts,
}

abbrev Finished : {ObjectId : Type 0} → Progress ObjectId → Type 0
Finished unfinished = ⊥
Finished _ = Unit

module _ {ObjectId S : Type 0} (nil_id : ObjectId) (is_zero : ObjectId → Bool)
    (same : ObjectId → ObjectId → Bool) (world : World ObjectId S)
    (services : Services ObjectId S) where
  unless_stopped-Finished :
      (o : Option Error) (ids : List ObjectId) (next : Progress ObjectId × S) (s : S)
      → Finished next.0
      → Finished (unless_stopped o ids next s).0
  unless_stopped-Finished none ids next s h = h
  unless_stopped-Finished (some e) ids next s h = tt

  after_visit-Finished :
      (next : List ObjectId → S → Progress ObjectId × S) (ids : List ObjectId)
      (v : Visit ObjectId × S)
      → ((js : List ObjectId) (t : S) → Finished (next js t).0)
      → Finished (after_visit next ids v).0
  after_visit-Finished next ids (skipped, s) h = h ids s
  after_visit-Finished next ids (created id, s) h = h (ids ++ id ∷ []) s
  after_visit-Finished next ids (crashed, s) h = tt

  process_currencies-Finished :
      (count : ℕ) (originals : List (Account ObjectId)) (left : ℕ)
      (cs : List (SupportedCurrency ObjectId)) (ids : List ObjectId) (s : S)
      → Finished
          (process_currencies nil_id is_zero same world services count originals left cs ids s).0
  unfolding process_currencies
  process_currencies-Finished count originals left [] ids s = tt
  process_currencies-Finished count originals left (c ∷ cs) ids s =
      unless_stopped-Finished (chunk_error nil_id is_zero same world services left s) ids _ s (
        after_visit-Finished
          (process_currencies nil_id is_zero same world services count originals (left_after left)
            cs)
          ids (visit nil_id is_zero same world services count originals c s)
          (process_currencies-Finished count originals (left_after left) cs))

  after_batch-Finished :
      (next : ℕ → List ObjectId → S → Progress ObjectId × S) (processed : ℕ)
      (p : Progress ObjectId × S)
      → ((js : List ObjectId) (t : S) → Finished (next processed js t).0)
      → Finished p.0
      → Finished (after_batch next processed p).0
  after_batch-Finished next processed (going ids, s) h k = h ids s
  after_batch-Finished next processed (returned ids e, s) h k = tt
  after_batch-Finished next processed (panicked, s) h k = tt
  after_batch-Finished next processed (unfinished, s) h k = k

  process_batch-Finished :
      (count : ℕ) (originals : List (Account ObjectId))
      (next : ℕ → List ObjectId → S → Progress ObjectId × S) (processed : ℕ) (ids : List ObjectId)
      (r : Result (List (SupportedCurrency ObjectId))) (s : S)
      → ((c : SupportedCurrency ObjectId) (cs : List (SupportedCurrency ObjectId))
          → r ≡ ok (c ∷ cs)
          → (js : List ObjectId) (t : S) → Finished (next (processed + length (c ∷ cs)) js t).0)
      → Finished
          (process_batch nil_id is_zero same world services count originals next processed ids
            (r, s)).0
  process_batch-Finished count originals next processed ids (err e) s h = tt
  process_batch-Finished count originals next processed ids (ok []) s h = tt
  process_batch-Finished count originals next processed ids (ok (c ∷ cs)) s h =
      after_batch-Finished next (processed + length (c ∷ cs)) _ (h c cs refl)
        (process_currencies-Finished count originals 0 _ ids s)

  next_batch-Finished :
      (count : ℕ) (originals : List (Account ObjectId))
      (next : ℕ → List ObjectId → S → Progress ObjectId × S) (processed : ℕ) (ids : List ObjectId)
      (stop : Option Error) (s : S)
      → ((c : SupportedCurrency ObjectId) (cs : List (SupportedCurrency ObjectId))
          → (services.supported_batch batch_size processed s).0 ≡ ok (c ∷ cs)
          → (js : List ObjectId) (t : S) → Finished (next (processed + length (c ∷ cs)) js t).0)
      → Finished
          (next_batch nil_id is_zero same world services count originals next processed ids stop
            s).0
  next_batch-Finished count originals next processed ids (some e) s h = tt
  next_batch-Finished count originals next processed ids none s h =
      process_batch-Finished count originals next processed ids
        (services.supported_batch batch_size processed s).0
        (services.supported_batch batch_size processed s).1 h

  -- `find` is the driver's `Find` of all supported currencies, and `most` a number that is never
  -- exceeded. `GetBatch` is called with a limit of 10 and the number of the currencies that were
  -- processed; `paged` says what it gives when it does not panic.
  module _ (find : S → Result (List (SupportedCurrency ObjectId))) (most : ℕ)
      (paged : (skip : ℕ) (s : S) (r : Result (List (SupportedCurrency ObjectId)))
        → (get_batch find (pos batch_size) (pos skip) s).0 ≡ some r
        → (services.supported_batch batch_size skip s).0 ≡ r)
      (bounded : (s : S) (cs : List (SupportedCurrency ObjectId))
        → find s ≡ ok cs
        → length cs ≤ most) where
    batch_inside :
        (processed : ℕ) (s : S) (c : SupportedCurrency ObjectId)
        (cs : List (SupportedCurrency ObjectId))
        → (services.supported_batch batch_size processed s).0 ≡ ok (c ∷ cs)
        → processed < most
    unfolding get_batch
    batch_inside processed s c cs h = elim (Result-cases (find s)) [
      | inr (e, f) ↦ absurd (err-ne-ok (sym (paged processed s (err e) (rw f refl)) ∙ h))
      | inl (all, f) ↦ elim (Bool-cases (leb (length all) processed)) [
        | inr inside ↦ ground (arith, inside, bounded s all f)
        | inl outside ↦
            let nothing = paged processed s (ok []) (
              rw f (
                ap or_panic
                  (page_outside (pos batch_size) processed all (ground (arith, outside))))) in
            let e : ok [] ≡ ok (c ∷ cs) = sym nothing ∙ h in ground (arith, e)
      ]
    ]

    process_batches-Finished :
        (fuel count : ℕ) (originals : List (Account ObjectId)) (processed : ℕ) (ids : List ObjectId)
        (s : S)
        → most - processed < fuel
        → Finished
            (process_batches nil_id is_zero same world services fuel count originals processed ids
              s).0
    unfolding process_batches
    process_batches-Finished zero count originals processed ids s h = absurd (omega arith)
    process_batches-Finished (suc fuel) count originals processed ids s h =
        next_batch-Finished count originals
          (process_batches nil_id is_zero same world services fuel count originals) processed ids
          (world.context_error s) s
          (λ c cs e js t.
            let inside = batch_inside processed s c cs e in
            process_batches-Finished fuel count originals (processed + length (c ∷ cs)) js t
              (omega (arith, inside)))

    import_batches-Finished :
        (fuel count : ℕ) (list : Option (List (Account ObjectId))) (ids : List ObjectId) (s : S)
        → most < fuel
        → Finished (import_batches nil_id is_zero same world services fuel count list ids s).0
    unfolding import_batches
    import_batches-Finished fuel count none ids s h = tt
    import_batches-Finished fuel count (some originals) ids s h =
        process_batches-Finished fuel count originals 0 ids s (omega arith)

    import_saved-Finished :
        (fuel count : ℕ) (p : Processed ObjectId × S)
        → most < fuel
        → Finished (import_saved nil_id is_zero same world services fuel count p).0
    unfolding import_saved
    import_saved-Finished fuel count (r, s) h =
        unless_stopped-Finished r.failure r.ids _ s
          (import_batches-Finished fuel count (all_present r.accounts) r.ids s h)

    import_list-Finished :
        (has_supported has_service : Bool) (fuel : ℕ) (list : List (Option (Account ObjectId)))
        (s : S)
        → most < fuel
        → Finished
            (import_list nil_id is_zero same world services has_supported has_service fuel list s).0
    unfolding import_list
    import_list-Finished has_supported has_service fuel [] s h = tt
    import_list-Finished has_supported has_service fuel (none ∷ rest) s h = tt
    import_list-Finished has_supported has_service fuel (some a ∷ rest) s h =
        unless_stopped-Finished (refusal (is_zero a.user_id) has_supported has_service) [] _ s (
          import_saved-Finished fuel (length (some a ∷ rest))
            (process_original_accounts nil_id is_zero same world services (length (some a ∷ rest))
              (some a ∷ rest) [] s)
            h)

    recovered-Finished : (p : Progress ObjectId) → Finished p → recovered p ≢ none
    recovered-Finished (going ids) h e = cc
    recovered-Finished (returned ids x) h e = cc
    recovered-Finished panicked h e = cc
    recovered-Finished unfinished h e = h

    -- When `GetBatch`, if it does not panic, gives the pages of what the driver finds, and the driver never finds more than
    -- `most` supported currencies, the loop of `ImportAccounts` ends within `most + 1` rounds: with more
    -- fuel than `most` the import returns, whatever the accounts, the context, the store, the answers
    -- of the other services and the changes that others make to the currencies meanwhile.
    pub import_accounts_returns :
        (has_supported has_service : Bool) (fuel : ℕ) (list : List (Option (Account ObjectId)))
        (s : S)
        → most < fuel
        → (import_accounts nil_id is_zero same world services has_supported has_service fuel list
            s).0
          ≢ none
    unfolding import_accounts
    import_accounts_returns has_supported has_service fuel list s h = recovered-Finished _ (
        unless_stopped-Finished (world.context_error s) []
          (import_list nil_id is_zero same world services has_supported has_service fuel list s) s
          (import_list-Finished has_supported has_service fuel list s h))
