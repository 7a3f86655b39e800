-- ===== src/Accounts/Import/Invariant.antt =====
-- The loops of the import keep what its steps keep: `processOriginalAccounts` and `ImportAccounts` of
-- src/usecases/account_usecase.go.
use go_blockchain_watcher.Prelude.{
  ℕ, zero, suc, ◌+◌, Bool, Option, none, some, List, [], ◌∷◌, ◌++◌, length, select,
}
use go_blockchain_watcher.Errors.{Error, Result, ok, err}
use go_blockchain_watcher.Mongo.{Collection, CollectionLaws}
use go_blockchain_watcher.Currencies.{SupportedCurrency}
use go_blockchain_watcher.Accounts.{Account, Document}
use go_blockchain_watcher.Accounts.Adapter.{World}
use go_blockchain_watcher.Accounts.Import.{
  Services, Processed, Visit, skipped, created, crashed, Progress, going, returned, panicked,
  unfinished, keep, after_original, after_visit, unless_stopped, after_batch, left_after,
}
use go_blockchain_watcher.Accounts.Import.Originals.{
  process_original, each_original, process_original_accounts,
}
use go_blockchain_watcher.Accounts.Import.Derived.{
  process_currencies, visit, chunk_error, is_unadded,
}
use go_blockchain_watcher.Accounts.Import.Batches.{
  batch_size, all_present, recovered, refusal, process_batch, next_batch, process_batches,
  import_batches, import_saved, import_list, import_accounts,
}
use go_blockchain_watcher.Accounts.Import.Quiet.{LeavesAccounts}
use go_blockchain_watcher.Accounts.Import.Steps.{over_collection, Kept, AfterSave, AfterVisit}
use go_blockchain_watcher.Accounts.Import.Visits.{process_original-AfterSave, visit-AfterVisit}

module _ {ObjectId S : Type 0} (nil_id : ObjectId) (is_zero : ObjectId → Bool)
    (same : ObjectId → ObjectId → Bool) (world : World ObjectId S) (others : Services ObjectId S)
    (accounts : Collection (Document ObjectId) S) (docs : S → List (Document ObjectId))
    (laws : CollectionLaws accounts docs) (quiet : LeavesAccounts docs others)
    (Q : List ObjectId → List (Document ObjectId) → Type 0)
    (kept : Kept nil_id is_zero same world others accounts Q) where
  abbrev full : Services ObjectId S
  full = over_collection nil_id is_zero same world others accounts

  abbrev Saved : List ObjectId → Result (Account ObjectId × Option ObjectId) × S → Type 0
  Saved ids p = AfterSave nil_id is_zero same world others accounts docs laws quiet Q kept ids p

  abbrev Visited : List ObjectId → Visit ObjectId × S → Type 0
  Visited ids p = AfterVisit nil_id is_zero same world others accounts docs laws quiet Q kept ids p

  abbrev Held : Processed ObjectId × S → Type 0
  Held (r, t) = Q r.ids (docs t)

  keep-Held :
      (a : Option (Account ObjectId)) (p : Processed ObjectId × S) → Held p → Held (keep a p)
  keep-Held a (r, t) q = q

  after_original-Held :
      (a : Account ObjectId) (rest : List (Option (Account ObjectId)))
      (next : List ObjectId → S → Processed ObjectId × S) (ids : List ObjectId)
      (p : Result (Account ObjectId × Option ObjectId) × S)
      → ((js : List ObjectId) (t : S) → Q js (docs t) → Held (next js t))
      → Saved ids p
      → Held (after_original a rest next ids p)
  after_original-Held a rest next ids (err e, t) h q = q
  after_original-Held a rest next ids (ok (a', none), t) h q =
      keep-Held (some a') (next ids t) (h ids t q)
  after_original-Held a rest next ids (ok (a', some id), t) h q =
      keep-Held (some a') (next (ids ++ id ∷ []) t) (h (ids ++ id ∷ []) t q)

  each_original-Held :
      (count : ℕ) (stop : Option Error) (a : Option (Account ObjectId))
      (rest : List (Option (Account ObjectId))) (next : List ObjectId → S → Processed ObjectId × S)
      (ids : List ObjectId) (s : S)
      → ((js : List ObjectId) (t : S) → Q js (docs t) → Held (next js t))
      → Q ids (docs s)
      → Held (each_original nil_id is_zero same world full count stop a rest next ids s)
  unfolding each_original process_original
  each_original-Held count (some e) a rest next ids s h q = q
  each_original-Held count none none rest next ids s h q = keep-Held none (next ids s) (h ids s q)
  each_original-Held count none (some a) rest next ids s h q =
      after_original-Held a rest next ids
        (process_original nil_id is_zero same world full count a s) h
        (process_original-AfterSave nil_id is_zero same world others accounts docs laws quiet Q kept
          count a ids s q)

  process_original_accounts-Held :
      (count : ℕ) (list : List (Option (Account ObjectId))) (ids : List ObjectId) (s : S)
      → Q ids (docs s)
      → Held (process_original_accounts nil_id is_zero same world full count list ids s)
  unfolding process_original_accounts
  process_original_accounts-Held count [] ids s q = q
  process_original_accounts-Held count (a ∷ rest) ids s q =
      each_original-Held count (world.context_error s) a rest
        (process_original_accounts nil_id is_zero same world full count rest) ids s
        (process_original_accounts-Held count rest) q

  abbrev HeldSoFar : Progress ObjectId × S → Type 0
  HeldSoFar (going ids, t) = Q ids (docs t)
  HeldSoFar (returned ids e, t) = Q ids (docs t)
  HeldSoFar (panicked, t) = Q [] (docs t)
  HeldSoFar (unfinished, t) = Q [] (docs t)

  unless_stopped-HeldSoFar :
      (stop : Option Error) (ids : List ObjectId) (next : Progress ObjectId × S) (s : S)
      → HeldSoFar next
      → Q ids (docs s)
      → HeldSoFar (unless_stopped stop ids next s)
  unless_stopped-HeldSoFar none ids next s h q = h
  unless_stopped-HeldSoFar (some e) ids next s h q = q

  after_visit-HeldSoFar :
      (next : List ObjectId → S → Progress ObjectId × S) (ids : List ObjectId)
      (p : Visit ObjectId × S)
      → ((js : List ObjectId) (t : S) → Q js (docs t) → HeldSoFar (next js t))
      → Visited ids p
      → HeldSoFar (after_visit next ids p)
  after_visit-HeldSoFar next ids (skipped, t) h q = h ids t q
  after_visit-HeldSoFar next ids (created id, t) h q = h (ids ++ id ∷ []) t q
  after_visit-HeldSoFar next ids (crashed, t) h q = kept.forget ids (docs t) q

  process_currencies-HeldSoFar :
      (count : ℕ) (originals : List (Account ObjectId)) (left : ℕ)
      (cs : List (SupportedCurrency ObjectId)) (ids : List ObjectId) (s : S)
      → Q ids (docs s)
      → HeldSoFar (process_currencies nil_id is_zero same world full count originals left cs ids s)
  unfolding process_currencies
  process_currencies-HeldSoFar count originals left [] ids s q = q
  process_currencies-HeldSoFar count originals left (c ∷ cs) ids s q =
      let next =
        process_currencies nil_id is_zero same world full count originals (left_after left) cs in
      let seen = visit nil_id is_zero same world full count originals c s in
      unless_stopped-HeldSoFar (chunk_error nil_id is_zero same world full left s) ids
        (after_visit next ids seen) s
        (after_visit-HeldSoFar next ids seen
          (process_currencies-HeldSoFar count originals (left_after left) cs)
          (visit-AfterVisit nil_id is_zero same world others accounts docs laws quiet Q kept count
            originals c ids s q))
        q

  after_batch-HeldSoFar :
      (next : ℕ → List ObjectId → S → Progress ObjectId × S) (processed : ℕ)
      (p : Progress ObjectId × S)
      → ((js : List ObjectId) (t : S) → Q js (docs t) → HeldSoFar (next processed js t))
      → HeldSoFar p
      → HeldSoFar (after_batch next processed p)
  after_batch-HeldSoFar next processed (going ids, t) h q = h ids t q
  after_batch-HeldSoFar next processed (returned ids e, t) h q = q
  after_batch-HeldSoFar next processed (panicked, t) h q = q
  after_batch-HeldSoFar next processed (unfinished, t) h q = q

  process_batch-HeldSoFar :
      (count : ℕ) (originals : List (Account ObjectId))
      (next : ℕ → List ObjectId → S → Progress ObjectId × S) (processed : ℕ) (ids : List ObjectId)
      (r : Result (List (SupportedCurrency ObjectId))) (t : S)
      → ((n : ℕ) (js : List ObjectId) (u : S) → Q js (docs u) → HeldSoFar (next n js u))
      → Q ids (docs t)
      → HeldSoFar
          (process_batch nil_id is_zero same world full count originals next processed ids (r, t))
  process_batch-HeldSoFar count originals next processed ids (err e) t h q = q
  process_batch-HeldSoFar count originals next processed ids (ok []) t h q = q
  process_batch-HeldSoFar count originals next processed ids (ok (c ∷ cs)) t h q =
      let unadded = select (is_unadded nil_id is_zero same world full originals) (c ∷ cs) in
      after_batch-HeldSoFar next (processed + length (c ∷ cs))
        (process_currencies nil_id is_zero same world full count originals 0 unadded ids t)
        (h (processed + length (c ∷ cs)))
        (process_currencies-HeldSoFar count originals 0 unadded ids t q)

  next_batch-HeldSoFar :
      (count : ℕ) (originals : List (Account ObjectId))
      (next : ℕ → List ObjectId → S → Progress ObjectId × S) (processed : ℕ) (ids : List ObjectId)
      (stop : Option Error) (s : S)
      → ((n : ℕ) (js : List ObjectId) (u : S) → Q js (docs u) → HeldSoFar (next n js u))
      → Q ids (docs s)
      → HeldSoFar
          (next_batch nil_id is_zero same world full count originals next processed ids stop s)
  next_batch-HeldSoFar count originals next processed ids (some e) s h q = q
  next_batch-HeldSoFar count originals next processed ids none s h q =
      let batch = others.supported_batch batch_size processed s in
      process_batch-HeldSoFar count originals next processed ids batch.0 batch.1 h
        (rw (quiet.supported_batch batch_size processed s) q)

  process_batches-HeldSoFar :
      (fuel count : ℕ) (originals : List (Account ObjectId)) (processed : ℕ) (ids : List ObjectId)
      (s : S)
      → Q ids (docs s)
      → HeldSoFar
          (process_batches nil_id is_zero same world full fuel count originals processed ids s)
  unfolding process_batches
  process_batches-HeldSoFar zero count originals processed ids s q = kept.forget ids (docs s) q
  process_batches-HeldSoFar (suc fuel) count originals processed ids s q =
      next_batch-HeldSoFar count originals
        (process_batches nil_id is_zero same world full fuel count originals) processed ids
        (world.context_error s) s (process_batches-HeldSoFar fuel count originals) q

  import_batches-HeldSoFar :
      (fuel count : ℕ) (list : Option (List (Account ObjectId))) (ids : List ObjectId) (s : S)
      → Q ids (docs s)
      → HeldSoFar (import_batches nil_id is_zero same world full fuel count list ids s)
  unfolding import_batches
  import_batches-HeldSoFar fuel count none ids s q = kept.forget ids (docs s) q
  import_batches-HeldSoFar fuel count (some originals) ids s q =
      process_batches-HeldSoFar fuel count originals 0 ids s q

  import_saved-HeldSoFar :
      (fuel count : ℕ) (p : Processed ObjectId × S)
      → Held p
      → HeldSoFar (import_saved nil_id is_zero same world full fuel count p)
  unfolding import_saved
  import_saved-HeldSoFar fuel count (r, s) q =
      unless_stopped-HeldSoFar r.failure r.ids
        (import_batches nil_id is_zero same world full fuel count (all_present r.accounts) r.ids s)
        s (import_batches-HeldSoFar fuel count (all_present r.accounts) r.ids s q) q

  import_list-HeldSoFar :
      (has_supported has_service : Bool) (fuel : ℕ) (list : List (Option (Account ObjectId)))
      (s : S)
      → Q [] (docs s)
      → HeldSoFar (import_list nil_id is_zero same world full has_supported has_service fuel list s)
  unfolding import_list
  import_list-HeldSoFar has_supported has_service fuel [] s q = q
  import_list-HeldSoFar has_supported has_service fuel (none ∷ rest) s q = q
  import_list-HeldSoFar has_supported has_service fuel (some a ∷ rest) s q =
      let list : List (Option (Account ObjectId)) = some a ∷ rest in
      let saved =
        process_original_accounts nil_id is_zero same world full (length list) list [] s in
      unless_stopped-HeldSoFar (refusal (is_zero a.user_id) has_supported has_service) []
        (import_saved nil_id is_zero same world full fuel (length list) saved) s
        (import_saved-HeldSoFar fuel (length list) saved
          (process_original_accounts-Held (length list) list [] s q))
        q

  -- The IDs that an import has returned, and the documents that it leaves.
  abbrev pub AfterImport : Option (List ObjectId × Option Error) × S → Type 0
  AfterImport (none, t) = Q [] (docs t)
  AfterImport (some (ids, e), t) = Q ids (docs t)

  recovered-AfterImport :
      (p : Progress ObjectId × S) → HeldSoFar p → AfterImport (recovered p.0, p.1)
  recovered-AfterImport (going ids, t) q = q
  recovered-AfterImport (returned ids e, t) q = q
  recovered-AfterImport (panicked, t) q = q
  recovered-AfterImport (unfinished, t) q = q

  pub import_accounts-AfterImport :
      (has_supported has_service : Bool) (fuel : ℕ) (list : List (Option (Account ObjectId)))
      (s : S)
      → Q [] (docs s)
      → AfterImport
          (import_accounts nil_id is_zero same world full has_supported has_service fuel list s)
  unfolding import_accounts
  import_accounts-AfterImport has_supported has_service fuel list s q =
      let rest = import_list nil_id is_zero same world full has_supported has_service fuel list s in
      recovered-AfterImport (unless_stopped (world.context_error s) [] rest s) (
        unless_stopped-HeldSoFar (world.context_error s) [] rest s
          (import_list-HeldSoFar has_supported has_service fuel list s q) q)
