-- ===== src/Accounts/Import/Visits.antt =====
-- One account of the list, and one supported currency, through the repository: the steps of the loops
-- of src/usecases/account_usecase.go.
use go_blockchain_watcher.Prelude.{
  ℕ, ◌≡◌, inl, inr, refl, ap, Bool, true, false, Option, none, some, List, select, nil_of_length,
  arith, ltb,
}
use go_blockchain_watcher.Errors.{
  Result, ok, err, Result-cases, continue, ok-injective, err-ne-ok, Exec, pure, ◌>>=◌,
}
use go_blockchain_watcher.Values.{Float64}
use go_blockchain_watcher.Mongo.{Collection, CollectionLaws}
use go_blockchain_watcher.Currencies.{Currency, Chain, SupportedCurrency}
use go_blockchain_watcher.Accounts.{Account, Document}
use go_blockchain_watcher.Accounts.Adapter.{
  World, account_repository_adapter, duplicates, check_duplicate_account,
}
use go_blockchain_watcher.Accounts.Import.{
  Services, Visit, save, check_duplicate, or_skipped, flatten, result_or_none,
}
use go_blockchain_watcher.Accounts.Import.Originals.{
  process_original, prepare, with_times, save_unless,
}
use go_blockchain_watcher.Accounts.Import.Derived.{
  create_unless, derive, derived_account, fetch_balance, visit, visit_account, supported_account,
}
use go_blockchain_watcher.Accounts.Import.Quiet.{
  continue-Quiet, LeavesAccounts, prepare-Quiet, fetch_balance-Quiet,
}
use go_blockchain_watcher.Accounts.Import.Steps.{
  over_collection, FreshAccount, Kept, AfterSave, AfterCreate, AfterVisit, quiet_all,
  save_unless-AfterSave, save-AfterCreate,
}

module _ {ObjectId S : Type 0} (nil_id : ObjectId) (is_zero : ObjectId → Bool)
    (same : ObjectId → ObjectId → Bool) (world : World ObjectId S) (others : Services ObjectId S)
    (accounts : Collection (Document ObjectId) S) (docs : S → List (Document ObjectId))
    (laws : CollectionLaws accounts docs) (quiet : LeavesAccounts docs others)
    (Q : List ObjectId → List (Document ObjectId) → Type 0)
    (kept : Kept nil_id is_zero same world others accounts Q) where
  abbrev full : Services ObjectId S
  full = over_collection nil_id is_zero same world others accounts

  abbrev Free : Account ObjectId → List (Document ObjectId) → Type 0
  Free a ds = FreshAccount nil_id is_zero same world others accounts a ds

  abbrev Saved : List ObjectId → Result (Account ObjectId × Option ObjectId) × S → Type 0
  Saved ids p = AfterSave nil_id is_zero same world others accounts docs laws quiet Q kept ids p

  abbrev Visited : List ObjectId → Visit ObjectId × S → Type 0
  Visited ids p = AfterVisit nil_id is_zero same world others accounts docs laws quiet Q kept ids p

  abbrev all_quiet : LeavesAccounts docs full
  all_quiet = quiet_all nil_id is_zero same world others accounts docs laws quiet Q kept

  -- The test for a duplicate reads, and what it does not find is not there.
  check-docs :
      (a : Account ObjectId) (s : S)
      → docs (check_duplicate nil_id is_zero same world full a s).1 ≡ docs s
  unfolding check_duplicate account_repository_adapter check_duplicate_account
  check-docs a s =
      continue-Quiet docs
        (accounts.count_documents
          (duplicates nil_id is_zero same accounts a.wallet_address a.user_id a.chain_id
            a.currency_id)
          s)
        _ s (λ n t. refl)

  check-Free :
      (a : Account ObjectId) (s : S)
      → (check_duplicate nil_id is_zero same world full a s).0 ≡ ok false
      → Free a (docs s)
  unfolding check_duplicate account_repository_adapter check_duplicate_account
  check-Free a s e = elim (Result-cases (accounts.count_documents test s)) [
    | inr (x, f) ↦ absurd (err-ne-ok (rw f at e))
    | inl (n, f) ↦
        let none_counted : ltb 0 n ≡ false = ok-injective (rw f at e) in
        nil_of_length (select test (docs s))
          (ground (arith, laws.count_documents_ok test s n f, none_counted))
  ]
    where
      test : Document ObjectId → Bool
      test =
          duplicates nil_id is_zero same accounts a.wallet_address a.user_id a.chain_id
            a.currency_id

  checked-Saved :
      (count : ℕ) (a : Account ObjectId) (ids : List ObjectId) (r : Result Bool) (t : S)
      → Q ids (docs t)
      → (r ≡ ok false → Free a (docs t))
      → Saved ids (continue r (save_unless nil_id is_zero same world full count a) t)
  checked-Saved count a ids (err e) t q h = q
  checked-Saved count a ids (ok known) t q h =
      save_unless-AfterSave nil_id is_zero same world others accounts docs laws quiet Q kept count a
        ids known t q (λ e. h (ap ok e))

  prepared-Saved :
      (count : ℕ) (ids : List ObjectId) (r : Result (Account ObjectId)) (t : S)
      → Q ids (docs t)
      → Saved ids (
          continue r
            (λ a.
              check_duplicate nil_id is_zero same world full a
              >>= save_unless nil_id is_zero same world full count a)
            t)
  prepared-Saved count ids (err e) t q = q
  prepared-Saved count ids (ok a) t q =
      checked-Saved count a ids (check_duplicate nil_id is_zero same world full a t).0
        (check_duplicate nil_id is_zero same world full a t).1 (rw (check-docs a t) q)
        (λ e. rw (check-docs a t) (check-Free a t e))

  pub process_original-AfterSave :
      (count : ℕ) (a : Account ObjectId) (ids : List ObjectId) (s : S)
      → Q ids (docs s)
      → Saved ids (process_original nil_id is_zero same world full count a s)
  unfolding process_original
  process_original-AfterSave count a ids s q =
      let timed = with_times nil_id is_zero same world full a s in
      prepared-Saved count ids (prepare nil_id is_zero same world full timed s).0
        (prepare nil_id is_zero same world full timed s).1
        (rw (prepare-Quiet nil_id is_zero same world full docs all_quiet timed s) q)

  abbrev ResultVisited : List ObjectId → Result (Visit ObjectId) × S → Type 0
  ResultVisited ids (r, t) = Visited ids (or_skipped r, t)

  -- An error on the way skips the currency.
  bind-Visited :
      {A : Type 0} (ids : List ObjectId) (r : Result A) (f : A → Exec S (Visit ObjectId)) (t : S)
      → Q ids (docs t)
      → ((a : A) → Q ids (docs t) → ResultVisited ids (f a t))
      → ResultVisited ids (continue r f t)
  bind-Visited ids (ok a) f t q h = h a q
  bind-Visited ids (err e) f t q h = q

  created-Visited :
      (ids : List ObjectId) (r : Result (Account ObjectId)) (t : S)
      → AfterCreate nil_id is_zero same world others accounts docs laws quiet Q kept ids (r, t)
      → ResultVisited ids (continue r (λ a. pure (Visit.created a.id)) t)
  created-Visited ids (ok a) t q = q
  created-Visited ids (err e) t q = q

  create_unless-Visited :
      (count : ℕ) (a : Account ObjectId) (ids : List ObjectId) (known : Bool) (s : S)
      → Q ids (docs s)
      → (known ≡ false → Free a (docs s))
      → ResultVisited ids (create_unless nil_id is_zero same world full count a known s)
  unfolding create_unless
  create_unless-Visited count a ids true s q h = q
  create_unless-Visited count a ids false s q h =
      created-Visited ids (save nil_id is_zero same world full count a s).0
        (save nil_id is_zero same world full count a s).1
        (save-AfterCreate nil_id is_zero same world others accounts docs laws quiet Q kept count a
          ids s q (h refl))

  checked-Visited :
      (count : ℕ) (a : Account ObjectId) (ids : List ObjectId) (r : Result Bool) (t : S)
      → Q ids (docs t)
      → (r ≡ ok false → Free a (docs t))
      → ResultVisited ids (continue r (create_unless nil_id is_zero same world full count a) t)
  checked-Visited count a ids (err e) t q h = q
  checked-Visited count a ids (ok known) t q h =
      create_unless-Visited count a ids known t q (λ e. h (ap ok e))

  balance-Visited :
      (count : ℕ) (a : Account ObjectId) (c : SupportedCurrency ObjectId) (ids : List ObjectId)
      (b : Float64) (t : S)
      → Q ids (docs t)
      → ResultVisited ids (
          (check_duplicate nil_id is_zero same world full
                (derived_account nil_id is_zero same world full a c b t)
              >>= create_unless nil_id is_zero same world full count
                  (derived_account nil_id is_zero same world full a c b t))
            t)
  balance-Visited count a c ids b t q =
      let a' = derived_account nil_id is_zero same world full a c b t in
      checked-Visited count a' ids (check_duplicate nil_id is_zero same world full a' t).0
        (check_duplicate nil_id is_zero same world full a' t).1 (rw (check-docs a' t) q)
        (λ e. rw (check-docs a' t) (check-Free a' t e))

  derive-Visited :
      (count : ℕ) (a : Account ObjectId) (c : SupportedCurrency ObjectId)
      (details : Option (SupportedCurrency ObjectId)) (currency : Option (Currency ObjectId))
      (chain : Option (Chain ObjectId)) (ids : List ObjectId) (s : S)
      → Q ids (docs s)
      → ResultVisited ids (derive nil_id is_zero same world full count a c details currency chain s)
  unfolding derive
  derive-Visited count a c details (some currency) (some chain) ids s q =
      let fetched = fetch_balance nil_id is_zero same world full a currency chain details s in
      bind-Visited ids fetched.0 _ fetched.1
        (rw
          (fetch_balance-Quiet nil_id is_zero same world full docs all_quiet a currency chain
            details s)
          q)
        (λ b. balance-Visited count a c ids b fetched.1)
  derive-Visited count a c details none chain ids s q = q
  derive-Visited count a c details (some currency) none ids s q = q

  visit_account-Visited :
      (count : ℕ) (c : SupportedCurrency ObjectId) (found : Option (Account ObjectId))
      (ids : List ObjectId) (s : S)
      → Q ids (docs s)
      → ResultVisited ids (visit_account nil_id is_zero same world full count c found s)
  unfolding visit_account
  visit_account-Visited count c none ids s q = q
  visit_account-Visited count c (some a) ids s q =
      let u = others.currencies c.currency_id s in
      let v = others.chains c.chain_id u.1 in
      let w = others.supported c.id v.1 in
      bind-Visited ids u.0 _ u.1 (rw (quiet.currencies c.currency_id s) q) (λ currency q1.
        bind-Visited ids v.0 _ v.1 (rw (quiet.chains c.chain_id u.1) q1) (λ chain q2.
          bind-Visited ids (result_or_none w.0) _ w.1 (rw (quiet.supported c.id v.1) q2)
            (λ details. derive-Visited count a c (flatten details) currency chain ids w.1)))

  pub visit-AfterVisit :
      (count : ℕ) (originals : List (Account ObjectId)) (c : SupportedCurrency ObjectId)
      (ids : List ObjectId) (s : S)
      → Q ids (docs s)
      → Visited ids (visit nil_id is_zero same world full count originals c s)
  unfolding visit
  visit-AfterVisit count originals c ids s q =
      visit_account-Visited count c (supported_account nil_id is_zero same world full originals c)
        ids s q
