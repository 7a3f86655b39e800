-- ===== src/Accounts/Import/Steps.antt =====
-- One account of the import, through the repository of config/mongodb/repositories.go and its adapter:
-- what the steps of src/usecases/account_usecase.go do to the collection of the accounts.
use go_blockchain_watcher.Prelude.{
  ℕ, String, ◌≡◌, inl, inr, refl, subst, Bool, true, false, Option, none, some, List, [], ◌∷◌, ◌++◌,
  select, Bool-cases,
}
use go_blockchain_watcher.Errors.{
  Result, ok, err, Result-cases, continue, ok-injective, pure, ◌>>=◌,
}
use go_blockchain_watcher.Values.{Float64}
use go_blockchain_watcher.Mongo.{Collection, CollectionLaws}
use go_blockchain_watcher.Accounts.{Account, Document}
use go_blockchain_watcher.Accounts.Adapter.{
  World, account_repository_adapter, duplicates, inserted, duplicate_key,
  convert_account_domain_to_model,
}
use go_blockchain_watcher.Accounts.Import.{
  Services, Visit, skipped, created, crashed, save, result_or_none,
}
use go_blockchain_watcher.Accounts.Import.Originals.{
  save_unless, fetch_original, with_balance, should_fetch_balance, original_balance,
}
use go_blockchain_watcher.Accounts.Import.Quiet.{LeavesAccounts, fetch_original-Quiet}

module _ {ObjectId S : Type 0} (nil_id : ObjectId) (is_zero : ObjectId → Bool)
    (same : ObjectId → ObjectId → Bool) (world : World ObjectId S) (others : Services ObjectId S)
    (accounts : Collection (Document ObjectId) S) where
  -- The services, with the repository over the collection.
  abbrev pub over_collection : Services ObjectId S
  over_collection = record others {
    accounts = account_repository_adapter nil_id is_zero same accounts world;
  }

  -- `CheckDuplicateAccount` would find nothing.
  abbrev pub Fresh : String → ObjectId → ObjectId → ObjectId → List (Document ObjectId) → Type 0
  Fresh address user_id chain_id currency_id ds =
      select (duplicates nil_id is_zero same accounts address user_id chain_id currency_id) ds ≡ []

  abbrev pub FreshDocument : Document ObjectId → List (Document ObjectId) → Type 0
  FreshDocument d ds = Fresh d.wallet_address d.user_id d.chain_id d.currency_id ds

  abbrev pub FreshAccount : Account ObjectId → List (Document ObjectId) → Type 0
  FreshAccount a ds = Fresh a.wallet_address a.user_id a.chain_id a.currency_id ds

  -- A property of the returned IDs and the stored documents that an insert of a fresh document keeps,
  -- with its ID returned or, after an error, not, and that does not depend on what was returned.
  pub record Kept (Q : List ObjectId → List (Document ObjectId) → Type 0) : Type 0 where
    pub forget : (ids : List ObjectId) (ds : List (Document ObjectId)) → Q ids ds → Q [] ds
    pub add :
        (ids : List ObjectId) (ds : List (Document ObjectId)) (d : Document ObjectId)
        → Q ids ds
        → FreshDocument d ds
        → Q ids (ds ++ d ∷ [])
    pub add_id :
        (ids : List ObjectId) (ds : List (Document ObjectId)) (d : Document ObjectId)
        → Q ids ds
        → FreshDocument d ds
        → Q (ids ++ d.id ∷ []) (ds ++ d ∷ [])

  module _ (docs : S → List (Document ObjectId)) (laws : CollectionLaws accounts docs)
      (quiet : LeavesAccounts docs others) (Q : List ObjectId → List (Document ObjectId) → Type 0)
      (kept : Kept Q) where
    abbrev pub AfterSave : List ObjectId → Result (Account ObjectId × Option ObjectId) × S → Type 0
    AfterSave ids (err e, t) = Q ids (docs t)
    AfterSave ids (ok (a, none), t) = Q ids (docs t)
    AfterSave ids (ok (a, some id), t) = Q (ids ++ id ∷ []) (docs t)

    abbrev pub AfterCreate : List ObjectId → Result (Account ObjectId) × S → Type 0
    AfterCreate ids (err e, t) = Q ids (docs t)
    AfterCreate ids (ok a, t) = Q (ids ++ a.id ∷ []) (docs t)

    abbrev pub AfterVisit : List ObjectId → Visit ObjectId × S → Type 0
    AfterVisit ids (skipped, t) = Q ids (docs t)
    AfterVisit ids (created id, t) = Q (ids ++ id ∷ []) (docs t)
    AfterVisit ids (crashed, t) = Q ids (docs t)

    insert_any :
        (ids : List ObjectId) (d : Document ObjectId) (s : S)
        → Q ids (docs s)
        → FreshDocument d (docs s)
        → Q ids (docs (accounts.insert_one d s).1)
    insert_any ids d s q fresh = elim (laws.insert_one_any d s) [
      | inl e ↦ rw e q
      | inr e ↦ rw e (kept.add ids (docs s) d q fresh)
    ]

    abbrev document : Account ObjectId → S → Document ObjectId
    unfolding inserted convert_account_domain_to_model
    document a s =
        inserted nil_id is_zero same accounts (world.new_object_id s) (world.now s)
          (convert_account_domain_to_model nil_id a)

    pub save-AfterCreate :
        (count : ℕ) (a : Account ObjectId) (ids : List ObjectId) (s : S)
        → Q ids (docs s)
        → FreshAccount a (docs s)
        → AfterCreate ids (save nil_id is_zero same world over_collection count a s)
    unfolding save account_repository_adapter document duplicate_key
    save-AfterCreate count a ids s q fresh =
        elim (Result-cases (accounts.insert_one (document a s) s).0) [
          | inl (u, e) ↦ rw e (
              rw (quiet.notify count _ _) (
                rw (laws.insert_one_ok (document a s) s e)
                  (kept.add_id ids (docs s) (document a s) q fresh)))
          | inr (x, e) ↦ elim (Bool-cases (accounts.is_duplicate_key_error x)) [
            | inl known ↦ rw e (rw known (insert_any ids (document a s) s q fresh))
            | inr known ↦ rw e (rw known (insert_any ids (document a s) s q fresh))
          ]
        ]

    with_balance-Fresh :
        (b : Option Float64) (a : Account ObjectId) (t : S) (ds : List (Document ObjectId))
        → FreshAccount a ds
        → FreshAccount (with_balance nil_id is_zero same world over_collection b a t) ds
    unfolding with_balance
    with_balance-Fresh none a t ds h = h
    with_balance-Fresh (some b) a t ds h = h

    saved-AfterSave :
        (ids : List ObjectId) (r : Result (Account ObjectId)) (t : S)
        → AfterCreate ids (r, t)
        → AfterSave ids (continue r (λ a. pure (a, Option.some a.id)) t)
    saved-AfterSave ids (ok a) t q = q
    saved-AfterSave ids (err e) t q = q

    fetched-AfterSave :
        (count : ℕ) (a : Account ObjectId) (ids : List ObjectId) (r : Result (Account ObjectId))
        (t : S)
        → Q ids (docs t)
        → ((a' : Account ObjectId) → r ≡ ok a' → FreshAccount a' (docs t))
        → AfterSave ids (
            continue r
              (λ a'. save nil_id is_zero same world over_collection count a' >>= λ saved.
                pure (saved, Option.some saved.id))
              t)
    fetched-AfterSave count a ids (ok a') t q h =
        saved-AfterSave ids (save nil_id is_zero same world over_collection count a' t).0
          (save nil_id is_zero same world over_collection count a' t).1
          (save-AfterCreate count a' ids t q (h a' refl))
    fetched-AfterSave count a ids (err e) t q h = q

    balance-Fresh :
        (a a' : Account ObjectId) (r : Result Float64) (t : S) (ds : List (Document ObjectId))
        → (continue
            (result_or_none r)
            (λ b s. (ok (with_balance nil_id is_zero same world over_collection b a s), s))
            t).0
          ≡ ok a'
        → FreshAccount a ds
        → FreshAccount a' ds
    balance-Fresh a a' (ok b) t ds e h =
        subst (λ x. FreshAccount x ds) (ok-injective e) (with_balance-Fresh (some b) a t ds h)
    balance-Fresh a a' (err x) t ds e h =
        subst (λ x. FreshAccount x ds) (ok-injective e) (with_balance-Fresh none a t ds h)

    fetch_original-Fresh :
        (a a' : Account ObjectId) (s : S) (ds : List (Document ObjectId))
        → (fetch_original nil_id is_zero same world over_collection a s).0 ≡ ok a'
        → FreshAccount a ds
        → FreshAccount a' ds
    unfolding fetch_original
    fetch_original-Fresh a a' s ds e h =
        elim (Bool-cases (should_fetch_balance nil_id is_zero same world over_collection a)) [
          | inr no_fetch ↦ subst (λ x. FreshAccount x ds) (ok-injective (rw no_fetch at e)) h
          | inl fetch ↦
              balance-Fresh a a' (original_balance nil_id is_zero same world over_collection a s).0
                (original_balance nil_id is_zero same world over_collection a s).1 ds
                (rw fetch at e) h
        ]

    abbrev pub quiet_all : LeavesAccounts docs over_collection
    quiet_all = record {
      wallets = quiet.wallets;
      currencies = quiet.currencies;
      chains = quiet.chains;
      supported = quiet.supported;
      supported_batch = quiet.supported_batch;
      fetch_account_balance = quiet.fetch_account_balance;
      notify = quiet.notify;
    }

    pub save_unless-AfterSave :
        (count : ℕ) (a : Account ObjectId) (ids : List ObjectId) (known : Bool) (s : S)
        → Q ids (docs s)
        → (known ≡ false → FreshAccount a (docs s))
        → AfterSave ids (save_unless nil_id is_zero same world over_collection count a known s)
    unfolding save_unless
    save_unless-AfterSave count a ids true s q h = q
    save_unless-AfterSave count a ids false s q h =
        let same_docs =
          fetch_original-Quiet nil_id is_zero same world over_collection docs quiet_all a s in
        fetched-AfterSave count a ids
          (fetch_original nil_id is_zero same world over_collection a s).0
          (fetch_original nil_id is_zero same world over_collection a s).1 (rw same_docs q)
          (λ a' e. rw same_docs (fetch_original-Fresh a a' s (docs s) e (h refl)))
