-- ===== src/Accounts/Import/Unique.antt =====
-- The import stores no duplicates (src/usecases/account_usecase.go).
use go_blockchain_watcher.Prelude.{
  ℕ, ◌≡◌, refl, Bool, true, false, ◌&&◌, Option, none, some, List, [], ◌∷◌, ◌++◌, eq_iff, select,
  arith, Bool-cases, inl, inr, sym, ◌∙◌, false≢true,
}
use go_blockchain_watcher.Errors.{Error}
use go_blockchain_watcher.Mongo.{Collection, CollectionLaws, ObjectIdLaws}
use go_blockchain_watcher.Accounts.{Account, Document}
use go_blockchain_watcher.Accounts.Adapter.{World, duplicates, live}
use go_blockchain_watcher.Accounts.Import.{Services}
use go_blockchain_watcher.Accounts.Import.Batches.{import_accounts}
use go_blockchain_watcher.Accounts.Import.Quiet.{LeavesAccounts}
use go_blockchain_watcher.Accounts.Import.Steps.{over_collection, FreshDocument, Kept}
use go_blockchain_watcher.Accounts.Import.Invariant.{AfterImport, import_accounts-AfterImport}

module _ {ObjectId S : Type 0} (nil_id : ObjectId) (is_zero : ObjectId → Bool)
    (same : ObjectId → ObjectId → Bool) (ids : ObjectIdLaws nil_id is_zero same)
    (world : World ObjectId S) (others : Services ObjectId S)
    (accounts : Collection (Document ObjectId) S) where
  -- Two accounts that are not deleted, with the same address, user, chain and currency, none of which
  -- is empty.
  abbrev pub clash : Document ObjectId → Document ObjectId → Bool
  clash d e =
      live d
      && duplicates nil_id is_zero same accounts d.wallet_address d.user_id d.chain_id d.currency_id
          e

  abbrev pub Unique : List (Document ObjectId) → Type 0
  Unique [] = Unit
  Unique (d ∷ ds) = (select (clash d) ds ≡ []) × Unique ds

  clash_sym :
      (d x : Document ObjectId)
      → clash d x ≡ true
      → duplicates nil_id is_zero same accounts x.wallet_address x.user_id x.chain_id x.currency_id
          d
        ≡ true
  clash_sym d x h = ground (
    arith,
    h,
    eq_iff x.wallet_address d.wallet_address,
    eq_iff d.wallet_address x.wallet_address,
    ids.same_iff x.user_id d.user_id,
    ids.same_iff d.user_id x.user_id,
    ids.same_iff x.chain_id d.chain_id,
    ids.same_iff d.chain_id x.chain_id,
    ids.same_iff x.currency_id d.currency_id,
    ids.same_iff d.currency_id x.currency_id,
  )

  select-append :
      (p : Document ObjectId → Bool) (ds : List (Document ObjectId)) (x : Document ObjectId)
      → select p ds ≡ []
      → p x ≡ false
      → select p (ds ++ x ∷ []) ≡ []
  select-append p [] x h k = rw k
  select-append p (d ∷ ds) x h k = ground (arith, h, k, select-append p ds x)

  selected_head :
      (p : Document ObjectId → Bool) (d : Document ObjectId) (ds : List (Document ObjectId))
      → select p (d ∷ ds) ≡ []
      → (p d ≡ false) × (select p ds ≡ [])
  selected_head p d ds h = (ground (arith, h), ground (arith, h))

  Unique-append :
      (ds : List (Document ObjectId)) (x : Document ObjectId)
      → Unique ds
      → FreshDocument nil_id is_zero same world others accounts x ds
      → Unique (ds ++ x ∷ [])
  Unique-append [] x u h = (refl, tt)
  Unique-append (d ∷ ds) x u h =
      let split = selected_head _ d ds h in
      (select-append (clash d) ds x u.0 (no_clash split.0), Unique-append ds x u.1 split.1)
    where
      no_clash :
          duplicates nil_id is_zero same accounts x.wallet_address x.user_id x.chain_id
              x.currency_id d
            ≡ false
          → clash d x ≡ false
      no_clash e = elim (Bool-cases (clash d x)) [
        | inr f ↦ f
        | inl f ↦ absurd (false≢true (sym e ∙ clash_sym d x f))
      ]

  Unique-Kept : Kept nil_id is_zero same world others accounts (λ js ds. Unique ds)
  Unique-Kept = record {
    forget = λ js ds u. u;
    add = λ js ds d u fresh. Unique-append ds d u fresh;
    add_id = λ js ds d u fresh. Unique-append ds d u fresh;
  }

  -- `ImportAccounts`, with any accounts, keeps the stored accounts free of duplicates: if no two stored
  -- accounts that are not deleted have the same address, user, chain and currency, all four set, then
  -- this holds of the accounts that are stored afterwards, whether the import succeeds, fails in the
  -- middle, is cancelled or panics, and also when an insert is made and reported as failed. The other
  -- services are assumed to leave the accounts alone.
  pub import_accounts-Unique :
      (docs : S → List (Document ObjectId)) (laws : CollectionLaws accounts docs)
      (quiet : LeavesAccounts docs others) (has_supported has_service : Bool) (fuel : ℕ)
      (list : List (Option (Account ObjectId))) (s : S)
      → Unique (docs s)
      → Unique (
          docs
            (import_accounts nil_id is_zero same world
              (over_collection nil_id is_zero same world others accounts)
              has_supported
              has_service
              fuel
              list
              s).1)
  import_accounts-Unique docs laws quiet has_supported has_service fuel list s u =
      left_behind
        (import_accounts nil_id is_zero same world
          (over_collection nil_id is_zero same world others accounts) has_supported has_service fuel
          list s)
        (import_accounts-AfterImport nil_id is_zero same world others accounts docs laws quiet
          (λ js ds. Unique ds) Unique-Kept has_supported has_service fuel list s u)
    where
      left_behind :
          (p : Option (List ObjectId × Option Error) × S)
          → AfterImport nil_id is_zero same world others accounts docs laws quiet
              (λ js ds. Unique ds)
              Unique-Kept
              p
          → Unique (docs p.1)
      left_behind (none, t) q = q
      left_behind (some r, t) q = q
