-- ===== src/Accounts/Import/Growth.antt =====
-- The import only adds accounts, and returns IDs of accounts that it added
-- (src/usecases/account_usecase.go).
use go_blockchain_watcher.Prelude.{
  ℕ, ◌≡◌, refl, ◌∙◌, sym, ap, false≢true, Bool, true, Option, none, some, List, [], ◌∷◌, ◌++◌,
  first, is_some, arith,
}
use mathlib.Core.List.{append_assoc, append-nil}
use go_blockchain_watcher.Errors.{Error}
use go_blockchain_watcher.Mongo.{Collection, CollectionLaws, ObjectIdLaws}
use go_blockchain_watcher.Accounts.{Account, Document}
use go_blockchain_watcher.Accounts.Adapter.{World}
use go_blockchain_watcher.Accounts.Import.{Services}
use go_blockchain_watcher.Accounts.Import.Batches.{import_accounts}
use go_blockchain_watcher.Accounts.Import.Quiet.{LeavesAccounts}
use go_blockchain_watcher.Accounts.Import.Steps.{over_collection, Kept}
use go_blockchain_watcher.Accounts.Import.Invariant.{AfterImport, import_accounts-AfterImport}

module _ {ObjectId S : Type 0} (nil_id : ObjectId) (is_zero : ObjectId → Bool)
    (same : ObjectId → ObjectId → Bool) (ids : ObjectIdLaws nil_id is_zero same)
    (world : World ObjectId S) (others : Services ObjectId S)
    (accounts : Collection (Document ObjectId) S) where
  -- Each ID is that of one of the documents.
  abbrev pub IdsOf : List ObjectId → List (Document ObjectId) → Type 0
  IdsOf [] ds = Unit
  IdsOf (id ∷ js) ds = (is_some (first (λ d. same d.id id) ds) ≡ true) × IdsOf js ds

  first-grows :
      (p : Document ObjectId → Bool) (ds : List (Document ObjectId)) (x : Document ObjectId)
      → is_some (first p ds) ≡ true
      → is_some (first p (ds ++ x ∷ [])) ≡ true
  first-grows p [] x h = absurd (false≢true h)
  first-grows p (d ∷ ds) x h = ground (arith, h, first-grows p ds x)

  first-last :
      (p : Document ObjectId → Bool) (ds : List (Document ObjectId)) (x : Document ObjectId)
      → p x ≡ true
      → is_some (first p (ds ++ x ∷ [])) ≡ true
  first-last p [] x h = rw h
  first-last p (d ∷ ds) x h = ground (arith, first-last p ds x h)

  IdsOf-append :
      (js : List ObjectId) (ds : List (Document ObjectId)) (x : Document ObjectId)
      → IdsOf js ds
      → IdsOf js (ds ++ x ∷ [])
  IdsOf-append [] ds x h = tt
  IdsOf-append (id ∷ js) ds x h =
      (first-grows (λ d. same d.id id) ds x h.0, IdsOf-append js ds x h.1)

  IdsOf-append_id :
      (js : List ObjectId) (ds : List (Document ObjectId)) (x : Document ObjectId)
      → IdsOf js ds
      → IdsOf (js ++ x.id ∷ []) (ds ++ x ∷ [])
  IdsOf-append_id [] ds x h =
      (first-last (λ d. same d.id x.id) ds x ((ids.same_iff x.id x.id).1 refl), tt)
  IdsOf-append_id (id ∷ js) ds x h =
      (first-grows (λ d. same d.id id) ds x h.0, IdsOf-append_id js ds x h.1)

  -- The documents are those from before and then new ones, among which are those of the IDs.
  abbrev pub Grown : List (Document ObjectId) → List ObjectId → List (Document ObjectId) → Type 0
  Grown before js ds = (added : List (Document ObjectId)) × (ds ≡ before ++ added) × IdsOf js added

  Grown-Kept :
      (before : List (Document ObjectId))
      → Kept nil_id is_zero same world others accounts (Grown before)
  Grown-Kept before = record {
    forget = λ js ds g. (g.0, g.1, tt);
    add = λ js ds d g fresh. (
      g.0 ++ d ∷ [],
      ap (λ l. l ++ d ∷ []) g.1 ∙ append_assoc before g.0 (d ∷ []),
      IdsOf-append js g.0 d g.2,
    );
    add_id = λ js ds d g fresh. (
      g.0 ++ d ∷ [],
      ap (λ l. l ++ d ∷ []) g.1 ∙ append_assoc before g.0 (d ∷ []),
      IdsOf-append_id js g.0 d g.2,
    );
  }

  abbrev pub returned_ids : Option (List ObjectId × Option Error) → List ObjectId
  returned_ids none = []
  returned_ids (some (js, e)) = js

  -- `ImportAccounts`, with any accounts and on every path out of it, leaves the accounts that were
  -- stored as they were, in the same order, and adds new ones behind them; each ID that it returns,
  -- also beside an error, is that of one of the accounts that it added. The other services are assumed
  -- to leave the accounts alone.
  pub import_accounts_grows :
      (docs : S → List (Document ObjectId)) (laws : CollectionLaws accounts docs)
      (quiet : LeavesAccounts docs others) (has_supported has_service : Bool) (fuel : ℕ)
      (list : List (Option (Account ObjectId))) (s : S)
      → (added : List (Document ObjectId)) × (docs
            (import_accounts nil_id is_zero same world
              (over_collection nil_id is_zero same world others accounts)
              has_supported
              has_service
              fuel
              list
              s).1
          ≡ docs s ++ added)
        × IdsOf
            (returned_ids
              (import_accounts nil_id is_zero same world
                (over_collection nil_id is_zero same world others accounts)
                has_supported
                has_service
                fuel
                list
                s).0)
            added
  import_accounts_grows docs laws quiet has_supported has_service fuel list s =
      as_grown
        (import_accounts nil_id is_zero same world
          (over_collection nil_id is_zero same world others accounts) has_supported has_service fuel
          list s)
        (import_accounts-AfterImport nil_id is_zero same world others accounts docs laws quiet
          (Grown (docs s)) (Grown-Kept (docs s)) has_supported has_service fuel list s
          ([], sym (append-nil (docs s)), tt))
    where
      as_grown :
          (p : Option (List ObjectId × Option Error) × S)
          → AfterImport nil_id is_zero same world others accounts docs laws quiet
              (Grown (docs s))
              (Grown-Kept (docs s))
              p
          → Grown (docs s) (returned_ids p.0) (docs p.1)
      as_grown (none, t) q = q
      as_grown (some (js, e), t) q = q
