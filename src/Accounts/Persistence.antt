-- ===== src/Accounts/Persistence.antt =====
-- What the account use cases (src/usecases/account_usecase.go) store, through the adapter and the
-- repository, in the collection of accounts, and what they read afterwards.
use go_blockchain_watcher.Prelude.{
  String, ◌≡◌, ◌⊎◌, refl, sym, ap, ◌∙◌, Bool, true, false, ◌&&◌, Option, none, some, List, [], ◌∷◌,
  ◌++◌, arith, inl, inr, Bool-cases, first, modify_first, select, first-modify_first, first_refine,
  first_gone, first_passes, first-append, select-first, ◌==◌, if◌then◌else◌,
}
use go_blockchain_watcher.Errors.{
  Error, Result, ok, err, continue, Result-cases, err-ne-ok, ok-injective,
}
use go_blockchain_watcher.Values.{Time}
use go_blockchain_watcher.Mongo.{Collection, CollectionLaws, ObjectIdLaws}
use go_blockchain_watcher.Wallets.Adapter.{
  WalletRepository, matched, matched-state, matched-ok, err_not_found,
}
use go_blockchain_watcher.Accounts.{Account, Document, mark_as_deleted}
use go_blockchain_watcher.Accounts.Adapter.{
  World, AccountRepository, account_repository_adapter, live, over_deleted_at, inserted,
  set_account, convert_account_domain_to_model, convert_account_model_to_domain, duplicate_key,
}
use go_blockchain_watcher.Accounts.Adapter
use go_blockchain_watcher.Accounts.UseCase

keep : {A : Type 0} (b : Bool) (a : A) → (if b then a else a) ≡ a
keep true a = refl
keep false a = refl

-- A field that is left out, because it is to be set to its zero value, keeps that value.
keep_empty : (x : String) → (if "" == "" then x else "") ≡ x
keep_empty x = refl

module _ {ObjectId S : Type 0} (nil_id : ObjectId) (is_zero : ObjectId → Bool)
    (same : ObjectId → ObjectId → Bool) (ids : ObjectIdLaws nil_id is_zero same)
    (world : World ObjectId S) (accounts : Collection (Document ObjectId) S)
    (wallets : WalletRepository ObjectId S) (docs : S → List (Document ObjectId))
    (laws : CollectionLaws accounts docs) where
  abbrev repo : AccountRepository ObjectId S
  repo = account_repository_adapter nil_id is_zero same accounts world

  abbrev under : ObjectId → Document ObjectId → Bool
  under id d = same d.id id

  abbrev shown : ObjectId → Document ObjectId → Bool
  shown id d = same d.id id && live d

  -- A read that fails leaves an error, and one that succeeds has found what the store shows.
  read_shown :
      (id : ObjectId) (s : S) (r : Option (Document ObjectId))
      → first (shown id) (docs s) ≡ r
      → (accounts.find_one (shown id) s ≡ ok r)
        ⊎ ((e : Error) × (accounts.find_one (shown id) s ≡ err e))
  read_shown id s r h = elim (Result-cases (accounts.find_one (shown id) s)) [
    | inl (q, e) ↦ inl (e ∙ ap ok (laws.find_one_ok (shown id) s q e ∙ h))
    | inr e ↦ inr e
  ]

  get_missing :
      (id : ObjectId) (s : S)
      → first (shown id) (docs s) ≡ none
      → (e : Error) × ((UseCase.get_account_by_id nil_id is_zero world repo wallets id s).0 ≡ err e)
  unfolding UseCase.get_account_by_id account_repository_adapter
  get_missing id s h = elim (read_shown id s none h) [
    | inl f ↦ (err_not_found, rw f refl)
    | inr (e, f) ↦ (e, rw f refl)
  ]

  get_found :
      (id : ObjectId) (d : Document ObjectId) (a : Account ObjectId) (s : S)
      → first (shown id) (docs s) ≡ some d
      → (UseCase.get_account_by_id nil_id is_zero world repo wallets id s).0 ≡ ok a
      → a ≡ convert_account_model_to_domain d
  unfolding UseCase.get_account_by_id account_repository_adapter
  get_found id d a s h done = elim (read_shown id s (some d) h) [
    | inl f ↦ sym (ok-injective (rw f at done))
    | inr (e, f) ↦ absurd (err-ne-ok (rw f at done))
  ]

  -- What is set when an account is deleted.
  abbrev deleted : Document ObjectId → Time → Document ObjectId
  unfolding convert_account_domain_to_model convert_account_model_to_domain mark_as_deleted
  deleted d now =
      convert_account_domain_to_model nil_id
        (mark_as_deleted now (convert_account_model_to_domain d))

  abbrev gone : Document ObjectId → Time → Document ObjectId
  gone d now = record d {
    is_player = false;
    inflow_single_limit = 0;
    inflow_daily_limit = 0;
    outflow_single_limit = 0;
    outflow_daily_limit = 0;
    bench_status = false;
    deleted_at = some now;
    updated_at = now;
  }

  abbrev set_now : Document ObjectId → Time → Document ObjectId → Document ObjectId
  set_now x now d = set_account nil_id is_zero same accounts (record x { updated_at = now }) d

  set-deleted : (d : Document ObjectId) (now : Time) → set_now (deleted d now) now d ≡ gone d now
  unfolding set_account deleted
  set-deleted d now = rw ids.is_zero_nil (
      ground (
        arith,
        keep (is_zero d.id) d.id,
        keep (is_zero d.currency_id) d.currency_id,
        keep (is_zero d.wallet_id) d.wallet_id,
        keep (is_zero d.chain_id) d.chain_id,
        keep (is_zero d.user_id) d.user_id,
        keep (is_zero d.supported_currency_id) d.supported_currency_id,
        keep (d.wallet_address == "") d.wallet_address,
        keep (d.account_type == "") d.account_type,
        keep (d.encrypted_private_key == "") d.encrypted_private_key,
      ))

  abbrev update : Document ObjectId → Time → S → Result (Unit {0}) × S
  update x now s = Adapter.update_account nil_id is_zero same accounts now x s

  -- A successful update of an account sets the fields of its document.
  docs-update_account :
      (x : Document ObjectId) (now : Time) (s : S)
      → is_zero x.id ≡ false
      → (update x now s).0 ≡ ok tt
      → docs (update x now s).1 ≡ modify_first (under x.id) (set_now x now) (docs s)
  unfolding Adapter.update_account
  docs-update_account x now s nonzero done =
      let u = accounts.update_one (under x.id) (set_now x now) s in
      let done' : (continue u.0 matched u.1).0 ≡ ok tt = rw nonzero at done in
      let (n, e) = matched-ok u.0 u.1 done' in
      rw nonzero (rw (matched-state u.0 u.1) (laws.update_one_ok _ _ s n e).0)

  delete_account_found :
      (id : ObjectId) (d : Document ObjectId) (s : S)
      → accounts.find_one (shown id) s ≡ ok (some d)
      → UseCase.delete_account nil_id is_zero world repo wallets id s
        ≡ update (deleted d (world.now s)) (world.now s) s
  unfolding UseCase.delete_account account_repository_adapter deleted
  delete_account_found id d s e = rw e refl

  delete_account_failed :
      (id : ObjectId) (x : Error) (s : S)
      → accounts.find_one (shown id) s ≡ err x
      → (UseCase.delete_account nil_id is_zero world repo wallets id s).0 ≡ err x
  unfolding UseCase.delete_account account_repository_adapter
  delete_account_failed id x s e = rw e refl

  id_of :
      (id : ObjectId) (d : Document ObjectId) (s : S)
      → first (under id) (docs s) ≡ some d
      → d.id ≡ id
  id_of id d s h = (ids.same_iff d.id id).0 (first_passes (under id) (docs s) d h)

  -- What an update with the deleted entity of the only document under the ID leaves.
  delete_leaves :
      (id : ObjectId) (d : Document ObjectId) (now : Time) (s : S)
      → is_zero id ≡ false
      → select (under id) (docs s) ≡ d ∷ []
      → (update (deleted d now) now s).0 ≡ ok tt
      → let t = (update (deleted d now) now s).1 in
        (first (shown id) (docs t) ≡ none) × (first (under id) (docs t) ≡ some (gone d now))
  unfolding deleted
  delete_leaves id d now s nonzero only done =
      let found = select-first (under id) (docs s) [] d only in
      let same_id = id_of id d s found in
      let after =
        docs-update_account (deleted d now) now s (ap is_zero same_id ∙ nonzero) done
        ∙ ap (λ i. modify_first (under i) (set_now (deleted d now) now) (docs s)) same_id in
      let sets = set-deleted d now in
      (
        rw after (
            first_gone (under id) live (set_now (deleted d now) now) (docs s) d only
              (rw sets refl)),
        rw after (
            first-modify_first (under id) (set_now (deleted d now) now) (docs s) d found
              (rw sets (ap (λ i. same i id) same_id ∙ (ids.same_iff id id).1 refl))
            ∙ ap some sets),
      )

  -- After a `DeleteAccount` without an error of the only document with its ID, `GetAccountByID` fails,
  -- and the document is kept, marked as deleted at the time of the call, with its flags and its four
  -- limits reset and its other fields, but for the time of the update, as they were.
  pub delete_account_hides :
      (id : ObjectId) (d : Document ObjectId) (s : S)
      → is_zero id ≡ false
      → select (under id) (docs s) ≡ d ∷ []
      → live d ≡ true
      → (UseCase.delete_account nil_id is_zero world repo wallets id s).0 ≡ ok tt
      → let t = (UseCase.delete_account nil_id is_zero world repo wallets id s).1 in
        ((e : Error) × ((UseCase.get_account_by_id nil_id is_zero world repo wallets id t).0
            ≡ err e))
        × (first (under id) (docs t)
            ≡ some (record d {
              is_player = false;
              inflow_single_limit = 0;
              inflow_daily_limit = 0;
              outflow_single_limit = 0;
              outflow_daily_limit = 0;
              bench_status = false;
              deleted_at = some (world.now s);
              updated_at = world.now s;
            }))
  delete_account_hides id d s nonzero only shows done =
      elim (read_shown id s (some d) (
        first_refine (under id) live (docs s) d (select-first (under id) (docs s) [] d only)
          shows)) [
            | inl e ↦
                let same_call = delete_account_found id d s e in
                let left =
                  delete_leaves id d (world.now s) s nonzero only
                    (ap (λ (x : Result (Unit {0}) × S). x.0) (sym same_call) ∙ done) in
                rw same_call (
                  get_missing id (update (deleted d (world.now s)) (world.now s) s).1 left.0,
                  left.1,
                )
            | inr (x, e) ↦ absurd (err-ne-ok (sym (delete_account_failed id x s e) ∙ done))
          ]

  -- The document of an entity that is created.
  abbrev stored : Account ObjectId → S → Document ObjectId
  unfolding inserted convert_account_domain_to_model
  stored a s =
      inserted nil_id is_zero same accounts (world.new_object_id s) (world.now s)
        (convert_account_domain_to_model nil_id a)

  create_stores :
      (a b : Account ObjectId) (s : S)
      → (repo.create a s).0 ≡ ok b
      → (docs (repo.create a s).1 ≡ docs s ++ stored a s ∷ []) × (b.id ≡ (stored a s).id)
  unfolding account_repository_adapter stored duplicate_key
  create_stores a b s done = elim (Result-cases (accounts.insert_one (stored a s) s).0) [
    | inl (u, e) ↦
        let done' = ok-injective (rw e at done) in
        (rw e (laws.insert_one_ok _ s e), sym (ap (λ (x : Account ObjectId). x.id) done'))
    | inr (x, e) ↦ elim (Bool-cases (accounts.is_duplicate_key_error x)) [
      | inl known ↦ absurd (err-ne-ok (rw known at (rw e at done)))
      | inr known ↦ absurd (err-ne-ok (rw known at (rw e at done)))
    ]
  ]

  -- An account that the repository has created without an error, and that is not marked as deleted,
  -- is read back by `GetAccountByID`, when that succeeds, with all its fields as they were given, but
  -- for the two times, which are those of the call, and the ID, which is the one that the creation
  -- returned; no account that is not deleted may have had this ID before.
  pub create-get_account_by_id :
      (a b c : Account ObjectId) (s : S)
      → (repo.create a s).0 ≡ ok b
      → a.deleted_at ≡ none
      → first (shown b.id) (docs s) ≡ none
      → (UseCase.get_account_by_id nil_id is_zero world repo wallets b.id (repo.create a s).1).0
        ≡ ok c
      → c ≡ record a { id = b.id; created_at = world.now s; updated_at = world.now s }
  unfolding inserted convert_account_domain_to_model convert_account_model_to_domain
  create-get_account_by_id a b c s done not_deleted new_one got =
      let made = create_stores a b s done in
      get_found b.id (stored a s) c (repo.create a s).1
        (ap (first (shown b.id)) made.0
          ∙ first-append (shown b.id) (docs s) (stored a s) new_one
              (rw made.1 (rw ((ids.same_iff _ _).1 refl) (rw not_deleted refl))))
        got
      ∙ ap (λ i. record a { id = i; created_at = world.now s; updated_at = world.now s })
          (sym made.1)
