-- ===== src/Wallets/Persistence.antt =====
-- What the wallet use cases (src/usecases/wallet_usecase.go) store, through the adapter and the
-- repository, in the collection of wallets.
use go_blockchain_watcher.Prelude.{
  String, ◌≡◌, ◌⊎◌, refl, ap, ◌∙◌, Bool, false, Option, none, some, List, [], ◌∷◌, ◌++◌, arith, inl,
  inr, Bool-cases, first, modify_first, first-modify_first,
}
use go_blockchain_watcher.Errors.{Error, errors_new, ok, err, continue, Result-cases, err-ne-ok}
use go_blockchain_watcher.Values.{Time, ℤ, pos}
use go_blockchain_watcher.Mongo.{Collection, CollectionLaws, ObjectIdLaws}
use go_blockchain_watcher.Wallets.{Wallet, Document, mark_as_deleted}
use go_blockchain_watcher.Wallets.Adapter.{
  matched-state, matched-ok, WalletRepository, wallet_repository_adapter, set_wallet,
  convert_wallet_domain_to_model, convert_wallet_model_to_domain, matched, err_not_found,
}
use go_blockchain_watcher.Wallets.Adapter
use go_blockchain_watcher.Wallets.UseCase

module _ {ObjectId S : Type 0} (nil_id : ObjectId) (is_zero : ObjectId → Bool)
    (same : ObjectId → ObjectId → Bool) (ids : ObjectIdLaws nil_id is_zero same)
    (wallets : Collection (Document ObjectId) S) (docs : S → List (Document ObjectId))
    (laws : CollectionLaws wallets docs) (new_id : ObjectId) (now : Time) where
  abbrev repo : WalletRepository ObjectId S
  repo = wallet_repository_adapter nil_id is_zero same wallets new_id now

  abbrev under : ObjectId → Document ObjectId → Bool
  under id d = same d.id id

  -- A read that fails leaves an error, and one that succeeds has found what the store holds.
  find_cases :
      (id : ObjectId) (s : S) (r : Option (Document ObjectId))
      → first (under id) (docs s) ≡ r
      → (wallets.find_one (under id) s ≡ ok r)
        ⊎ ((e : Error) × (wallets.find_one (under id) s ≡ err e))
  find_cases id s r h = elim (Result-cases (wallets.find_one (under id) s)) [
    | inl (q, e) ↦ inl (e ∙ ap ok (laws.find_one_ok (under id) s q e ∙ h))
    | inr e ↦ inr e
  ]

  -- A successful update of a wallet sets the fields of its document.
  docs-update_wallet :
      (x : Document ObjectId) (s : S)
      → is_zero x.id ≡ false
      → (Adapter.update_wallet nil_id is_zero same wallets now x s).0 ≡ ok tt
      → docs (Adapter.update_wallet nil_id is_zero same wallets now x s).1
        ≡ modify_first
            (under x.id)
            (set_wallet nil_id is_zero same wallets (record x { updated_at = now }))
            (docs s)
  unfolding Adapter.update_wallet
  docs-update_wallet x s nonzero done =
      let u =
        wallets.update_one (under x.id)
          (set_wallet nil_id is_zero same wallets (record x { updated_at = now })) s in
      let done' : (continue u.0 matched u.1).0 ≡ ok tt = rw nonzero at done in
      let (n, e) = matched-ok u.0 u.1 done' in
      rw nonzero (rw (matched-state u.0 u.1) (laws.update_one_ok _ _ s n e).0)

  written : Time → Document ObjectId → Document ObjectId
  unfolding convert_wallet_domain_to_model convert_wallet_model_to_domain mark_as_deleted
  written later w =
      convert_wallet_domain_to_model nil_id
        (mark_as_deleted later (convert_wallet_model_to_domain nil_id w))

  delete_wallet_found :
      (w : Document ObjectId) (later : Time) (s : S)
      → wallets.find_one (under w.id) s ≡ ok (some w)
      → UseCase.delete_wallet is_zero repo later w.id s
        ≡ Adapter.update_wallet nil_id is_zero same wallets now (written later w) s
  unfolding UseCase.delete_wallet wallet_repository_adapter written
  delete_wallet_found w later s e = rw e refl

  delete_wallet_failed :
      (id : ObjectId) (later : Time) (s : S) (x : Error)
      → wallets.find_one (under id) s ≡ err x
      → UseCase.delete_wallet is_zero repo later id s ≡ (err x, s)
  unfolding UseCase.delete_wallet wallet_repository_adapter
  delete_wallet_failed id later s x e = rw e refl

  -- What is left of a document of which `written` was set.
  abbrev husk : Document ObjectId → Document ObjectId
  husk w = record w {
    wallet_group = "";
    account_depth = pos 0;
    primary_wallet = false;
    is_linked = false;
    is_deleted = false;
    updated_at = now;
  }

  set-written :
      (w : Document ObjectId) (later : Time)
      → is_zero w.id ≡ false
      → set_wallet nil_id is_zero same wallets (record (written later w) { updated_at = now }) w
        ≡ husk w
  unfolding set_wallet written
  set-written w later nonzero = rw (nonzero, ids.is_zero_nil) refl

  after_set :
      (w : Document ObjectId) (later : Time) (ds : List (Document ObjectId))
      → is_zero w.id ≡ false
      → first (under w.id) ds ≡ some w
      → first (under w.id) (
          modify_first
            (under (written later w).id)
            (set_wallet nil_id is_zero same wallets (record (written later w) { updated_at = now }))
            ds)
        ≡ some (husk w)
  unfolding written
  after_set w later ds nonzero found =
      first-modify_first (under w.id) _ ds w found (
        (ids.same_iff _ w.id).1
          (ap (λ (d : Document ObjectId). d.id) (set-written w later nonzero)))
      ∙ ap some (set-written w later nonzero)

  -- `DeleteWallet` of the use case, called with the ID of a stored wallet and ended without an error,
  -- does not delete it: whatever was stored, the document is then not marked as deleted, and its
  -- group, depth, primary and linked fields are reset; its other fields are kept, but for the time.
  pub delete_wallet_keeps :
      (w : Document ObjectId) (later : Time) (s : S)
      → is_zero w.id ≡ false
      → first (under w.id) (docs s) ≡ some w
      → (UseCase.delete_wallet is_zero repo later w.id s).0 ≡ ok tt
      → first (under w.id) (docs (UseCase.delete_wallet is_zero repo later w.id s).1)
        ≡ some (record w {
          wallet_group = "";
          account_depth = pos 0;
          primary_wallet = false;
          is_linked = false;
          is_deleted = false;
          updated_at = now;
        })
  delete_wallet_keeps w later s nonzero found done = elim (find_cases w.id s (some w) found) [
    | inl e ↦ rw (delete_wallet_found w later s e) (
        rw
          (docs-update_wallet (written later w) s (unfold written in nonzero)
            (rw (delete_wallet_found w later s e) at done))
          (after_set w later (docs s) nonzero found))
    | inr (x, e) ↦ absurd (failed x e)
  ]
    where
      failed : (x : Error) → wallets.find_one (under w.id) s ≡ err x → ⊥
      failed x e = err-ne-ok (rw (delete_wallet_failed w.id later s x e) at done)

  -- The document of a new wallet.
  abbrev blank : ObjectId → ObjectId → String → Document ObjectId
  blank id user_id name = record {
    id = id;
    user_id = user_id;
    name = name;
    wallet_group = "";
    hashed_seed_phrase = "";
    account_depth = pos 0;
    primary_wallet = false;
    is_linked = false;
    zap_exchange_id = nil_id;
    is_deleted = false;
    deleted_at = none;
    created_at = now;
    updated_at = now;
  }

  -- `CreateWallet`, when it succeeds, stores a document that has the new ID, the user and the name,
  -- and in which the group, the seed phrase and the depth are empty, while the wallet that it returns
  -- has the seed phrase and the depth that it was given.
  pub create_wallet_stores :
      (rune_string : ℤ → String) (id user_id : ObjectId) (earlier : Time) (name seed : String)
      (depth : ℤ) (w : Wallet ObjectId) (s : S)
      → is_zero id ≡ false
      → (UseCase.create_wallet is_zero repo rune_string id nil_id earlier user_id name seed depth
          s).0
        ≡ ok w
      → (docs
            (UseCase.create_wallet is_zero repo rune_string id nil_id earlier user_id name seed
              depth s).1
          ≡ docs s ++ blank id user_id name ∷ [])
        × (w.hashed_seed_phrase ≡ seed)
        × (w.account_depth ≡ depth)
  unfolding UseCase.create_wallet wallet_repository_adapter convert_wallet_domain_to_model
      Adapter.duplicate_key
  create_wallet_stores rune_string id user_id earlier name seed depth w s nonzero done =
      elim (Bool-cases (is_zero user_id)) [
        | inl z ↦ absurd (err-ne-ok (rw z at done))
        | inr z ↦ elim (Result-cases (wallets.insert_one (blank id user_id name) s).0) [
          | inl (u, e) ↦
              let done' = rw (z, nonzero, e) at done in
              rw (z, nonzero, e)
                (
                  laws.insert_one_ok (blank id user_id name) s e,
                  ground (arith, done'),
                  ground (arith, done'),
                )
          | inr (x, e) ↦ absurd (ground (arith, z, nonzero, e, done))
        ]
      ]

  -- `UpdateWallet` of a wallet that is not stored fails and changes nothing.
  pub update_wallet_missing :
      (w : Wallet ObjectId) (s : S)
      → first (under w.id) (docs s) ≡ none
      → (e : Error) × (UseCase.update_wallet is_zero repo w s ≡ (err e, s))
  unfolding UseCase.update_wallet wallet_repository_adapter
  update_wallet_missing w s missing = elim (Bool-cases (is_zero w.id)) [
    | inl z ↦ (errors_new "wallet ID is required", rw z refl)
    | inr z ↦ elim (find_cases w.id s none missing) [
      | inl f ↦ (err_not_found, rw z (rw f refl))
      | inr (e, f) ↦ (e, rw z (rw f refl))
    ]
  ]
