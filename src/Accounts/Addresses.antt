-- ===== src/Accounts/Addresses.antt =====
-- `CreateOrFindAccount` of src/usecases/account_usecase.go, through the adapter and the repository.
use go_blockchain_watcher.Prelude.{
  ℕ, String, ◌≡◌, refl, sym, ap, ◌∙◌, Bool, true, false, Option, some, List, [], ◌∷◌, ◌++◌, ◌==◌,
  arith, Option-cases, inl, inr, Bool-cases, ltb, length, select, eq_refl, subst, ◌+◌, eqb,
  if◌then◌else◌,
}
use go_blockchain_watcher.Errors.{
  Error, Result, ok, err, Result-cases, err-ne-ok, ok-injective, errorf,
}
use go_blockchain_watcher.Mongo.{Collection, CollectionLaws}
use go_blockchain_watcher.Wallets.Adapter.{WalletRepository}
use go_blockchain_watcher.Accounts.{Account, Document, new_account}
use go_blockchain_watcher.Accounts.Adapter.{
  World, AccountRepository, account_repository_adapter, has_address, inserted,
  convert_account_domain_to_model, duplicate_key,
}
use go_blockchain_watcher.Accounts.UseCase.{create_or_find_account}

module _ {ObjectId S : Type 0} (nil_id : ObjectId) (is_zero : ObjectId → Bool)
    (same : ObjectId → ObjectId → Bool) (world : World ObjectId S)
    (accounts : Collection (Document ObjectId) S) (wallets : WalletRepository ObjectId S)
    (docs : S → List (Document ObjectId)) (laws : CollectionLaws accounts docs) where
  abbrev repo : AccountRepository ObjectId S
  repo = account_repository_adapter nil_id is_zero same accounts world

  abbrev call : ObjectId → ObjectId → String → S → Result (Option (Account ObjectId)) × S
  call user_id chain_id address s =
      create_or_find_account nil_id is_zero world repo wallets user_id chain_id address s

  -- The document that a new account becomes.
  abbrev document : ObjectId → ObjectId → String → S → Document ObjectId
  unfolding inserted convert_account_domain_to_model new_account
  document user_id chain_id address s =
      inserted nil_id is_zero same accounts (world.new_object_id s) (world.now s) (
        convert_account_domain_to_model nil_id (
          new_account (world.new_object_id s) nil_id (world.now s) nil_id user_id nil_id chain_id
            address ""))

  -- When the count fails or is not zero, the call only reads.
  call_reads :
      (user_id chain_id : ObjectId) (address : String) (s : S)
      → ((n : ℕ) → accounts.count_documents (has_address address) s ≡ ok n → ltb 0 n ≡ true)
      → (call user_id chain_id address s).1 ≡ s
  unfolding create_or_find_account account_repository_adapter
  call_reads user_id chain_id address s h =
      elim (Result-cases (accounts.count_documents (has_address address) s)) [
        | inr (e, f) ↦ rw f refl
        | inl (n, f) ↦ elim (Result-cases (accounts.find_one (has_address address) s)) [
          | inr (e, g) ↦ rw f (rw (h n f) (rw g refl))
          | inl (o, g) ↦ elim (Option-cases o) [
            | inl x ↦ rw f (rw (h n f) (rw g (rw x refl)))
            | inr (d, x) ↦ rw f (rw (h n f) (rw g (rw x refl)))
          ]
        ]
      ]

  -- Of a successful call: it only read, or it added the document.
  call_adds :
      (user_id chain_id : ObjectId) (address : String) (a : Option (Account ObjectId)) (s : S)
      (n : ℕ)
      → accounts.count_documents (has_address address) s ≡ ok n
      → ltb 0 n ≡ false
      → (call user_id chain_id address s).0 ≡ ok a
      → (docs (call user_id chain_id address s).1
          ≡ docs s ++ document user_id chain_id address s ∷ [])
        × (a
            ≡ some
                (record (new_account
                  (world.new_object_id s)
                  nil_id
                  (world.now s)
                  nil_id
                  user_id
                  nil_id
                  chain_id
                  address
                  "") { id = (document user_id chain_id address s).id }))
  unfolding create_or_find_account account_repository_adapter document duplicate_key
  call_adds user_id chain_id address a s n f zero_found done =
      elim (Result-cases (accounts.insert_one (document user_id chain_id address s) s).0) [
        | inl (u, e) ↦
            let done' = rw e at (rw zero_found at (rw f at done)) in
            (rw f (rw zero_found (rw e (laws.insert_one_ok _ s e))), sym (ok-injective done'))
        | inr (x, e) ↦
            let done' = rw e at (rw zero_found at (rw f at done)) in
            elim (Bool-cases (accounts.is_duplicate_key_error x)) [
              | inl known ↦ absurd (err-ne-ok (rw known at done'))
              | inr known ↦ absurd (err-ne-ok (rw known at done'))
            ]
      ]

  abbrev number_of : String → S → ℕ
  number_of address s = length (select (has_address address) (docs s))

  counts_new :
      (d : Document ObjectId) (address : String) (ds : List (Document ObjectId))
      → has_address address d ≡ true
      → length (select (has_address address) (ds ++ d ∷ []))
        ≡ length (select (has_address address) ds) + 1
  counts_new d address [] h = ground (arith, h)
  counts_new d address (x ∷ ds) h = ground (arith, counts_new d address ds h)

  document-has_address :
      (user_id chain_id : ObjectId) (address : String) (s : S)
      → (address == "") ≡ false
      → has_address address (document user_id chain_id address s) ≡ true
  unfolding document
  document-has_address user_id chain_id address s h = rw h (rw (eq_refl address) refl)

  failed_count :
      (user_id chain_id : ObjectId) (address : String) (s : S) (x : Error)
      → accounts.count_documents (has_address address) s ≡ err x
      → (call user_id chain_id address s).0 ≡ err (errorf "failed to count accounts by address" x)
  unfolding create_or_find_account account_repository_adapter
  failed_count user_id chain_id address s x f = rw f refl

  -- `CreateOrFindAccount` with an address that is not empty, when it ends without an error, leaves one
  -- account with the address, among those that are not deleted, where there was none, and else as many
  -- as there were; another call with that address, by whatever user and for whatever chain, then
  -- changes nothing.
  pub create_or_find_account_idempotent :
      (user_id chain_id user_id' chain_id' : ObjectId) (address : String)
      (a : Option (Account ObjectId)) (s : S)
      → (address == "") ≡ false
      → (call user_id chain_id address s).0 ≡ ok a
      → (length (select (has_address address) (docs (call user_id chain_id address s).1)) ≡ (
          if eqb (length (select (has_address address) (docs s))) 0
          then 1
          else length (select (has_address address) (docs s))))
        × ((call user_id' chain_id' address (call user_id chain_id address s).1).1
            ≡ (call user_id chain_id address s).1)
  create_or_find_account_idempotent user_id chain_id user_id' chain_id' address a s nonempty done =
      elim (Result-cases (accounts.count_documents (has_address address) s)) [
        | inr (x, f) ↦ absurd (err-ne-ok (sym (failed_count user_id chain_id address s x f) ∙ done))
        | inl (n, f) ↦
            let counted = laws.count_documents_ok (has_address address) s n f in
            elim (Bool-cases (ltb 0 n)) [
              | inl found ↦
                  let only_reads = λ (user chain : ObjectId).
                    call_reads user chain address s
                      (λ m g. subst (λ k. ltb 0 k ≡ true) (ok-injective (sym f ∙ g)) found) in
                  (
                    rw (only_reads user_id chain_id) (ground (arith, counted, found)),
                    rw (only_reads user_id chain_id) (only_reads user_id' chain_id'),
                  )
              | inr missing ↦
                  let t = (call user_id chain_id address s).1 in
                  let one : number_of address t ≡ number_of address s + 1 =
                    ap (λ ds. length (select (has_address address) ds))
                      (call_adds user_id chain_id address a s n f missing done).0
                    ∙ counts_new (document user_id chain_id address s) address (docs s)
                        (document-has_address user_id chain_id address s nonempty) in
                  (
                    ground (arith, one, counted, missing),
                    call_reads user_id' chain_id' address t (λ m g.
                        positive m (number_of address s)
                          (laws.count_documents_ok (has_address address) t m g ∙ one)),
                  )
            ]
      ]
    where
      positive : (m k : ℕ) → m ≡ k + 1 → ltb 0 m ≡ true
      positive m k e = ground (arith, e)
