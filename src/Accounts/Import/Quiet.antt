-- ===== src/Accounts/Import/Quiet.antt =====
-- The parts of the import that leave the stored accounts alone (src/usecases/account_usecase.go).
use go_blockchain_watcher.Prelude.{
  ℕ, String, ◌≡◌, ◌==◌, refl, ◌∙◌, Bool, true, false, Option, none, some, List, if◌then◌else◌,
}
use go_blockchain_watcher.Errors.{Error, Result, ok, err, Exec, continue, or_fail, ◌>>=◌}
use go_blockchain_watcher.Currencies.{Currency, Chain, SupportedCurrency}
use go_blockchain_watcher.Accounts.{Account, Document}
use go_blockchain_watcher.Accounts.Adapter.{World}
use go_blockchain_watcher.Accounts.UseCase.{err_currency_not_found}
use go_blockchain_watcher.Wallets.UseCase.{err_wallet_not_found}
use go_blockchain_watcher.Accounts.Import.{Services, attempt}
use go_blockchain_watcher.Accounts.Import.Originals.{
  prepare, should_fetch_balance, original_balance, with_balance, fetch_original,
}
use go_blockchain_watcher.Accounts.Import.Derived.{fetch_balance}

-- `docs` are the documents of the accounts that a store holds.
module _ {D S : Type 0} (docs : S → D) where
  abbrev pub Quiet : {A : Type 0} → Exec S A → Type 0
  Quiet m = (s : S) → docs (m s).1 ≡ docs s

  pub continue-Quiet :
      {A B : Type 0} (r : Result A) (f : A → Exec S B) (t : S)
      → ((a : A) → Quiet (f a))
      → docs (continue r f t).1 ≡ docs t
  continue-Quiet (ok a) f t h = h a t
  continue-Quiet (err e) f t h = refl

  pub >>=-Quiet :
      {A B : Type 0} (m : Exec S A) (f : A → Exec S B)
      → Quiet m
      → ((a : A) → Quiet (f a))
      → Quiet (m >>= f)
  >>=-Quiet m f h k s = continue-Quiet (m s).0 f (m s).1 k ∙ h s

  pub or_fail-Quiet : {A : Type 0} (e : Error) (o : Option A) → Quiet (or_fail e o)
  or_fail-Quiet e none s = refl
  or_fail-Quiet e (some a) s = refl

  pub if-Quiet :
      {A : Type 0} (b : Bool) (m n : Exec S A) → Quiet m → Quiet n → Quiet (if b then m else n)
  if-Quiet true m n h k = h
  if-Quiet false m n h k = k

-- What is assumed of the other services: they do not change the collection of the accounts.
pub record LeavesAccounts {ObjectId S : Type 0} (docs : S → List (Document ObjectId))
    (services : Services ObjectId S) : Type 0 where
  pub wallets : (id : ObjectId) → Quiet docs (services.wallets.get_by_id id)
  pub currencies : (id : ObjectId) → Quiet docs (services.currencies id)
  pub chains : (id : ObjectId) → Quiet docs (services.chains id)
  pub supported : (id : ObjectId) → Quiet docs (services.supported id)
  pub supported_batch : (limit skip : ℕ) → Quiet docs (services.supported_batch limit skip)
  pub fetch_account_balance :
      (address : String) (currency : Currency ObjectId) (chain : Chain ObjectId)
      (c : Option (SupportedCurrency ObjectId))
      → Quiet docs (services.fetch_account_balance address currency chain c)
  pub notify :
      (count : ℕ) (a : Account ObjectId) (s : S) → docs (services.notify count a s) ≡ docs s

module _ {ObjectId S : Type 0} (nil_id : ObjectId) (is_zero : ObjectId → Bool)
    (same : ObjectId → ObjectId → Bool) (world : World ObjectId S) (services : Services ObjectId S)
    (docs : S → List (Document ObjectId)) (quiet : LeavesAccounts docs services) where
  pub prepare-Quiet :
      (a : Account ObjectId) → Quiet docs (prepare nil_id is_zero same world services a)
  unfolding prepare
  prepare-Quiet a =
      >>=-Quiet docs (services.wallets.get_by_id a.wallet_id) _ (quiet.wallets a.wallet_id) (λ w.
        >>=-Quiet docs (or_fail err_wallet_not_found w) _
          (or_fail-Quiet docs err_wallet_not_found w)
          (λ _.
            if-Quiet docs (is_zero a.supported_currency_id) _ _ (λ s. refl)
              (>>=-Quiet docs (services.supported a.supported_currency_id) _
                (quiet.supported a.supported_currency_id)
                (λ found.
                  >>=-Quiet docs (or_fail err_currency_not_found found) _
                    (or_fail-Quiet docs err_currency_not_found found) (λ c s. refl)))))

  original_balance-Quiet :
      (a : Account ObjectId) → Quiet docs (original_balance nil_id is_zero same world services a)
  unfolding original_balance
  original_balance-Quiet a =
      >>=-Quiet docs (services.supported a.supported_currency_id) _
        (quiet.supported a.supported_currency_id)
        (λ found.
          >>=-Quiet docs (or_fail err_currency_not_found found) _
            (or_fail-Quiet docs err_currency_not_found found)
            (λ c.
              >>=-Quiet docs (services.currencies c.currency_id) _ (quiet.currencies c.currency_id)
                (λ found_currency.
                  >>=-Quiet docs (or_fail err_currency_not_found found_currency) _
                    (or_fail-Quiet docs err_currency_not_found found_currency)
                    (λ currency.
                      >>=-Quiet docs (services.chains c.chain_id) _ (quiet.chains c.chain_id)
                        (λ found_chain.
                          >>=-Quiet docs (or_fail err_currency_not_found found_chain) _
                            (or_fail-Quiet docs err_currency_not_found found_chain)
                            (λ chain.
                              quiet.fetch_account_balance a.wallet_address currency chain
                                (some c)))))))

  pub fetch_balance-Quiet :
      (a : Account ObjectId) (currency : Currency ObjectId) (chain : Chain ObjectId)
      (c : Option (SupportedCurrency ObjectId))
      → Quiet docs (fetch_balance nil_id is_zero same world services a currency chain c)
  unfolding fetch_balance
  fetch_balance-Quiet a currency chain c =
      if-Quiet docs (a.account_type == "ACCOUNT_CREATED") _ _ (λ s. refl)
        (>>=-Quiet docs (attempt (services.fetch_account_balance a.wallet_address currency chain c))
          _ (quiet.fetch_account_balance a.wallet_address currency chain c) (λ b s. refl))

  pub fetch_original-Quiet :
      (a : Account ObjectId) → Quiet docs (fetch_original nil_id is_zero same world services a)
  unfolding fetch_original
  fetch_original-Quiet a =
      if-Quiet docs (should_fetch_balance nil_id is_zero same world services a) _ _
        (>>=-Quiet docs (attempt (original_balance nil_id is_zero same world services a))
          (λ b s. (ok (with_balance nil_id is_zero same world services b a s), s))
          (original_balance-Quiet a) (λ b s. refl))
        (λ s. refl)
