-- ===== src/Portfolio/Gathering.antt =====
-- What the goroutines of GetWalletPortfolio of src/usecases/portfolio_usecase.go gather.
use mathlib.Core.List.{foldl, append_assoc, append-nil}
use go_blockchain_watcher.Prelude.{
  ◌≡◌, ◌≢◌, refl, sym, ap, ◌∙◌, String, Bool, Bool-cases, inl, inr, ◌⊎◌, Option, some, none, List,
  [], ◌∷◌, ◌++◌, map, eq-false_of_ne, if◌then◌else◌,
}
use go_blockchain_watcher.Errors.{Error, Result, ok, err, Result-cases}
use go_blockchain_watcher.Map.{Map, lookup, lookup-insert}
use go_blockchain_watcher.Values.{Float64}
use go_blockchain_watcher.Currencies.{Currency}
use go_blockchain_watcher.Accounts.{Account}
use go_blockchain_watcher.Accounts.Adapter.{World}
use go_blockchain_watcher.Accounts.UseCase.{err_account_not_found, err_currency_not_found}
use go_blockchain_watcher.Portfolio.{
  Floats, AccountPortfolio, WalletPortfolio, new_wallet_portfolio, add_values,
}
use go_blockchain_watcher.Portfolio.UseCase.{
  CachedPortfolio, Portfolios, State, young, cached, account_key, wallet_key, keep_account,
  symbol_of, portfolio_of, fetch_account_portfolio, account_or, get_account_portfolio,
  add_portfolio, gather, get_wallet_portfolio,
}
use go_blockchain_watcher.Portfolio.Caching.{wallet_fetched}

-- The driver's reads leave the store as it is.
pub record Quiet {ObjectId S : Type 0} (uc : Portfolios ObjectId S) : Type 0 where
  pub account_read : (id : ObjectId) (s : S) → (uc.accounts.get_by_id id s).1 ≡ s
  pub currency_read : (id : ObjectId) (s : S) → (uc.currencies id s).1 ≡ s
  pub chain_read : (id : ObjectId) (s : S) → (uc.chains id s).1 ≡ s

module _ {ObjectId S : Type 0} (floats : Floats) (world : World ObjectId S)
    (uc : Portfolios ObjectId S) where
  abbrev key : Account ObjectId → String
  key a = account_key floats world uc a.id

  abbrev pub portfolio_if_any :
      Result (Option (AccountPortfolio ObjectId)) → List (AccountPortfolio ObjectId)
  portfolio_if_any (ok (some p)) = p ∷ []
  portfolio_if_any (ok none) = []
  portfolio_if_any (err e) = []

  -- The portfolios that GetAccountPortfolio gives for each account alone, from the same state.
  abbrev pub portfolios_alone :
      State floats world uc → List (Account ObjectId) → List (AccountPortfolio ObjectId)
  portfolios_alone st [] = []
  portfolios_alone st (a ∷ rest) =
      portfolio_if_any (get_account_portfolio floats world uc a.id st).0 ++ portfolios_alone st rest

  abbrev pub Differs : String → List (Account ObjectId) → Type 0
  Differs k [] = Unit
  Differs k (b ∷ rest) = (key b ≢ k) × Differs k rest

  -- The accounts have different keys in the cache.
  abbrev pub Distinct : List (Account ObjectId) → Type 0
  Distinct [] = Unit
  Distinct (a ∷ rest) = Differs (key a) rest × Distinct rest

  -- Two caches have the same entries for the accounts.
  abbrev Agree :
      Map (CachedPortfolio ObjectId)
      → Map (CachedPortfolio ObjectId)
      → List (Account ObjectId)
      → Type 0
  Agree c d [] = Unit
  Agree c d (a ∷ rest) = (lookup (key a) c ≡ lookup (key a) d) × Agree c d rest

  Agree-refl :
      (c : Map (CachedPortfolio ObjectId)) (accounts : List (Account ObjectId)) → Agree c c accounts
  Agree-refl c [] = tt
  Agree-refl c (a ∷ rest) = (refl, Agree-refl c rest)

  Agree-trans :
      (k : String) (c' c d : Map (CachedPortfolio ObjectId)) (accounts : List (Account ObjectId))
      → ((j : String) → j ≢ k → lookup j c' ≡ lookup j c)
      → Differs k accounts
      → Agree c d accounts
      → Agree c' d accounts
  Agree-trans k c' c d [] others differs agree = tt
  Agree-trans k c' c d (a ∷ rest) others (here, differs) (same, agree) =
      (others (key a) here ∙ same, Agree-trans k c' c d rest others differs agree)

  add_lem :
      (r : Result (Option (AccountPortfolio ObjectId))) (ps : List (AccountPortfolio ObjectId))
      → add_portfolio floats world uc r ps ≡ ps ++ portfolio_if_any r
  add_lem (ok (some p)) ps = refl
  add_lem (ok none) ps = sym (append-nil ps)
  add_lem (err e) ps = sym (append-nil ps)

  add_values_lem :
      (v : Float64) (ps : List (AccountPortfolio ObjectId))
      → add_values floats v ps
        ≡ foldl floats.add v (map (λ (x : AccountPortfolio ObjectId). x.total_usd_value) ps)
  unfolding add_values
  add_values_lem v [] = refl
  add_values_lem v (p ∷ ps) = add_values_lem (floats.add v p.total_usd_value) ps

  new_wallet_portfolio_lem :
      (id : ObjectId) (ps : List (AccountPortfolio ObjectId))
      → ok (some (new_wallet_portfolio floats id ps))
        ≡ ok (
            some record {
              wallet_id = id;
              accounts = ps;
              wallet_usd_value =
                  foldl floats.add 0
                    (map (λ (x : AccountPortfolio ObjectId). x.total_usd_value) ps);
            })
  new_wallet_portfolio_lem id ps =
      ap (λ (v : Float64). ok (some record { wallet_id = id; accounts = ps; wallet_usd_value = v }))
        (add_values_lem 0 ps)

  module _ (quiet : Quiet uc) where
    abbrev Fails : ObjectId → S → Type 0
    Fails id s =
        (e : Error) × ((cache : Map (CachedPortfolio ObjectId))
          → fetch_account_portfolio floats world uc id (s, cache) ≡ (err e, (s, cache)))

    abbrev Kept : ObjectId → S → Type 0
    Kept id s =
        (p : AccountPortfolio ObjectId) × ((cache : Map (CachedPortfolio ObjectId))
          → fetch_account_portfolio floats world uc id (s, cache)
            ≡ keep_account floats world uc id p (s, cache))

    -- The rest of a fetch, with the account and the currency.
    fetch-read :
        (id : ObjectId) (a : Account ObjectId) (c : Currency ObjectId) (s : S)
        → (uc.accounts.get_by_id id s).0 ≡ ok (some a)
        → (uc.currencies a.currency_id s).0 ≡ ok (some c)
        → Kept id s
    unfolding fetch_account_portfolio
    fetch-read id a c s found currency = elim (Bool-cases (uc.is_zero a.chain_id)) [
      | inl z ↦ (
        portfolio_of floats world uc a c "",
        λ cache.
            rw (quiet.account_read id s)
              (rw found (rw (quiet.currency_read a.currency_id s) (rw currency (rw z refl)))),
      )
      | inr z ↦ (
        portfolio_of floats world uc a c (symbol_of floats world uc (uc.chains a.chain_id s).0),
        λ cache. rw (quiet.account_read id s) (
            rw found (
              rw (quiet.currency_read a.currency_id s)
                (rw currency (rw z (rw (quiet.chain_read a.chain_id s) refl))))),
      )
    ]

    fetch-cases : (id : ObjectId) (s : S) → Fails id s ⊎ Kept id s
    unfolding fetch_account_portfolio
    fetch-cases id s = elim (Result-cases (uc.accounts.get_by_id id s).0) [
      | inr (e, h) ↦ inl (e, λ cache. rw (quiet.account_read id s) (rw h refl))
      | inl (none, h) ↦
          inl (err_account_not_found, λ cache. rw (quiet.account_read id s) (rw h refl))
      | inl (some a, h) ↦ elim (Result-cases (uc.currencies a.currency_id s).0) [
        | inr (e, g) ↦ inl (
          e,
          λ cache.
              rw (quiet.account_read id s)
                (rw h (rw (quiet.currency_read a.currency_id s) (rw g refl))),
        )
        | inl (none, g) ↦ inl (
          err_currency_not_found,
          λ cache.
              rw (quiet.account_read id s)
                (rw h (rw (quiet.currency_read a.currency_id s) (rw g refl))),
        )
        | inl (some c, g) ↦ inr (fetch-read id a c s h g)
      ]
    ]

    -- A look for an account leaves the store, and the other keys of the cache, as they were.
    step_or :
        (o : Option (CachedPortfolio ObjectId)) (id : ObjectId) (s : S)
        (c : Map (CachedPortfolio ObjectId))
        → let t =
            (account_or floats world uc o (fetch_account_portfolio floats world uc id) (s, c)).1 in
          (t.0 ≡ s)
          × ((j : String) → j ≢ account_key floats world uc id → lookup j t.1 ≡ lookup j c)
    unfolding keep_account
    step_or (some e) id s c = (refl, λ j other. refl)
    step_or none id s c = elim (fetch-cases id s) [
      | inl (e, h) ↦ rw (h c) (refl, λ j other. refl)
      | inr (p, h) ↦
          let k = account_key floats world uc id in
          let entry : CachedPortfolio ObjectId = record {
            portfolio = none;
            account_portfolio = some p;
            timestamp = world.now s;
          } in
          rw (h c) (
            refl,
            λ j other.
                lookup-insert k j entry c
                ∙ ap (λ (b : Bool). if b then some entry else lookup j c)
                    (eq-false_of_ne k j (λ e. other (sym e))),
          )
    ]

    -- What it gives depends on the account's own entry only.
    result_or :
        (o : Option (CachedPortfolio ObjectId)) (id : ObjectId) (s : S)
        (c d : Map (CachedPortfolio ObjectId))
        → (account_or floats world uc o (fetch_account_portfolio floats world uc id) (s, c)).0
          ≡ (account_or floats world uc o (fetch_account_portfolio floats world uc id) (s, d)).0
    unfolding keep_account
    result_or (some e) id s c d = refl
    result_or none id s c d = elim (fetch-cases id s) [
      | inl (e, h) ↦ rw (h c) (rw (h d) refl)
      | inr (p, h) ↦ rw (h c) (rw (h d) refl)
    ]

    result-agree :
        (id : ObjectId) (s : S) (c d : Map (CachedPortfolio ObjectId))
        → lookup (account_key floats world uc id) c ≡ lookup (account_key floats world uc id) d
        → (get_account_portfolio floats world uc id (s, c)).0
          ≡ (get_account_portfolio floats world uc id (s, d)).0
    unfolding get_account_portfolio cached
    result-agree id s c d same =
        result_or (young floats world uc (world.now s) (lookup (account_key floats world uc id) c))
          id s c d
        ∙ ap
            (λ o.
              (account_or floats world uc (young floats world uc (world.now s) o)
                (fetch_account_portfolio floats world uc id) (s, d)).0)
            same

    gather_lem :
        (accounts : List (Account ObjectId)) (s t : S) (c d : Map (CachedPortfolio ObjectId))
        (ps : List (AccountPortfolio ObjectId))
        → t ≡ s
        → Distinct accounts
        → Agree c d accounts
        → (gather floats world uc accounts ps (t, c)).0 ≡ ps ++ portfolios_alone (s, d) accounts
    unfolding gather get_account_portfolio
    gather_lem [] s t c d ps same distinct agree = sym (append-nil ps)
    gather_lem (a ∷ rest) s t c d ps same (differs, distinct) (here, agree) =
        let o = cached floats world uc (key a) (t, c) in
        let (unchanged, others) = step_or o a.id t c in
        let r = get_account_portfolio floats world uc a.id (t, c) in
        gather_lem rest s r.1.0 r.1.1 d (add_portfolio floats world uc r.0 ps) (unchanged ∙ same)
          distinct (Agree-trans (key a) r.1.1 c d rest others differs agree)
        ∙ ap (λ l. l ++ portfolios_alone (s, d) rest)
            (add_lem r.0 ps
              ∙ ap (λ x. ps ++ portfolio_if_any x)
                  (result-agree a.id t c d here
                    ∙ ap (λ (u : S). (get_account_portfolio floats world uc a.id (u, d)).0) same))
        ∙ append_assoc ps (portfolio_if_any (get_account_portfolio floats world uc a.id (s, d)).0)
            (portfolios_alone (s, d) rest)

    -- In whatever order the goroutines of GetWalletPortfolio run, when the reads leave the store as it
    -- is, nothing young is in the cache for the wallet, it has accounts, and no two accounts have the
    -- same key, the wallet's portfolio has, in this order, the portfolios that GetAccountPortfolio
    -- gives for each account alone, and without a word none for an account for which it fails; its
    -- value is the sum over the portfolios that it has.
    pub wallet_alone :
        (order : List (Account ObjectId) → List (Account ObjectId)) (id : ObjectId)
        (a : Account ObjectId) (rest : List (Account ObjectId)) (s s' : S)
        (cache : Map (CachedPortfolio ObjectId))
        → cached floats world uc (wallet_key floats world uc id) (s, cache) ≡ none
        → uc.accounts.get_by_wallet_id id s ≡ (ok (a ∷ rest), s')
        → Distinct (order (a ∷ rest))
        → (get_wallet_portfolio floats world uc order id (s, cache)).0 ≡ (
            let ps = portfolios_alone (s', cache) (order (a ∷ rest)) in
            ok (
              some record {
                wallet_id = id;
                accounts = ps;
                wallet_usd_value =
                    foldl floats.add 0
                      (map (λ (x : AccountPortfolio ObjectId). x.total_usd_value) ps);
              }))
    wallet_alone order id a rest s s' cache miss found distinct =
        ap (λ (r : Result (Option (WalletPortfolio ObjectId)) × State floats world uc). r.0)
          (wallet_fetched floats world uc order id a rest s s' cache miss found)
        ∙ ap (λ ps. ok (some (new_wallet_portfolio floats id ps)))
            (gather_lem (order (a ∷ rest)) s' s' cache cache [] refl distinct
              (Agree-refl cache (order (a ∷ rest))))
        ∙ new_wallet_portfolio_lem id (portfolios_alone (s', cache) (order (a ∷ rest)))
