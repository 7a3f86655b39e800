-- ===== src/Portfolio/Caching.antt =====
-- What the cache of src/usecases/portfolio_usecase.go gives within five minutes.
use go_blockchain_watcher.Prelude.{
  ◌-◌, ◌≡◌, refl, subst, sym, ap, ◌∙◌, String, Bool, true, Bool-cases, inl, inr, Option, some, none,
  List, [], ◌∷◌, ltb, eq_refl, if◌then◌else◌,
}
use go_blockchain_watcher.Errors.{Result, ok}
use go_blockchain_watcher.Map.{Map, lookup, insert, lookup-insert}
use go_blockchain_watcher.Currencies.{Currency}
use go_blockchain_watcher.Accounts.{Account}
use go_blockchain_watcher.Accounts.Adapter.{World}
use go_blockchain_watcher.Portfolio.{
  Floats, AccountPortfolio, WalletPortfolio, new_wallet_portfolio,
}
use go_blockchain_watcher.Portfolio.UseCase.{
  CachedPortfolio, Portfolios, cache_ttl, State, young, cached, account_key, wallet_key,
  keep_account, symbol_of, portfolio_of, fetch_account_portfolio, get_account_portfolio, gather,
  keep_wallet, get_wallet_portfolio, get_balance,
}

module _ {ObjectId S : Type 0} (floats : Floats) (world : World ObjectId S)
    (uc : Portfolios ObjectId S) where
  -- An entry that was stored a short time ago.
  cached-insert :
      (key : String) (c : CachedPortfolio ObjectId) (cache : Map (CachedPortfolio ObjectId)) (t : S)
      → ltb (world.now t - c.timestamp) cache_ttl ≡ true
      → cached floats world uc key (t, insert key c cache) ≡ some c
  unfolding cached
  cached-insert key c cache t recent =
      ap (λ r. young floats world uc (world.now t) r)
        (lookup-insert key key c cache
          ∙ ap (λ (b : Bool). if b then some c else lookup key cache) (eq_refl key))
      ∙ ap (λ (b : Bool). if b then some c else none) recent

  abbrev first_account : ObjectId → S → Map (CachedPortfolio ObjectId) → State floats world uc
  first_account id s cache = (get_account_portfolio floats world uc id (s, cache)).1

  -- The state after a GetBalance, which leaves the cache alone.
  abbrev balanced : ObjectId → State floats world uc → State floats world uc
  balanced id st = ((get_balance floats world uc id st.0).1, st.1)

  -- The state when GetBalance has followed GetAccountPortfolio.
  abbrev pub after_balance : ObjectId → S → Map (CachedPortfolio ObjectId) → State floats world uc
  after_balance id s cache = balanced id (first_account id s cache)

  -- A portfolio that was kept a short time ago is given back.
  repeated_account :
      (id : ObjectId) (p : AccountPortfolio ObjectId) (u t : S)
      (cache : Map (CachedPortfolio ObjectId))
      → ltb (world.now t - world.now u) cache_ttl ≡ true
      → let kept = (keep_account floats world uc id p (u, cache)).1.1 in
        get_account_portfolio floats world uc id (t, kept) ≡ (ok (some p), (t, kept))
  unfolding get_account_portfolio keep_account
  repeated_account id p u t cache recent =
      let entry : CachedPortfolio ObjectId = record {
        portfolio = none;
        account_portfolio = some p;
        timestamp = world.now u;
      } in
      rw (cached-insert (account_key floats world uc id) entry cache t recent) refl

  fetches :
      (id : ObjectId) (a : Account ObjectId) (c : Currency ObjectId) (s s' t : S)
      (cache : Map (CachedPortfolio ObjectId))
      → cached floats world uc (account_key floats world uc id) (s, cache) ≡ none
      → uc.accounts.get_by_id id s ≡ (ok (some a), s')
      → uc.currencies a.currency_id s' ≡ (ok (some c), t)
      → (symbol : String) × (u : S) × (get_account_portfolio floats world uc id (s, cache)
          ≡ keep_account floats world uc id (portfolio_of floats world uc a c symbol) (u, cache))
  unfolding get_account_portfolio fetch_account_portfolio
  fetches id a c s s' t cache miss found currency = elim (Bool-cases (uc.is_zero a.chain_id)) [
    | inl z ↦ ("", t, rw miss (rw found (rw currency (rw z refl))))
    | inr z ↦ (
      symbol_of floats world uc (uc.chains a.chain_id t).0,
      (uc.chains a.chain_id t).1,
      rw miss (rw found (rw currency (rw z refl))),
    )
  ]

  -- What GetAccountPortfolio that finds nothing young in the cache, and reads the account and its
  -- currency, gives, GetAccountPortfolio gives again after a GetBalance of the account, however that
  -- ends and whatever balance it saves, as long as it is called within five minutes: the portfolio with
  -- the balance that the account had at first. The second call changes nothing.
  pub balance_unseen :
      (id : ObjectId) (a : Account ObjectId) (c : Currency ObjectId) (s s' t : S)
      (cache : Map (CachedPortfolio ObjectId))
      → cached floats world uc (account_key floats world uc id) (s, cache) ≡ none
      → uc.accounts.get_by_id id s ≡ (ok (some a), s')
      → uc.currencies a.currency_id s' ≡ (ok (some c), t)
      → ltb
          (world.now (after_balance id s cache).0 - world.now (first_account id s cache).0)
          cache_ttl
        ≡ true
      → (p : AccountPortfolio ObjectId) × ((get_account_portfolio floats world uc id (s, cache)).0
          ≡ ok (some p))
        × (p.token.balance ≡ a.balance)
        × (get_account_portfolio floats world uc id (after_balance id s cache)
            ≡ (ok (some p), after_balance id s cache))
  unfolding keep_account get_account_portfolio
  balance_unseen id a c s s' t cache miss found currency recent =
      let (symbol, u, e) = fetches id a c s s' t cache miss found currency in
      let p = portfolio_of floats world uc a c symbol in
      (
        p,
        rw e refl,
        refl,
        subst
            (λ (st : State floats world uc).
              ltb (world.now (balanced id st).0 - world.now st.0) cache_ttl ≡ true
              → get_account_portfolio floats world uc id (balanced id st)
                ≡ (ok (some p), balanced id st))
            (ap (λ (r : Result (Option (AccountPortfolio ObjectId)) × State floats world uc). r.1)
              (sym e))
            (λ young. repeated_account id p u (get_balance floats world uc id u).1 cache young)
            recent,
      )

  pub wallet_fetched :
      (order : List (Account ObjectId) → List (Account ObjectId)) (id : ObjectId)
      (a : Account ObjectId) (rest : List (Account ObjectId)) (s s' : S)
      (cache : Map (CachedPortfolio ObjectId))
      → cached floats world uc (wallet_key floats world uc id) (s, cache) ≡ none
      → uc.accounts.get_by_wallet_id id s ≡ (ok (a ∷ rest), s')
      → get_wallet_portfolio floats world uc order id (s, cache)
        ≡ keep_wallet floats world uc id (gather floats world uc (order (a ∷ rest)) [] (s', cache))
  unfolding get_wallet_portfolio
  wallet_fetched order id a rest s s' cache miss found = rw miss (rw found refl)

  -- GetWalletPortfolio that finds nothing young in the cache, and reads at least one account, gives the
  -- portfolio of the accounts whose portfolios could be had, and within five minutes of this, in
  -- whatever store, with whatever order of the goroutines, it gives the same portfolio and
  -- changes nothing, if the cache has not changed in between.
  pub wallet_unchanged :
      (order order' : List (Account ObjectId) → List (Account ObjectId)) (id : ObjectId)
      (a : Account ObjectId) (rest : List (Account ObjectId)) (s s' t : S)
      (cache : Map (CachedPortfolio ObjectId))
      → cached floats world uc (wallet_key floats world uc id) (s, cache) ≡ none
      → uc.accounts.get_by_wallet_id id s ≡ (ok (a ∷ rest), s')
      → ltb
          (world.now t - world.now (get_wallet_portfolio floats world uc order id (s, cache)).1.0)
          cache_ttl
        ≡ true
      → (p : WalletPortfolio ObjectId) × ((get_wallet_portfolio floats world uc order id
            (s, cache)).0
          ≡ ok (some p))
        × (p.accounts ≡ (gather floats world uc (order (a ∷ rest)) [] (s', cache)).0)
        × (get_wallet_portfolio floats world uc order' id
              (t, (get_wallet_portfolio floats world uc order id (s, cache)).1.1)
            ≡ (ok (some p), (t, (get_wallet_portfolio floats world uc order id (s, cache)).1.1)))
  unfolding get_wallet_portfolio
  wallet_unchanged order order' id a rest s s' t cache miss found recent =
      let gathered = gather floats world uc (order (a ∷ rest)) [] (s', cache) in
      let p = new_wallet_portfolio floats id gathered.0 in
      let e = wallet_fetched order id a rest s s' cache miss found in
      let entry : CachedPortfolio ObjectId = record {
        portfolio = some p;
        account_portfolio = none;
        timestamp = world.now gathered.1.0;
      } in
      (
        p,
        ap (λ (r : Result (Option (WalletPortfolio ObjectId)) × State floats world uc). r.0) e,
        refl,
        subst
            (λ (st : State floats world uc).
              ltb (world.now t - world.now st.0) cache_ttl ≡ true
              → get_wallet_portfolio floats world uc order' id (t, st.1) ≡ (ok (some p), (t, st.1)))
            (ap (λ (r : Result (Option (WalletPortfolio ObjectId)) × State floats world uc). r.1)
              (sym e))
            (λ young.
              rw (cached-insert (wallet_key floats world uc id) entry gathered.1.1 t young) refl)
            recent,
      )
