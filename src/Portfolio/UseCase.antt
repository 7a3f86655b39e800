-- ===== src/Portfolio/UseCase.antt =====
-- src/usecases/portfolio_usecase.go over any repositories. The state is the store and the use case's
-- cache; the portfolios that its pointers share are not changed after they were made.
use Prim.Native.String.{◌++◌}
use go_blockchain_watcher.Prelude.{
  ◌-◌, ◌*◌, ◌^◌, String, Bool, Option, none, some, List, [], ◌∷◌, ◌==◌, ltb, appended,
  if◌then◌else◌,
}
use go_blockchain_watcher.Errors.{Error, errors_new, Result, ok, Exec, fail, or_fail, ◌>>=◌}
use go_blockchain_watcher.Values.{Time, Float64}
use go_blockchain_watcher.Map.{Map, lookup, insert}
use go_blockchain_watcher.Currencies.{Currency, Chain}
use go_blockchain_watcher.Accounts.{Account, update_balance}
use go_blockchain_watcher.Accounts.Adapter.{World, AccountRepository}
use go_blockchain_watcher.Accounts.UseCase.{
  Getter, err_account_not_found, err_currency_not_found, err_chain_not_found,
}
use go_blockchain_watcher.Portfolio.{
  Floats, AccountPortfolio, WalletPortfolio, new_token_data, new_account_portfolio,
  new_wallet_portfolio,
}

-- cachedPortfolio; `none` is a nil pointer.
pub record CachedPortfolio (ObjectId : Type 0) : Type 0 where
  pub portfolio : Option (WalletPortfolio ObjectId)
  pub account_portfolio : Option (AccountPortfolio ObjectId)
  pub timestamp : Time

-- PortfolioUseCase, without the logger and the cache. `get_balance` is that of the blockchain service,
-- for no supported currency.
pub record Portfolios (ObjectId S : Type 0) : Type 0 where
  pub accounts : AccountRepository ObjectId S
  pub currencies : Getter ObjectId (Currency ObjectId) S
  pub chains : Getter ObjectId (Chain ObjectId) S
  pub get_balance : String → String → Currency ObjectId → Exec S Float64
  pub hex : ObjectId → String
  pub is_zero : ObjectId → Bool

abbrev pub err_no_wallet_address : Error
err_no_wallet_address = errors_new "account has no wallet address"

-- 5 minutes, in nanoseconds.
abbrev pub cache_ttl : Time
cache_ttl = 5 * 60 * 10 ^ 9

-- `getTokenPrice`, which never fails: 40000, 2000, 100, 0.1, 1 and 1 as `float64`, or else 0.
abbrev pub mock_prices : Map Float64
mock_prices =
    ("BTC", 4675730371722084352)
    ∷ ("ETH", 4656510908468559872)
    ∷ ("SOL", 4636737291354636288)
    ∷ ("TRX", 4591870180066957722)
    ∷ ("USDT", 4607182418800017408)
    ∷ ("USDC", 4607182418800017408)
    ∷ []

abbrev price_or_zero : Option Float64 → Float64
price_or_zero none = 0
price_or_zero (some p) = p

unfoldable pub get_token_price : String → Float64
unfolding lookup
get_token_price symbol = price_or_zero (lookup symbol mock_prices)

module _ {ObjectId S : Type 0} (floats : Floats) (world : World ObjectId S)
    (uc : Portfolios ObjectId S) where
  abbrev pub State : Type 0
  State = S × Map (CachedPortfolio ObjectId)

  -- A call of a repository leaves the cache alone.
  abbrev pub lift : {A : Type 0} → Exec S A → Exec State A
  lift m (s, cache) = let (r, t) = m s in (r, (t, cache))

  -- The entry, if it is there and was stored less than five minutes ago.
  abbrev pub young : Time → Option (CachedPortfolio ObjectId) → Option (CachedPortfolio ObjectId)
  young now none = none
  young now (some c) = if ltb (now - c.timestamp) cache_ttl then some c else none

  unfoldable pub cached : String → State → Option (CachedPortfolio ObjectId)
  cached key (s, cache) = young (world.now s) (lookup key cache)

  abbrev pub account_key : ObjectId → String
  account_key id = "account-portfolio:" ++ uc.hex id

  abbrev pub wallet_key : ObjectId → String
  wallet_key id = "wallet-portfolio:" ++ uc.hex id

  unfoldable pub keep_account :
      ObjectId → AccountPortfolio ObjectId → Exec State (Option (AccountPortfolio ObjectId))
  keep_account id p (s, cache) = (
    ok (some p),
    (
      s,
      insert (account_key id)
          (record { portfolio = none; account_portfolio = some p; timestamp = world.now s }) cache,
    ),
  )

  abbrev pub symbol_of : Result (Option (Chain ObjectId)) → String
  symbol_of (ok (some c)) = c.symbol
  symbol_of _ = ""

  -- A chain that cannot be read has no symbol.
  abbrev pub chain_symbol : ObjectId → Exec State String
  chain_symbol id (s, cache) =
      if uc.is_zero id
      then (ok "", (s, cache))
      else (let (r, t) = uc.chains id s in (ok (symbol_of r), (t, cache)))

  abbrev pub portfolio_of :
      Account ObjectId → Currency ObjectId → String → AccountPortfolio ObjectId
  portfolio_of a c symbol = new_account_portfolio floats a.id a.wallet_address (
      new_token_data floats c.symbol a.balance (get_token_price c.symbol)
        (record { id = a.chain_id; symbol = symbol }))

  -- The part of `GetAccountPortfolio` after the look into the cache.
  unfoldable pub fetch_account_portfolio :
      ObjectId → Exec State (Option (AccountPortfolio ObjectId))
  unfolding keep_account
  fetch_account_portfolio id = do
    found ← lift (uc.accounts.get_by_id id)
    a ← or_fail err_account_not_found found
    currency ← lift (uc.currencies a.currency_id)
    c ← or_fail err_currency_not_found currency
    symbol ← chain_symbol a.chain_id
    keep_account id (portfolio_of a c symbol)

  abbrev pub account_or :
      Option (CachedPortfolio ObjectId)
      → Exec State (Option (AccountPortfolio ObjectId))
      → Exec State (Option (AccountPortfolio ObjectId))
  account_or (some c) fetch st = (ok c.account_portfolio, st)
  account_or none fetch st = fetch st

  unfoldable pub get_account_portfolio : ObjectId → Exec State (Option (AccountPortfolio ObjectId))
  unfolding fetch_account_portfolio
  get_account_portfolio id st =
      account_or (cached (account_key id) st) (fetch_account_portfolio id) st

  -- An account whose portfolio cannot be had is left out.
  abbrev pub add_portfolio :
      Result (Option (AccountPortfolio ObjectId))
      → List (AccountPortfolio ObjectId)
      → List (AccountPortfolio ObjectId)
  add_portfolio (ok (some p)) ps = appended ps p
  add_portfolio _ ps = ps

  -- The goroutines, one after another in the order in which they append their results.
  unfoldable pub gather :
      List (Account ObjectId)
      → List (AccountPortfolio ObjectId)
      → State
      → List (AccountPortfolio ObjectId) × State
  unfolding get_account_portfolio
  gather [] ps st = (ps, st)
  gather (a ∷ rest) ps st =
      let (r, t) = get_account_portfolio a.id st in gather rest (add_portfolio r ps) t

  abbrev pub keep_wallet :
      ObjectId
      → List (AccountPortfolio ObjectId) × State
      → Result (Option (WalletPortfolio ObjectId)) × State
  keep_wallet id (ps, (s, cache)) =
      let p = new_wallet_portfolio floats id ps in
      (
        ok (some p),
        (
          s,
          insert (wallet_key id)
              (record { portfolio = some p; account_portfolio = none; timestamp = world.now s })
              cache,
        ),
      )

  -- The portfolio of a wallet without accounts is not kept.
  abbrev pub wallet_of :
      (List (Account ObjectId) → List (Account ObjectId))
      → ObjectId
      → List (Account ObjectId)
      → Exec State (Option (WalletPortfolio ObjectId))
  wallet_of order id [] st =
      (ok (some (record { wallet_id = id; accounts = []; wallet_usd_value = 0 })), st)
  wallet_of order id (a ∷ rest) st = keep_wallet id (gather (order (a ∷ rest)) [] st)

  abbrev pub wallet_or :
      Option (CachedPortfolio ObjectId)
      → Exec State (Option (WalletPortfolio ObjectId))
      → Exec State (Option (WalletPortfolio ObjectId))
  wallet_or (some c) fetch st = (ok c.portfolio, st)
  wallet_or none fetch st = fetch st

  -- The order of the goroutines is an argument.
  unfoldable pub get_wallet_portfolio :
      (List (Account ObjectId) → List (Account ObjectId))
      → ObjectId
      → Exec State (Option (WalletPortfolio ObjectId))
  unfolding gather
  get_wallet_portfolio order id st =
      wallet_or (cached (wallet_key id) st)
        (do accounts ← lift (uc.accounts.get_by_wallet_id id); wallet_of order id accounts) st

  -- The end of `GetBalance`: the balance is given back, be it saved or not.
  abbrev pub save_balance : Account ObjectId → Float64 → Exec S Float64
  save_balance a balance s =
      let (r, t) = uc.accounts.update (update_balance balance (world.now s) a) s in (ok balance, t)

  unfoldable pub get_balance : ObjectId → Exec S Float64
  unfolding update_balance
  get_balance id = do
    found ← uc.accounts.get_by_id id
    a ← or_fail err_account_not_found found
    if a.wallet_address == ""
        then fail err_no_wallet_address
        else if uc.is_zero a.chain_id
        then fail err_chain_not_found
        else do
          chain ← uc.chains a.chain_id
          ch ← or_fail err_chain_not_found chain
          currency ← uc.currencies a.currency_id
          c ← or_fail err_currency_not_found currency
          balance ← uc.get_balance ch.symbol a.wallet_address c
          save_balance a balance
