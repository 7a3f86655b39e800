-- ===== src/Currencies/Reads.antt =====
-- The repositories of currencies, chains and supported currencies in config/mongodb/repositories.go,
-- with src/adapters/{currency,chain,supported_currency}_adapter.go, which pass their answers on.
use go_blockchain_watcher.Prelude.{String, Bool, true, Option, none, some, List, ◌==◌}
use go_blockchain_watcher.Errors.{Result, ok, err, Exec, pure, or_fail, read, ◌>>=◌}
use go_blockchain_watcher.Values.{ℤ}
use go_blockchain_watcher.Mongo.{Collection}
use go_blockchain_watcher.Wallets.Adapter.{err_not_found}
use go_blockchain_watcher.Currencies.{Currency, Chain, SupportedCurrency}
use go_blockchain_watcher.Currencies.Pages

-- `FindOne` with `mongo.ErrNoDocuments` turned into `ErrNotFound`, and the adapter's pointer to it.
abbrev pub find_or_fail : {Doc S : Type 0} → Collection Doc S → (Doc → Bool) → Exec S (Option Doc)
find_or_fail docs test = do
  found ← read (docs.find_one test)
  d ← or_fail err_not_found found
  pure (some d)

module _ {ObjectId S : Type 0} (same : ObjectId → ObjectId → Bool) where
  unfoldable pub get_currency_by_id :
      Collection (Currency ObjectId) S → ObjectId → Exec S (Option (Currency ObjectId))
  get_currency_by_id currencies id =
      find_or_fail currencies (λ (c : Currency ObjectId). same c.id id)

  unfoldable pub get_chain_by_id :
      Collection (Chain ObjectId) S → ObjectId → Exec S (Option (Chain ObjectId))
  get_chain_by_id chains id = find_or_fail chains (λ (c : Chain ObjectId). same c.id id)

  unfoldable pub get_supported_currency_by_id :
      Collection (SupportedCurrency ObjectId) S
      → ObjectId
      → Exec S (Option (SupportedCurrency ObjectId))
  get_supported_currency_by_id supported id =
      find_or_fail supported (λ (c : SupportedCurrency ObjectId). same c.id id)

  unfoldable pub get_supported_currencies_by_chain_id :
      Collection (SupportedCurrency ObjectId) S
      → ObjectId
      → Exec S (List (SupportedCurrency ObjectId))
  get_supported_currencies_by_chain_id supported chain_id =
      read (supported.find (λ (c : SupportedCurrency ObjectId). same c.chain_id chain_id))

module _ {ObjectId S : Type 0} where
  unfoldable pub get_currency_by_symbol :
      Collection (Currency ObjectId) S → String → Exec S (Option (Currency ObjectId))
  get_currency_by_symbol currencies symbol =
      find_or_fail currencies (λ (c : Currency ObjectId). c.symbol == symbol)

  unfoldable pub get_currencies :
      Collection (Currency ObjectId) S → Exec S (List (Currency ObjectId))
  get_currencies currencies = read (currencies.find (λ c. true))

  unfoldable pub get_chain_by_symbol :
      Collection (Chain ObjectId) S → String → Exec S (Option (Chain ObjectId))
  get_chain_by_symbol chains symbol =
      find_or_fail chains (λ (c : Chain ObjectId). c.symbol == symbol)

module _ {A : Type 0} where
  abbrev pub or_panic : Option (List A) → Option (Result (List A))
  or_panic none = none
  or_panic (some page) = some (ok page)

  abbrev pub page_of : ℤ → ℤ → Result (List A) → Option (Result (List A))
  page_of limit skip (err e) = some (err e)
  page_of limit skip (ok currencies) = or_panic (Pages.page limit skip currencies)

-- `Find` of all documents with a sort key is a parameter, as is the filter on the field `symbol`,
-- which the struct of a supported currency does not have.
module _ {ObjectId S : Type 0} where
  unfoldable pub get_chains : (S → Result (List (Chain ObjectId))) → Exec S (List (Chain ObjectId))
  get_chains find_by_name = read find_by_name

  unfoldable pub get_supported_currencies :
      (S → Result (List (SupportedCurrency ObjectId))) → Exec S (List (SupportedCurrency ObjectId))
  get_supported_currencies find_newest_first = read find_newest_first

  unfoldable pub get_supported_currency_by_symbol :
      (String → SupportedCurrency ObjectId → Bool)
      → Collection (SupportedCurrency ObjectId) S
      → String
      → Exec S (Option (SupportedCurrency ObjectId))
  get_supported_currency_by_symbol has_symbol supported symbol =
      find_or_fail supported (has_symbol symbol)

  -- `GetBatch` of the adapter, with `none` for a panic.
  unfoldable pub get_batch :
      (S → Result (List (SupportedCurrency ObjectId)))
      → ℤ
      → ℤ
      → S
      → Option (Result (List (SupportedCurrency ObjectId))) × S
  unfolding get_supported_currencies
  get_batch find_newest_first limit skip s =
      let (r, t) = get_supported_currencies find_newest_first s in (page_of limit skip r, t)
