-- ===== src/Portfolio/Examples.antt =====
-- The theorems on src/usecases/portfolio_usecase.go at a small instance: the store is the time.
use mathlib.Core.List.{foldl}
use go_blockchain_watcher.Prelude.{
  map, ℕ, ◌+◌, ◌*◌, String, ◌≡◌, ◌≢◌, refl, Bool, true, false, false≢true, sym, ap, ◌∙◌, some, none,
  List, [], ◌∷◌, ◌==◌, eqb, arith, if◌then◌else◌,
}
use go_blockchain_watcher.Errors.{ok, err, errors_new}
use go_blockchain_watcher.Currencies.{Currency}
use go_blockchain_watcher.Accounts.{Account}
use go_blockchain_watcher.Accounts.Adapter.{World, AccountRepository}
use go_blockchain_watcher.Map.{lookup}
use go_blockchain_watcher.Portfolio.{Floats, AccountPortfolio}
use go_blockchain_watcher.Portfolio.UseCase.{
  Portfolios, cached, keep_account, fetch_account_portfolio, get_account_portfolio,
  get_wallet_portfolio, get_balance,
}
use go_blockchain_watcher.Portfolio.Caching.{after_balance, balance_unseen}
use go_blockchain_watcher.Portfolio.Gathering.{Quiet, portfolios_alone, wallet_alone}

abbrev floats : Floats
floats = record { add = λ x y. x + y; mul = λ x y. x * y }

abbrev world : World ℕ ℕ
world = record { new_object_id = λ s. 9; now = λ s. s; context_error = λ s. none }

abbrev account : ℕ → Account ℕ
account id = record {
  id = id;
  currency_id = 3;
  chain_id = 0;
  wallet_id = 4;
  user_id = 5;
  supported_currency_id = 0;
  account_type = "";
  wallet_address = "a";
  balance = 7;
  encrypted_private_key = "";
  deleted_at = none;
  created_at = 0;
  updated_at = 0;
}

abbrev currency : Currency ℕ
currency = record {
  id = 3;
  name = "Bitcoin";
  symbol = "BTC";
  is_crypto = true;
  logo = "";
  website = "";
  explorer = "";
  description = "";
  created_at = 0;
  updated_at = 0;
}

-- The second account cannot be read. An update takes a moment.
abbrev accounts : AccountRepository ℕ ℕ
accounts = record {
  get_by_id =
      λ id s. if eqb id 2 then (err (errors_new "timeout"), s) else (ok (some (account id)), s);
  get_by_wallet_id = λ id s. (ok (account 1 ∷ account 2 ∷ []), s);
  get_by_address = λ address s. (ok none, s);
  count_by_address = λ address s. (ok 0, s);
  check_duplicate_account = λ address u c d s. (ok false, s);
  create = λ a s. (ok a, s);
  update = λ a s. (ok tt, s + 1);
  delete = λ id s. (ok tt, s);
}

abbrev uc : Portfolios ℕ ℕ
uc = record {
  accounts = accounts;
  currencies = λ id s. (ok (some currency), s);
  chains = λ id s. (ok none, s);
  get_balance = λ symbol address c s. (ok 8, s);
  hex = λ id. if eqb id 1 then "1" else "2";
  is_zero = λ id. eqb id 0;
}

abbrev swap : List (Account ℕ) → List (Account ℕ)
swap (a ∷ b ∷ rest) = b ∷ a ∷ rest
swap l = l

balance_unseen_example :
    (p : AccountPortfolio ℕ) × ((get_account_portfolio floats world uc 1 (6, [])).0 ≡ ok (some p))
    × (p.token.balance ≡ 7)
    × (get_account_portfolio floats world uc 1 (after_balance floats world uc 1 6 [])
        ≡ (ok (some p), after_balance floats world uc 1 6 []))
unfolding get_account_portfolio fetch_account_portfolio keep_account cached lookup get_balance
balance_unseen_example =
    balance_unseen floats world uc 1 (account 1) currency 6 6 6 [] refl refl refl refl

quiet_reads : Quiet uc
quiet_reads = record {
  account_read = λ id s. account_same id s;
  currency_read = λ id s. refl;
  chain_read = λ id s. refl;
}
  where
    account_same : (id s : ℕ) → (accounts.get_by_id id s).1 ≡ s
    account_same id s = ground arith

abbrev is_first : String → Bool
is_first k = k == "account-portfolio:1"

different : (key other : String) → is_first key ≡ true → is_first other ≡ false → key ≢ other
different key other e f same = false≢true (sym f ∙ ap is_first (sym same) ∙ e)

wallet_alone_example : (get_wallet_portfolio floats world uc swap 4 (6, [])).0 ≡ (
    let ps = portfolios_alone floats world uc (6, []) (account 2 ∷ account 1 ∷ []) in
    ok (
      some record {
        wallet_id = 4;
        accounts = ps;
        wallet_usd_value =
            foldl floats.add 0 (map (λ (x : AccountPortfolio ℕ). x.total_usd_value) ps);
      }))
unfolding cached lookup
wallet_alone_example =
    wallet_alone floats world uc quiet_reads swap 4 (account 1) (account 2 ∷ []) 6 6 [] refl refl
      ((different _ _ refl refl, tt), (tt, tt))
