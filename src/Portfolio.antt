-- ===== src/Portfolio.antt =====
-- src/types/portfolio.go: the values of the accounts of a wallet. The operations on `float64` are
-- parameters.
pub mod UseCase
pub mod Caching
pub mod Gathering
pub mod Examples
use go_blockchain_watcher.Prelude.{String, List, [], ◌∷◌}
use go_blockchain_watcher.Values.{Float64}

-- `+` and `*` on `float64`; nothing is assumed of them.
pub record Floats : Type 0 where
  pub add : Float64 → Float64 → Float64
  pub mul : Float64 → Float64 → Float64

pub record ChainReference (ObjectId : Type 0) : Type 0 where
  pub id : ObjectId
  pub symbol : String

pub record TokenData (ObjectId : Type 0) : Type 0 where
  pub symbol : String
  pub balance : Float64
  pub price : Float64
  pub usd_value : Float64
  pub chain_id : ChainReference ObjectId

pub record AccountPortfolio (ObjectId : Type 0) : Type 0 where
  pub account_id : ObjectId
  pub wallet_address : String
  pub token : TokenData ObjectId
  pub total_usd_value : Float64

pub record WalletPortfolio (ObjectId : Type 0) : Type 0 where
  pub wallet_id : ObjectId
  pub accounts : List (AccountPortfolio ObjectId)
  pub wallet_usd_value : Float64

pub record WalletPortfolioResponse (ObjectId : Type 0) : Type 0 where
  pub wallet_id : ObjectId
  pub name : String
  pub identifier : String
  pub wallet_portfolio : List (AccountPortfolio ObjectId)
  pub wallet_usd_value : Float64

module _ {ObjectId : Type 0} (floats : Floats) where
  abbrev pub new_token_data :
      String → Float64 → Float64 → ChainReference ObjectId → TokenData ObjectId
  new_token_data symbol balance price chain_id = record {
    symbol = symbol;
    balance = balance;
    price = price;
    usd_value = floats.mul balance price;
    chain_id = chain_id;
  }

  abbrev pub new_account_portfolio :
      ObjectId → String → TokenData ObjectId → AccountPortfolio ObjectId
  new_account_portfolio account_id wallet_address token = record {
    account_id = account_id;
    wallet_address = wallet_address;
    token = token;
    total_usd_value = token.usd_value;
  }

  -- The loop that adds the values, from a sum on.
  unfoldable pub add_values : Float64 → List (AccountPortfolio ObjectId) → Float64
  add_values total [] = total
  add_values total (p ∷ ps) = add_values (floats.add total p.total_usd_value) ps

  abbrev pub new_wallet_portfolio :
      ObjectId → List (AccountPortfolio ObjectId) → WalletPortfolio ObjectId
  new_wallet_portfolio wallet_id accounts = record {
    wallet_id = wallet_id;
    accounts = accounts;
    wallet_usd_value = add_values 0 accounts;
  }

  abbrev pub new_wallet_portfolio_response :
      ObjectId → String → String → WalletPortfolio ObjectId → WalletPortfolioResponse ObjectId
  new_wallet_portfolio_response wallet_id name identifier portfolio = record {
    wallet_id = wallet_id;
    name = name;
    identifier = identifier;
    wallet_portfolio = portfolio.accounts;
    wallet_usd_value = portfolio.wallet_usd_value;
  }
