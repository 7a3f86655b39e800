-- ===== src/Workers/Evm.antt =====
-- internal/worker/evm/worker.go: the manager that starts and stops the workers of the chains, as orders
-- are pending. `strings.ToLower` and the aggregation over the orders are parameters; a cancellable
-- context is a number. The goroutine of a worker, its delays and the logger are left out.
pub mod Required
pub mod Chains
pub mod Payments
pub mod Examples
use Prim.Native.String.{◌++◌}
use go_blockchain_watcher.Prelude.{
  ℕ, suc, ◌+◌, String, Bool, true, false, not, ◌&&◌, ◌||◌, Option, none, some, List, [], ◌∷◌, ◌==◌,
  map, select, appended, length, eqb, is_some, if◌then◌else◌,
}
use go_blockchain_watcher.Errors.{Result, ok, err}
use go_blockchain_watcher.Map.{Map, lookup, insert}
use go_blockchain_watcher.Values.{Time, ℤ, pos}
use go_blockchain_watcher.Redis.{Redis}
use go_blockchain_watcher.Cache.{other_value, ResponseCodec}
use go_blockchain_watcher.Cache

-- The fields of a `ChainConfig` that are set.
pub record ChainConfig : Type 0 where
  pub rpc_url : String
  pub chain_id : ℕ
  pub name : String
  pub symbol : String
  pub native_symbol : String
  pub decimals : ℕ

abbrev pub supported_chains : Map ChainConfig
supported_chains =
    (
      "eth",
      record {
        rpc_url = "https://rpc.ankr.com/eth";
        chain_id = 1;
        name = "Ethereum";
        symbol = "ETH";
        native_symbol = "ETH";
        decimals = 18;
      },
    )
    ∷ (
      "matic",
      record {
        rpc_url = "https://rpc.ankr.com/polygon";
        chain_id = 137;
        name = "Polygon";
        symbol = "MATIC";
        native_symbol = "MATIC";
        decimals = 18;
      },
    )
    ∷ (
      "op",
      record {
        rpc_url = "https://rpc.ankr.com/optimism";
        chain_id = 10;
        name = "Optimism";
        symbol = "OP";
        native_symbol = "ETH";
        decimals = 18;
      },
    )
    ∷ (
      "bsc",
      record {
        rpc_url = "https://rpc.ankr.com/bsc";
        chain_id = 56;
        name = "BNB Chain";
        symbol = "BSC";
        native_symbol = "BSC";
        decimals = 18;
      },
    )
    ∷ []

-- `context` is what `cancel` cancels.
pub record ChainWorker : Type 0 where
  pub chain_symbol : String
  pub context : ℕ
  pub start_time : Time
  pub request_count : ℤ
  pub error_count : ℤ

-- The state of the manager: the next context, those that were cancelled, oldest first, and the store of
-- the cache.
pub record Worker (S : Type 0) : Type 0 where
  pub active_chains : Map ChainWorker
  pub next_context : ℕ
  pub cancelled : List ℕ
  pub store : S

-- The map that is made of a slice has its elements.
unfoldable pub contains : List String → String → Bool
contains [] x = false
contains (y ∷ ys) x = (y == x) || contains ys x

unfoldable pub all_required : List String → Map ChainWorker → Bool
all_required required [] = true
all_required required (e ∷ rest) = contains required e.0 && all_required required rest

abbrev pub chains_match_current_state : List String → Map ChainWorker → Bool
chains_match_current_state required active =
    if eqb (length required) (length active) then all_required required active else false

abbrev pub cancel_all : List ℕ → Map ChainWorker → List ℕ
cancel_all cancelled [] = cancelled
cancel_all cancelled (e ∷ rest) = cancel_all (appended cancelled e.1.context) rest

module _ {S : Type 0} where
  unfoldable pub is_chain_active : String → Worker S → Bool
  is_chain_active chain w = is_some (lookup chain w.active_chains)

  -- The loop over the active chains meets each entry once: those that are not required are stopped
  -- and deleted.
  unfoldable pub stop_chains : List String → Worker S → Worker S
  stop_chains required w = record w {
    active_chains = select (λ (e : String × ChainWorker). contains required e.0) w.active_chains;
    cancelled =
        cancel_all w.cancelled
          (select (λ (e : String × ChainWorker). not (contains required e.0)) w.active_chains);
  }

  unfoldable pub stop_all_chains : Worker S → Worker S
  stop_all_chains w = record w {
    active_chains = [];
    cancelled = cancel_all w.cancelled w.active_chains;
  }

  module _ (to_lower : String → String) (now : S → Time) (redis : Redis S)
      (codec : ResponseCodec) where
    abbrev pub with_config : String → Option ChainConfig → Worker S → Option ChainWorker × Worker S
    with_config symbol none w = (none, w)
    with_config symbol (some c) w =
        let t =
          (Cache.set redis codec ("evm:chain:" ++ (symbol ++ ":active")) other_value 60
            w.store).1 in
        (
          some (record {
            chain_symbol = symbol;
            context = w.next_context;
            start_time = now t;
            request_count = pos 0;
            error_count = pos 0;
          }),
          record w { next_context = w.next_context + 1; store = t },
        )

    -- `nil` for a chain that is not supported.
    unfoldable pub start_chain_worker : String → Worker S → Option ChainWorker × Worker S
    start_chain_worker symbol w =
        with_config (to_lower symbol) (lookup (to_lower symbol) supported_chains) w

    abbrev pub keep_worker : String → Option ChainWorker × Worker S → Worker S
    keep_worker chain (none, w) = w
    keep_worker chain (some x, w) = record w { active_chains = insert chain x w.active_chains }

    abbrev pub start_chain : String → Option ChainWorker → Worker S → Worker S
    start_chain chain (some x) w = w
    start_chain chain none w = keep_worker chain (start_chain_worker chain w)

    unfoldable pub start_chains : List String → Worker S → Worker S
    start_chains [] w = w
    start_chains (chain ∷ rest) w =
        start_chains rest (start_chain chain (lookup chain w.active_chains) w)

    unfoldable pub manage_chains_based_on_orders : List String → Worker S → Worker S
    manage_chains_based_on_orders required w =
        let managed = start_chains required (stop_chains required w) in
        if chains_match_current_state required w.active_chains then w else managed

    -- The symbols of the chains with pending orders, of which those of other chains are left out.
    abbrev pub evm_chains : List String → List String
    evm_chains symbols =
        select (λ chain. is_some (lookup chain supported_chains)) (map to_lower symbols)

    abbrev pub managed_for : Result (List String) → Worker S → Worker S
    managed_for (err e) w = w
    managed_for (ok symbols) w = manage_chains_based_on_orders (evm_chains symbols) w

    unfoldable pub check_pending_orders_and_manage_chains :
        (S → Result (List String)) → Worker S → Worker S
    unfolding manage_chains_based_on_orders
    check_pending_orders_and_manage_chains aggregate w = managed_for (aggregate w.store) w
