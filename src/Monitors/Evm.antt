-- ===== src/Monitors/Evm.antt =====
-- managers/workers/evm_block_monitor.go: the job that publishes an event for each new block of a chain.
-- `Client` is the client of a node, whose answers are parameters, and so are the dialling, the printing
-- of numbers and the conversions of a `float64`.
pub mod Events
pub mod Job
pub mod Examples
use Prim.Native.String.{◌++◌}
use go_blockchain_watcher.Prelude.{
  ℕ, zero, suc, ◌+◌, ◌-◌, String, Bool, true, false, ◌&&◌, ◌||◌, Option, none, some, List, [], ◌∷◌,
  ◌==◌, eqb, ltb, first, if◌then◌else◌,
}
use go_blockchain_watcher.Errors.{Error, errors_new, errorf, Result, ok, err, wrap_result}
use go_blockchain_watcher.Map.{Map, lookup}
use go_blockchain_watcher.Values.{Float64, ℤ, pos, negsuc, Value, text, float64, int64, other}
use go_blockchain_watcher.Redis.{Redis}
use go_blockchain_watcher.Cache.{Dynamic, float_value, int_value, uint_value, number, ResponseCodec}
use go_blockchain_watcher.Cache
use go_blockchain_watcher.Monitors.Follow.{process_heights}

-- The fields of a `ChainConfig` that are set and read.
pub record ChainConfig : Type 0 where
  pub rpc_url : String
  pub chain_id : ℕ
  pub name : String
  pub symbol : String

-- `ChainConfigs`; the IDs differ, so that the order in which Go meets them does not matter.
abbrev pub chain_configs : List ChainConfig
chain_configs =
    record {
      rpc_url = "https://polygon-rpc.com";
      chain_id = 137;
      name = "Polygon";
      symbol = "MATIC";
    }
    ∷ record {
      rpc_url = "https://mainnet.optimism.io";
      chain_id = 10;
      name = "Optimism";
      symbol = "OP";
    }
    ∷ record {
      rpc_url = "https://rpc.xdaichain.com";
      chain_id = 100;
      name = "Gnosis Chain";
      symbol = "DAI";
    }
    ∷ record {
      rpc_url = "https://bsc-dataseed.binance.org";
      chain_id = 56;
      name = "BNB Chain";
      symbol = "BNB";
    }
    ∷ record {
      rpc_url = "https://arb1.arbitrum.io/rpc";
      chain_id = 42161;
      name = "Arbitrum One";
      symbol = "ARB";
    }
    ∷ record {
      rpc_url = "https://mainnet.infura.io/v3/9aa3d95b3bc440fa88ea12eaa4456161";
      chain_id = 1;
      name = "Ethereum";
      symbol = "ETH";
    }
    ∷ []

-- types.BlockData, the fields that are set for these chains.
pub record BlockData : Type 0 where
  pub chain_id : ℕ
  pub chain_symbol : String
  pub block_number : ℕ
  pub block_hash : String
  pub timestamp : ℕ
  pub parent_hash : String
  pub transactions : List String

-- What is read of a block of the node.
pub record NodeBlock : Type 0 where
  pub number : ℕ
  pub hash : String
  pub time : ℕ
  pub parent_hash : String
  pub transaction_hashes : List String

-- `block_by_number` gives `none` for `nil`.
pub record Node (Client : Type 0) : Type 0 where
  pub dial : String → Result Client
  pub block_number : Client → Result ℕ
  pub block_by_number : Client → ℕ → Result (Option NodeBlock)
  pub decimal : ℕ → String
  pub to_int : Float64 → ℤ
  pub to_uint64 : Float64 → ℕ

-- `constants.EVMBlockIdentifier`
abbrev pub evm_block_identifier : String
evm_block_identifier = "evm:last-block-height"

-- em.clients[chainID], where the last connection of a chain is first.
abbrev pub Clients : Type 0 → Type 0
Clients Client = List (ℕ × Client)

module _ {Client : Type 0} (node : Node Client) where
  -- The `chainId` of the job data: `none` is a value of another type.
  abbrev pub chain_id_of : Option Value → Option ℤ
  chain_id_of none = some (pos 0)
  chain_id_of (some (float64 f)) = some (node.to_int f)
  chain_id_of (some (int64 n)) = some n
  chain_id_of (some (text s)) = none
  chain_id_of (some other) = none

  -- An ID that is not one of the configured ones, be it negative, is not found.
  abbrev pub is_chain : ℤ → ChainConfig → Bool
  is_chain (pos n) c = eqb c.chain_id n
  is_chain (negsuc n) c = false

  abbrev pub is_zero_int : ℤ → Bool
  is_zero_int (pos n) = eqb n 0
  is_zero_int (negsuc n) = false

  pub data Target : Type 0 where
    invalid : Error → Target
    chain : ChainConfig → Target

  abbrev pub configured : Option ChainConfig → Target
  configured none = invalid (errors_new "unsupported chain ID")
  configured (some c) = chain c

  abbrev pub target_of : Option ℤ → Target
  target_of none = invalid (errors_new "invalid chainId type")
  target_of (some n) =
      if is_zero_int n
      then invalid (errors_new "no chainId found in job data")
      else configured (first (is_chain n) chain_configs)

  abbrev pub symbol_of : Option Value → ChainConfig → String
  symbol_of (some (text s)) c = if s == "" then c.symbol else s
  symbol_of _ c = c.symbol

  abbrev pub block_data : ℕ → String → NodeBlock → BlockData
  block_data chain_id symbol b = record {
    chain_id = chain_id;
    chain_symbol = symbol;
    block_number = b.number;
    block_hash = b.hash;
    timestamp = b.time;
    parent_hash = b.parent_hash;
    transactions = b.transaction_hashes;
  }

  abbrev pub block_of_answer : ℕ → String → Result (Option NodeBlock) → Result BlockData
  block_of_answer chain_id symbol (err e) = err (errorf "error fetching block" e)
  block_of_answer chain_id symbol (ok none) = err (errors_new "no block returned")
  block_of_answer chain_id symbol (ok (some b)) = ok (block_data chain_id symbol b)

  -- What `processBlockAtHeight` publishes, or its error. The height is converted to `int64`, which
  -- keeps the heights below 2^63.
  unfoldable pub block_at_height : Client → ℕ → String → ℕ → Result BlockData
  block_at_height client chain_id symbol height =
      block_of_answer chain_id symbol (node.block_by_number client height)

  -- The client of the chain, which is dialled when it is missing and then kept.
  abbrev pub client_of :
      ChainConfig → Option (ℕ × Client) → Clients Client → Result Client × Clients Client
  client_of c (some (i, client)) clients = (ok client, clients)
  client_of c none clients = elim (node.dial c.rpc_url) [
    | ok client ↦ (ok client, (c.chain_id, client) ∷ clients)
    | err e ↦ (err (errorf "failed to connect to chain" e), clients)
  ]

  abbrev pub get_client : ChainConfig → Clients Client → Result Client × Clients Client
  get_client c clients =
      client_of c (first (λ (p : ℕ × Client). eqb p.0 c.chain_id) clients) clients

  -- `Initialize`: a chain that cannot be dialled is left out.
  abbrev pub initialize_one : ChainConfig → Result Client → Clients Client → Clients Client
  initialize_one c (ok client) clients = (c.chain_id, client) ∷ clients
  initialize_one c (err e) clients = clients

  unfoldable pub initialize : List ChainConfig → Clients Client → Clients Client
  initialize [] clients = clients
  initialize (c ∷ cs) clients = initialize cs (initialize_one c (node.dial c.rpc_url) clients)

  abbrev pub cache_key : ChainConfig → String
  cache_key c = evm_block_identifier ++ ("_" ++ node.decimal c.chain_id)

  -- The type switch on the cached value; `uint64(int)` wraps around.
  abbrev pub uint_of : ℤ → ℕ
  uint_of (pos n) = n
  uint_of (negsuc n) = 18446744073709551615 - n

  abbrev pub last_height : Dynamic → ℕ
  last_height (float_value f) = node.to_uint64 f
  last_height (int_value i) = uint_of i
  last_height (uint_value n) = n
  last_height (number (ok i)) = uint_of i
  last_height _ = 0

  module _ {S : Type 0} (redis : Redis S) (codec : ResponseCodec) where
    abbrev pub save_height : ChainConfig → ℕ → S → Result (Unit {0}) × S
    save_height c height s = Cache.set redis codec (cache_key c) (uint_value height) 120 s

    -- The part after the latest height was fetched. Here the heights are processed before the latest
    -- one is saved.
    unfoldable pub process_latest :
        ChainConfig
        → String
        → Client
        → ℕ
        → Result ℕ
        → S
        → List BlockData
        → Result (Unit {0}) × S × List BlockData
    process_latest c symbol client last (err e) s log = (err e, s, log)
    process_latest c symbol client last (ok current) s log =
        if eqb last 0
        then (let (r, t) = save_height c current s in (r, t, log))
        else if ltb last current
        then (let (r, t) = save_height c current s in
            (
              r,
              t,
              process_heights (block_at_height client c.chain_id symbol) (current - last) (last + 1)
                  log,
            ))
        else (ok tt, s, log)

    unfoldable pub process_cached :
        ChainConfig
        → String
        → Client
        → Result Dynamic
        → S
        → List BlockData
        → Result (Unit {0}) × S × List BlockData
    unfolding process_latest
    process_cached c symbol client (err e) s log = (err e, s, log)
    process_cached c symbol client (ok cached) s log =
        process_latest c symbol client (last_height cached) (node.block_number client) s log

    -- The state of a monitor beside the cache and the log: its clients.
    abbrev pub State : Type 0
    State = S × Clients Client × List BlockData

    abbrev pub with_client :
        ChainConfig
        → String
        → Result Client × Clients Client
        → S
        → List BlockData
        → Result (Unit {0}) × State
    with_client c symbol (err e, clients) s log = (err e, (s, clients, log))
    with_client c symbol (ok client, clients) s log =
        let r = process_cached c symbol client (Cache.get redis codec (cache_key c) s) s log in
        (r.0, (r.1, clients, r.2))

    abbrev pub with_target : Option Value → Target → State → Result (Unit {0}) × State
    with_target symbol (invalid e) (s, clients, log) = (err e, (s, clients, log))
    with_target symbol (chain c) (s, clients, log) =
        with_client c (symbol_of symbol c) (get_client c clients) s log

    unfoldable pub process_block_monitor_job : Map Value → State → Result (Unit {0}) × State
    unfolding process_cached
    process_block_monitor_job job st =
        with_target (lookup "chainSymbol" job) (target_of (chain_id_of (lookup "chainId" job))) st
