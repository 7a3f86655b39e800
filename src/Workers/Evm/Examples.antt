-- ===== src/Workers/Evm/Examples.antt =====
-- The theorems on the manager of internal/worker/evm/worker.go at a small instance.
use go_blockchain_watcher.Prelude.{
  ℕ, String, true, ◌≡◌, refl, some, List, [], ◌∷◌, ◌==◌, if◌then◌else◌, Bool-cases, inl, inr,
}
use go_blockchain_watcher.Errors.{Result, ok}
use go_blockchain_watcher.Map.{lookup}
use go_blockchain_watcher.Values.{pos}
use go_blockchain_watcher.Redis.{absent}
use go_blockchain_watcher.Redis.Memory.{Memory, memory}
use go_blockchain_watcher.Cache.{ResponseCodec, nil_value}
use go_blockchain_watcher.Workers.Evm.{
  ChainWorker, Worker, contains, is_chain_active, stop_chains, start_chains,
  manage_chains_based_on_orders, check_pending_orders_and_manage_chains,
}
use go_blockchain_watcher.Workers.Evm.Required.{Unique}
use go_blockchain_watcher.Workers.Evm.Chains.{manage_chains_lem, check_pending_orders_lem}

abbrev to_lower : String → String
to_lower x = if x == "ETH" then "eth" else if x == "BSC" then "bsc" else x

abbrev codec : ResponseCodec
codec = record { marshal = λ d. ok "true"; unmarshal = λ t. ok nil_value }

abbrev worker : String → ℕ → ChainWorker
worker symbol n = record {
  chain_symbol = symbol;
  context = n;
  start_time = 4;
  request_count = pos 0;
  error_count = pos 0;
}

-- Two active chains, and orders for one of them, for a third and for one that is no EVM chain.
abbrev manager : Worker Memory
manager = record {
  active_chains = ("eth", worker "eth" 0) ∷ ("op", worker "op" 1) ∷ [];
  next_context = 2;
  cancelled = [];
  store = λ j. absent;
}

abbrev pending : Memory → Result (List String)
pending s = ok ("ETH" ∷ "TRX" ∷ "BSC" ∷ [])

now : Memory → ℕ
now s = 9

manage_chains_lem_example :
    manage_chains_based_on_orders to_lower now memory codec ("op" ∷ "eth" ∷ []) manager
    ≡ start_chains to_lower now memory codec
        ("op" ∷ "eth" ∷ [])
        (stop_chains ("op" ∷ "eth" ∷ []) manager)
unfolding lookup
manage_chains_lem_example =
    manage_chains_lem to_lower now memory codec ("op" ∷ "eth" ∷ []) manager (refl, (refl, tt))

idempotent : (x : String) → to_lower (to_lower x) ≡ to_lower x
idempotent x = elim (Bool-cases (x == "ETH")) [
  | inl e ↦ rw e refl
  | inr e ↦ elim (Bool-cases (x == "BSC")) [
    | inl f ↦ rw e (rw f refl)
    | inr f ↦ rw e (rw f (rw e (rw f refl)))
  ]
]

check_pending_orders_lem_example :
    let w = check_pending_orders_and_manage_chains to_lower now memory codec pending manager in
    ((chain : String) → is_chain_active chain w ≡ contains ("eth" ∷ "bsc" ∷ []) chain)
    × ((chain : String) (x : ChainWorker)
        → contains ("eth" ∷ "bsc" ∷ []) chain ≡ true
        → lookup chain manager.active_chains ≡ some x
        → lookup chain w.active_chains ≡ some x)
    × (w.cancelled ≡ 1 ∷ [])
    × Unique w.active_chains
unfolding lookup contains
check_pending_orders_lem_example =
    check_pending_orders_lem to_lower now memory codec pending ("ETH" ∷ "TRX" ∷ "BSC" ∷ []) manager
      idempotent refl (refl, (refl, tt))
