-- ===== src/Workers/Evm/Chains.antt =====
-- Which chains the manager of internal/worker/evm/worker.go keeps running.
use go_blockchain_watcher.Prelude.{
  ◌≡◌, refl, sym, ap, ◌∙◌, String, Bool, true, false≢true, not, ◌||◌, none, some, List, [], ◌∷◌,
  ◌==◌, eq_iff, eq_refl, select, length, is_some, arith, inl, inr, Bool-cases, Option-cases,
}
use go_blockchain_watcher.Errors.{Result, ok}
use go_blockchain_watcher.Map.{lookup, insert, lookup-insert}
use go_blockchain_watcher.Values.{Time}
use go_blockchain_watcher.Redis.{Redis}
use go_blockchain_watcher.Cache.{ResponseCodec}
use go_blockchain_watcher.Workers.Evm.Required.{
  Unique, required-active, select-required, lookup-select, Unique-select, Unique-insert,
}
use go_blockchain_watcher.Workers.Evm.{
  ChainConfig, ChainWorker, Worker, supported_chains, contains, all_required,
  chains_match_current_state, is_chain_active, stop_chains, cancel_all, start_chain_worker,
  with_config, keep_worker, start_chain, start_chains, manage_chains_based_on_orders, evm_chains,
  check_pending_orders_and_manage_chains,
}

module _ {S : Type 0} (to_lower : String → String) (now : S → Time) (redis : Redis S)
    (codec : ResponseCodec) where
  -- The chains whose workers can be started.
  abbrev Startable : List String → Type 0
  Startable [] = Unit
  Startable (chain ∷ rest) =
      ((c : ChainConfig) × (lookup (to_lower chain) supported_chains ≡ some c)) × Startable rest

  -- Starting chains that are all active changes nothing.
  start_chains_active :
      (required : List String) (w : Worker S)
      → ((chain : String)
          → contains required chain ≡ true
          → is_some (lookup chain w.active_chains) ≡ true)
      → start_chains to_lower now redis codec required w ≡ w
  unfolding start_chains contains
  start_chains_active [] w active = refl
  start_chains_active (r ∷ rest) w active = elim (Option-cases (lookup r w.active_chains)) [
    | inl missing ↦ absurd (false≢true (rw missing at (active r (rw (eq_refl r) refl))))
    | inr (x, found) ↦
        rw found (start_chains_active rest w (λ chain c. active chain (ground (arith, c))))
  ]

  stop_chains_required :
      (required : List String) (w : Worker S)
      → all_required required w.active_chains ≡ true
      → stop_chains required w ≡ w
  unfolding stop_chains
  stop_chains_required required w h =
      let (kept, none_left) = select-required required w.active_chains h in
      rw kept (rw none_left refl)

  -- Comparing the active chains with the required ones first does not change what the management
  -- comes to, when no chain is in the map of active chains twice: whenever it returns early, as many
  -- chains being active as are required and each of them being required, to stop and to start chains
  -- would change nothing.
  pub manage_chains_lem :
      (required : List String) (w : Worker S)
      → Unique w.active_chains
      → manage_chains_based_on_orders to_lower now redis codec required w
        ≡ start_chains to_lower now redis codec required (stop_chains required w)
  unfolding manage_chains_based_on_orders
  manage_chains_lem required w unique =
      elim (Bool-cases (chains_match_current_state required w.active_chains)) [
        | inr differ ↦ rw differ refl
        | inl matched ↦
            let same : length required ≡ length w.active_chains = ground (arith, matched) in
            let h : all_required required w.active_chains ≡ true = ground (arith, matched) in
            rw matched (
              sym (
                ap (λ (v : Worker S). start_chains to_lower now redis codec required v)
                  (stop_chains_required required w h)
                ∙ start_chains_active required w
                    (λ chain c. required-active required w.active_chains chain unique same h c)))
      ]

  -- A state with more active chains, in which the workers from before go on.
  abbrev Grown : (String → Bool) → Worker S → Worker S → Type 0
  Grown more w w' =
      ((chain : String) → is_chain_active chain w' ≡ is_chain_active chain w || more chain)
      × ((chain : String) (x : ChainWorker)
          → lookup chain w.active_chains ≡ some x
          → lookup chain w'.active_chains ≡ some x)
      × (w'.cancelled ≡ w.cancelled)
      × (Unique w.active_chains → Unique w'.active_chains)

  inserted-Grown :
      (chain : String) (x : ChainWorker) (w w' : Worker S)
      → lookup chain w.active_chains ≡ none
      → w'.active_chains ≡ insert chain x w.active_chains
      → w'.cancelled ≡ w.cancelled
      → Grown (λ c. chain == c) w w'
  unfolding is_chain_active
  inserted-Grown chain x w w' missing e cancelled = (
    λ c. rw e (rw (lookup-insert chain c x w.active_chains) (ground arith)),
    λ c y found.
        rw e (
          lookup-insert chain c x w.active_chains ∙ ground (arith, missing, found, eq_iff chain c)),
    cancelled,
    λ unique. rw e (Unique-insert chain x w.active_chains unique),
  )

  start_chain-Grown :
      (chain : String) (c : ChainConfig) (w : Worker S)
      → lookup (to_lower chain) supported_chains ≡ some c
      → Grown
          (λ d. chain == d)
          w
          (start_chain to_lower now redis codec chain (lookup chain w.active_chains) w)
  unfolding start_chain_worker is_chain_active
  start_chain-Grown chain c w supported = elim (Option-cases (lookup chain w.active_chains)) [
    | inr (x, found) ↦
        rw found (λ d. ground (arith, found, eq_iff chain d), λ d y e. e, refl, λ u. u)
    | inl missing ↦ rw missing rw supported (
        inserted-Grown chain _ w
          (keep_worker to_lower now redis codec chain
            (with_config to_lower now redis codec (to_lower chain) (some c) w))
          missing refl refl)
  ]

  start_chains-Grown :
      (required : List String) (w : Worker S)
      → Startable required
      → Grown (contains required) w (start_chains to_lower now redis codec required w)
  unfolding start_chains contains is_chain_active
  start_chains-Grown [] w startable = (λ d. ground arith, λ d y e. e, refl, λ u. u)
  start_chains-Grown (r ∷ rest) w ((c, supported), startable) =
      let one = start_chain-Grown r c w supported in
      let w' = start_chain to_lower now redis codec r (lookup r w.active_chains) w in
      let others = start_chains-Grown rest w' startable in
      (
        λ d. others.0 d ∙ ap (λ (b : Bool). b || contains rest d) (one.0 d) ∙ ground arith,
        λ d y e. others.1 d y (one.1 d y e),
        others.2 ∙ one.2,
        λ u. others.3 (one.3 u),
      )

  Startable-evm_chains :
      (symbols : List String)
      → ((x : String) → to_lower (to_lower x) ≡ to_lower x)
      → Startable (evm_chains to_lower now redis codec symbols)
  Startable-evm_chains [] idem = tt
  Startable-evm_chains (x ∷ rest) idem =
      elim (Option-cases (lookup (to_lower x) supported_chains)) [
        | inl missing ↦ rw missing (Startable-evm_chains rest idem)
        | inr (c, found) ↦ rw found (
          (c, ap (λ y. lookup y supported_chains) (idem x) ∙ found),
          Startable-evm_chains rest idem,
        )
      ]

  -- When the orders can be aggregated and no chain is in the map of active chains twice,
  -- checkPendingOrdersAndManageChains leaves active exactly the EVM chains that have pending orders;
  -- a chain that was active and has such orders keeps its worker; of the workers from before, exactly
  -- those of the other chains are cancelled; and the map still has one entry for each chain. Lowering
  -- a text twice is taken to lower it once.
  pub check_pending_orders_lem :
      (aggregate : S → Result (List String)) (symbols : List String) (w : Worker S)
      → ((x : String) → to_lower (to_lower x) ≡ to_lower x)
      → aggregate w.store ≡ ok symbols
      → Unique w.active_chains
      → let w' = check_pending_orders_and_manage_chains to_lower now redis codec aggregate w in
        let required = evm_chains to_lower now redis codec symbols in
        ((chain : String) → is_chain_active chain w' ≡ contains required chain)
        × ((chain : String) (x : ChainWorker)
            → contains required chain ≡ true
            → lookup chain w.active_chains ≡ some x
            → lookup chain w'.active_chains ≡ some x)
        × (w'.cancelled
            ≡ cancel_all w.cancelled (
                select (λ (e : String × ChainWorker). not (contains required e.0)) w.active_chains))
        × Unique w'.active_chains
  unfolding check_pending_orders_and_manage_chains stop_chains is_chain_active
  check_pending_orders_lem aggregate symbols w idem read unique =
      let required = evm_chains to_lower now redis codec symbols in
      let (more, kept, cancelled, still) =
        start_chains-Grown required (stop_chains required w) (Startable-evm_chains symbols idem) in
      rw read (
        rw (manage_chains_lem required w unique) (
          λ d. more d ∙ rw (lookup-select required w.active_chains d) (ground arith),
          λ d x c found. kept d x (lookup-select required w.active_chains d ∙ rw c found),
          cancelled,
          still (Unique-select required w.active_chains unique),
        ))
