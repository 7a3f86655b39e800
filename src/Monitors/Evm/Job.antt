-- ===== src/Monitors/Evm/Job.antt =====
-- What a job of the monitor of managers/workers/evm_block_monitor.go does when it succeeds.
use mathlib.Core.List.{append-nil}
use go_blockchain_watcher.Prelude.{
  ℕ, zero, suc, ◌+◌, ◌-◌, ◌≡◌, ◌≢◌, ◌⊎◌, refl, sym, ap, ◌∙◌, String, Bool, Option, none, some, List,
  [], ◌++◌, eqb, ltb, arith, inl, inr, Bool-cases, eq-false_of_ne, if◌then◌else◌,
}
use go_blockchain_watcher.Errors.{Result, ok, err, Result-cases, err-ne-ok}
use go_blockchain_watcher.Map.{Map, lookup}
use go_blockchain_watcher.Values.{Value}
use go_blockchain_watcher.Values
use go_blockchain_watcher.Redis.{Redis, RedisLaws, Entry, text}
use go_blockchain_watcher.Cache.{Dynamic, uint_value, ResponseCodec}
use go_blockchain_watcher.Cache
use go_blockchain_watcher.Monitors.Evm.Events.{
  height_key, height_key-inj, cache_key_lem, event_before, events_from,
}
use go_blockchain_watcher.Monitors.Follow.{publish, blocks_from, process_heights_lem}
use go_blockchain_watcher.Monitors.Evm.{
  ChainConfig, Node, NodeBlock, BlockData, block_of_answer, Clients, chain, chain_id_of, target_of,
  symbol_of, get_client, block_at_height, cache_key, last_height, save_height, process_latest,
  process_cached, process_block_monitor_job, State, with_target, with_client,
}

module _ {Client S : Type 0} (node : Node Client) (redis : Redis S) (codec : ResponseCodec)
    (view : S → String → Entry) (laws : RedisLaws redis view) where
  abbrev saved : ChainConfig → ℕ → S → Result (Unit {0}) × S
  saved c n s = save_height node redis codec c n s

  abbrev blocks : Client → ChainConfig → String → ℕ → ℕ → List BlockData
  blocks client c symbol last current =
      if eqb last 0
      then []
      else blocks_from (block_at_height node client c.chain_id symbol) (current - last) (last + 1)

  -- Saving a height changes no other entry.
  save-view :
      (c : ChainConfig) (n : ℕ) (s : S) (k : String)
      → (saved c n s).0 ≡ ok tt
      → k ≢ cache_key node c
      → view (saved c n s).1 k ≡ view s k
  unfolding Cache.set
  save-view c n s k done other = elim (Result-cases (codec.marshal (uint_value n))) [
    | inr (e, m) ↦ absurd (err-ne-ok (rw m at done))
    | inl (json, m) ↦ elim (Result-cases (redis.set_for 120 (cache_key node c) json s).0) [
      | inr (e, x) ↦ absurd (err-ne-ok (rw x at (rw m at done)))
      | inl (_, x) ↦ rw m (
          laws.set_for_ok 120 (cache_key node c) json s x k
          ∙ ap (λ (b : Bool). if b then text json else view s k)
              (eq-false_of_ne (cache_key node c) k (λ e. other (sym e))))
    ]
  ]

  latest-log :
      (c : ChainConfig) (symbol : String) (client : Client) (last current : ℕ) (s : S)
      (log : List BlockData)
      → (process_latest node redis codec c symbol client last (ok current) s log).2
        ≡ log ++ blocks client c symbol last current
  unfolding process_latest
  latest-log c symbol client last current s log = elim (Bool-cases (eqb last 0)) [
    | inl z ↦ rw z (sym (append-nil log))
    | inr z ↦ elim (Bool-cases (ltb last current)) [
      | inl more ↦ rw z (rw more (process_heights_lem _ (current - last) (last + 1) log))
      | inr no_more ↦
          let nothing : current - last ≡ 0 = ground (arith, no_more) in
          rw z (rw no_more (rw nothing (sym (append-nil log))))
    ]
  ]

  latest-view :
      (c : ChainConfig) (symbol : String) (client : Client) (last current : ℕ) (s : S)
      (log : List BlockData) (k : String)
      → (process_latest node redis codec c symbol client last (ok current) s log).0 ≡ ok tt
      → k ≢ cache_key node c
      → view (process_latest node redis codec c symbol client last (ok current) s log).1 k
        ≡ view s k
  unfolding process_latest
  latest-view c symbol client last current s log k done other = elim (Bool-cases (eqb last 0)) [
    | inl z ↦ rw z (save-view c current s k (rw z at done) other)
    | inr z ↦ elim (Bool-cases (ltb last current)) [
      | inl more ↦ rw z (rw more (save-view c current s k (rw more at (rw z at done)) other))
      | inr no_more ↦ rw z (rw no_more refl)
    ]
  ]

  run_cached :
      (c : ChainConfig) (symbol : String) (client : Client) (cached : Dynamic) (current : ℕ) (s : S)
      (log : List BlockData)
      → Cache.get redis codec (cache_key node c) s ≡ ok cached
      → node.block_number client ≡ ok current
      → process_cached node redis codec c symbol client
          (Cache.get redis codec (cache_key node c) s)
          s
          log
        ≡ process_latest node redis codec c symbol client
            (last_height node cached)
            (ok current)
            s
            log
  unfolding process_cached
  run_cached c symbol client cached current s log found fetched =
      ap (λ r. process_cached node redis codec c symbol client r s log) found
      ∙ ap (λ r. process_latest node redis codec c symbol client (last_height node cached) r s log)
          fetched

  run_job :
      (job : Map Value) (c : ChainConfig) (client : Client) (clients clients' : Clients Client)
      (s : S) (log : List BlockData)
      → target_of node (chain_id_of node (lookup "chainId" job)) ≡ chain c
      → get_client node c clients ≡ (ok client, clients')
      → process_block_monitor_job node redis codec job (s, clients, log) ≡ (
          let r =
            process_cached node redis codec c
              (symbol_of node (lookup "chainSymbol" job) c)
              client
              (Cache.get redis codec (cache_key node c) s)
              s
              log in
          (r.0, (r.1, clients', r.2)))
  unfolding process_block_monitor_job
  run_job job c client clients clients' s log target connected =
      ap (λ t. with_target node redis codec (lookup "chainSymbol" job) t (s, clients, log)) target
      ∙ ap
          (λ p.
            with_client node redis codec c (symbol_of node (lookup "chainSymbol" job) c) p s log)
          connected

  -- What the job publishes and leaves, in the words of the code.
  follows :
      (job : Map Value) (c : ChainConfig) (client : Client) (clients clients' : Clients Client)
      (cached : Dynamic) (current : ℕ) (s : S) (log : List BlockData)
      → target_of node (chain_id_of node (lookup "chainId" job)) ≡ chain c
      → get_client node c clients ≡ (ok client, clients')
      → Cache.get redis codec (cache_key node c) s ≡ ok cached
      → node.block_number client ≡ ok current
      → (process_block_monitor_job node redis codec job (s, clients, log)).0 ≡ ok tt
      → let t = (process_block_monitor_job node redis codec job (s, clients, log)).1 in
        (t.2
          ≡ log
            ++ (if eqb (last_height node cached) 0
                then []
                else blocks_from
                    (block_at_height node client c.chain_id
                      (symbol_of node (lookup "chainSymbol" job) c))
                    (current - last_height node cached)
                    (last_height node cached + 1)))
        × (t.1 ≡ clients')
        × ((k : String) → k ≢ cache_key node c → view t.0 k ≡ view s k)
  follows job c client clients clients' cached current s log target connected found fetched done =
      let symbol = symbol_of node (lookup "chainSymbol" job) c in
      let whole = run_job job c client clients clients' s log target connected in
      let inner = run_cached c symbol client cached current s log found fetched in
      let last = last_height node cached in
      let done' =
        ap (λ (p : Result (Unit {0}) × S × List BlockData). p.0) (sym inner)
        ∙ ap (λ (p : Result (Unit {0}) × State node redis codec). p.0) (sym whole)
        ∙ done in
      rw whole (
        rw inner (
          latest-log c symbol client last current s log,
          refl,
          λ k other. latest-view c symbol client last current s log k done' other,
        ))

  symbol_lem :
      (v : Option Value) (c : ChainConfig) (symbol : String)
      → ((v ≡ some (Values.text symbol)) × (symbol ≢ ""))
        ⊎ (((x : String) → v ≡ some (Values.text x) → x ≡ "") × (symbol ≡ c.symbol))
      → symbol_of node v c ≡ symbol
  symbol_lem v c symbol (inl (given, some_text)) =
      rw given (rw (eq-false_of_ne symbol "" some_text) refl)
  symbol_lem none c symbol (inr (unset, e)) = sym e
  symbol_lem (some (Values.text x)) c symbol (inr (unset, e)) = rw (unset x refl) (sym e)
  symbol_lem (some (Values.float64 f)) c symbol (inr (unset, e)) = sym e
  symbol_lem (some (Values.int64 n)) c symbol (inr (unset, e)) = sym e
  symbol_lem (some Values.other) c symbol (inr (unset, e)) = sym e

  answer_lem :
      (id : ℕ) (symbol : String) (r : Result (Option NodeBlock)) (rest : List BlockData)
      → publish (block_of_answer node id symbol r) [] ++ rest ≡ event_before id symbol r rest
  answer_lem id symbol (err e) rest = refl
  answer_lem id symbol (ok none) rest = refl
  answer_lem id symbol (ok (some b)) rest = refl

  events_from_lem :
      (client : Client) (id : ℕ) (symbol : String) (n height : ℕ)
      → blocks_from (block_at_height node client id symbol) n height
        ≡ events_from node client id symbol n height
  unfolding block_at_height
  events_from_lem client id symbol zero height = refl
  events_from_lem client id symbol (suc n) height =
      answer_lem id symbol (node.block_by_number client height)
        (blocks_from (block_at_height node client id symbol) n (height + 1))
      ∙ ap (event_before id symbol (node.block_by_number client height))
          (events_from_lem client id symbol n (height + 1))

  -- A job of the EVM monitor for a configured chain that can be reached, when the cached height and
  -- the latest one are read and the job succeeds: it publishes, behind the events from before, exactly
  -- the blocks that the node gives above the cached height up to the latest one, in the order of the
  -- heights, with the chain's ID, the symbol of the job data if it is a text that is not empty and else
  -- that of the configuration, and the node's fields, and none when no height was cached or the chain
  -- has not grown; it keeps the client, and it leaves every entry of Redis but the chain's own as it
  -- was, and so, if different numbers are printed differently, the heights of the other chains.
  pub process_block_monitor_job_follows :
      (job : Map Value) (c : ChainConfig) (symbol : String) (client : Client)
      (clients clients' : Clients Client) (cached : Dynamic) (current : ℕ) (s : S)
      (log : List BlockData)
      → ((m n : ℕ) → node.decimal m ≡ node.decimal n → m ≡ n)
      → target_of node (chain_id_of node (lookup "chainId" job)) ≡ chain c
      → ((lookup "chainSymbol" job ≡ some (Values.text symbol)) × (symbol ≢ ""))
        ⊎ (((x : String) → lookup "chainSymbol" job ≡ some (Values.text x) → x ≡ "")
            × (symbol ≡ c.symbol))
      → get_client node c clients ≡ (ok client, clients')
      → Cache.get redis codec (height_key node c.chain_id) s ≡ ok cached
      → node.block_number client ≡ ok current
      → (process_block_monitor_job node redis codec job (s, clients, log)).0 ≡ ok tt
      → let t = (process_block_monitor_job node redis codec job (s, clients, log)).1 in
        (t.2
          ≡ log
            ++ (if eqb (last_height node cached) 0
                then []
                else events_from node client c.chain_id symbol
                    (current - last_height node cached)
                    (last_height node cached + 1)))
        × (t.1 ≡ clients')
        × ((k : String) → k ≢ height_key node c.chain_id → view t.0 k ≡ view s k)
        × ((n : ℕ) → n ≢ c.chain_id → view t.0 (height_key node n) ≡ view s (height_key node n))
  process_block_monitor_job_follows job c symbol client clients clients' cached current s log
        injective target chosen connected found fetched done =
      let own = cache_key_lem node c in
      let found' : Cache.get redis codec (cache_key node c) s ≡ ok cached = rw own found in
      let (published, kept, others) =
        follows job c client clients clients' cached current s log target connected found' fetched
          done in
      let same_symbol = symbol_lem (lookup "chainSymbol" job) c symbol chosen in
      let last = last_height node cached in
      (
        published
            ∙ ap (λ (l : List BlockData). log ++ (if eqb last 0 then [] else l))
                (ap
                    (λ (y : String).
                      blocks_from (block_at_height node client c.chain_id y) (current - last)
                        (last + 1))
                    same_symbol
                  ∙ events_from_lem client c.chain_id symbol (current - last) (last + 1)),
        kept,
        λ k other. others k (λ e. other (e ∙ own)),
        λ n other.
            others (height_key node n)
              (λ e. other (injective n c.chain_id (height_key-inj node n c.chain_id (e ∙ own)))),
      )
