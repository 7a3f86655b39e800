-- ===== src/Queue/Status.antt =====
-- The counts and the clearing of a queue: `GetQueueStatus` and `ClearQueue` of
-- managers/queue/queue.go.
use go_blockchain_watcher.Prelude.{
  ℕ, ◌+◌, ◌%◌, ◌^◌, String, ◌≡◌, ◌≢◌, refl, sym, ap, eq-false_of_ne, ◌∙◌, Bool, true, false, List,
  [], ◌∷◌, arith, ◌==◌, eq_refl, if◌then◌else◌, length, inl, inr,
}
use go_blockchain_watcher.Errors.{ok, Result-cases, err-ne-ok, Exec, pure, wrap, ◌>>=◌, ◌>>◌}
use go_blockchain_watcher.Map.{Map}
use go_blockchain_watcher.Values.{ℤ, signed, pos}
use go_blockchain_watcher.Redis.{Redis, RedisLaws, Command, llen, Entry, absent, items_of}
use go_blockchain_watcher.Queue.{get_bull_key}

abbrev pub status_commands : String → List Command
status_commands q =
    llen (get_bull_key q "wait")
    ∷ llen (get_bull_key q "active")
    ∷ llen (get_bull_key q "completed")
    ∷ llen (get_bull_key q "failed")
    ∷ llen (get_bull_key q "delayed")
    ∷ []

-- The result of `GetQueueStatus` from the five counts; the sum is one of 64 bits.
abbrev pub status_map : ℕ → ℕ → ℕ → ℕ → ℕ → Map ℤ
status_map w a c f d =
    ("waiting", pos w)
    ∷ ("active", pos a)
    ∷ ("completed", pos c)
    ∷ ("failed", pos f)
    ∷ ("delayed", pos d)
    ∷ ("total", signed ((w + a + c + f + d) % 2 ^ 64))
    ∷ []

-- A command of the pipeline without a reply has the value 0.
value : List ℕ → ℕ × List ℕ
value [] = (0, [])
value (n ∷ ns) = (n, ns)

status_of : List ℕ → Map ℤ
unfolding value
status_of ns =
    let (w, ns1) = value ns in
    let (a, ns2) = value ns1 in
    let (c, ns3) = value ns2 in
    let (f, ns4) = value ns3 in let (d, ns5) = value ns4 in status_map w a c f d

abbrev pub clear_keys_of : String → List String
clear_keys_of q =
    get_bull_key q "wait"
    ∷ get_bull_key q "active"
    ∷ get_bull_key q "completed"
    ∷ get_bull_key q "failed"
    ∷ get_bull_key q "delayed"
    ∷ get_bull_key q "stalled"
    ∷ []

abbrev pub member : String → List String → Bool
member j [] = false
member j (k ∷ ks) = let rest = member j ks in if k == j then true else rest

-- The entries after the removal of some keys.
abbrev pub removed : List String → (String → Entry) → String → Entry
removed ks v j = if member j ks then absent else v j

abbrev pub size : (String → Entry) → String → String → ℕ
size v q suffix = length (items_of (v (get_bull_key q suffix)))

-- The counts of a queue whose lists have been removed.
cleared :
    (q : String) (v w : String → Entry)
    → ((j : String) → w j ≡ removed (clear_keys_of q) v j)
    → status_map
        (size w q "wait")
        (size w q "active")
        (size w q "completed")
        (size w q "failed")
        (size w q "delayed")
      ≡ status_map 0 0 0 0 0
cleared q v w h =
    rw
      (
        none_left "wait" (simp eq_refl),
        none_left "active" (ground (arith, eq_refl (get_bull_key q "active"))),
        none_left "completed" (ground (arith, eq_refl (get_bull_key q "completed"))),
        none_left "failed" (ground (arith, eq_refl (get_bull_key q "failed"))),
        none_left "delayed" (ground (arith, eq_refl (get_bull_key q "delayed"))),
      )
      (unfold signed in refl)
  where
    none_left :
        (suffix : String)
        → member (get_bull_key q suffix) (clear_keys_of q) ≡ true
        → size w q suffix ≡ 0
    none_left suffix x = rw (h (get_bull_key q suffix), x) refl

module _ {S : Type 0} (redis : Redis S) where
  unfoldable pub get_queue_status : String → Exec S (Map ℤ)
  unfolding status_of
  get_queue_status q = do
    ns ← wrap "failed to get queue status" (redis.exec (status_commands q))
    pure (status_of ns)

  -- The loop of `ClearQueue`, which returns at the first error.
  clear_keys : List String → Exec S (Unit {0})
  clear_keys [] = pure tt
  clear_keys (k ∷ ks) = do wrap "failed to clear queue" (redis.del k); clear_keys ks

  unfoldable pub clear_queue : String → Exec S (Unit {0})
  unfolding clear_keys
  clear_queue q = clear_keys (clear_keys_of q)

  module _ (view : S → String → Entry) (laws : RedisLaws redis view) where
    clear_keys_lem :
        (ks : List String) (s : S)
        → (clear_keys ks s).0 ≡ ok tt
        → (j : String) → view (clear_keys ks s).1 j ≡ removed ks (view s) j
    unfolding clear_keys
    clear_keys_lem [] s done j = refl
    clear_keys_lem (k ∷ ks) s done j = elim (Result-cases (redis.del k s).0) [
      | inl (_, x) ↦
          let rest = clear_keys_lem ks (redis.del k s).1 (rw x at done) j in
          rw (x, rest, laws.del_ok k s x j) (ground arith)
      | inr (y, x) ↦ absurd (err-ne-ok (rw x at done))
    ]

    -- `GetQueueStatus` gives the lengths of the five lists, and their sum modulo 2^64, read as a
    -- signed number.
    pub get_queue_status_lem :
        (q : String) (s : S) (m : Map ℤ)
        → (get_queue_status q s).0 ≡ ok m
        → m
          ≡ status_map
              (size (view s) q "wait")
              (size (view s) q "active")
              (size (view s) q "completed")
              (size (view s) q "failed")
              (size (view s) q "delayed")
    unfolding get_queue_status status_of
    get_queue_status_lem q s m done = elim (Result-cases (redis.exec (status_commands q) s).0) [
      | inl (ns, x) ↦
          let counts = (laws.exec_ok (status_commands q) s ns x).0 in
          ground (arith, rw (x, counts) at done)
      | inr (y, x) ↦ absurd (err-ne-ok (rw x at done))
    ]

    -- When `ClearQueue` succeeds, the lists wait, active, completed, failed, delayed and stalled of the
    -- queue are gone and every other entry is as before, the data of the jobs included, and a
    -- `GetQueueStatus` that succeeds then reports 0 for every list and for their sum.
    pub clear_queue_lem :
        (q : String) (s : S)
        → (clear_queue q s).0 ≡ ok tt
        → let t = (clear_queue q s).1 in
          (view t (get_bull_key q "wait") ≡ absent)
          × (view t (get_bull_key q "active") ≡ absent)
          × (view t (get_bull_key q "completed") ≡ absent)
          × (view t (get_bull_key q "failed") ≡ absent)
          × (view t (get_bull_key q "delayed") ≡ absent)
          × (view t (get_bull_key q "stalled") ≡ absent)
          × ((j : String)
              → j ≢ get_bull_key q "wait"
              → j ≢ get_bull_key q "active"
              → j ≢ get_bull_key q "completed"
              → j ≢ get_bull_key q "failed"
              → j ≢ get_bull_key q "delayed"
              → j ≢ get_bull_key q "stalled"
              → view t j ≡ view s j)
          × ((m : Map ℤ)
              → (get_queue_status q t).0 ≡ ok m
              → m
                ≡ ("waiting", pos 0)
                  ∷ ("active", pos 0)
                  ∷ ("completed", pos 0)
                  ∷ ("failed", pos 0)
                  ∷ ("delayed", pos 0)
                  ∷ ("total", pos 0)
                  ∷ [])
    unfolding clear_queue
    clear_queue_lem q s done =
        let w = clear_keys_lem (clear_keys_of q) s done in
        let gone =
          λ (suffix : String) (x : member (get_bull_key q suffix) (clear_keys_of q) ≡ true).
            w (get_bull_key q suffix)
            ∙ ap (λ (b : Bool). if b then absent else view s (get_bull_key q suffix)) x in
        (
          gone "wait" (simp eq_refl),
          gone "active" (ground (arith, eq_refl (get_bull_key q "active"))),
          gone "completed" (ground (arith, eq_refl (get_bull_key q "completed"))),
          gone "failed" (ground (arith, eq_refl (get_bull_key q "failed"))),
          gone "delayed" (ground (arith, eq_refl (get_bull_key q "delayed"))),
          gone "stalled" (ground (arith, eq_refl (get_bull_key q "stalled"))),
          λ j a b c d e f.
              w j
              ∙ rw
                  (
                    other "wait" j a,
                    other "active" j b,
                    other "completed" j c,
                    other "failed" j d,
                    other "delayed" j e,
                    other "stalled" j f,
                  )
                  refl,
          λ m e.
              get_queue_status_lem q (clear_queue q s).1 m e
              ∙ cleared q (view s) (view (clear_queue q s).1) w
              ∙ unfold signed in refl,
        )
      where
        other :
            (suffix j : String) → j ≢ get_bull_key q suffix → (get_bull_key q suffix == j) ≡ false
        other suffix j h = eq-false_of_ne (get_bull_key q suffix) j (λ x. h (sym x))
