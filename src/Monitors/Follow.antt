-- ===== src/Monitors/Follow.antt =====
-- The loop that managers/workers/{evm,tron}_block_monitor.go share: the heights above the cached one
-- are processed and the latest one is saved. The log holds the events, oldest first.
use mathlib.Core.List.{append_assoc, append-nil}
use go_blockchain_watcher.Prelude.{
  ℕ, zero, suc, ◌+◌, ◌<◌, ◌≡◌, refl, sym, ap, subst, ◌∙◌, List, [], ◌++◌, arith, appended,
}
use go_blockchain_watcher.Errors.{Result, ok, err}

module _ {B : Type 0} where
  abbrev pub publish : Result B → List B → List B
  publish (ok b) log = appended log b
  publish (err e) log = log

  -- The blocks that can be read, from a height on, in the order of their heights: what the loop is to
  -- publish.
  abbrev pub blocks_from : (ℕ → Result B) → ℕ → ℕ → List B
  blocks_from block_at zero height = []
  blocks_from block_at (suc n) height =
      publish (block_at height) [] ++ blocks_from block_at n (height + 1)

  -- The loop, from a height and with the number of rounds left.
  unfoldable pub process_heights : (ℕ → Result B) → ℕ → ℕ → List B → List B
  process_heights block_at zero height log = log
  process_heights block_at (suc n) height log =
      process_heights block_at n (height + 1) (publish (block_at height) log)

  pub blocks_from_same :
      (f g : ℕ → Result B) (n height : ℕ)
      → ((h : ℕ) → f h ≡ g h)
      → blocks_from f n height ≡ blocks_from g n height
  blocks_from_same f g zero height same = refl
  blocks_from_same f g (suc n) height same =
      rw (same height, blocks_from_same f g n (height + 1) same) refl

  pub blocks_from_alike :
      (f g : ℕ → Result B) (n height : ℕ)
      → ((i : ℕ) → i < n → f (height + i) ≡ g (height + i))
      → blocks_from f n height ≡ blocks_from g n height
  blocks_from_alike f g zero height alike = refl
  blocks_from_alike f g (suc n) height alike =
      let e : height + 0 ≡ height = omega arith in
      let here : f height ≡ g height = subst (λ h. f h ≡ g h) e (alike 0 (omega arith)) in
      let rest : (i : ℕ) → i < n → f (height + 1 + i) ≡ g (height + 1 + i) = λ i below.
        let shift : height + suc i ≡ height + 1 + i = omega arith in
        subst (λ h. f h ≡ g h) shift (alike (suc i) (omega (arith, below))) in
      rw (here, blocks_from_alike f g n (height + 1) rest) refl

  publish_lem : (r : Result B) (log : List B) → publish r log ≡ log ++ publish r []
  publish_lem (ok b) log = refl
  publish_lem (err e) log = sym (append-nil log)

  pub process_heights_lem :
      (block_at : ℕ → Result B) (n height : ℕ) (log : List B)
      → process_heights block_at n height log ≡ log ++ blocks_from block_at n height
  unfolding process_heights
  process_heights_lem block_at zero height log = sym (append-nil log)
  process_heights_lem block_at (suc n) height log =
      process_heights_lem block_at n (height + 1) (publish (block_at height) log)
      ∙ ap (λ l. l ++ blocks_from block_at n (height + 1)) (publish_lem (block_at height) log)
      ∙ append_assoc log (publish (block_at height) []) (blocks_from block_at n (height + 1))

  pub blocks_from-add :
      (block_at : ℕ → Result B) (m n height : ℕ)
      → blocks_from block_at (m + n) height
        ≡ blocks_from block_at m height ++ blocks_from block_at n (height + m)
  blocks_from-add block_at zero n height =
      ap (λ (k : ℕ). blocks_from block_at k height) zero_n ∙ ap (blocks_from block_at n) height_zero
    where
      zero_n : 0 + n ≡ n
      zero_n = omega arith

      height_zero : height ≡ height + 0
      height_zero = omega arith
  blocks_from-add block_at (suc m) n height =
      ap (λ (k : ℕ). blocks_from block_at k height) suc_first
      ∙ ap (λ l. publish (block_at height) [] ++ l) (blocks_from-add block_at m n (height + 1))
      ∙ sym (
          append_assoc (publish (block_at height) []) (blocks_from block_at m (height + 1))
            (blocks_from block_at n (height + 1 + m)))
      ∙ ap (λ h. blocks_from block_at (suc m) height ++ blocks_from block_at n h) shift
    where
      suc_first : suc m + n ≡ suc (m + n)
      suc_first = omega arith

      shift : height + 1 + m ≡ height + suc m
      shift = omega arith
