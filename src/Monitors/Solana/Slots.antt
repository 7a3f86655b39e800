-- ===== src/Monitors/Solana/Slots.antt =====
-- Which slots the loops of managers/workers/solana_block_monitor.go publish and which one they save.
use go_blockchain_watcher.Prelude.{
  ℕ, zero, suc, ◌+◌, ◌-◌, ◌*◌, ◌<◌, ◌≤◌, ◌≡◌, refl, ap, ◌∙◌, Bool, false, List, arith, ltb,
  if◌then◌else◌,
}
use go_blockchain_watcher.Errors.{Result}
use go_blockchain_watcher.Monitors.Follow.{publish, process_heights}
use go_blockchain_watcher.Monitors.Solana.{
  BlockData, process_slots, process_batches, process_new_slots, batch_end, batches_of,
}

module _ (slot_at : ℕ → Result BlockData) where
  -- Enough time for the slots.
  slots_in_time :
      (n start last slot alive current : ℕ) (log : List BlockData)
      → n ≤ alive
      → process_slots slot_at n start last slot alive current log
        ≡ (alive - n, current, process_heights slot_at n slot log)
  unfolding process_slots process_heights
  slots_in_time zero start last slot alive current log h =
      ap (λ (k : ℕ). (k, current, log)) (omega arith)
  slots_in_time (suc n) start last slot zero current log h = elim h [ ]
  slots_in_time (suc n) start last slot (suc alive) current log h =
      slots_in_time n start last (slot + 1) alive current (publish (slot_at slot) log) (omega arith)
      ∙ ap
          (λ (k : ℕ).
            (k, current, process_heights slot_at n (slot + 1) (publish (slot_at slot) log)))
          (omega arith)

  heights-add :
      (m n height : ℕ) (log : List BlockData)
      → process_heights slot_at n (height + m) (process_heights slot_at m height log)
        ≡ process_heights slot_at (m + n) height log
  unfolding process_heights
  heights-add zero n height log =
      let e : height + 0 ≡ height = omega arith in
      let f : n ≡ 0 + n = omega arith in
      ap (λ (k : ℕ). process_heights slot_at n k log) e
      ∙ ap (λ (k : ℕ). process_heights slot_at k height log) f
  heights-add (suc m) n height log =
      let e : height + suc m ≡ height + 1 + m = omega arith in
      let f : suc (m + n) ≡ suc m + n = omega arith in
      ap
        (λ (k : ℕ).
          process_heights slot_at n k
            (process_heights slot_at m (height + 1) (publish (slot_at height) log)))
        e
      ∙ heights-add m n (height + 1) (publish (slot_at height) log)
      ∙ ap (λ (k : ℕ). process_heights slot_at k height log) f

  -- The number of slots of a batch, when `m` slots are left.
  batch_length :
      (last index m current : ℕ)
      → last + index * 10 + m ≡ current
      → batch_end slot_at (last + 1 + index * 10) current + 1 - (last + 1 + index * 10)
        ≡ (if ltb m 10 then m else 10)
  batch_length last index m current e = ground (arith, e)

  -- A batch for which there is time.
  batch_in_time :
      (n index last alive m current : ℕ) (log : List BlockData)
      → last + index * 10 + m ≡ current
      → (if ltb m 10 then m else 10) ≤ alive
      → process_batches slot_at (suc n) index last (suc alive) current log
        ≡ process_batches slot_at n
            (index + 1)
            last
            (alive - (if ltb m 10 then m else 10))
            current
            (process_heights slot_at (if ltb m 10 then m else 10) (last + 1 + index * 10) log)
  unfolding process_batches
  batch_in_time n index last alive m current log e time =
      let start = last + 1 + index * 10 in
      let run =
        ap (λ (k : ℕ). process_slots slot_at k start last start alive current log)
          (batch_length last index m current e)
        ∙ slots_in_time (if ltb m 10 then m else 10) start last start alive current log time in
      ap (λ (r : ℕ × ℕ × List BlockData). process_batches slot_at n (index + 1) last r.0 r.1 r.2)
        run

  batches_in_time :
      (n index last alive m current : ℕ) (log : List BlockData)
      → last + index * 10 + m ≡ current
      → m ≤ n * 10
      → n * 10 < m + 10
      → m + n ≤ alive
      → process_batches slot_at n index last alive current log
        ≡ (current, process_heights slot_at m (last + 1 + index * 10) log)
  unfolding process_batches process_heights
  batches_in_time zero index last alive m current log e below above time =
      let none_left : 0 ≡ m = omega (arith, below) in
      ap (λ (k : ℕ). (current, process_heights slot_at k (last + 1 + index * 10) log)) none_left
  batches_in_time (suc n) index last zero m current log e below above time =
      absurd (omega (arith, time))
  batches_in_time (suc zero) index last (suc alive) m current log e below above time =
      let size : (if ltb m 10 then m else 10) ≡ m = ground (arith, below) in
      batch_in_time 0 index last alive m current log e (rw size (omega (arith, time)))
      ∙ ap (λ (k : ℕ). (current, process_heights slot_at k (last + 1 + index * 10) log)) size
  batches_in_time (suc (suc n)) index last (suc alive) m current log e below above time =
      let size : (if ltb m 10 then m else 10) ≡ 10 = ground (arith, above) in
      let log' = process_heights slot_at 10 (last + 1 + index * 10) log in
      let start' : last + 1 + (index + 1) * 10 ≡ last + 1 + index * 10 + 10 = omega arith in
      let rest : 10 + (m - 10) ≡ m = omega (arith, above) in
      batch_in_time (suc n) index last alive m current log e (rw size (omega (arith, time, above)))
      ∙ ap
          (λ (k : ℕ).
            process_batches slot_at (suc n) (index + 1) last (alive - k) current
              (process_heights slot_at k (last + 1 + index * 10) log))
          size
      ∙ batches_in_time (suc n) (index + 1) last (alive - 10) (m - 10) current log'
          (omega (arith, e, above)) (omega (arith, below)) (omega (arith, above))
          (omega (arith, time, above))
      ∙ ap (λ (k : ℕ). (current, process_heights slot_at (m - 10) k log')) start'
      ∙ ap (λ l. (current, l)) (heights-add 10 (m - 10) (last + 1 + index * 10) log)
      ∙ ap (λ (k : ℕ). (current, process_heights slot_at k (last + 1 + index * 10) log)) rest

  batches_bound : (n : ℕ) → (n ≤ batches_of slot_at n * 10) × (batches_of slot_at n * 10 < n + 10)
  batches_bound n = ground arith

  -- With time enough for each slot and each batch, the loops over batches of ten are the plain loop over
  -- the slots above the cached one up to the current one, which is saved.
  pub process_new_slots-in_time :
      (last current alive : ℕ) (log : List BlockData)
      → last ≤ current
      → (current - last) + batches_of slot_at (current - last) ≤ alive
      → process_new_slots slot_at last current alive log
        ≡ (current, process_heights slot_at (current - last) (last + 1) log)
  unfolding process_new_slots
  process_new_slots-in_time last current alive log above time =
      let bound = batches_bound (current - last) in
      let start : last + 1 + 0 * 10 ≡ last + 1 = omega arith in
      batches_in_time (batches_of slot_at (current - last)) 0 last alive (current - last) current
        log (omega (arith, above)) bound.0 bound.1 time
      ∙ ap (λ (k : ℕ). (current, process_heights slot_at (current - last) k log)) start

  -- The time ends where a batch ends.
  stopped_between :
      (j n index last m current : ℕ) (log : List BlockData)
      → last + index * 10 + m ≡ current
      → m ≤ n * 10
      → 10 * j < m
      → process_batches slot_at n index last (11 * j) current log
        ≡ (current, process_heights slot_at (10 * j) (last + 1 + index * 10) log)
  unfolding process_batches process_heights
  stopped_between zero zero index last m current log e below more =
      absurd (omega (arith, below, more))
  stopped_between zero (suc n) index last m current log e below more = refl
  stopped_between (suc j) zero index last m current log e below more =
      absurd (omega (arith, below, more))
  stopped_between (suc j) (suc n) index last m current log e below more =
      let size : (if ltb m 10 then m else 10) ≡ 10 = ground (arith, more) in
      let log' = process_heights slot_at 10 (last + 1 + index * 10) log in
      let looks : 11 * suc j ≡ suc (11 * j + 10) = omega arith in
      let left : 11 * j + 10 - 10 ≡ 11 * j = omega arith in
      let start' : last + 1 + (index + 1) * 10 ≡ last + 1 + index * 10 + 10 = omega arith in
      let total : 10 + 10 * j ≡ 10 * suc j = omega arith in
      ap (λ (k : ℕ). process_batches slot_at (suc n) index last k current log) looks
      ∙ batch_in_time n index last (11 * j + 10) m current log e (rw size (omega arith))
      ∙ ap
          (λ (k : ℕ).
            process_batches slot_at n (index + 1) last (11 * j + 10 - k) current
              (process_heights slot_at k (last + 1 + index * 10) log))
          size
      ∙ ap (λ (k : ℕ). process_batches slot_at n (index + 1) last k current log') left
      ∙ stopped_between j n (index + 1) last (m - 10) current log' (omega (arith, e, more))
          (omega (arith, below, more)) (omega (arith, more))
      ∙ ap (λ (k : ℕ). (current, process_heights slot_at (10 * j) k log')) start'
      ∙ ap (λ l. (current, l)) (heights-add 10 (10 * j) (last + 1 + index * 10) log)
      ∙ ap (λ (k : ℕ). (current, process_heights slot_at k (last + 1 + index * 10) log)) total

  -- It ends where a batch has begun and no slot of it was processed.
  first_stopped :
      (n index last m current : ℕ) (log : List BlockData)
      → last + index * 10 + m ≡ current
      → 0 < m
      → process_batches slot_at (suc n) index last 1 current log ≡ (last, log)
  unfolding process_batches process_slots
  first_stopped n index last m current log e more =
      let start = last + 1 + index * 10 in
      let k = batch_end slot_at start current + 1 - start in
      let some_slot : k ≡ suc (k - 1) = ground (arith, batch_length last index m current e, more) in
      let not_after : ltb start start ≡ false = ground arith in
      ap
        (λ (i : ℕ).
          let r = process_slots slot_at i start last start 0 current log in
          process_batches slot_at n (index + 1) last r.0 r.1 r.2)
        some_slot
      ∙ ap
          (λ (b : Bool).
            process_batches slot_at n (index + 1) last 0 (if b then start - 1 else last) log)
          not_after
      ∙ no_time n
    where
      no_time : (i : ℕ) → process_batches slot_at i (index + 1) last 0 last log ≡ (last, log)
      no_time zero = refl
      no_time (suc i) = refl

  stopped_inside :
      (j n index last m current : ℕ) (log : List BlockData)
      → last + index * 10 + m ≡ current
      → m ≤ n * 10
      → 10 * j < m
      → process_batches slot_at n index last (11 * j + 1) current log
        ≡ (last, process_heights slot_at (10 * j) (last + 1 + index * 10) log)
  unfolding process_heights
  stopped_inside zero zero index last m current log e below more =
      absurd (omega (arith, below, more))
  stopped_inside zero (suc n) index last m current log e below more =
      first_stopped n index last m current log e (omega (arith, more))
  stopped_inside (suc j) zero index last m current log e below more =
      absurd (omega (arith, below, more))
  stopped_inside (suc j) (suc n) index last m current log e below more =
      let size : (if ltb m 10 then m else 10) ≡ 10 = ground (arith, more) in
      let log' = process_heights slot_at 10 (last + 1 + index * 10) log in
      let looks : 11 * suc j + 1 ≡ suc (11 * j + 11) = omega arith in
      let left : 11 * j + 11 - 10 ≡ 11 * j + 1 = omega arith in
      let start' : last + 1 + (index + 1) * 10 ≡ last + 1 + index * 10 + 10 = omega arith in
      let total : 10 + 10 * j ≡ 10 * suc j = omega arith in
      ap (λ (k : ℕ). process_batches slot_at (suc n) index last k current log) looks
      ∙ batch_in_time n index last (11 * j + 11) m current log e (rw size (omega arith))
      ∙ ap
          (λ (k : ℕ).
            process_batches slot_at n (index + 1) last (11 * j + 11 - k) current
              (process_heights slot_at k (last + 1 + index * 10) log))
          size
      ∙ ap (λ (k : ℕ). process_batches slot_at n (index + 1) last k current log') left
      ∙ stopped_inside j n (index + 1) last (m - 10) current log' (omega (arith, e, more))
          (omega (arith, below, more)) (omega (arith, more))
      ∙ ap (λ (k : ℕ). (last, process_heights slot_at (10 * j) k log')) start'
      ∙ ap (λ l. (last, l)) (heights-add 10 (10 * j) (last + 1 + index * 10) log)
      ∙ ap (λ (k : ℕ). (last, process_heights slot_at k (last + 1 + index * 10) log)) total

  -- When the time of a job ends after `j` full batches with more slots to come, what is saved does not
  -- fit what was published, the slots of these batches: if it ends between two batches, the current slot
  -- is saved, so that the slots after the batches are passed over; and if it ends at the first slot of
  -- the next batch, the slot that was cached is saved again, so that the next job starts with the same
  -- slots.
  pub process_new_slots_stopped :
      (j last current : ℕ) (log : List BlockData)
      → last + 10 * j < current
      → (process_new_slots slot_at last current (11 * j) log
          ≡ (current, process_heights slot_at (10 * j) (last + 1) log))
        × (process_new_slots slot_at last current (11 * j + 1) log
            ≡ (last, process_heights slot_at (10 * j) (last + 1) log))
  unfolding process_new_slots
  process_new_slots_stopped j last current log more =
      let m = current - last in
      let bound = batches_bound m in
      let start : last + 1 + 0 * 10 ≡ last + 1 = omega arith in
      let whole : last + 0 * 10 + m ≡ current = omega (arith, more) in
      let enough : 10 * j < m = omega (arith, more) in
      (
        stopped_between j (batches_of slot_at m) 0 last m current log whole bound.0 enough
            ∙ ap (λ (k : ℕ). (current, process_heights slot_at (10 * j) k log)) start,
        stopped_inside j (batches_of slot_at m) 0 last m current log whole bound.0 enough
            ∙ ap (λ (k : ℕ). (last, process_heights slot_at (10 * j) k log)) start,
      )
