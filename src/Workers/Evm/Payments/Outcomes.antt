-- ===== src/Workers/Evm/Payments/Outcomes.antt =====
-- What a transaction of internal/worker/evm/processor.go does to the orders, or why it does nothing.
use go_blockchain_watcher.Prelude.{
  ℕ, zero, suc, ◌≡◌, ◌⊎◌, refl, sym, ap, ◌∙◌, String, Bool, true, false, false≢true, ◌&&◌, none,
  some, List, [], ◌∷◌, ◌==◌, get_elem?, first, first_passes, modify_first, is_some, arith, eq_iff,
  inl, inr, Bool-cases, if◌then◌else◌,
}
use go_blockchain_watcher.Errors.{Error, Result, ok, err, Result-cases, err-ne-ok, ok-injective}
use go_blockchain_watcher.Values.{Time, Float64}
use go_blockchain_watcher.Mongo.{CollectionLaws, ObjectIdLaws}
use go_blockchain_watcher.Orders.Adapter.{has_id}
use go_blockchain_watcher.Accounts
use go_blockchain_watcher.Workers.Evm.Payments.Transfers.{AnkrTransaction}
use go_blockchain_watcher.Workers.Evm.Payments.{
  StoredOrder, Surroundings, parse_transaction_amount, find_order_by_deposit_account, updated,
  process_matched_transaction,
}

first-exists :
    {A : Type 0} (p q : A → Bool) (xs : List A) (x : A)
    → first p xs ≡ some x
    → q x ≡ true
    → is_some (first q xs) ≡ true
first-exists p q [] x found passes = ground (arith, found)
first-exists p q (y ∷ xs) x found passes = ground (arith, found, passes, first-exists p q xs x)

module _ {ObjectId S : Type 0} (p : Surroundings ObjectId S) where
  updated_lem : (r : Result ℕ × S) → r.0 ≡ ok 1 → ((updated p r).0 ≡ true) × ((updated p r).1 ≡ r.1)
  updated_lem (ok zero, s) h = let e : 0 ≡ 1 = ok-injective h in absurd (omega (arith, e))
  updated_lem (ok (suc n), s) h = (refl, refl)
  updated_lem (err e, s) h = absurd (err-ne-ok h)

  updated-failed : (r : Result ℕ × S) (e : Error) → r.0 ≡ err e → (updated p r).0 ≡ false
  updated-failed (ok n, s) e h = absurd (err-ne-ok (sym h))
  updated-failed (err x, s) e h = refl

  has_id-elem :
      (same_ids : (a b : ObjectId) → p.same a b ≡ true → a ≡ b) (id : ObjectId) (xs : List ObjectId)
      → has_id p.same id xs ≡ true
      → (i : ℕ) × (get_elem? xs i ≡ some id)
  has_id-elem same_ids id [] h = absurd (false≢true h)
  has_id-elem same_ids id (x ∷ xs) h = elim (Bool-cases (p.same x id)) [
    | inl here ↦ (0, ap some (same_ids x id here))
    | inr other ↦ let (i, e) = has_id-elem same_ids id xs (rw other at h) in (suc i, e)
  ]

  abbrev pub by_id : StoredOrder ObjectId → StoredOrder ObjectId → Bool
  by_id o d = p.same d.order.id o.order.id

  abbrev pub confirmed : Float64 → Time → String → StoredOrder ObjectId → StoredOrder ObjectId
  confirmed amount now hash d = record {
    order = record d.order { status = "DEPOSIT_CONFIRMING"; amount = amount; updated_at = now };
    latest_tx_hash = hash;
  }

  -- An order that waits for a payment to the account.
  abbrev pub waits : ObjectId → StoredOrder ObjectId → Bool
  waits id d = has_id p.same id d.order.deposit_account_ids && d.order.status == "PENDING"

  -- What a transaction that counts as a match has done.
  abbrev pub IsConfirmed :
      (S → List (StoredOrder ObjectId)) → AnkrTransaction → Accounts.Document ObjectId → S → Type 0
  IsConfirmed docs tx account s =
      ((process_matched_transaction p tx account s).0 ≡ true)
      × ((o : StoredOrder ObjectId) × (amount : Float64) × (parse_transaction_amount p tx.value
            ≡ ok amount)
          × (first (waits account.id) (docs s) ≡ some o)
          × (o.order.status ≡ "PENDING")
          × ((i : ℕ) × (get_elem? o.order.deposit_account_ids i ≡ some account.id))
          × (docs (process_matched_transaction p tx account s).1
              ≡ modify_first (by_id o) (confirmed amount (p.now s) tx.hash) (docs s)))

  -- Why a transaction does not count.
  abbrev pub IsLeft :
      (S → List (StoredOrder ObjectId)) → AnkrTransaction → Accounts.Document ObjectId → S → Type 0
  IsLeft docs tx account s =
      ((process_matched_transaction p tx account s).0 ≡ false)
      × ((((process_matched_transaction p tx account s).1 ≡ s)
            × (((e : Error) × (p.orders.find_one (waits account.id) s ≡ err e))
                ⊎ ((first (waits account.id) (docs s) ≡ none)
                    ⊎ ((e : Error) × (parse_transaction_amount p tx.value ≡ err e)))))
          ⊎ ((o : StoredOrder ObjectId) × (amount : Float64) × (e : Error) × (first
                  (waits account.id) (docs s)
                ≡ some o)
              × (parse_transaction_amount p tx.value ≡ ok amount)
              × ((p.orders.update_one (by_id o) (confirmed amount (p.now s) tx.hash) s).0 ≡ err e)))

  module _ (docs : S → List (StoredOrder ObjectId)) (laws : CollectionLaws p.orders docs)
      (nil_id : ObjectId) (is_zero : ObjectId → Bool) (ids : ObjectIdLaws nil_id is_zero p.same)
      (tx : AnkrTransaction) (account : Accounts.Document ObjectId) where
    -- An order is found and the amount is read.
    pub found_and_read :
        (o : StoredOrder ObjectId) (amount : Float64) (s : S)
        → find_order_by_deposit_account p account.id s ≡ ok (some o)
        → parse_transaction_amount p tx.value ≡ ok amount
        → IsConfirmed docs tx account s ⊎ IsLeft docs tx account s
    unfolding process_matched_transaction
    found_and_read o amount s f g =
        let change = confirmed amount (p.now s) tx.hash in
        let pending : some o ≡ first (waits account.id) (docs s) =
          laws.find_one_ok (waits account.id) s (some o) f in
        let chosen : waits account.id o ≡ true =
          first_passes (waits account.id) (docs s) o (sym pending) in
        let listed : has_id p.same account.id o.order.deposit_account_ids ≡ true =
          ground (arith, chosen) in
        elim (Result-cases (p.orders.update_one (by_id o) change s).0) [
          | inr (e, h) ↦ inr (
            rw f (rw g (updated-failed (p.orders.update_one (by_id o) change s) e h)),
            inr (o, amount, e, sym pending, g, h),
          )
          | inl (n, h) ↦
              let (written, matched) = laws.update_one_ok (by_id o) change s n h in
              let own : by_id o o ≡ true = (ids.same_iff o.order.id o.order.id).1 refl in
              let there = first-exists (waits account.id) (by_id o) (docs s) o (sym pending) own in
              let one : n ≡ 1 = matched ∙ ap (λ (b : Bool). if b then 1 else 0) there in
              let result =
                updated_lem (p.orders.update_one (by_id o) change s)
                  (h ∙ ap (λ (k : ℕ). ok k) one) in
              inl (
                rw f (rw g result.0),
                (
                  o,
                  amount,
                  g,
                  sym pending,
                  ground (arith, chosen, eq_iff o.order.status "PENDING"),
                  has_id-elem (λ a b. (ids.same_iff a b).0) account.id o.order.deposit_account_ids
                      listed,
                  rw f (rw g (ap docs result.1 ∙ written)),
                ),
              )
        ]
