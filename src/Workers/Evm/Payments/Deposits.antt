-- ===== src/Workers/Evm/Payments/Deposits.antt =====
-- Which payments a worker of internal/worker/evm/processor.go takes for a deposit, and what it stores.
use go_blockchain_watcher.Prelude.{
  ◌≡◌, ◌⊎◌, refl, sym, ap, subst, ◌∙◌, String, Bool, true, false, false≢true, ◌&&◌, none, some,
  List, [], ◌∷◌, ◌==◌, map, select, arith, inl, inr, Bool-cases, String-cases, if◌then◌else◌,
}
use go_blockchain_watcher.Errors.{ok, Result-cases}
use go_blockchain_watcher.Map.{Map, lookup, insert, lookup-insert}
use go_blockchain_watcher.Mongo.{CollectionLaws, ObjectIdLaws}
use go_blockchain_watcher.Accounts
use go_blockchain_watcher.Workers.Evm.{contains}
use go_blockchain_watcher.Workers.Evm.Payments.Transfers.{AnkrTransaction}
use go_blockchain_watcher.Workers.Evm.Payments.{
  StoredOrder, Surroundings, live, or_matching, find_deposit_accounts_by_addresses, account_map,
  parse_transaction_amount, find_order_by_deposit_account, process_matched_transaction,
  matched_or_not, process_all,
}
use go_blockchain_watcher.Workers.Evm.Payments.Outcomes.{waits, IsConfirmed, IsLeft, found_and_read}

module _ {ObjectId S : Type 0} (p : Surroundings ObjectId S) where
  contains-lowered :
      (addresses : List String) (w : String)
      → ((x : String) → p.to_lower (p.to_lower x) ≡ p.to_lower x)
      → contains (map p.to_lower addresses) w ≡ true
      → p.to_lower w ≡ w
  unfolding contains
  contains-lowered [] w idem h = absurd (false≢true h)
  contains-lowered (a ∷ rest) w idem h = elim (String-cases (p.to_lower a) w) [
    | inl same ↦ ap p.to_lower (sym same) ∙ idem a ∙ same
    | inr other ↦ contains-lowered rest w idem (rw other at h)
  ]

  -- No account of a list that is not deleted has this text, letter by letter, as its address.
  abbrev pub NotStored : String → List (Accounts.Document ObjectId) → Type 0
  NotStored key [] = Unit
  NotStored key (d ∷ ds) = ((live p d && d.wallet_address == key) ≡ false) × NotStored key ds

  abbrev NotKeyed : String → List (Accounts.Document ObjectId) → Type 0
  NotKeyed key [] = Unit
  NotKeyed key (d ∷ ds) = ((p.to_lower d.wallet_address == key) ≡ false) × NotKeyed key ds

  lookup-account_map :
      (key : String) (m : Map (Accounts.Document ObjectId)) (ds : List (Accounts.Document ObjectId))
      → NotKeyed key ds
      → lookup key (account_map p m ds) ≡ lookup key m
  unfolding account_map
  lookup-account_map key m [] absent = refl
  lookup-account_map key m (d ∷ ds) (here, absent) =
      lookup-account_map key (insert (p.to_lower d.wallet_address) d m) ds absent
      ∙ lookup-insert (p.to_lower d.wallet_address) key d m
      ∙ ap (λ (b : Bool). if b then some d else lookup key m) here

  abbrev exact : List String → Accounts.Document ObjectId → Bool
  exact addresses d = contains (map p.to_lower addresses) d.wallet_address && live p d

  NotKeyed-select :
      (key : String) (addresses : List String) (ds : List (Accounts.Document ObjectId))
      → ((x : String) → p.to_lower (p.to_lower x) ≡ p.to_lower x)
      → NotStored key ds
      → NotKeyed key (select (exact addresses) ds)
  NotKeyed-select key addresses [] idem absent = tt
  NotKeyed-select key addresses (d ∷ ds) idem (here, absent) =
      elim (Bool-cases (exact addresses d)) [
        | inr other ↦ rw other (NotKeyed-select key addresses ds idem absent)
        | inl chosen ↦
            let stored : contains (map p.to_lower addresses) d.wallet_address ≡ true =
              ground (arith, chosen) in
            let alive : live p d ≡ true = ground (arith, chosen) in
            rw chosen (
              ap (λ (w : String). w == key)
                    (contains-lowered addresses d.wallet_address idem stored)
                  ∙ (rw alive at here),
              NotKeyed-select key addresses ds idem absent,
            )
      ]

  -- When the search for the accounts that are stored under the lowered addresses of a block finds one,
  -- its answer stands, without a search that disregards case; and a transaction to an address under
  -- whose lowered form, letter by letter, no account that is not deleted is stored is passed over, as
  -- if it were not in the block, even if an account is stored under it with capital letters. Lowering
  -- a text twice is taken to lower it once.
  pub transaction_missed :
      (docs : S → List (Accounts.Document ObjectId)) (laws : CollectionLaws p.accounts docs)
      (a : String) (rest : List String) (d : Accounts.Document ObjectId)
      (ds : List (Accounts.Document ObjectId)) (s t : S) (tx : AnkrTransaction)
      (txs : List AnkrTransaction)
      → ((x : String) → p.to_lower (p.to_lower x) ≡ p.to_lower x)
      → p.accounts.find
          (λ (d : Accounts.Document ObjectId).
            contains (map p.to_lower (a ∷ rest)) d.wallet_address && live p d)
          s
        ≡ ok (d ∷ ds)
      → NotStored (p.to_lower tx.recipient) (docs s)
      → (find_deposit_accounts_by_addresses p (a ∷ rest) s ≡ ok (d ∷ ds))
        × (process_all p (account_map p [] (d ∷ ds)) (tx ∷ txs) t
            ≡ process_all p (account_map p [] (d ∷ ds)) txs t)
  unfolding find_deposit_accounts_by_addresses process_all lookup
  transaction_missed docs laws a rest d ds s t tx txs idem found absent =
      let key = p.to_lower tx.recipient in
      let chosen : d ∷ ds ≡ select (exact (a ∷ rest)) (docs s) =
        laws.find_ok (exact (a ∷ rest)) s (d ∷ ds) found in
      let unkeyed : NotKeyed key (d ∷ ds) =
        subst (NotKeyed key) (sym chosen) (NotKeyed-select key (a ∷ rest) (docs s) idem absent) in
      let unknown : lookup key (account_map p [] (d ∷ ds)) ≡ none =
        lookup-account_map key [] (d ∷ ds) unkeyed in
      (
        ap (λ r. or_matching p (a ∷ rest) r s) found,
        ap (λ o. process_all p (account_map p [] (d ∷ ds)) txs (matched_or_not p tx o t)) unknown,
      )

  module _ (docs : S → List (StoredOrder ObjectId)) (laws : CollectionLaws p.orders docs)
      (nil_id : ObjectId) (is_zero : ObjectId → Bool) (ids : ObjectIdLaws nil_id is_zero p.same)
      (tx : AnkrTransaction) (account : Accounts.Document ObjectId) where
    -- A transaction to an account counts as a match, or does not. If it does, its value was read as an
    -- amount, be it zero, and it was matched with the first order that is PENDING and has the account
    -- among its deposit accounts: the first order with the found order's ID, and no other, gets the
    -- status DEPOSIT_CONFIRMING, the amount and hash of the transaction, and the time, and keeps its
    -- other fields; the amount of the order is not looked at. If it does not, the update failed, or
    -- nothing was changed and the search for such an order failed, there is none, or the value cannot
    -- be read.
    pub transaction_confirms :
        (s : S) → IsConfirmed p docs tx account s ⊎ IsLeft p docs tx account s
    unfolding process_matched_transaction
    transaction_confirms s = elim (Result-cases (find_order_by_deposit_account p account.id s)) [
      | inr (e, f) ↦ inr (rw f refl, inl (rw f refl, inl (e, f)))
      | inl (none, f) ↦ inr (
        rw f refl,
        inl (rw f refl, inr (inl (sym (laws.find_one_ok (waits p account.id) s none f)))),
      )
      | inl (some o, f) ↦ elim (Result-cases (parse_transaction_amount p tx.value)) [
        | inr (e, g) ↦ inr (rw f (rw g refl), inl (rw f (rw g refl), inr (inr (e, g))))
        | inl (amount, g) ↦ found_and_read p docs laws nil_id is_zero ids tx account o amount s f g
      ]
    ]
