-- ===== src/Workers/Evm/Payments/Examples.antt =====
-- The theorems on internal/worker/evm/processor.go at small instances.
use go_blockchain_watcher.Prelude.{
  ℕ, String, true, ◌≡◌, ◌⊎◌, refl, List, [], ◌∷◌, ◌==◌, eqb, Bool-cases, inl, inr, if◌then◌else◌,
}
use go_blockchain_watcher.Errors.{ok}
use go_blockchain_watcher.Values.{ℤ, pos, negsuc, Float64}
use go_blockchain_watcher.Mongo.{Collection}
use go_blockchain_watcher.Mongo.Memory.{
  memory, no_documents, documents, memory-CollectionLaws, is_zero_id, ids-ObjectIdLaws,
}
use go_blockchain_watcher.Orders.{zero_order}
use go_blockchain_watcher.Orders.Adapter.{convert_order_domain_to_model}
use go_blockchain_watcher.Accounts
use go_blockchain_watcher.Accounts.{new_account}
use go_blockchain_watcher.Accounts.Adapter.{convert_account_domain_to_model}
use go_blockchain_watcher.Workers.Evm.{contains}
use go_blockchain_watcher.Workers.Evm.Payments.Transfers.{AnkrTransaction}
use go_blockchain_watcher.Workers.Evm.Payments.Amounts.{hex_digits}
use go_blockchain_watcher.Workers.Evm.Payments.{
  StoredOrder, Surroundings, find_deposit_accounts_by_addresses, account_map,
  process_matched_transaction, process_all,
}
use go_blockchain_watcher.Workers.Evm.Payments.Outcomes.{IsConfirmed, IsLeft}
use go_blockchain_watcher.Workers.Evm.Payments.Deposits.{transaction_missed, transaction_confirms}

abbrev to_lower : String → String
to_lower x = if x == "0xB" then "0xb" else x

idempotent : (x : String) → to_lower (to_lower x) ≡ to_lower x
idempotent x = elim (Bool-cases (x == "0xB")) [ inl e ↦ rw e refl | inr e ↦ rw e (rw e refl) ]

abbrev natural : ℤ → Float64
natural (pos n) = n
natural (negsuc n) = 0

abbrev surroundings :
    {S : Type 0}
    → Collection (Accounts.Document ℕ) S
    → Collection (StoredOrder ℕ) S
    → Surroundings ℕ S
surroundings accounts orders = record {
  get_block_by_number = λ n. ok [];
  get_past_logs = λ n. ok [];
  accounts = accounts;
  orders = orders;
  same = eqb;
  matches = λ a w. to_lower a == to_lower w;
  to_lower = to_lower;
  quotient = λ n d. natural n;
  now = λ s. 30;
}

abbrev account : ℕ → String → Accounts.Document ℕ
unfolding convert_account_domain_to_model new_account
account id address = convert_account_domain_to_model 0 (new_account id 0 5 1 2 3 4 address "")

-- One account is stored in lower case and one with a capital letter.
abbrev stored : List (Accounts.Document ℕ)
unfolding convert_account_domain_to_model new_account
stored = account 1 "0xa" ∷ account 2 "0xB" ∷ []

abbrev transaction : String → AnkrTransaction
transaction recipient = record {
  hash = "0x9";
  recipient = recipient;
  sender = "0xc";
  value = "0x1F";
  block_number = "0x1";
  block_hash = "0x2";
}

transaction_missed_example :
    let p = surroundings memory no_documents in
    (find_deposit_accounts_by_addresses p ("0xa" ∷ "0xb" ∷ []) stored ≡ ok (account 1 "0xa" ∷ []))
    × (process_all p (account_map p [] (account 1 "0xa" ∷ [])) (transaction "0xB" ∷ []) stored
        ≡ process_all p (account_map p [] (account 1 "0xa" ∷ [])) [] stored)
unfolding contains convert_account_domain_to_model new_account
transaction_missed_example =
    transaction_missed (surroundings memory no_documents) documents memory-CollectionLaws "0xa"
      ("0xb" ∷ []) (account 1 "0xa") [] stored stored (transaction "0xB") [] idempotent refl
      (refl, (refl, tt))

-- An order that waits for a payment to the second account.
abbrev pending : StoredOrder ℕ
unfolding convert_order_domain_to_model
pending = record {
  order = record (convert_order_domain_to_model (zero_order 0)) {
    id = 6;
    status = "PENDING";
    amount = 77;
    deposit_account_ids = 2 ∷ [];
  };
  latest_tx_hash = "";
}

abbrev confirmed : StoredOrder ℕ
unfolding convert_order_domain_to_model
confirmed = record {
  order = record pending.order { status = "DEPOSIT_CONFIRMING"; amount = 31; updated_at = 30 };
  latest_tx_hash = "0x9";
}

-- The order is for 77, and the transaction has the value 31.
transaction_confirms_example :
    let p = surroundings no_documents memory in
    IsConfirmed p documents (transaction "0xB") (account 2 "0xB") (pending ∷ [])
    ⊎ IsLeft p documents (transaction "0xB") (account 2 "0xB") (pending ∷ [])
transaction_confirms_example =
    transaction_confirms (surroundings no_documents memory) documents memory-CollectionLaws 0
      is_zero_id ids-ObjectIdLaws (transaction "0xB") (account 2 "0xB") (pending ∷ [])

confirmed_amount :
    (process_matched_transaction
      (surroundings no_documents memory)
      (transaction "0xB")
      (account 2 "0xB")
      (pending ∷ []))
    ≡ (true, confirmed ∷ [])
unfolding convert_account_domain_to_model new_account convert_order_domain_to_model
    process_matched_transaction hex_digits
confirmed_amount = refl
