-- ===== src/Workers/Evm/Payments.antt =====
-- internal/worker/evm/processor.go: what a worker does with the transactions of a block. The node, the
-- collections of MongoDB and its regular expressions, `strings.ToLower` and the division of big numbers are
-- parameters.
pub mod Transfers
pub mod Amounts
pub mod Outcomes
pub mod Deposits
pub mod Examples
use Prim.Native.String.{◌++◌}
use go_blockchain_watcher.Prelude.{
  ℕ, zero, suc, ◌+◌, ◌^◌, String, Bool, true, false, not, ◌&&◌, ◌||◌, Option, none, some, List, [],
  ◌∷◌, ◌==◌, map, appended, get_elem?, ltb, length, is_some, if◌then◌else◌,
}
use go_blockchain_watcher.Errors.{Error, errors_new, errorf, Result, ok, err}
use go_blockchain_watcher.Map.{Map, lookup, insert}
use go_blockchain_watcher.Values.{Time, Float64, ℤ, Value, text}
use go_blockchain_watcher.Mongo.{Collection}
use go_blockchain_watcher.Orders.Adapter.{has_id}
use go_blockchain_watcher.Orders
use go_blockchain_watcher.Accounts
use go_blockchain_watcher.Workers.Evm.{contains}
use go_blockchain_watcher.Workers.Evm.Payments.Amounts.{set_string, without_prefix}
use go_blockchain_watcher.Workers.Evm.Payments.Transfers.{
  AnkrTransaction, TokenTransfer, RawLog, text_field, convert_to_ankr_transaction, text_length,
  drop_text, address_of_topic, topic_address, raw_amount, parse_token_transfer_log,
}

-- A stored order, with the field that only the worker writes.
pub record StoredOrder (ObjectId : Type 0) : Type 0 where
  pub order : Orders.Document ObjectId
  pub latest_tx_hash : String

-- The transactions of a block, and its logs, of which `none` is a value of another type. `matches` is
-- the regular expression `^address$` without regard to case, and `quotient` is `Quo` of two numbers as
-- a `big.Float`, with its `Float64`.
pub record Surroundings (ObjectId S : Type 0) : Type 0 where
  pub get_block_by_number : ℕ → Result (List (Option (Map Value)))
  pub get_past_logs : ℕ → Result (List (Option RawLog))
  pub accounts : Collection (Accounts.Document ObjectId) S
  pub orders : Collection (StoredOrder ObjectId) S
  pub same : ObjectId → ObjectId → Bool
  pub matches : String → String → Bool
  pub to_lower : String → String
  pub quotient : ℤ → ℕ → Float64
  pub now : S → Time

module _ {ObjectId S : Type 0} (p : Surroundings ObjectId S) where
  -- addressSet: each address once.
  abbrev pub add_address : String → List String → List String
  add_address a set = if contains set a then set else appended set a

  abbrev pub native_of : Option (Map Value) → Option AnkrTransaction
  native_of none = none
  native_of (some m) =
      let tx = convert_to_ankr_transaction m in if tx.recipient == "" then none else some tx

  abbrev pub transfer_of : Option RawLog → Option TokenTransfer
  transfer_of none = none
  transfer_of (some l) =
      let t = parse_token_transfer_log l in if t.recipient == "" then none else some t

  abbrev add_some : {A : Type 0} → Option A → List A → List A
  add_some none as' = as'
  add_some (some a) as' = a ∷ as'

  unfoldable pub native_transactions : List (Option (Map Value)) → List AnkrTransaction
  native_transactions [] = []
  native_transactions (t ∷ ts) = add_some (native_of t) (native_transactions ts)

  unfoldable pub token_transfers : List (Option RawLog) → List TokenTransfer
  token_transfers [] = []
  token_transfers (l ∷ ls) = add_some (transfer_of l) (token_transfers ls)

  unfoldable pub add_addresses : List String → List String → List String
  add_addresses set [] = set
  add_addresses set (a ∷ rest) = add_addresses (add_address (p.to_lower a) set) rest

  abbrev pub live : Accounts.Document ObjectId → Bool
  live d = not (is_some d.deleted_at)

  unfoldable pub matches_any : List String → String → Bool
  matches_any [] w = false
  matches_any (a ∷ rest) w = p.matches a w || matches_any rest w

  -- The regular expressions are tried when no account was found.
  abbrev pub or_matching :
      List String
      → Result (List (Accounts.Document ObjectId))
      → S
      → Result (List (Accounts.Document ObjectId))
  or_matching addresses (err e) s = err e
  or_matching addresses (ok (d ∷ ds)) s = ok (d ∷ ds)
  or_matching addresses (ok []) s =
      p.accounts.find
        (λ (d : Accounts.Document ObjectId). matches_any addresses d.wallet_address && live d) s

  unfoldable pub find_deposit_accounts_by_addresses :
      List String → S → Result (List (Accounts.Document ObjectId))
  find_deposit_accounts_by_addresses [] s = ok []
  find_deposit_accounts_by_addresses (a ∷ rest) s =
      or_matching (a ∷ rest)
        (p.accounts.find
          (λ (d : Accounts.Document ObjectId).
            contains (map p.to_lower (a ∷ rest)) d.wallet_address && live d)
          s)
        s

  -- accountMap: a later account takes the place of an earlier one.
  unfoldable pub account_map :
      Map (Accounts.Document ObjectId)
      → List (Accounts.Document ObjectId)
      → Map (Accounts.Document ObjectId)
  account_map m [] = m
  account_map m (d ∷ ds) = account_map (insert (p.to_lower d.wallet_address) d m) ds

  abbrev pub amount_of : String → Option ℤ → Result Float64
  amount_of v none = err (errors_new ("failed to parse hex amount: " ++ v))
  amount_of v (some n) = ok (p.quotient n (10 ^ 18))

  abbrev pub parse_transaction_amount : String → Result Float64
  parse_transaction_amount v =
      if v == "" || v == "0x0"
      then ok 0
      else amount_of (without_prefix v) (set_string (without_prefix v))

  abbrev pub is_pending_for : ObjectId → StoredOrder ObjectId → Bool
  is_pending_for account_id o =
      has_id p.same account_id o.order.deposit_account_ids && o.order.status == "PENDING"

  abbrev pub find_order_by_deposit_account : ObjectId → S → Result (Option (StoredOrder ObjectId))
  find_order_by_deposit_account account_id s = p.orders.find_one (is_pending_for account_id) s

  abbrev pub confirming : Float64 → Time → String → StoredOrder ObjectId → StoredOrder ObjectId
  confirming amount now hash o = record {
    order = record o.order { status = "DEPOSIT_CONFIRMING"; amount = amount; updated_at = now };
    latest_tx_hash = hash;
  }

  abbrev pub updated : Result ℕ × S → Bool × S
  updated (ok zero, s) = (false, s)
  updated (ok (suc n), s) = (true, s)
  updated (err e, s) = (false, s)

  abbrev pub with_amount : StoredOrder ObjectId → AnkrTransaction → Result Float64 → S → Bool × S
  with_amount o tx (err e) s = (false, s)
  with_amount o tx (ok amount) s = updated (
      p.orders.update_one (λ (d : StoredOrder ObjectId). p.same d.order.id o.order.id)
        (confirming amount (p.now s) tx.hash) s)

  abbrev pub process_order_transaction : StoredOrder ObjectId → AnkrTransaction → S → Bool × S
  process_order_transaction o tx s = with_amount o tx (parse_transaction_amount tx.value) s

  abbrev pub with_order : AnkrTransaction → Result (Option (StoredOrder ObjectId)) → S → Bool × S
  with_order tx (err e) s = (false, s)
  with_order tx (ok none) s = (false, s)
  with_order tx (ok (some o)) s = process_order_transaction o tx s

  unfoldable pub process_matched_transaction :
      AnkrTransaction → Accounts.Document ObjectId → S → Bool × S
  process_matched_transaction tx account s =
      with_order tx (find_order_by_deposit_account account.id s) s

  abbrev pub transaction_of : TokenTransfer → AnkrTransaction
  transaction_of t = record {
    hash = t.transaction_hash;
    recipient = t.recipient;
    sender = t.sender;
    value = t.amount;
    block_number = t.block_number;
    block_hash = "";
  }

  -- The number of matches is only logged.
  abbrev pub matched_or_not : AnkrTransaction → Option (Accounts.Document ObjectId) → S → S
  matched_or_not tx none s = s
  matched_or_not tx (some account) s = (process_matched_transaction tx account s).1

  unfoldable pub process_all : Map (Accounts.Document ObjectId) → List AnkrTransaction → S → S
  process_all m [] s = s
  process_all m (tx ∷ txs) s =
      process_all m txs (matched_or_not tx (lookup (p.to_lower tx.recipient) m) s)

  abbrev pub logs_or_none : Result (List (Option RawLog)) → List (Option RawLog)
  logs_or_none (ok ls) = ls
  logs_or_none (err e) = []

  abbrev pub addresses_of : List AnkrTransaction → List TokenTransfer → List String
  addresses_of natives transfers =
      add_addresses (add_addresses [] (map (λ (t : AnkrTransaction). t.recipient) natives))
        (map (λ (t : TokenTransfer). t.recipient) transfers)

  abbrev pub with_accounts :
      List AnkrTransaction
      → List TokenTransfer
      → Result (List (Accounts.Document ObjectId))
      → S
      → Result (Unit {0}) × S
  with_accounts natives transfers (err e) s =
      (err (errorf "failed to batch lookup deposit accounts" e), s)
  with_accounts natives transfers (ok ds) s =
      let m = account_map [] ds in
      (ok tt, process_all m (map transaction_of transfers) (process_all m natives s))

  abbrev pub with_block : ℕ → Result (List (Option (Map Value))) → S → Result (Unit {0}) × S
  with_block n (err e) s = (err (errorf "error getting block by number" e), s)
  with_block n (ok []) s = (ok tt, s)
  with_block n (ok (t ∷ ts)) s =
      let natives = native_transactions (t ∷ ts) in
      let transfers = token_transfers (logs_or_none (p.get_past_logs n)) in
      with_accounts natives transfers
        (find_deposit_accounts_by_addresses (addresses_of natives transfers) s) s

  unfoldable pub process_block : ℕ → S → Result (Unit {0}) × S
  process_block n s = with_block n (p.get_block_by_number n) s
