-- ===== src/Monitors/Solana/Rpc.antt =====
-- The calls of the endpoint in managers/workers/solana_block_monitor.go: makeRequest with its retries,
-- getCurrentSlot and getBlock.
use Prim.Native.String.{◌++◌}
use go_blockchain_watcher.Prelude.{
  ℕ, zero, suc, ◌+◌, String, Bool, true, false, not, ◌&&◌, ◌||◌, Option, none, some, List, [], ◌∷◌,
  ◌==◌, eqb, if◌then◌else◌,
}
use go_blockchain_watcher.Errors.{Error, errors_new, errorf, Result, ok, err, wrap_result}
use go_blockchain_watcher.Values.{Float64, ℤ, pos, negsuc}

pub record SolanaTransaction : Type 0 where
  pub signature : String
  pub successful : Bool
  pub fee : ℤ

pub record SolanaBlock : Type 0 where
  pub blockhash : String
  pub block_time : ℤ
  pub block_height : ℕ
  pub transactions : List SolanaTransaction

-- `transactions` holds the raw texts.
pub record CustomSolanaBlock : Type 0 where
  pub blockhash : String
  pub block_time : ℤ
  pub block_height : ℕ
  pub transactions : List String

-- What is read of a raw transaction: the first of the signatures, and of `meta`, when it is there, the
-- fee and the error; `meta_error` is `none` without the key, and tells otherwise if it is `nil`.
pub record TransactionData : Type 0 where
  pub first_signature : Option String
  pub has_meta : Bool
  pub meta_fee : Option Float64
  pub meta_error : Option Bool

-- The `error` of a response: the key is absent, or `null`, or an error, of which the code and the
-- message may be missing.
pub data ErrorField : Type 0 where
  absent null : ErrorField
  rpc_error : Option ℤ → Option String → ErrorField

-- The fields that a decoder writes: it leaves a field without a key as it was.
pub record Fields : Type 0 where
  pub result : Option String
  pub error : ErrorField

pub record SolanaRpcResponse : Type 0 where
  pub result : String
  pub error : Option (ℤ × String)

-- One POST: an error, or the status code and the body, which may fail to be read.
abbrev pub Answer : Type 0
Answer = Result (ℕ × Result String)

-- `slot_answer` and `block_answer` are what the endpoint answers to `getSlot` and to `getBlock` of a
-- slot, at the first try and at each retry; `decimal` is `%d`. A decoder also gives what it has written when it fails.
pub record Endpoint : Type 0 where
  pub slot_answer : ℕ → Answer
  pub block_answer : ℕ → ℕ → Answer
  pub decode_response : String → Fields × Option Error
  pub decode_slot : String → Result ℕ
  pub decode_block : String → SolanaBlock × Option Error
  pub decode_custom_block : String → Result CustomSolanaBlock
  pub decode_transaction : String → Result TransactionData
  pub to_int64 : Float64 → ℤ
  pub to_uint64 : Float64 → ℕ
  pub decimal : ℤ → String

-- What one try comes to: another try, with the response as it stands and with what is returned if this
-- was the last; an end with an error; or an end.
pub data Outcome : Type 0 where
  again : SolanaRpcResponse → Option SolanaRpcResponse → Error → Outcome
  permanent : SolanaRpcResponse → Error → Outcome
  success : SolanaRpcResponse → Outcome

pub data Reply : Type 0 where
  failed : Option SolanaRpcResponse → Error → Reply
  answered : SolanaRpcResponse → Reply

abbrev pub given : {A : Type 0} → Option A → A → A
given none old = old
given (some new) old = new

abbrev pub code_of : Option (ℤ × String) → ℤ
code_of none = pos 0
code_of (some (code, message)) = code

abbrev pub message_of : Option (ℤ × String) → String
message_of none = ""
message_of (some (code, message)) = message

-- An error that is there already keeps what the new one does not have.
abbrev pub write_error : ErrorField → Option (ℤ × String) → Option (ℤ × String)
write_error absent old = old
write_error null old = none
write_error (rpc_error code message) old =
    some (given code (code_of old), given message (message_of old))

abbrev pub write_result : Option String → String → String
write_result none old = old
write_result (some r) old = r

-- Every try decodes into the same response.
unfoldable pub decode_into : Fields → SolanaRpcResponse → SolanaRpcResponse
decode_into f r = record {
  result = write_result f.result r.result;
  error = write_error f.error r.error;
}

-- -32004, a block that is not found or was skipped.
abbrev pub is_skipped : ℤ → Bool
is_skipped (pos n) = false
is_skipped (negsuc n) = eqb n 32003

module _ (endpoint : Endpoint) where
  open endpoint use {
    slot_answer, block_answer, decode_response, decode_slot, decode_block, decode_custom_block,
    decode_transaction, to_int64, decimal,
  }

  abbrev pub rpc_failure : ℤ → String → Error
  rpc_failure code message =
      errors_new ("RPC error: " ++ (message ++ (" (code: " ++ (decimal code ++ ")"))))

  abbrev pub checked : Option (ℤ × String) → SolanaRpcResponse → Outcome
  checked none r = success r
  checked (some (code, message)) r =
      if is_skipped code
      then permanent r (rpc_failure code message)
      else again r (some r) (rpc_failure code message)

  abbrev pub decoded : Option Error → SolanaRpcResponse → Outcome
  decoded (some e) r = again r none (errorf "error decoding response" e)
  decoded none r = checked r.error r

  -- The errors of a status leave out its number and the body.

  unfoldable pub outcome : SolanaRpcResponse → Answer → Outcome
  unfolding decode_into
  outcome r (err e) = again r none (errorf "error making request" e)
  outcome r (ok (code, err e)) = again r none (errorf "error reading response" e)
  outcome r (ok (code, ok body)) =
      if eqb code 429
      then again r none (errors_new "rate limited by Ankr API")
      else if eqb code 403 || eqb code 401
      then again r none (errors_new "authentication error with Ankr API")
      else if not (eqb code 200)
      then again r none (errors_new "unexpected status code")
      else decoded (decode_response body).1 (decode_into (decode_response body).0 r)

  abbrev pub last_try : Outcome → Reply
  last_try (again r returned e) = failed returned e
  last_try (permanent r e) = failed (some r) e
  last_try (success r) = answered r

  abbrev pub next_try : Outcome → (SolanaRpcResponse → Reply) → Reply
  next_try (again r returned e) next = next r
  next_try (permanent r e) next = failed (some r) e
  next_try (success r) next = answered r

  -- The retries that are left, and the number of the try.
  unfoldable pub tries : (ℕ → Answer) → ℕ → ℕ → SolanaRpcResponse → Reply
  unfolding outcome
  tries answers zero retry r = last_try (outcome r (answers retry))
  tries answers (suc left) retry r =
      next_try (outcome r (answers retry)) (tries answers left (retry + 1))

  abbrev pub max_retries : ℕ
  max_retries = 3

  unfoldable pub make_request : (ℕ → Answer) → Reply
  unfolding tries
  make_request answers = tries answers max_retries 0 (record { result = ""; error = none })

  abbrev pub slot_of_reply : Reply → Result ℕ
  slot_of_reply (failed r e) = err e
  slot_of_reply (answered r) = wrap_result "error unmarshaling slot" (decode_slot r.result)

  unfoldable pub get_current_slot : Result ℕ
  unfolding make_request
  get_current_slot = slot_of_reply (make_request slot_answer)

  abbrev pub is_skipped_response : Option SolanaRpcResponse → Bool
  is_skipped_response none = false
  is_skipped_response (some r) = elim r.error [ none ↦ false | some p ↦ is_skipped p.0 ]

  -- `allTransactionsEmpty`
  abbrev pub without_signatures : List SolanaTransaction → Bool
  without_signatures [] = true
  without_signatures (tx ∷ txs) = tx.signature == "" && without_signatures txs

  abbrev pub all_transactions_empty : List SolanaTransaction → Bool
  all_transactions_empty [] = false
  all_transactions_empty (tx ∷ txs) = without_signatures (tx ∷ txs)

  abbrev pub signature_of : Option String → String
  signature_of none = ""
  signature_of (some s) = s

  abbrev pub fee_of : Option Float64 → ℤ
  fee_of none = pos 0
  fee_of (some f) = to_int64 f

  abbrev pub success_of : Bool → Option Bool → Bool
  success_of false e = false
  success_of true none = true
  success_of true (some is_nil) = is_nil

  abbrev pub custom_transaction : TransactionData → SolanaTransaction
  custom_transaction t = record {
    signature = signature_of t.first_signature;
    successful = success_of t.has_meta t.meta_error;
    fee = if t.has_meta then fee_of t.meta_fee else pos 0;
  }

  -- A raw transaction that cannot be decoded or has no signature is left out.
  abbrev pub add_custom : Result TransactionData → List SolanaTransaction → List SolanaTransaction
  add_custom (err e) rest = rest
  add_custom (ok t) rest =
      if (custom_transaction t).signature == "" then rest else custom_transaction t ∷ rest

  abbrev pub custom_transactions : List String → List SolanaTransaction
  custom_transactions [] = []
  custom_transactions (raw ∷ rest) = add_custom (decode_transaction raw) (custom_transactions rest)

  abbrev pub or_old : List SolanaTransaction → List SolanaTransaction → List SolanaTransaction
  or_old [] old = old
  or_old (tx ∷ txs) old = tx ∷ txs

  abbrev pub custom_block : SolanaBlock → Result CustomSolanaBlock → Result (Option SolanaBlock)
  custom_block b (err e) = err (errorf "error unmarshaling block with custom format" e)
  custom_block b (ok c) = ok (
      some (record {
        blockhash = c.blockhash;
        block_time = c.block_time;
        block_height = c.block_height;
        transactions = or_old (custom_transactions c.transactions) b.transactions;
      }))

  abbrev pub standard_block : String → SolanaBlock × Option Error → Result (Option SolanaBlock)
  standard_block raw (b, some e) = custom_block b (decode_custom_block raw)
  standard_block raw (b, none) =
      if all_transactions_empty b.transactions
      then custom_block b (decode_custom_block raw)
      else ok (some b)

  abbrev pub block_of_reply : Reply → Result (Option SolanaBlock)
  block_of_reply (failed r e) = if is_skipped_response r then ok none else err e
  block_of_reply (answered r) =
      if r.result == "null" then ok none else standard_block r.result (decode_block r.result)

  unfoldable pub get_block : ℕ → Result (Option SolanaBlock)
  unfolding make_request
  get_block slot = block_of_reply (make_request (block_answer slot))
