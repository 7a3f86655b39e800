-- ===== src/Monitors/Solana/Retries.antt =====
-- The retries of makeRequest in managers/workers/solana_block_monitor.go decode into one response, and
-- a decoder leaves a field without a key as it was.
use go_blockchain_watcher.Prelude.{
  ℕ, zero, suc, ◌+◌, ◌<◌, ◌≡◌, refl, ap, ◌∙◌, String, false, Option, none, some, arith,
  if◌then◌else◌,
}
use go_blockchain_watcher.Errors.{ok}
use go_blockchain_watcher.Values.{ℤ, pos}
use go_blockchain_watcher.Monitors.Solana.Rpc.{
  Endpoint, absent, rpc_error, SolanaRpcResponse, Answer, Outcome, again, Reply, failed,
  decode_into, checked, is_skipped, rpc_failure, outcome, tries, next_try, last_try, make_request,
  write_error, given,
}

module _ (endpoint : Endpoint) where
  open endpoint use {decode_response}

  -- The answer of an HTTP request that went well.
  abbrev pub good : String → Answer
  good body = ok (200, ok body)

  outcome-good :
      (r : SolanaRpcResponse) (body : String)
      → (decode_response body).1 ≡ none
      → outcome endpoint r (good body)
        ≡ checked endpoint
            (decode_into (decode_response body).0 r).error
            (decode_into (decode_response body).0 r)
  unfolding outcome
  outcome-good r body e = rw e refl

  -- An error in the response stays there.
  kept_outcome :
      (r : SolanaRpcResponse) (body : String) (code : ℤ) (message : String)
      → is_skipped code ≡ false
      → r.error ≡ some (code, message)
      → (decode_response body).1 ≡ none
      → (decode_response body).0.error ≡ absent
      → (r' : SolanaRpcResponse) × (r'.error ≡ some (code, message))
        × (outcome endpoint r (good body) ≡ again r' (some r') (rpc_failure endpoint code message))
  unfolding decode_into
  kept_outcome r body code message lasting h decodes no_error =
      let r' = decode_into (decode_response body).0 r in
      let stays : r'.error ≡ some (code, message) = ap (λ f. write_error f r.error) no_error ∙ h in
      (
        r',
        stays,
        outcome-good r body decodes
            ∙ ap (λ e. checked endpoint e r') stays
            ∙ ap
                (λ b.
                  if b
                  then Outcome.permanent r' (rpc_failure endpoint code message)
                  else again r' (some r') (rpc_failure endpoint code message))
                lasting,
      )

  -- The answers after the first go well and have no key `error`.
  module _ (answers : ℕ → Answer) (bodies : ℕ → String) (code : ℤ) (message : String)
      (lasting : is_skipped code ≡ false) (well : (k : ℕ) → 0 < k → answers k ≡ good (bodies k))
      (decodes : (k : ℕ) → 0 < k → (decode_response (bodies k)).1 ≡ none)
      (no_error : (k : ℕ) → 0 < k → (decode_response (bodies k)).0.error ≡ absent) where
    abbrev Failed : Reply → Type 0
    Failed p = (r : SolanaRpcResponse) × (p ≡ failed (some r) (rpc_failure endpoint code message))

    tries_fail :
        (left retry : ℕ) (r : SolanaRpcResponse)
        → 0 < retry
        → r.error ≡ some (code, message)
        → Failed (tries endpoint answers left retry r)
    unfolding tries
    tries_fail zero retry r later h =
        let (r', e, o) =
          kept_outcome r (bodies retry) code message lasting h (decodes retry later)
            (no_error retry later) in
        (r', rw (well retry later) (ap (last_try endpoint) o))
    tries_fail (suc left) retry r later h =
        let (r', e, o) =
          kept_outcome r (bodies retry) code message lasting h (decodes retry later)
            (no_error retry later) in
        let (r'', f) = tries_fail left (retry + 1) r' (omega arith) e in
        (
          r'',
          rw (well retry later)
              (ap (λ x. next_try endpoint x (tries endpoint answers left (retry + 1))) o ∙ f),
        )

    -- When the first answer of the endpoint is an RPC error, other than the one of a skipped block,
    -- makeRequest fails with its code and message, where 0 and the empty text stand for those that the
    -- answer does not have, although every retry is answered well: with status 200 and a response that
    -- is decoded and has no key `error`.
    pub make_request_fails :
        (first : String) (c : Option ℤ) (m : Option String)
        → answers 0 ≡ good first
        → (decode_response first).1 ≡ none
        → (decode_response first).0.error ≡ rpc_error c m
        → given c (pos 0) ≡ code
        → given m "" ≡ message
        → (r : SolanaRpcResponse) × (make_request endpoint answers
            ≡ failed (some r) (rpc_failure endpoint code message))
    unfolding make_request tries
    make_request_fails first c m start ready fault own_code own_message =
        let empty : SolanaRpcResponse = record { result = ""; error = none } in
        let r = decode_into (decode_response first).0 empty in
        let in_error : r.error ≡ some (code, message) =
          unfold decode_into in
          ap (λ f. write_error f none) fault
          ∙ ap (λ (x : ℤ). some (x, given m "")) own_code
          ∙ ap (λ (x : String). some (code, x)) own_message in
        let (r', f) = tries_fail 2 1 r (omega arith) in_error in
        (
          r',
          rw start (
              ap (λ x. next_try endpoint x (tries endpoint answers 2 1))
                (outcome-good empty first ready
                  ∙ ap (λ e. checked endpoint e r) in_error
                  ∙ ap
                      (λ b.
                        if b
                        then Outcome.permanent r (rpc_failure endpoint code message)
                        else again r (some r) (rpc_failure endpoint code message))
                      lasting)
              ∙ f),
        )
