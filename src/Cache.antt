-- ===== src/Cache.antt =====
-- managers/cache/cache.go: values in Redis, as JSON, with an expiry. The JSON encoder and decoder of a
-- `ResponseData` are parameters.
use go_blockchain_watcher.Prelude.{ℕ, String, Option, none, some}
use go_blockchain_watcher.Errors.{Result, ok, err, Exec, read, wrap, wrap_result, ◌>>=◌}
use go_blockchain_watcher.Values.{Float64, ℤ}
use go_blockchain_watcher.Redis.{Redis}

-- The dynamic values of `Data` that the program tells apart; `number` is a `json.Number`, with the
-- answer of its `Int64`.
pub data Dynamic : Type 0 where
  nil_value : Dynamic
  float_value : Float64 → Dynamic
  int_value : ℤ → Dynamic
  uint_value : ℕ → Dynamic
  number : Result ℤ → Dynamic
  other_value : Dynamic

pub record ResponseCodec : Type 0 where
  pub marshal : Dynamic → Result String
  pub unmarshal : String → Result Dynamic

module _ {S : Type 0} (redis : Redis S) (codec : ResponseCodec) where
  unfoldable pub set : String → Dynamic → ℕ → Exec S (Unit {0})
  set key value expiry_seconds = do
    json ← wrap "failed to marshal cache data" (read (λ _. codec.marshal value))
    wrap "failed to set cache value" (redis.set_for expiry_seconds key json)

  -- A missing key gives the response without data.
  abbrev pub decode_response : Option String → Result Dynamic
  decode_response none = ok nil_value
  decode_response (some json) = wrap_result "failed to unmarshal cache data" (codec.unmarshal json)

  abbrev pub answer : Result (Option String) → Result Dynamic
  answer (ok found) = decode_response found
  answer (err e) = wrap_result "failed to get cache value" (err e)

  unfoldable pub get : String → S → Result Dynamic
  get key s = answer (redis.get key s)

  pub delete : String → Exec S (Unit {0})
  delete key = wrap "failed to delete cache key" (redis.del key)
