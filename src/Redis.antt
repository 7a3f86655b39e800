-- ===== src/Redis.antt =====
-- The Redis client that managers/queue and managers/cache call. It is a parameter: a store of some
-- type, the commands that the program uses, and what Redis documents of them.
pub mod Memory
use go_blockchain_watcher.Prelude.{
  ℕ, String, ◌≡◌, ◌⊎◌, Bool, true, false, Option, none, some, List, [], ◌∷◌, ◌++◌, ◌==◌, length,
  if◌then◌else◌,
}
use go_blockchain_watcher.Errors.{Error, Result, ok, err, Exec}
use go_blockchain_watcher.Map.{Map}

-- The commands of a pipeline. `lrem` is LREM with count 0.
pub data Command : Type 0 where
  rpush lpush lrem set publish : String → String → Command
  llen : String → Command

-- `get` gives `none` for `redis.Nil`; `exec` runs a pipeline, and gives the integer replies;
-- `set_for` is SET with an expiry in seconds; `blpop` gives the value that it took from the front of
-- the key's list, `none` after the timeout.
pub record Redis (S : Type 0) : Type 0 where
  pub get : String → S → Result (Option String)
  pub hgetall : String → S → Result (Map String)
  pub set : String → String → Exec S (Unit {0})
  pub set_for : ℕ → String → String → Exec S (Unit {0})
  pub del : String → Exec S (Unit {0})
  pub exec : List Command → Exec S (List ℕ)
  pub blpop : String → Exec S (Option String)

-- What a key holds.
pub data Entry : Type 0 where
  absent : Entry
  text : String → Entry
  items : List String → Entry
  fields : Map String → Entry

abbrev pub items_of : Entry → List String
items_of (items xs) = xs
items_of _ = []

-- A list that gets empty is removed.
abbrev pub of_items : List String → Entry
of_items [] = absent
of_items (x ∷ xs) = items (x ∷ xs)

abbrev pub without : String → List String → List String
without v [] = []
without v (x ∷ xs) = let rest = without v xs in if x == v then rest else x ∷ rest

abbrev pub put : (String → Entry) → String → Entry → String → Entry
put view k e j = if k == j then e else view j

abbrev pub run_command : Command → (String → Entry) → String → Entry
run_command (rpush k v) view = put view k (items (items_of (view k) ++ v ∷ []))
run_command (lpush k v) view = put view k (items (v ∷ items_of (view k)))
run_command (lrem k v) view = put view k (of_items (without v (items_of (view k))))
run_command (set k v) view = put view k (text v)
run_command (publish k v) view = view
run_command (llen k) view = view

abbrev pub run_commands : List Command → (String → Entry) → String → Entry
run_commands [] view = view
run_commands (c ∷ cs) view = run_commands cs (run_command c view)

-- The replies to LLEN.
abbrev pub replies : List Command → (String → Entry) → List ℕ
replies [] view = []
replies (llen k ∷ cs) view = length (items_of (view k)) ∷ replies cs view
replies (c ∷ cs) view = replies cs (run_command c view)

-- What a call that succeeds has done or seen, in terms of the entries of the keys. GET of a key that
-- holds no text fails, and so does HGETALL of one that holds no hash.
pub record RedisLaws {S : Type 0} (r : Redis S) (view : S → String → Entry) : Type 0 where
  pub get_ok :
      (k : String) (s : S) (v : Option String)
      → r.get k s ≡ ok v
      → view s k ≡ elim v [ none ↦ absent | some t ↦ text t ]
  pub hgetall_ok :
      (k : String) (s : S) (m : Map String)
      → r.hgetall k s ≡ ok m
      → (view s k ≡ fields m) ⊎ ((view s k ≡ absent) × (m ≡ []))
  pub set_ok :
      (k v : String) (s : S)
      → (r.set k v s).0 ≡ ok tt
      → (j : String) → view (r.set k v s).1 j ≡ put (view s) k (text v) j
  pub set_for_ok :
      (n : ℕ) (k v : String) (s : S)
      → (r.set_for n k v s).0 ≡ ok tt
      → (j : String) → view (r.set_for n k v s).1 j ≡ put (view s) k (text v) j
  pub del_ok :
      (k : String) (s : S)
      → (r.del k s).0 ≡ ok tt
      → (j : String) → view (r.del k s).1 j ≡ put (view s) k absent j
  pub exec_ok :
      (cs : List Command) (s : S) (ns : List ℕ)
      → (r.exec cs s).0 ≡ ok ns
      → (ns ≡ replies cs (view s))
        × ((j : String) → view (r.exec cs s).1 j ≡ run_commands cs (view s) j)
  pub blpop_ok :
      (k v : String) (s : S)
      → (r.blpop k s).0 ≡ ok (some v)
      → (rest : List String) × (items_of (view s k) ≡ v ∷ rest)
        × ((j : String) → view (r.blpop k s).1 j ≡ put (view s) k (of_items rest) j)
