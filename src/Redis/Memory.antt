-- ===== src/Redis/Memory.antt =====
-- A Redis server in memory that always answers: an instance of what is assumed of the client.
use go_blockchain_watcher.Prelude.{
  String, ◌≡◌, ◌⊎◌, refl, Option, none, some, List, [], ◌∷◌, arith, inl, inr,
}
use go_blockchain_watcher.Errors.{errors_new, Result, ok, err}
use go_blockchain_watcher.Map.{Map}
use go_blockchain_watcher.Redis.{
  Redis, RedisLaws, Entry, absent, text, items, fields, items_of, of_items, put, run_commands,
  replies,
}

abbrev pub Memory : Type 0
Memory = String → Entry

abbrev text_of : Entry → Result (Option String)
text_of absent = ok none
text_of (text t) = ok (some t)
text_of (items xs) = err (errors_new "WRONGTYPE")
text_of (fields m) = err (errors_new "WRONGTYPE")

abbrev fields_of : Entry → Result (Map String)
fields_of absent = ok []
fields_of (fields m) = ok m
fields_of (items xs) = err (errors_new "WRONGTYPE")
fields_of (text t) = err (errors_new "WRONGTYPE")

abbrev pop : String → Memory → List String → Result (Option String) × Memory
pop k s [] = (ok none, s)
pop k s (x ∷ xs) = (ok (some x), put s k (of_items xs))

abbrev pub memory : Redis Memory
memory = record {
  get = λ k s. text_of (s k);
  hgetall = λ k s. fields_of (s k);
  set = λ k v s. (ok tt, put s k (text v));
  set_for = λ n k v s. (ok tt, put s k (text v));
  del = λ k s. (ok tt, put s k absent);
  exec = λ cs s. (ok (replies cs s), run_commands cs s);
  blpop = λ k s. pop k s (items_of (s k));
}

abbrev pub entry : Memory → String → Entry
entry s = s

text_of_lem :
    (e : Entry) (v : Option String)
    → text_of e ≡ ok v
    → e ≡ elim v [ none ↦ absent | some t ↦ text t ]
text_of_lem absent v h = ground (arith, h)
text_of_lem (text t) v h = ground (arith, h)
text_of_lem (items xs) v h = absurd (cc)
text_of_lem (fields m) v h = absurd (cc)

fields_of_lem :
    (e : Entry) (m : Map String) → fields_of e ≡ ok m → (e ≡ fields m) ⊎ ((e ≡ absent) × (m ≡ []))
fields_of_lem absent m h = inr (refl, ground (arith, h))
fields_of_lem (fields n) m h = inl (ground (arith, h))
fields_of_lem (items xs) m h = absurd (cc)
fields_of_lem (text t) m h = absurd (cc)

pop_lem :
    (k v : String) (s : Memory) (xs : List String)
    → (pop k s xs).0 ≡ ok (some v)
    → (rest : List String) × (xs ≡ v ∷ rest)
      × ((j : String) → (pop k s xs).1 j ≡ put s k (of_items rest) j)
pop_lem k v s [] h = absurd (ground (arith, h))
pop_lem k v s (x ∷ xs) h = (xs, ground (arith, h), λ j. refl)

pub memory-RedisLaws : RedisLaws memory entry
memory-RedisLaws = record {
  get_ok = λ k s v e. text_of_lem (s k) v e;
  hgetall_ok = λ k s m e. fields_of_lem (s k) m e;
  set_ok = λ k v s e j. refl;
  set_for_ok = λ n k v s e j. refl;
  del_ok = λ k s e j. refl;
  exec_ok = λ cs s ns e. (ground (arith, e), λ j. refl);
  blpop_ok = λ k v s e. pop_lem k v s (items_of (s k)) e;
}
