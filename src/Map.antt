-- ===== src/Map.antt =====
-- Go's maps with string keys, as association lists. A key's entry is the first one; `delete` drops
-- every entry of its key. Go leaves the order of iteration open: here it is the list's.
use go_blockchain_watcher.Prelude.{
  String, ◌≡◌, refl, Bool, true, false, Option, none, some, List, [], ◌∷◌, arith, ◌==◌, eq_iff,
  if◌then◌else◌,
}

abbrev pub Map {ℓ} : Type ℓ → Type ℓ
Map V = List (String × V)

module _ {ℓ} {V : Type ℓ} where
  unfoldable pub lookup : String → Map V → Option V
  lookup key [] = none
  lookup key (entry ∷ rest) = if entry.0 == key then some entry.1 else lookup key rest

  -- m[key] = value
  unfoldable pub insert : String → V → Map V → Map V
  insert key value [] = (key, value) ∷ []
  insert key value (entry ∷ rest) =
      if entry.0 == key then (key, value) ∷ rest else entry ∷ insert key value rest

  -- delete(m, key)
  unfoldable pub delete : String → Map V → Map V
  delete key [] = []
  delete key (entry ∷ entries) =
      let rest = delete key entries in if entry.0 == key then rest else entry ∷ rest

  -- len(m) == 0
  abbrev pub is_empty : Map V → Bool
  is_empty [] = true
  is_empty (e ∷ m) = false

  pub lookup-insert :
      (key other : String) (value : V) (entries : Map V)
      → lookup other (insert key value entries)
        ≡ (if key == other then some value else lookup other entries)
  unfolding lookup insert
  lookup-insert key other value [] = refl
  lookup-insert key other value (entry ∷ rest) =
      let same_key = eq_iff entry.0 key in
      let same_other = eq_iff entry.0 other in
      ground (arith, eq_iff key other, same_key, same_other, lookup-insert key other value rest)

  pub lookup-delete :
      (key other : String) (entries : Map V)
      → lookup other (delete key entries) ≡ (if key == other then none else lookup other entries)
  unfolding lookup delete
  lookup-delete key other [] = ground arith
  lookup-delete key other (entry ∷ rest) =
      let same_key = eq_iff entry.0 key in
      let same_other = eq_iff entry.0 other in
      ground (arith, eq_iff key other, same_key, same_other, lookup-delete key other rest)

  pub lookup-nil : (k : String) → lookup k [] ≡ none
  unfolding lookup
  lookup-nil k = refl

  pub delete-delete : (k : String) (m : Map V) → delete k (delete k m) ≡ delete k m
  unfolding delete
  delete-delete k [] = refl
  delete-delete k ((i, w) ∷ m) = ground (arith, delete-delete k m)

  pub insert-ne-empty : (k : String) (v : V) (m : Map V) → is_empty (insert k v m) ≡ false
  unfolding insert
  insert-ne-empty k v [] = refl
  insert-ne-empty k v ((i, w) ∷ m) = ground arith

  pub lookup-empty : (k : String) (m : Map V) → is_empty m ≡ true → lookup k m ≡ none
  unfolding lookup
  lookup-empty k [] h = refl
  lookup-empty k (e ∷ m) h = ground arith

  pub ruleset map_laws = (lookup-insert, lookup-delete, lookup-nil)
