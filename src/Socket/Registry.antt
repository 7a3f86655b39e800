-- ===== src/Socket/Registry.antt =====
-- The registry of users in managers/socket/manager.go: what `Register` and `Unregister` do to the
-- client IDs that a user's entry lists.
use go_blockchain_watcher.Prelude.{
  ℕ, ◌+◌, ◌-◌, String, ◌≡◌, refl, true, false, not, ◌&&◌, some, List, [], ◌∷◌, ◌++◌, arith, ◌==◌,
  eq_iff, if◌then◌else◌, inl, inr, Option-cases,
}
use go_blockchain_watcher.Map.{Map, lookup, lookup-insert, lookup-delete}
use go_blockchain_watcher.Socket.{ids_of, register_user, unregister_user, remove_first, is_nil}

-- How often the ID stands in the list.
abbrev pub count : String → List String → ℕ
count i [] = 0
count i (x ∷ xs) = (if x == i then 1 else 0) + count i xs

pub count-append :
    (i id : String) (xs : List String)
    → count i (xs ++ id ∷ []) ≡ count i xs + (if id == i then 1 else 0)
count-append i id [] = ground arith
count-append i id (x ∷ xs) = ground (arith, count-append i id xs)

pub count-remove_first :
    (i id : String) (xs : List String)
    → count i (remove_first id xs) ≡ (if id == i then count i xs - 1 else count i xs)
unfolding remove_first
count-remove_first i id [] = ground arith
count-remove_first i id (x ∷ xs) =
    ground (arith, count-remove_first i id xs, eq_iff x id, eq_iff id i, eq_iff x i)

-- No user's entry is empty.
abbrev pub Listed : Map (List String) → Type 0
Listed reg = (u : String) (ids : List String) → lookup u reg ≡ some ids → is_nil ids ≡ false

append-ne-nil : (xs : List String) (x : String) → is_nil (xs ++ x ∷ []) ≡ false
append-ne-nil [] x = refl
append-ne-nil (y ∷ xs) x = refl

is_nil-eq-nil : (xs : List String) → is_nil xs ≡ true → xs ≡ []
is_nil-eq-nil [] h = refl
is_nil-eq-nil (x ∷ xs) h = ground arith

module _ (user id : String) (reg : Map (List String)) where
  pub ids_of-register_user :
      (v : String)
      → ids_of (register_user user id reg) v
        ≡ (if not (user == "") && (user == v) then ids_of reg v ++ id ∷ [] else ids_of reg v)
  unfolding register_user
  ids_of-register_user v =
      ground (arith, eq_iff user v, lookup-insert user v (ids_of reg user ++ id ∷ []) reg)

  pub Listed-register_user : Listed reg → Listed (register_user user id reg)
  unfolding register_user
  Listed-register_user h v ids e = ground (
    arith,
    h v ids,
    lookup-insert user v (ids_of reg user ++ id ∷ []) reg,
    append-ne-nil (ids_of reg user) id,
  )

  pub ids_of-unregister_user :
      (v : String)
      → ids_of (unregister_user user id reg) v
        ≡ (if not (user == "") && (user == v) then remove_first id (ids_of reg v) else ids_of reg v)
  unfolding unregister_user ids_of
  ids_of-unregister_user v = elim (Option-cases (lookup user reg)) [
    | inl e ↦ rw (e, unregister_user) (ground (arith, eq_iff user v))
    | inr (ids, e) ↦
        rw (e, unregister_user)
          (ground (
            arith,
            e,
            eq_iff user v,
            is_nil-eq-nil (remove_first id ids),
            lookup-delete user v reg,
            lookup-insert user v (remove_first id ids) reg,
          ))
  ]

  pub Listed-unregister_user : Listed reg → Listed (unregister_user user id reg)
  unfolding unregister_user
  Listed-unregister_user h v ids e = elim (Option-cases (lookup user reg)) [
    | inl n ↦ h v ids (ground (arith, n))
    | inr (old, o) ↦ ground (
      arith,
      o,
      h v ids,
      lookup-delete user v reg,
      lookup-insert user v (remove_first id old) reg,
    )
  ]
