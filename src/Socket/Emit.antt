-- ===== src/Socket/Emit.antt =====
-- Sending events: `SendEvent` of managers/socket/client.go, and `EmitToUser`, `EmitToRoom`,
-- `EmitToAll` and `CreateUserRoom` of managers/socket/manager.go. The JSON encoder is an argument.
pub mod Delivery
pub mod Skips
pub mod UserRoom
pub mod Examples
use go_blockchain_watcher.Prelude.{
  ℕ, zero, suc, ◌+◌, String, Bool, true, false, Option, none, some, List, [], ◌∷◌, ◌++◌, ltb,
  length, get_elem?, drop, if◌then◌else◌,
}
use go_blockchain_watcher.Errors.{Error, errors_new, Result, ok, err}
use go_blockchain_watcher.Map.{Map, lookup}
use go_blockchain_watcher.Socket.{
  Client, Room, SocketManager, ids_of, enqueue, unregister, client_join_room, is_nil,
}

-- `make(chan []byte, 256)`
abbrev pub send_capacity : ℕ
send_capacity = 256

-- The `select` of `SendEvent`: a client whose buffer is full is unregistered.
pub send_bytes : ℕ → String → SocketManager → Result (Unit {0}) × SocketManager
unfolding enqueue
send_bytes p bytes s =
    if ltb (length (s.heap p).send) send_capacity
    then (ok tt, enqueue p bytes s)
    else unregister p s

-- `lastErr`
pub later : Result (Unit {0}) → Result (Unit {0}) → Result (Unit {0})
later last (ok _) = last
later last (err e) = err e

-- `EmitToUser` ranges over the registry's slice itself. `Unregister` moves the rest of that slice
-- one place forward in the same array, which the loop goes on to read: the array then holds the
-- entry as it is now, and behind it what stood there before.
pub refresh : String → List String → SocketManager → List String
unfolding ids_of
refresh user array s = let now = ids_of s.user_registry user in now ++ drop (length now) array

module _ {D : Type 0} (marshal : String → D → Result String) where
  pub send_event : ℕ → String → D → SocketManager → Result (Unit {0}) × SocketManager
  unfolding send_bytes
  send_event p event payload s = elim (marshal event payload) [
    | err e ↦ (err e, s)
    | ok bytes ↦ send_bytes p bytes s
  ]

  -- The iterations left, and the index of the next one.
  pub emit_loop :
      String
      → String
      → D
      → ℕ
      → ℕ
      → List String
      → Result (Unit {0})
      → SocketManager
      → Result (Unit {0}) × SocketManager
  unfolding send_event refresh later
  emit_loop user event payload zero i array last s = (last, s)
  emit_loop user event payload (suc k) i array last s = elim (get_elem? array i) [
    | none ↦ (last, s)
    | some id ↦ elim (lookup id s.clients) [
      | none ↦ emit_loop user event payload k (suc i) array last s
      | some p ↦
          let (r, t) = send_event p event payload s in
          emit_loop user event payload k (suc i) (refresh user array t) (later last r) t
    ]
  ]

  pub emit_to_user : String → String → D → SocketManager → Result (Unit {0}) × SocketManager
  unfolding emit_loop
  emit_to_user user event payload s =
      let ids = ids_of s.user_registry user in
      if is_nil ids
      then (err (errors_new "user not connected"), s)
      else emit_loop user event payload (length ids) 0 ids (ok tt) s

  -- A client that is unregistered on the way is the one that the loop is at, and `range` over a map
  -- reads each other entry as it was.
  pub emit_members :
      String → D → Map ℕ → Result (Unit {0}) → SocketManager → Result (Unit {0}) × SocketManager
  unfolding send_event later
  emit_members event payload [] last s = (last, s)
  emit_members event payload ((id, _) ∷ rest) last s = elim (lookup id s.clients) [
    | none ↦ emit_members event payload rest last s
    | some p ↦
        let (r, t) = send_event p event payload s in
        emit_members event payload rest (later last r) t
  ]

  pub emit_to_room : String → String → D → SocketManager → Result (Unit {0}) × SocketManager
  unfolding emit_members
  emit_to_room room_id event payload s = elim (lookup room_id s.rooms) [
    | none ↦ (err (errors_new "room not found"), s)
    | some room ↦ emit_members event payload room.clients (ok tt) s
  ]

  emit_pointers : String → D → Map ℕ → SocketManager → SocketManager
  unfolding send_event
  emit_pointers event payload [] s = s
  emit_pointers event payload ((id, p) ∷ rest) s =
      emit_pointers event payload rest (send_event p event payload s).1

  pub emit_to_all : String → D → SocketManager → SocketManager
  unfolding emit_pointers
  emit_to_all event payload s = emit_pointers event payload s.clients s

pub join_all : String → List String → SocketManager → SocketManager
join_all room_id [] s = s
join_all room_id (id ∷ ids) s = elim (lookup id s.clients) [
  | none ↦ join_all room_id ids s
  | some p ↦ join_all room_id ids (client_join_room p room_id s)
]

pub create_user_room : String → String → SocketManager → Result (Unit {0}) × SocketManager
unfolding join_all ids_of
create_user_room user room_id s =
    let ids = ids_of s.user_registry user in
    if is_nil ids
    then (err (errors_new "user not connected"), s)
    else (ok tt, join_all room_id ids s)
