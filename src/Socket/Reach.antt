-- ===== src/Socket/Reach.antt =====
-- The histories of the socket manager (managers/socket/manager.go), and what holds after each.
use go_blockchain_watcher.Prelude.{
  ℕ, ◌<◌, String, ◌≡◌, ◌≢◌, ◌↔◌, refl, true, false, none, some, List, [], ◌∷◌, arith, eq_iff,
  eq_refl, inl, inr, Option-cases,
}
use go_blockchain_watcher.Errors.{errors_new, err}
use go_blockchain_watcher.Map.{lookup, lookup-delete}
use go_blockchain_watcher.Socket.{
  SocketManager, init, ids_of, unregister, client_join_room, client_leave_room, connect, enqueue,
  shutdown, get_user_client_ids, is_user_connected, is_nil,
}
use go_blockchain_watcher.Socket.Calls.{
  unregister_missing, heap-unregister, clients-unregister, member-client_join_room,
  member-client_leave_room, id-client_join_room, clients-client_join_room,
}
use go_blockchain_watcher.Socket.Rooms.{member}
use go_blockchain_watcher.Socket.Registry.{count}
use go_blockchain_watcher.Socket.Invariant.{
  IsConsistent, OwnsId, connected, init-IsConsistent, connect-IsConsistent, unregister-IsConsistent,
  enqueue-IsConsistent, shutdown-IsConsistent,
}
use go_blockchain_watcher.Socket.Invariant.Membership.{
  client_join_room-IsConsistent, client_leave_room-IsConsistent,
}

-- One call, made by the program: a connection makes a new object under a new ID, and the other
-- calls are made on an object whose ID no other object has.
pub data Step (s : SocketManager) : SocketManager → Type 0 where
  connects :
      (p : ℕ) (id user : String)
      → lookup id s.clients ≡ none
      → ((i : String) → lookup i s.clients ≢ some p)
      → Step s (connect p id user s)
  unregisters : (p : ℕ) → OwnsId s p → Step s (unregister p s).1
  joins :
      (p : ℕ) (room_id : String)
      → lookup (s.heap p).id s.clients ≡ some p
      → Step s (client_join_room p room_id s)
  leaves : (p : ℕ) (room_id : String) → OwnsId s p → Step s (client_leave_room p room_id s)
  enqueues : (p : ℕ) (bytes : String) → Step s (enqueue p bytes s)
  shuts_down : Step s (shutdown s)

pub data Reach : SocketManager → Type 0 where
  start : Reach init
  next : {s t : SocketManager} → Reach s → Step s t → Reach t

Step-IsConsistent : {s t : SocketManager} → IsConsistent s → Step s t → IsConsistent t
Step-IsConsistent {s} c (connects p id user fresh_id fresh_object) =
    connect-IsConsistent s p id user c fresh_id fresh_object
Step-IsConsistent {s} c (unregisters p own) = unregister-IsConsistent s p c own
Step-IsConsistent {s} c (joins p room_id registered) =
    client_join_room-IsConsistent s p room_id c registered
Step-IsConsistent {s} c (leaves p room_id own) = client_leave_room-IsConsistent s p room_id c own
Step-IsConsistent {s} c (enqueues p bytes) = enqueue-IsConsistent s p bytes c
Step-IsConsistent {s} c shuts_down = shutdown-IsConsistent s

-- After every history of connections, `Unregister`, `JoinRoom`, `LeaveRoom`, messages put into a
-- client's buffer and `Shutdown`, where a connection
-- has a fresh object and ID, only registered clients join, and no two objects share an ID: each
-- registered object has its key as its ID, a room holds exactly the registered clients that say they
-- are in it, no room is empty, a user's entry lists each registered client of the user once and
-- nothing else, and no entry is empty.
pub Reach-IsConsistent : {s : SocketManager} → Reach s → IsConsistent s
Reach-IsConsistent start = init-IsConsistent
Reach-IsConsistent (next r st) = Step-IsConsistent (Reach-IsConsistent r) st

unregister_gone :
    (p : ℕ) (s : SocketManager)
    → lookup (s.heap p).id s.clients ≡ some p
    → lookup (s.heap p).id (unregister p s).1.clients ≡ none
unregister_gone p s registered =
    rw (clients-unregister p s p registered)
      (ground (arith, lookup-delete (s.heap p).id (s.heap p).id s.clients, eq_refl (s.heap p).id))

-- After `Unregister` of a registered client in a reachable state, the client is in no room, in no
-- user's entry and not in the map of clients, and a second `Unregister` reports that it is not
-- found and changes nothing.
pub unregister_removes :
    {s : SocketManager} (p : ℕ)
    → Reach s
    → lookup (s.heap p).id s.clients ≡ some p
    → let t = (unregister p s).1 in
      ((r : String) → member t.rooms r (s.heap p).id ≡ none)
      × ((u : String) → count (s.heap p).id (get_user_client_ids u t) ≡ 0)
      × (unregister p t ≡ (err (errors_new "client not found"), t))
unfolding get_user_client_ids
unregister_removes {s} p reach registered = (
  λ r. ground (arith, after.membership r (s.heap p).id, gone),
  λ u. ground (arith, after.listing u (s.heap p).id, gone),
  unregister_missing p (unregister p s).1 (rw (heap-unregister p s) gone),
)
  where
    after : IsConsistent (unregister p s).1
    after =
        unregister-IsConsistent s p (Reach-IsConsistent reach) (λ q h. ground (arith, registered))

    gone : lookup (s.heap p).id (unregister p s).1.clients ≡ none
    gone = unregister_gone p s registered

count_pos : (i : String) (xs : List String) → 0 < count i xs → is_nil xs ≡ false
count_pos i [] h = ground arith
count_pos i (x ∷ xs) h = refl

count_head : (xs : List String) → is_nil xs ≡ false → (i : String) × (0 < count i xs)
count_head [] h = ground arith
count_head (x ∷ xs) h = (x, ground (arith, eq_refl x))

-- In a reachable state, `IsUserConnected` holds exactly when some registered client is the user's.
pub is_user_connected_iff :
    {s : SocketManager} (u : String)
    → Reach s
    → (is_user_connected u s ≡ true) ↔ ((i : String) × (connected s u i ≡ true))
unfolding is_user_connected ids_of
is_user_connected_iff {s} u reach = elim (Option-cases (lookup u s.user_registry)) [
  | inl e ↦ (
    λ h. absurd (ground (arith, e)),
    λ h. absurd (ground (arith, e, (Reach-IsConsistent reach).listing u h.0)),
  )
  | inr (ids, e) ↦ (
    λ h.
        let (i, n) = count_head ids (ground (arith, e)) in
        (i, ground (arith, e, n, (Reach-IsConsistent reach).listing u i)),
    λ h. ground (arith, e, (Reach-IsConsistent reach).listing u h.0, count_pos h.0 ids),
  )
]

-- `LeaveRoom` after `JoinRoom` of a client that was not in the room: every room has the
-- members that it had.
pub leave-join :
    (s : SocketManager) (p : ℕ) (room_id : String)
    → member s.rooms room_id (s.heap p).id ≡ none
    → (r i : String)
    → member (client_leave_room p room_id (client_join_room p room_id s)).rooms r i
      ≡ member s.rooms r i
leave-join s p room_id outside r i = ground (
  arith,
  outside,
  eq_iff room_id r,
  eq_iff (s.heap p).id i,
  member-client_leave_room p (client_join_room p room_id s) room_id r i,
  member-client_join_room p s room_id r i,
  id-client_join_room p s room_id,
)

-- The rooms keep a client that joins after it was unregistered: it is a member although it is not
-- registered, and `Unregister` refuses to remove it.
pub join_after_unregister :
    (s : SocketManager) (p : ℕ) (room_id : String)
    → lookup (s.heap p).id s.clients ≡ some p
    → let t = client_join_room p room_id (unregister p s).1 in
      (member t.rooms room_id (s.heap p).id ≡ some p)
      × (unregister p t ≡ (err (errors_new "client not found"), t))
join_after_unregister s p room_id registered = (
  rw (← same) in_room,
  unregister_missing p (client_join_room p room_id t) (
      rw
        (id-client_join_room p t room_id, clients-client_join_room p t room_id, heap-unregister p s)
        (unregister_gone p s registered)),
)
  where
    t : SocketManager
    t = (unregister p s).1

    same : (t.heap p).id ≡ (s.heap p).id
    same = rw (heap-unregister p s) refl

    in_room : member (client_join_room p room_id t).rooms room_id (t.heap p).id ≡ some p
    in_room =
        rw
          (
            member-client_join_room p t room_id room_id (t.heap p).id,
            eq_refl room_id,
            eq_refl (t.heap p).id,
          )
          refl
