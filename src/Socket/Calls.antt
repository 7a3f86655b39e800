-- ===== src/Socket/Calls.antt =====
-- What one call of the socket manager (managers/socket/manager.go) does to each part of its state.
use go_blockchain_watcher.Prelude.{
  ℕ, String, ◌≡◌, refl, ◌&&◌, none, some, arith, ◌==◌, eq_iff, if◌then◌else◌, inl, inr,
  Option-cases,
}
use go_blockchain_watcher.Errors.{errors_new, err}
use go_blockchain_watcher.Map.{lookup, delete, lookup-nil}
use go_blockchain_watcher.Socket.{
  SocketManager, unregister_user, unregister, client_join_room, client_leave_room,
}
use go_blockchain_watcher.Socket.Rooms.{member, member-join_room, member-leave_room}

module _ (p : ℕ) (s : SocketManager) where
  pub unregister_missing :
      lookup (s.heap p).id s.clients ≡ none
      → unregister p s ≡ (err (errors_new "client not found"), s)
  unfolding unregister
  unregister_missing h = rw (h, unregister) refl

  pub heap-unregister : (unregister p s).1.heap ≡ s.heap
  unfolding unregister
  heap-unregister = elim (Option-cases (lookup (s.heap p).id s.clients)) [
    | inl e ↦ rw (e, unregister) refl
    | inr (q, e) ↦ rw (e, unregister) refl
  ]

  pub clients-unregister :
      (q : ℕ)
      → lookup (s.heap p).id s.clients ≡ some q
      → (unregister p s).1.clients ≡ delete (s.heap p).id s.clients
  unfolding unregister
  clients-unregister q e = rw (e, unregister) refl

  pub member-client_join_room :
      (room_id r i : String)
      → member (client_join_room p room_id s).rooms r i
        ≡ (if (room_id == r) && ((s.heap p).id == i) then some p else member s.rooms r i)
  unfolding client_join_room
  member-client_join_room room_id r i = member-join_room (s.heap p).id room_id s.rooms p r i

  pub member-client_leave_room :
      (room_id r i : String)
      → member (client_leave_room p room_id s).rooms r i
        ≡ (if (room_id == r) && ((s.heap p).id == i) then none else member s.rooms r i)
  unfolding client_leave_room
  member-client_leave_room room_id r i = elim (Option-cases (lookup room_id s.rooms)) [
    | inl e ↦ rw (e, client_leave_room) (ground (arith, e, eq_iff room_id r, lookup-nil {V = ℕ} i))
    | inr (room, e) ↦
        rw (e, client_leave_room) (member-leave_room (s.heap p).id room_id s.rooms r i)
  ]

  pub id-client_join_room :
      (room_id : String) → ((client_join_room p room_id s).heap p).id ≡ (s.heap p).id
  unfolding client_join_room
  id-client_join_room room_id = ground arith

  pub clients-client_join_room :
      (room_id : String) → (client_join_room p room_id s).clients ≡ s.clients
  unfolding client_join_room
  clients-client_join_room room_id = refl

  pub registry-unregister :
      (q : ℕ)
      → lookup (s.heap p).id s.clients ≡ some q
      → (unregister p s).1.user_registry
        ≡ unregister_user (s.heap p).user_id (s.heap p).id s.user_registry
  unfolding unregister
  registry-unregister q e = rw (e, unregister) refl
