-- ===== src/Socket/Invariant/Membership.antt =====
-- Joining and leaving a room (managers/socket/manager.go) keep the invariant.
use go_blockchain_watcher.Prelude.{
  ℕ, String, ◌≡◌, Bool, true, some, arith, eq_iff, inl, inr, Option-cases,
}
use go_blockchain_watcher.Map.{Map, lookup, lookup-insert, lookup-delete}
use go_blockchain_watcher.Socket.{Room, SocketManager, update, client_join_room, client_leave_room}
use go_blockchain_watcher.Socket.Rooms.{
  member, member-join_room, member-leave_room, Occupied-join_room, Occupied-leave_room,
}
use go_blockchain_watcher.Socket.Invariant.{IsConsistent, OwnsId, expected, connected}

-- A change of the object's own set of rooms only.
same_ids :
    (s : SocketManager) (p : ℕ) (rs : Map Bool) (q : ℕ)
    → (update s.heap p (record (s.heap p) { rooms = rs }) q).id ≡ (s.heap q).id
same_ids s p rs q = ground arith

same_connected :
    (s : SocketManager) (p : ℕ) (rs : Map Bool) (u i : String)
    → connected (record s { heap = update s.heap p (record (s.heap p) { rooms = rs }) }) u i
      ≡ connected s u i
same_connected s p rs u i = ground arith

pub client_join_room-IsConsistent :
    (s : SocketManager) (p : ℕ) (room_id : String)
    → IsConsistent s
    → lookup (s.heap p).id s.clients ≡ some p
    → IsConsistent (client_join_room p room_id s)
unfolding client_join_room
client_join_room-IsConsistent s p room_id c registered = record {
  ids = λ i q h. ground (arith, c.ids i q);
  membership = λ r i. ground (
    arith,
    registered,
    eq_iff room_id r,
    eq_iff (s.heap p).id i,
    c.membership r i,
    member-join_room (s.heap p).id room_id s.rooms p r i,
    lookup-insert room_id r true (s.heap p).rooms,
    c.ids i p,
  );
  occupied = Occupied-join_room (s.heap p).id room_id s.rooms p c.occupied;
  listing = λ u i. ground (arith, c.listing u i);
  listed = c.listed;
}

leave-membership :
    (s : SocketManager) (p : ℕ) (room_id : String)
    → IsConsistent s
    → OwnsId s p
    → (room : Room) → lookup room_id s.rooms ≡ some room
    → (r i : String)
    → member (client_leave_room p room_id s).rooms r i
      ≡ expected (client_leave_room p room_id s) r i
unfolding client_leave_room
leave-membership s p room_id c own room e r i =
    rw (e, client_leave_room)
      (elim (Option-cases (lookup i s.clients)) [
        | inl n ↦ ground (
          arith,
          n,
          eq_iff room_id r,
          eq_iff (s.heap p).id i,
          c.membership r i,
          member-leave_room (s.heap p).id room_id s.rooms r i,
        )
        | inr (q, f) ↦ ground (
          arith,
          f,
          eq_iff room_id r,
          eq_iff (s.heap p).id i,
          c.membership r i,
          member-leave_room (s.heap p).id room_id s.rooms r i,
          lookup-delete room_id r (s.heap p).rooms,
          c.ids i q,
          own q,
        )
      ])

pub client_leave_room-IsConsistent :
    (s : SocketManager) (p : ℕ) (room_id : String)
    → IsConsistent s
    → OwnsId s p
    → IsConsistent (client_leave_room p room_id s)
unfolding client_leave_room
client_leave_room-IsConsistent s p room_id c own = elim (Option-cases (lookup room_id s.rooms)) [
  | inl n ↦ rw (n, client_leave_room) c
  | inr (room, e) ↦
      rw (e, client_leave_room)
        (record {
          ids = λ i q h. ground (arith, c.ids i q);
          membership =
              λ r i. rw (e, client_leave_room) at (leave-membership s p room_id c own room e r i);
          occupied = Occupied-leave_room (s.heap p).id room_id s.rooms c.occupied;
          listing = λ u i. ground (arith, c.listing u i);
          listed = c.listed;
        })
]
