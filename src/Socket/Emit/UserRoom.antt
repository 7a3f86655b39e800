-- ===== src/Socket/Emit/UserRoom.antt =====
-- `CreateUserRoom` of managers/socket/manager.go.
use go_blockchain_watcher.Prelude.{
  ℕ, String, ◌≡◌, refl, false, ◌&&◌, Option, none, some, List, [], ◌∷◌, arith, ◌==◌, eq_iff, ltb,
  if◌then◌else◌, inl, inr, Option-cases,
}
use go_blockchain_watcher.Errors.{ok}
use go_blockchain_watcher.Map.{lookup}
use go_blockchain_watcher.Socket.{SocketManager, client_join_room, ids_of, is_nil}
use go_blockchain_watcher.Socket.Rooms.{member}
use go_blockchain_watcher.Socket.Registry.{count}
use go_blockchain_watcher.Socket.Invariant.{IsConsistent, connected}
use go_blockchain_watcher.Socket.Invariant.Membership.{client_join_room-IsConsistent}
use go_blockchain_watcher.Socket.Calls.{member-client_join_room, clients-client_join_room}
use go_blockchain_watcher.Socket.Reach.{Reach, Reach-IsConsistent}
use go_blockchain_watcher.Socket.Emit.{join_all, create_user_room}

-- The client that is put in the room, or who was there.
abbrev joined : Option ℕ → Option ℕ → Option ℕ
joined none before = before
joined (some p) before = some p

join_all-IsConsistent :
    (room_id : String) (ids : List String) (s : SocketManager)
    → IsConsistent s
    → IsConsistent (join_all room_id ids s)
unfolding join_all
join_all-IsConsistent room_id [] s c = c
join_all-IsConsistent room_id (id ∷ ids) s c = elim (Option-cases (lookup id s.clients)) [
  | inl e ↦ rw (e, join_all) (join_all-IsConsistent room_id ids s c)
  | inr (p, e) ↦
      rw (e, join_all)
        (join_all-IsConsistent room_id ids (client_join_room p room_id s)
          (client_join_room-IsConsistent s p room_id c (rw (c.ids id p e) e)))
]

member-join_all :
    (room_id : String) (ids : List String) (s : SocketManager)
    → IsConsistent s
    → (r i : String)
    → member (join_all room_id ids s).rooms r i ≡ (
        if (room_id == r) && ltb 0 (count i ids)
        then joined (lookup i s.clients) (member s.rooms r i)
        else member s.rooms r i)
unfolding join_all
member-join_all room_id [] s c r i = ground arith
member-join_all room_id (id ∷ ids) s c r i = elim (Option-cases (lookup id s.clients)) [
  | inl e ↦ rw (e, join_all) (ground (arith, e, member-join_all room_id ids s c r i, eq_iff id i))
  | inr (p, e) ↦
      rw (e, join_all)
        (ground (
          arith,
          e,
          c.ids id p,
          eq_iff id i,
          member-join_all room_id ids (client_join_room p room_id s)
              (client_join_room-IsConsistent s p room_id c (rw (c.ids id p e) e)) r i,
          member-client_join_room p s room_id r i,
          clients-client_join_room p s room_id,
        ))
]

-- In a reachable state where the user is connected, `CreateUserRoom` succeeds and keeps the maps
-- consistent; afterwards the room holds every registered client of the user, and all else about
-- who is in which room is as before.
pub create_user_room_members :
    {s : SocketManager} (user room_id : String)
    → Reach s
    → is_nil (ids_of s.user_registry user) ≡ false
    → let (r, t) = create_user_room user room_id s in
      (r ≡ ok tt)
      × IsConsistent t
      × ((q i : String)
          → member t.rooms q i ≡ (
              if (room_id == q) && connected s user i
              then lookup i s.clients
              else member s.rooms q i))
unfolding create_user_room
create_user_room_members {s} user room_id reach some_client =
    rw (some_client, create_user_room)
      (
        refl,
        join_all-IsConsistent room_id (ids_of s.user_registry user) s (Reach-IsConsistent reach),
        λ q i. ground (
          arith,
          (Reach-IsConsistent reach).listing user i,
          member-join_all room_id (ids_of s.user_registry user) s (Reach-IsConsistent reach) q i,
        ),
      )
