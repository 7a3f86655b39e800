-- ===== src/Socket/Rooms.antt =====
-- Who is in which room: the membership that the room operations of managers/socket/manager.go give.
use go_blockchain_watcher.Prelude.{
  ℕ, String, ◌≡◌, refl, Bool, false, ◌&&◌, Option, none, some, [], ◌∷◌, arith, ◌==◌, eq_iff,
  if◌then◌else◌, is_some, inl, inr, Option-cases,
}
use go_blockchain_watcher.Map.{
  Map, lookup, insert, delete, is_empty, lookup-insert, lookup-delete, lookup-empty, lookup-nil,
  insert-ne-empty,
}
use go_blockchain_watcher.Socket.{Room, leave_room, leave_rooms, room_or_new, join_room}

-- The client that the room holds under the ID.
abbrev pub clients_of : Option Room → Map ℕ
clients_of none = []
clients_of (some room) = room.clients

abbrev pub member : Map Room → String → String → Option ℕ
member rooms room_id id = lookup id (clients_of (lookup room_id rooms))

-- The room that a client joins, the client in it.
join_new : String → ℕ → String → Map Room → Room
unfolding room_or_new
join_new id p room_id rooms =
    let room = room_or_new room_id (lookup room_id rooms) in
    record room { clients = insert id p room.clients }

-- No room is empty.
abbrev pub Occupied : Map Room → Type 0
Occupied rooms =
    (r : String) (room : Room) → lookup r rooms ≡ some room → is_empty room.clients ≡ false

module _ (id room_id : String) (rooms : Map Room) where
  pub member-join_room :
      (p : ℕ) (r i : String)
      → member (join_room id p room_id rooms) r i
        ≡ (if (room_id == r) && (id == i) then some p else member rooms r i)
  unfolding join_room join_new
  member-join_room p r i = ground (
    arith,
    eq_iff room_id r,
    lookup-insert room_id r (join_new id p room_id rooms) rooms,
    lookup-insert id i p (clients_of (lookup room_id rooms)),
    lookup-nil {V = ℕ} i,
  )

  pub member-leave_room :
      (r i : String)
      → member (leave_room id room_id rooms) r i
        ≡ (if (room_id == r) && (id == i) then none else member rooms r i)
  unfolding leave_room
  member-leave_room r i = elim (Option-cases (lookup room_id rooms)) [
    | inl e ↦ rw (e, leave_room) (ground (arith, eq_iff room_id r, lookup-nil {V = ℕ} i))
    | inr (room, e) ↦
        rw (e, leave_room)
          (ground (
            arith,
            eq_iff room_id r,
            e,
            lookup-delete id i room.clients,
            lookup-empty i (delete id room.clients),
            lookup-delete room_id r rooms,
            lookup-insert room_id r (record room { clients = delete id room.clients }) rooms,
            lookup-nil {V = ℕ} i,
          ))
  ]

  pub Occupied-join_room : (p : ℕ) → Occupied rooms → Occupied (join_room id p room_id rooms)
  unfolding join_room join_new
  Occupied-join_room p h r room e = ground (
    arith,
    h r room,
    lookup-insert room_id r (join_new id p room_id rooms) rooms,
    insert-ne-empty id p (clients_of (lookup room_id rooms)),
    insert-ne-empty {V = ℕ} id p [],
  )

  pub Occupied-leave_room : Occupied rooms → Occupied (leave_room id room_id rooms)
  unfolding leave_room
  Occupied-leave_room h r room e = elim (Option-cases (lookup room_id rooms)) [
    | inl n ↦ h r room (rw (n, leave_room) at e)
    | inr (old, o) ↦ ground (
      arith,
      h r room,
      lookup-delete room_id r rooms,
      lookup-insert room_id r (record old { clients = delete id old.clients }) rooms,
    )
  ]

pub member-leave_rooms :
    (id : String) (rs : Map Bool) (rooms : Map Room) (r i : String)
    → member (leave_rooms id rs rooms) r i
      ≡ (if is_some (lookup r rs) && (id == i) then none else member rooms r i)
unfolding leave_rooms lookup
member-leave_rooms id [] rooms r i = refl
member-leave_rooms id ((q, b) ∷ rs) rooms r i =
    rw (member-leave_rooms id rs (leave_room id q rooms) r i, member-leave_room id q rooms r i)
      (ground arith)

pub Occupied-leave_rooms :
    (id : String) (rs : Map Bool) (rooms : Map Room)
    → Occupied rooms
    → Occupied (leave_rooms id rs rooms)
unfolding leave_rooms
Occupied-leave_rooms id [] rooms h = h
Occupied-leave_rooms id ((q, b) ∷ rs) rooms h =
    Occupied-leave_rooms id rs (leave_room id q rooms) (Occupied-leave_room id q rooms h)
