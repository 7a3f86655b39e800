-- ===== src/Socket/Invariant.antt =====
-- The invariant of the socket manager (managers/socket/manager.go) and its histories: the map of
-- clients, the rooms, each client's own set of rooms and the registry of users tell one story.
pub mod Membership
use go_blockchain_watcher.Prelude.{
  ℕ, String, ◌≡◌, ◌≢◌, refl, Bool, true, false, not, ◌&&◌, Option, none, some, arith, ◌==◌, eq_iff,
  if◌then◌else◌, is_some, inl, inr, Option-cases,
}
use go_blockchain_watcher.Map.{Map, lookup, lookup-insert, lookup-delete, lookup-nil}
use go_blockchain_watcher.Socket.{
  Client, Room, SocketManager, update, init, ids_of, unregister, client_join_room,
  client_leave_room, connect, enqueue, shutdown,
}
use go_blockchain_watcher.Socket.Rooms.{
  member, Occupied, member-join_room, member-leave_room, member-leave_rooms, Occupied-join_room,
  Occupied-leave_room, Occupied-leave_rooms,
}
use go_blockchain_watcher.Socket.Registry.{
  count, Listed, count-append, count-remove_first, ids_of-register_user, Listed-register_user,
  ids_of-unregister_user, Listed-unregister_user,
}

-- Whether the client object says that it is in the room.
abbrev pub says : (ℕ → Client) → ℕ → String → Bool
says h p r = is_some (lookup r (h p).rooms)

-- The client that should be found in the room under the ID: the registered one, if it says so.
abbrev expected_in : (ℕ → Client) → Option ℕ → String → Option ℕ
expected_in h none r = none
expected_in h (some p) r = if says h p r then some p else none

abbrev pub expected : SocketManager → String → String → Option ℕ
expected s r i = expected_in s.heap (lookup i s.clients) r

abbrev connected_as : (ℕ → Client) → Option ℕ → String → Bool
connected_as h none u = false
connected_as h (some p) u = not (u == "") && ((h p).user_id == u)

-- A client is registered under the ID, and belongs to the user.
abbrev pub connected : SocketManager → String → String → Bool
connected s u i = connected_as s.heap (lookup i s.clients) u

pub record IsConsistent (s : SocketManager) : Type 0 where
  pub ids : (i : String) (p : ℕ) → lookup i s.clients ≡ some p → (s.heap p).id ≡ i
  pub membership : (r i : String) → member s.rooms r i ≡ expected s r i
  pub occupied : Occupied s.rooms
  pub listing :
      (u i : String) → count i (ids_of s.user_registry u) ≡ (if connected s u i then 1 else 0)
  pub listed : Listed s.user_registry

-- The registered client of this ID, if there is one, is this object.
abbrev pub OwnsId : SocketManager → ℕ → Type 0
OwnsId s p = (q : ℕ) → lookup (s.heap p).id s.clients ≡ some q → q ≡ p

pub init-IsConsistent : IsConsistent init
unfolding ids_of lookup
init-IsConsistent = record {
  ids = λ i p h. cc;
  membership = λ r i. refl;
  occupied = λ r room h. cc;
  listing = λ u i. refl;
  listed = λ u xs h. cc;
}

-- A new object under a new ID.
module _ (s : SocketManager) (p : ℕ) (id user : String) (c : IsConsistent s)
    (fresh_id : lookup id s.clients ≡ none)
    (fresh_object : (i : String) → lookup i s.clients ≢ some p) where
  connect-membership :
      (r i : String) → member (connect p id user s).rooms r i ≡ expected (connect p id user s) r i
  unfolding connect
  connect-membership r i = ground (
    arith,
    eq_iff id i,
    lookup-insert id i p s.clients,
    c.membership r i,
    fresh_object i,
    lookup-nil {V = Bool} r,
    fresh_id,
  )

  connect-listing :
      (u i : String)
      → count i (ids_of (connect p id user s).user_registry u)
        ≡ (if connected (connect p id user s) u i then 1 else 0)
  unfolding connect
  connect-listing u i = ground (
    arith,
    eq_iff id i,
    eq_iff user u,
    lookup-insert id i p s.clients,
    c.listing u i,
    fresh_object i,
    fresh_id,
    ids_of-register_user user id s.user_registry u,
    count-append i id (ids_of s.user_registry u),
  )

  connect-ids :
      (i : String) (q : ℕ)
      → lookup i (connect p id user s).clients ≡ some q
      → ((connect p id user s).heap q).id ≡ i
  unfolding connect
  connect-ids i q h =
      ground (arith, eq_iff id i, lookup-insert id i p s.clients, fresh_object i, c.ids i q)

  pub connect-IsConsistent : IsConsistent (connect p id user s)
  unfolding connect
  connect-IsConsistent = record {
    ids = connect-ids;
    membership = connect-membership;
    occupied = c.occupied;
    listing = connect-listing;
    listed = ground (arith, Listed-register_user user id s.user_registry c.listed);
  }

-- The registered object is taken out of every map; its own set of rooms stays as it was.
module _ (s : SocketManager) (p : ℕ) (c : IsConsistent s)
    (registered : lookup (s.heap p).id s.clients ≡ some p) where
  unregister-membership :
      (r i : String) → member (unregister p s).1.rooms r i ≡ expected (unregister p s).1 r i
  unfolding unregister
  unregister-membership r i =
      rw (registered, unregister)
        (ground (
          arith,
          registered,
          eq_iff (s.heap p).id i,
          c.membership r i,
          lookup-delete (s.heap p).id i s.clients,
          member-leave_rooms (s.heap p).id (s.heap p).rooms s.rooms r i,
        ))

  unregister-listing :
      (u i : String)
      → count i (ids_of (unregister p s).1.user_registry u)
        ≡ (if connected (unregister p s).1 u i then 1 else 0)
  unfolding unregister
  unregister-listing u i =
      rw (registered, unregister)
        (ground (
          arith,
          registered,
          eq_iff (s.heap p).id i,
          eq_iff (s.heap p).user_id u,
          c.listing u i,
          lookup-delete (s.heap p).id i s.clients,
          ids_of-unregister_user (s.heap p).user_id (s.heap p).id s.user_registry u,
          count-remove_first i (s.heap p).id (ids_of s.user_registry u),
        ))

  registered-unregister-IsConsistent : IsConsistent (unregister p s).1
  unfolding unregister
  registered-unregister-IsConsistent = record {
    ids = λ i q.
        rw (registered, unregister)
          (λ h.
            ground
              (arith, eq_iff (s.heap p).id i, lookup-delete (s.heap p).id i s.clients, c.ids i q));
    membership = unregister-membership;
    occupied =
        rw (registered, unregister)
          (Occupied-leave_rooms (s.heap p).id (s.heap p).rooms s.rooms c.occupied);
    listing = unregister-listing;
    listed =
        rw (registered, unregister)
          (Listed-unregister_user (s.heap p).user_id (s.heap p).id s.user_registry c.listed);
  }

pub unregister-IsConsistent :
    (s : SocketManager) (p : ℕ) → IsConsistent s → OwnsId s p → IsConsistent (unregister p s).1
unfolding unregister
unregister-IsConsistent s p c own = elim (Option-cases (lookup (s.heap p).id s.clients)) [
  | inl n ↦ rw (n, unregister) c
  | inr (q, e) ↦ registered-unregister-IsConsistent s p c (ground (arith, e, own q))
]

pub enqueue-IsConsistent :
    (s : SocketManager) (p : ℕ) (bytes : String) → IsConsistent s → IsConsistent (enqueue p bytes s)
unfolding enqueue
enqueue-IsConsistent s p bytes c = record {
  ids = λ i q h. ground (arith, c.ids i q);
  membership = λ r i. ground (arith, c.membership r i);
  occupied = c.occupied;
  listing = λ u i. ground (arith, c.listing u i);
  listed = c.listed;
}

pub shutdown-IsConsistent : (s : SocketManager) → IsConsistent (shutdown s)
unfolding shutdown ids_of lookup
shutdown-IsConsistent s = record {
  ids = λ i p h. cc;
  membership = λ r i. refl;
  occupied = λ r room h. cc;
  listing = λ u i. refl;
  listed = λ u xs h. cc;
}
