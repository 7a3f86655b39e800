-- ===== src/Socket.antt =====
-- managers/socket/manager.go, types.go and client.go: the connected clients, the rooms and the
-- registry of users. A `*Client` is a number, and `heap` holds the object that it points to; a room
-- is reached through the map of rooms alone. Every method holds the mutex from its first line to
-- its last, so a call is one step. The network connection, its timers and the logger are left out.
pub mod Rooms
pub mod Registry
pub mod Invariant
pub mod Calls
pub mod Reach
pub mod Emit
pub mod Handlers
pub mod Examples
use go_blockchain_watcher.Prelude.{
  ℕ, String, ◌≡◌, Bool, true, false, not, Option, none, some, List, [], ◌∷◌, ◌++◌, ◌==◌, eqb,
  if◌then◌else◌,
}
use go_blockchain_watcher.Errors.{Error, errors_new, Result, ok, err}
use go_blockchain_watcher.Map.{Map, lookup, insert, delete, is_empty}

-- `send` is the buffered channel: the messages that wait to be written, oldest first.
pub record Client : Type 0 where
  pub id : String
  pub user_id : String
  pub send : List String
  pub rooms : Map Bool

pub record Room : Type 0 where
  pub id : String
  pub clients : Map ℕ

pub record SocketManager : Type 0 where
  pub heap : ℕ → Client
  pub clients : Map ℕ
  pub rooms : Map Room
  pub user_registry : Map (List String)
  pub event_handlers : Map (List ℕ)

abbrev pub update : (ℕ → Client) → ℕ → Client → ℕ → Client
update h p c q = if eqb q p then c else h q

-- The fields of `NewClient` that the manager reads; the ID is the fresh UUID.
abbrev pub new_client : String → String → Client
new_client id user_id = record { id = id; user_id = user_id; send = []; rooms = [] }

abbrev pub init : SocketManager
init = record {
  heap = λ p. new_client "" "";
  clients = [];
  rooms = [];
  user_registry = [];
  event_handlers = [];
}

-- A missing key reads as the nil slice.
unfoldable pub ids_of : Map (List String) → String → List String
ids_of reg user = elim (lookup user reg) [ none ↦ [] | some ids ↦ ids ]

pub register_user : String → String → Map (List String) → Map (List String)
unfolding ids_of
register_user user id reg = if user == "" then reg else insert user (ids_of reg user ++ id ∷ []) reg

pub register : ℕ → SocketManager → SocketManager
unfolding register_user
register p s =
    let c = s.heap p in
    record s {
      clients = insert c.id p s.clients;
      user_registry = register_user c.user_id c.id s.user_registry;
    }

-- The loop of `Unregister` over the slice: the first entry equal to `id` goes.
pub remove_first : String → List String → List String
remove_first id [] = []
remove_first id (x ∷ xs) = if x == id then xs else x ∷ remove_first id xs

abbrev pub is_nil {ℓ} : {A : Type ℓ} → List A → Bool
is_nil [] = true
is_nil (x ∷ xs) = false

pub unregister_user : String → String → Map (List String) → Map (List String)
unfolding remove_first
unregister_user user id reg = if user == "" then reg else elim (lookup user reg) [
  | none ↦ reg
  | some ids ↦
      let rest = remove_first id ids in
      if is_nil rest then delete user reg else insert user rest reg
]

-- A client leaves one room, and an empty room goes.
pub leave_room : String → String → Map Room → Map Room
leave_room id room_id rooms = elim (lookup room_id rooms) [
  | none ↦ rooms
  | some room ↦
      let rest = delete id room.clients in
      if is_empty rest
      then delete room_id rooms
      else insert room_id (record room { clients = rest }) rooms
]

pub leave_rooms : String → Map Bool → Map Room → Map Room
unfolding leave_room
leave_rooms id [] rooms = rooms
leave_rooms id ((room_id, _) ∷ rest) rooms = leave_rooms id rest (leave_room id room_id rooms)

pub unregister : ℕ → SocketManager → Result (Unit {0}) × SocketManager
unfolding leave_rooms unregister_user
unregister p s =
    let c = s.heap p in
    elim (lookup c.id s.clients) [
      | none ↦ (err (errors_new "client not found"), s)
      | some q ↦ (
        ok tt,
        record s {
          rooms = leave_rooms c.id c.rooms s.rooms;
          user_registry = unregister_user c.user_id c.id s.user_registry;
          clients = delete c.id s.clients;
        },
      )
    ]

pub room_or_new : String → Option Room → Room
room_or_new room_id none = record { id = room_id; clients = [] }
room_or_new room_id (some room) = room

pub join_room : String → ℕ → String → Map Room → Map Room
unfolding room_or_new
join_room id p room_id rooms =
    let room = room_or_new room_id (lookup room_id rooms) in
    insert room_id (record room { clients = insert id p room.clients }) rooms

pub client_join_room : ℕ → String → SocketManager → SocketManager
unfolding join_room
client_join_room p room_id s =
    let c = s.heap p in
    record s {
      rooms = join_room c.id p room_id s.rooms;
      heap = update s.heap p (record c { rooms = insert room_id true c.rooms });
    }

pub client_leave_room : ℕ → String → SocketManager → SocketManager
unfolding leave_room
client_leave_room p room_id s =
    let c = s.heap p in
    elim (lookup room_id s.rooms) [
      | none ↦ s
      | some room ↦ record s {
        rooms = leave_room c.id room_id s.rooms;
        heap = update s.heap p (record c { rooms = delete room_id c.rooms });
      }
    ]

-- `GetUserClientIDs`, and the test of `IsUserConnected`.
pub get_user_client_ids : String → SocketManager → List String
unfolding ids_of
get_user_client_ids user s = ids_of s.user_registry user

pub is_user_connected : String → SocketManager → Bool
is_user_connected user s = elim (lookup user s.user_registry) [
  | none ↦ false
  | some ids ↦ not (is_nil ids)
]

-- `HandleWebSocket` after a successful authentication and upgrade: the client object is made at a
-- fresh address, and registered.
pub connect : ℕ → String → String → SocketManager → SocketManager
unfolding register
connect p id user s = register p (record s { heap = update s.heap p (new_client id user) })

-- A message goes into the client's buffer.
pub enqueue : ℕ → String → SocketManager → SocketManager
enqueue p bytes s =
    let c = s.heap p in
    record s { heap = update s.heap p (record c { send = c.send ++ bytes ∷ [] }) }

-- The connections are closed, and the maps are made anew.
pub shutdown : SocketManager → SocketManager
shutdown s = record s { clients = []; rooms = []; user_registry = []; event_handlers = [] }
