-- ===== src/Socket/Examples.antt =====
-- The theorems on the socket manager (managers/socket/manager.go) at a manager with three clients of
-- one user.
use go_blockchain_watcher.Prelude.{
  ℕ, String, ◌≡◌, refl, none, some, [], ◌∷◌, arith, ◌==◌, if◌then◌else◌,
}
use go_blockchain_watcher.Errors.{err, errors_new}
use go_blockchain_watcher.Map.{lookup, insert, lookup-insert}
use go_blockchain_watcher.Socket.{
  SocketManager, init, ids_of, connect, register_user, unregister, client_join_room,
  get_user_client_ids,
}
use go_blockchain_watcher.Socket.Handlers.{
  add_event_handler, remove_event_handler, process_message, process_message-remove_event_handler,
}
use go_blockchain_watcher.Socket.Rooms.{member}
use go_blockchain_watcher.Socket.Registry.{count}
use go_blockchain_watcher.Socket.Invariant.{IsConsistent}
use go_blockchain_watcher.Socket.Reach.{
  connects, Reach, start, next, Reach-IsConsistent, unregister_removes, join_after_unregister,
}

abbrev one : SocketManager
one = connect 0 "a" "ann" init

abbrev two : SocketManager
two = connect 1 "b" "ann" one

abbrev pub three : SocketManager
three = connect 2 "c" "ann" two

clients-connect :
    (p : ℕ) (id user i : String) (s : SocketManager)
    → lookup i (connect p id user s).clients ≡ (if id == i then some p else lookup i s.clients)
unfolding connect
clients-connect p id user i s = ground (arith, lookup-insert id i p s.clients)

clients-init : (i : String) → lookup i init.clients ≡ none
unfolding lookup
clients-init i = refl

one-Reach : Reach one
one-Reach =
    next start (connects 0 "a" "ann" (clients-init "a") (λ i h. ground (arith, clients-init i, h)))

two-Reach : Reach two
two-Reach = next one-Reach (
    connects 1 "b" "ann" (ground (arith, clients-init "b", clients-connect 0 "a" "ann" "b" init))
      (λ i h. ground (arith, clients-init i, h, clients-connect 0 "a" "ann" i init)))

pub three-Reach : Reach three
three-Reach = next two-Reach (
    connects 2 "c" "ann"
      (ground (
        arith,
        clients-init "c",
        clients-connect 0 "a" "ann" "c" init,
        clients-connect 1 "b" "ann" "c" one,
      ))
      (λ i h. ground (
        arith,
        clients-init i,
        h,
        clients-connect 0 "a" "ann" i init,
        clients-connect 1 "b" "ann" i one,
      )))

pub three-clients :
    (lookup "a" three.clients ≡ some 0)
    × (lookup "b" three.clients ≡ some 1)
    × (lookup "c" three.clients ≡ some 2)
unfolding connect lookup insert
three-clients = (refl, refl, refl)

pub three-ids : ids_of three.user_registry "ann" ≡ "a" ∷ "b" ∷ "c" ∷ []
unfolding connect lookup insert register_user ids_of
three-ids = refl

pub three-heap : ((three.heap 0).id ≡ "a") × ((three.heap 1).id ≡ "b") × ((three.heap 2).id ≡ "c")
unfolding connect
three-heap = (refl, refl, refl)

Reach-IsConsistent_example : IsConsistent three
Reach-IsConsistent_example = Reach-IsConsistent three-Reach

unregister_removes_example :
    let t = (unregister 0 three).1 in
    ((r : String) → member t.rooms r (three.heap 0).id ≡ none)
    × ((u : String) → count (three.heap 0).id (get_user_client_ids u t) ≡ 0)
    × (unregister 0 t ≡ (err (errors_new "client not found"), t))
unregister_removes_example = unregister_removes 0 three-Reach (rw three-heap.0 three-clients.0)

join_after_unregister_example :
    let t = client_join_room 0 "news" (unregister 0 three).1 in
    (member t.rooms "news" (three.heap 0).id ≡ some 0)
    × (unregister 0 t ≡ (err (errors_new "client not found"), t))
join_after_unregister_example =
    join_after_unregister three 0 "news" (rw three-heap.0 three-clients.0)

process_message-remove_event_handler_example :
    process_message "tick" (remove_event_handler "tick" 5 (add_event_handler "tick" 5 three))
    ≡ process_message "tick" (add_event_handler "tick" 5 three)
process_message-remove_event_handler_example =
    process_message-remove_event_handler "tick" "tick" 5 (add_event_handler "tick" 5 three)
