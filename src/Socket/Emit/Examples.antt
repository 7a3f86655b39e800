-- ===== src/Socket/Emit/Examples.antt =====
-- The theorems on sending (managers/socket/manager.go) at a manager with three clients of one user.
use go_blockchain_watcher.Prelude.{
  ℕ, zero, suc, ◌+◌, ◌≤◌, String, ◌≡◌, refl, ap, ◌∙◌, false, ◌&&◌, [], ◌∷◌, ◌++◌, arith, ◌==◌,
  if◌then◌else◌, length, length-append,
}
use go_blockchain_watcher.Errors.{Result, ok}
use go_blockchain_watcher.Map.{lookup}
use go_blockchain_watcher.Socket.{SocketManager, ids_of, enqueue, is_nil, connect}
use go_blockchain_watcher.Socket.Rooms.{member}
use go_blockchain_watcher.Socket.Invariant.{IsConsistent, connected}
use go_blockchain_watcher.Socket.Reach.{enqueues, Reach, next}
use go_blockchain_watcher.Socket.Examples.{three, three-Reach, three-clients, three-ids}
use go_blockchain_watcher.Socket.Emit.{emit_to_user, create_user_room, send_capacity}
use go_blockchain_watcher.Socket.Emit.Delivery.{emit_to_user_delivers, of_user}
use go_blockchain_watcher.Socket.Emit.Skips.{emit_to_user_skips}
use go_blockchain_watcher.Socket.Emit.UserRoom.{create_user_room_members}

-- An encoder that gives the name of the event.
abbrev encode : String → ℕ → Result String
encode event n = ok event

some_client : is_nil (ids_of three.user_registry "ann") ≡ false
some_client = rw three-ids refl

empty_buffers : (q : ℕ) → length (three.heap q).send ≡ 0
unfolding connect
empty_buffers q = ground arith

emit_to_user_delivers_example :
    let (r, t) = emit_to_user encode "ann" "hello" 7 three in
    (r ≡ ok tt)
    × ((q : ℕ)
        → (t.heap q).send ≡ (
            if of_user three "ann" q
            then (three.heap q).send ++ "hello" ∷ []
            else (three.heap q).send))
emit_to_user_delivers_example =
    emit_to_user_delivers encode "ann" "hello" 7 "hello" three-Reach some_client refl
      (λ q h. rw (empty_buffers q) (omega arith))

create_user_room_members_example :
    let (r, t) = create_user_room "ann" "news" three in
    (r ≡ ok tt)
    × IsConsistent t
    × ((q i : String)
        → member t.rooms q i ≡ (
            if ("news" == q) && connected three "ann" i
            then lookup i three.clients
            else member three.rooms q i))
create_user_room_members_example = create_user_room_members "ann" "news" three-Reach some_client

-- The first client's buffer after some messages.
filled : ℕ → SocketManager → SocketManager
filled zero s = s
filled (suc n) s = enqueue 0 "m" (filled n s)

filled-Reach : (n : ℕ) → (s : SocketManager) → Reach s → Reach (filled n s)
unfolding filled
filled-Reach zero s r = r
filled-Reach (suc n) s r = next (filled-Reach n s r) (enqueues 0 "m")

filled-length :
    (n : ℕ) → (s : SocketManager) → length ((filled n s).heap 0).send ≡ length (s.heap 0).send + n
unfolding filled enqueue
filled-length zero s = omega arith
filled-length (suc n) s =
    ground (arith, filled-length n s, length-append ((filled n s).heap 0).send ("m" ∷ []))

filled-other : (n : ℕ) → (s : SocketManager) → (filled n s).heap 2 ≡ s.heap 2
unfolding filled enqueue
filled-other zero s = refl
filled-other (suc n) s = ground (arith, filled-other n s)

filled-maps :
    (n : ℕ)
    → (s : SocketManager)
    → ((filled n s).clients ≡ s.clients) × ((filled n s).user_registry ≡ s.user_registry)
unfolding filled enqueue
filled-maps zero s = (refl, refl)
filled-maps (suc n) s = filled-maps n s

full : SocketManager
full = filled 256 three

emit_to_user_skips_example :
    let t = (emit_to_user encode "ann" "hello" 7 full).1 in
    ((t.heap 1).send ≡ (full.heap 1).send)
    × ((t.heap 2).send ≡ (full.heap 2).send ++ "hello" ∷ "hello" ∷ [])
emit_to_user_skips_example =
    emit_to_user_skips encode "ann" "hello" 7 "hello" refl "a" "b" "c" 0 1 2 full-Reach
      (ap (λ m. ids_of m "ann") full-maps.1 ∙ three-ids)
      (ap (lookup "a") full-maps.0 ∙ three-clients.0)
      (ap (lookup "b") full-maps.0 ∙ three-clients.1)
      (ap (lookup "c") full-maps.0 ∙ three-clients.2) full-length full-room
  where
    full-Reach : Reach full
    full-Reach = unfold full in filled-Reach 256 three three-Reach

    full-maps : (full.clients ≡ three.clients) × (full.user_registry ≡ three.user_registry)
    full-maps = unfold full in filled-maps 256 three

    full-length : send_capacity ≤ length (full.heap 0).send
    full-length = unfold full in omega (arith, filled-length 256 three)

    full-room : length (full.heap 2).send + 2 ≤ send_capacity
    full-room = unfold full in rw (filled-other 256 three, empty_buffers 2) (omega arith)
