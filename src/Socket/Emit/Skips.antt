-- ===== src/Socket/Emit/Skips.antt =====
-- `EmitToUser` (managers/socket/manager.go) when it unregisters a client on its way: the slice that
-- it ranges over shifts under it.
use mathlib.Core.List.{append_assoc}
use go_blockchain_watcher.Prelude.{
  ℕ, suc, ◌+◌, ◌≤◌, ◌<◌, String, ◌≡◌, ◌≢◌, refl, sym, ◌∙◌, get_elem?, true, not, ◌&&◌, some, List,
  [], ◌∷◌, ◌++◌, arith, ◌==◌, eq_iff, eqb, length, if◌then◌else◌, length-append,
}
use go_blockchain_watcher.Errors.{Result, ok}
use go_blockchain_watcher.Map.{lookup, lookup-delete}
use go_blockchain_watcher.Socket.{SocketManager, enqueue, ids_of, remove_first, unregister}
use go_blockchain_watcher.Socket.Registry.{ids_of-unregister_user}
use go_blockchain_watcher.Socket.Invariant.{IsConsistent}
use go_blockchain_watcher.Socket.Calls.{heap-unregister, clients-unregister, registry-unregister}
use go_blockchain_watcher.Socket.Reach.{Reach, Reach-IsConsistent}
use go_blockchain_watcher.Socket.Emit.{
  send_event, refresh, later, emit_loop, emit_to_user, send_capacity,
}
use go_blockchain_watcher.Socket.Emit.Delivery.{send_event_room}

-- A full client is unregistered, and the array that the loop reads is shifted.
module _ (s : SocketManager) (p : ℕ) (user x y z : String) (c : IsConsistent s)
    (entry : ids_of s.user_registry user ≡ x ∷ y ∷ z ∷ [])
    (registered : lookup x s.clients ≡ some p) where
  is_x : (s.heap p).id ≡ x
  is_x = c.ids x p registered

  of_the_user : not (user == "") && ((s.heap p).user_id == user) ≡ true
  of_the_user = ground (arith, c.listing user x, entry, registered, eq_iff x x)

  distinct : (x ≢ y) × (x ≢ z) × (y ≢ z)
  distinct = (
    ground (arith, c.listing user x, entry, eq_iff x x, eq_iff y x),
    ground (arith, c.listing user x, entry, eq_iff x x, eq_iff z x),
    ground (arith, c.listing user y, entry, eq_iff y y, eq_iff z y),
  )

  entry-unregister : ids_of (unregister p s).1.user_registry user ≡ y ∷ z ∷ []
  entry-unregister =
      rw
        (
          registry-unregister p s p (rw is_x registered),
          ids_of-unregister_user (s.heap p).user_id (s.heap p).id s.user_registry user,
        )
        (unfold remove_first in
          ground (arith, of_the_user, is_x, entry, eq_iff (s.heap p).user_id user, eq_iff x x))

  refresh-unregister : refresh user (x ∷ y ∷ z ∷ []) (unregister p s).1 ≡ y ∷ z ∷ z ∷ []
  unfolding refresh
  refresh-unregister = rw entry-unregister refl

  lookup-unregister :
      (i : String) → i ≢ x → lookup i (unregister p s).1.clients ≡ lookup i s.clients
  lookup-unregister i ne =
      rw (clients-unregister p s p (rw is_x registered))
        (ground (arith, is_x, lookup-delete (s.heap p).id i s.clients, eq_iff (s.heap p).id i))

-- The rest of the loop, on the shifted array.
module _ {D : Type 0} (marshal : String → D → Result String) (user event : String) (payload : D)
    (bytes : String) (m : marshal event payload ≡ ok bytes) where
  -- One round at a registered client.
  emit_loop_round :
      (k i : ℕ) (array : List String) (last r : Result (Unit {0})) (id : String) (p : ℕ)
      (u t : SocketManager)
      → get_elem? array i ≡ some id
      → lookup id u.clients ≡ some p
      → send_event marshal p event payload u ≡ (r, t)
      → emit_loop marshal user event payload (suc k) i array last u
        ≡ emit_loop marshal user event payload k (suc i) (refresh user array t) (later last r) t
  unfolding emit_loop
  emit_loop_round k i array last r id p u t g e f =
      rw (g, emit_loop) (rw (e, emit_loop) (rw f refl))

  send_event_full :
      (p : ℕ) (u : SocketManager)
      → send_capacity ≤ length (u.heap p).send
      → send_event marshal p event payload u ≡ unregister p u
  unfolding send_event
  send_event_full p u full = rw (m, send_event) (ground arith)

  emit_loop_shifted :
      (y z : String) (q : ℕ) (last : Result (Unit {0})) (u : SocketManager)
      → ids_of u.user_registry user ≡ y ∷ z ∷ []
      → lookup z u.clients ≡ some q
      → length (u.heap q).send + 2 ≤ send_capacity
      → emit_loop marshal user event payload 2 1 (y ∷ z ∷ z ∷ []) last u
        ≡ (last, enqueue q bytes (enqueue q bytes u))
  unfolding later
  emit_loop_shifted y z q last u entry found room =
      emit_loop_round 1 1 (y ∷ z ∷ z ∷ []) last (ok tt) z q u v refl found
        (send_event_room marshal q event payload bytes u m (omega arith))
      ∙ rw shifted (
          emit_loop_round 0 2 (y ∷ z ∷ z ∷ []) last (ok tt) z q v (enqueue q bytes v) refl
            (unfold enqueue in found) (send_event_room marshal q event payload bytes v m room')
          ∙ unfold emit_loop in refl)
    where
      v : SocketManager
      v = enqueue q bytes u

      shifted : refresh user (y ∷ z ∷ z ∷ []) v ≡ y ∷ z ∷ z ∷ []
      shifted = unfold refresh enqueue in rw entry refl

      room' : length (v.heap q).send < send_capacity
      room' = unfold enqueue in ground (arith, length-append (u.heap q).send (bytes ∷ []))

  send-enqueue_twice :
      (q r : ℕ) (u : SocketManager)
      → ((enqueue q bytes (enqueue q bytes u)).heap r).send
        ≡ (if eqb q r then (u.heap r).send ++ bytes ∷ bytes ∷ [] else (u.heap r).send)
  unfolding enqueue
  send-enqueue_twice q r u = ground (arith, append_assoc (u.heap r).send (bytes ∷ []) (bytes ∷ []))

  -- In a reachable state, let a user have the clients x, y and z, connected in this order, let the
  -- buffer of x be full, that of z have room for two messages, and the event be encoded. `EmitToUser`
  -- sends nothing to y and sends the event to z twice, since unregistering x shifts the slice that
  -- the loop ranges over.
  pub emit_to_user_skips :
      {s : SocketManager} (x y z : String) (px py pz : ℕ)
      → Reach s
      → ids_of s.user_registry user ≡ x ∷ y ∷ z ∷ []
      → lookup x s.clients ≡ some px
      → lookup y s.clients ≡ some py
      → lookup z s.clients ≡ some pz
      → send_capacity ≤ length (s.heap px).send
      → length (s.heap pz).send + 2 ≤ send_capacity
      → let t = (emit_to_user marshal user event payload s).1 in
        ((t.heap py).send ≡ (s.heap py).send)
        × ((t.heap pz).send ≡ (s.heap pz).send ++ bytes ∷ bytes ∷ [])
  unfolding emit_to_user
  emit_to_user_skips {s} x y z px py pz reach entry fx fy fz full room = rw looped (
    rw (send-enqueue_twice pz py u, heap-unregister px s)
        (ground (arith, c.ids y py fy, c.ids z pz fz, ne)),
    rw (send-enqueue_twice pz pz u, heap-unregister px s) (ground arith),
  )
    where
      c : IsConsistent s
      c = Reach-IsConsistent reach

      ne : y ≢ z
      ne = (distinct s px user x y z c entry fx).2

      u : SocketManager
      u = (unregister px s).1

      other : z ≢ x
      other e = (distinct s px user x y z c entry fx).1 (sym e)

      rounds :
          emit_loop marshal user event payload 3 0 (x ∷ y ∷ z ∷ []) (ok tt) s
          ≡ (later (ok tt) (unregister px s).0, enqueue pz bytes (enqueue pz bytes u))
      rounds =
          emit_loop_round 2 0 (x ∷ y ∷ z ∷ []) (ok tt) (unregister px s).0 x px s u refl fx
            (send_event_full px s full)
          ∙ rw (refresh-unregister s px user x y z c entry fx) (
              emit_loop_shifted y z pz (later (ok tt) (unregister px s).0) u
                (entry-unregister s px user x y z c entry fx)
                (lookup-unregister s px user x y z c entry fx z other ∙ fz)
                (rw (heap-unregister px s) room))

      looped : (emit_to_user marshal user event payload s).1 ≡ enqueue pz bytes (enqueue pz bytes u)
      looped = rw entry (rw rounds refl)
