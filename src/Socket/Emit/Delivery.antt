-- ===== src/Socket/Emit/Delivery.antt =====
-- Who receives the events of `EmitToUser` (managers/socket/manager.go), and where it fails.
use go_blockchain_watcher.Prelude.{
  ℕ, zero, suc, ◌+◌, ◌≤◌, ◌<◌, String, ◌≡◌, refl, subst, Bool, true, false, not, ◌&&◌, Option, none,
  some, List, [], ◌∷◌, ◌++◌, arith, ◌==◌, eq_iff, eqb, length, get_elem?, drop, if◌then◌else◌, inl,
  inr, Option-cases, length-append,
}
use mathlib.Core.List.{append-nil, append_assoc}
use native.Mathlib.Numerals.{one-add}
use go_blockchain_watcher.Errors.{Result, ok}
use go_blockchain_watcher.Map.{lookup}
use go_blockchain_watcher.Socket.{SocketManager, enqueue, ids_of, is_nil}
use go_blockchain_watcher.Socket.Registry.{count}
use go_blockchain_watcher.Socket.Invariant.{IsConsistent, connected}
use go_blockchain_watcher.Socket.Reach.{Reach, Reach-IsConsistent}
use go_blockchain_watcher.Socket.Emit.{send_event, refresh, emit_loop, emit_to_user, send_capacity}

abbrev replicate : ℕ → String → List String
replicate zero b = []
replicate (suc n) b = b ∷ replicate n b

-- The plain recursion that the loop amounts to while no buffer is full.
deliver : String → List String → SocketManager → SocketManager
unfolding enqueue
deliver bytes [] s = s
deliver bytes (id ∷ ids) s = elim (lookup id s.clients) [
  | none ↦ deliver bytes ids s
  | some p ↦ deliver bytes ids (enqueue p bytes s)
]

-- Each registered object has its key as its ID.
abbrev Ids : SocketManager → Type 0
Ids s = (i : String) (p : ℕ) → lookup i s.clients ≡ some p → (s.heap p).id ≡ i

Ids-enqueue : (p : ℕ) (bytes : String) (s : SocketManager) → Ids s → Ids (enqueue p bytes s)
unfolding enqueue
Ids-enqueue p bytes s h i q e = ground (arith, h i q)

-- The object is registered, and the user's.
abbrev is_it : Option ℕ → ℕ → Bool
is_it none q = false
is_it (some p) q = eqb p q

abbrev pub of_user : SocketManager → String → ℕ → Bool
of_user s user q =
    is_it (lookup (s.heap q).id s.clients) q && (not (user == "") && ((s.heap q).user_id == user))

-- How often the list names the object, by the ID that it is registered under.
abbrev copies_of : Option ℕ → ℕ → ℕ → ℕ
copies_of none q n = 0
copies_of (some p) q n = if eqb p q then n else 0

abbrev pub copies : SocketManager → List String → ℕ → ℕ
copies s ids q = copies_of (lookup (s.heap q).id s.clients) q (count (s.heap q).id ids)

replicate-one_add : (n : ℕ) (b : String) → replicate (1 + n) b ≡ b ∷ replicate n b
replicate-one_add n b = rw one-add refl

pub send-enqueue :
    (p : ℕ) (bytes : String) (s : SocketManager) (q : ℕ)
    → ((enqueue p bytes s).heap q).send
      ≡ (s.heap q).send ++ replicate (if eqb p q then 1 else 0) bytes
unfolding enqueue
send-enqueue p bytes s q = ground (arith, append-nil (s.heap q).send)

pub id-enqueue :
    (p : ℕ) (bytes : String) (s : SocketManager) (q : ℕ)
    → ((enqueue p bytes s).heap q).id ≡ (s.heap q).id
unfolding enqueue
id-enqueue p bytes s q = ground arith

copies-enqueue :
    (p : ℕ) (bytes : String) (s : SocketManager) (ids : List String) (q : ℕ)
    → copies (enqueue p bytes s) ids q ≡ copies s ids q
copies-enqueue p bytes s ids q = rw id-enqueue (unfold enqueue in refl)

-- Each object receives one copy for each time the list names it, and no other object receives any.
send-deliver :
    (bytes : String) (ids : List String) (s : SocketManager)
    → Ids s
    → (q : ℕ)
    → ((deliver bytes ids s).heap q).send ≡ (s.heap q).send ++ replicate (copies s ids q) bytes
unfolding deliver
send-deliver bytes [] s h q = ground (arith, append-nil (s.heap q).send)
send-deliver bytes (id ∷ ids) s h q = elim (Option-cases (lookup id s.clients)) [
  | inl e ↦
      rw (e, deliver) (ground (arith, e, send-deliver bytes ids s h q, eq_iff id (s.heap q).id))
  | inr (p, e) ↦
      rw (e, deliver)
        (ground (
          arith,
          e,
          send-deliver bytes ids (enqueue p bytes s) (Ids-enqueue p bytes s h) q,
          copies-enqueue p bytes s ids q,
          send-enqueue p bytes s q,
          h id p,
          eq_iff id (s.heap q).id,
          append_assoc (s.heap q).send (bytes ∷ []) (replicate (copies s ids q) bytes),
          append_assoc (s.heap q).send [] (replicate (copies s ids q) bytes),
          replicate-one_add (copies s ids q) bytes,
        ))
]

drop-length : (xs : List String) → drop (length xs) xs ≡ []
drop-length [] = refl
drop-length (x ∷ xs) = drop-length xs

drop-get_elem? :
    (xs : List String) (i k : ℕ)
    → suc k + i ≡ length xs
    → (x : String) × (get_elem? xs i ≡ some x) × (drop i xs ≡ x ∷ drop (suc i) xs)
drop-get_elem? [] i k h = absurd (omega arith)
drop-get_elem? (x ∷ xs) zero k h = (x, refl, refl)
drop-get_elem? (x ∷ xs) (suc i) k h =
    let (y, g, d) = drop-get_elem? xs i k (omega arith) in (y, g, d)

refresh_same :
    (user : String) (array : List String) (s : SocketManager)
    → ids_of s.user_registry user ≡ array
    → refresh user array s ≡ array
unfolding refresh
refresh_same user array s h = rw (h, drop-length array, append-nil array) refl

-- Every buffer that is to receive a copy has room for all that the list asks for.
abbrev pub Fits : SocketManager → List String → Type 0
Fits s ids = (q : ℕ) → 0 < copies s ids q → length (s.heap q).send + copies s ids q ≤ send_capacity

copies-cons :
    (s : SocketManager) (id : String) (ids : List String) (q : ℕ)
    → copies s ids q ≤ copies s (id ∷ ids) q
copies-cons s id ids q = ground arith

copies-cons_self :
    (s : SocketManager) (id : String) (ids : List String) (p : ℕ)
    → Ids s
    → lookup id s.clients ≡ some p
    → copies s (id ∷ ids) p ≡ copies s ids p + 1
copies-cons_self s id ids p h e = ground (arith, e, h id p, eq_iff id (s.heap p).id)

Fits-skip : (s : SocketManager) (id : String) (ids : List String) → Fits s (id ∷ ids) → Fits s ids
Fits-skip s id ids f q h = ground (arith, f q, copies-cons s id ids q)

Fits-enqueue :
    (s : SocketManager) (id : String) (ids : List String) (p : ℕ) (bytes : String)
    → Ids s
    → lookup id s.clients ≡ some p
    → Fits s (id ∷ ids)
    → Fits (enqueue p bytes s) ids
Fits-enqueue s id ids p bytes h e f q pos =
    let pos' : 0 < copies s ids q = subst (λ n. 0 < n) (copies-enqueue p bytes s ids q) pos in
    rw (copies-enqueue p bytes s ids q, send-enqueue p bytes s q)
      (ground (
        arith,
        f q,
        copies-cons s id ids q,
        copies-cons_self s id ids p h e,
        length-append (s.heap q).send (replicate (if eqb p q then 1 else 0) bytes),
      ))

drop_all : (xs : List String) (i : ℕ) → i ≡ length xs → drop i xs ≡ []
drop_all xs i e = rw (e, drop-length xs) refl

-- A user's entry names each registered client of the user once.
copies_user :
    {s : SocketManager}
    → IsConsistent s
    → (user : String) (q : ℕ)
    → copies s (ids_of s.user_registry user) q ≡ (if of_user s user q then 1 else 0)
copies_user {s} c user q = ground (arith, c.listing user (s.heap q).id)

module _ {D : Type 0} (marshal : String → D → Result String) where
  pub send_event_room :
      (p : ℕ) (event : String) (payload : D) (bytes : String) (s : SocketManager)
      → marshal event payload ≡ ok bytes
      → length (s.heap p).send < send_capacity
      → send_event marshal p event payload s ≡ (ok tt, enqueue p bytes s)
  unfolding send_event
  send_event_room p event payload bytes s m h = rw (m, send_event) (ground arith)

  -- While every buffer has room, the loop is the plain recursion over the rest of the list.
  emit_loop-deliver :
      (user event : String) (payload : D) (bytes : String)
      → marshal event payload ≡ ok bytes
      → (k i : ℕ) (array : List String) (s : SocketManager) → Ids s
      → ids_of s.user_registry user ≡ array
      → k + i ≡ length array
      → Fits s (drop i array)
      → emit_loop marshal user event payload k i array (ok tt) s
        ≡ (ok tt, deliver bytes (drop i array) s)
  unfolding emit_loop deliver
  emit_loop-deliver user event payload bytes m zero i array s h same len fits =
      rw (drop_all array i (omega arith)) refl
  emit_loop-deliver user event payload bytes m (suc k) i array s h same len fits =
      let (x, g, d) = drop-get_elem? array i k len in
      let fits' : Fits s (x ∷ drop (suc i) array) = subst (Fits s) d fits in
      rw (g, emit_loop, d)
        (elim (Option-cases (lookup x s.clients)) [
          | inl e ↦
              rw (e, emit_loop, deliver)
                (emit_loop-deliver user event payload bytes m k (suc i) array s h same (omega arith)
                  (Fits-skip s x (drop (suc i) array) fits'))
          | inr (p, e) ↦
              rw (e, emit_loop, deliver)
                (rw
                  (
                    send_event_room p event payload bytes s m
                        (ground (arith, fits' p, copies-cons_self s x (drop (suc i) array) p h e)),
                    refresh_same user array (enqueue p bytes s) (unfold enqueue in same),
                  )
                  (emit_loop-deliver user event payload bytes m k (suc i) array (enqueue p bytes s)
                    (Ids-enqueue p bytes s h) (unfold enqueue in same) (omega arith)
                    (Fits-enqueue s x (drop (suc i) array) p bytes h e fits')))
        ])

  -- In a reachable state where the user is connected, the event is encoded and the buffer of each
  -- client of the user has room, `EmitToUser` succeeds: each registered client of the user receives
  -- one copy of the event, and no other client receives any.
  pub emit_to_user_delivers :
      {s : SocketManager} (user event : String) (payload : D) (bytes : String)
      → Reach s
      → is_nil (ids_of s.user_registry user) ≡ false
      → marshal event payload ≡ ok bytes
      → ((q : ℕ) → of_user s user q ≡ true → length (s.heap q).send < send_capacity)
      → let (r, t) = emit_to_user marshal user event payload s in
        (r ≡ ok tt)
        × ((q : ℕ)
            → (t.heap q).send
              ≡ (if of_user s user q then (s.heap q).send ++ bytes ∷ [] else (s.heap q).send))
  unfolding emit_to_user
  emit_to_user_delivers {s} user event payload bytes reach connected m room =
      rw (connected, emit_to_user) (rw looped (refl, received))
    where
      c : IsConsistent s
      c = Reach-IsConsistent reach

      ids : List String
      ids = ids_of s.user_registry user

      fits : Fits s ids
      fits q pos = ground (arith, room q, copies_user c user q)

      looped :
          emit_loop marshal user event payload (length ids) 0 ids (ok tt) s
          ≡ (ok tt, deliver bytes ids s)
      looped =
          emit_loop-deliver user event payload bytes m (length ids) 0 ids s c.ids refl (omega arith)
            fits

      received :
          (q : ℕ)
          → ((deliver bytes ids s).heap q).send
            ≡ (if of_user s user q then (s.heap q).send ++ bytes ∷ [] else (s.heap q).send)
      received q = ground (
        arith,
        send-deliver bytes ids s c.ids q,
        copies_user c user q,
        append-nil (s.heap q).send,
      )
