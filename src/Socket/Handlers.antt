-- ===== src/Socket/Handlers.antt =====
-- The event handlers of managers/socket/manager.go. A `func` value is a number.
use go_blockchain_watcher.Prelude.{
  ℕ, String, ◌≡◌, refl, ap, ◌∙◌, Bool, true, false, Option, none, some, List, [], ◌∷◌, ◌++◌, arith,
  ◌==◌, eq_iff, if◌then◌else◌, inl, inr, Option-cases,
}
use go_blockchain_watcher.Map.{lookup, insert, delete, lookup-insert, lookup-delete}
use go_blockchain_watcher.Socket.{SocketManager, is_nil}

-- The two variables whose addresses `RemoveEventHandler` compares.
data Variable : Type 0 where
  range_variable parameter : Variable

-- Pointers to two variables are equal only if it is one variable.
same_address : Variable → Variable → Bool
same_address range_variable range_variable = true
same_address parameter parameter = true
same_address range_variable parameter = false
same_address parameter range_variable = false

abbrev pub handlers_of : Option (List ℕ) → List ℕ
handlers_of none = []
handlers_of (some hs) = hs

pub add_event_handler : String → ℕ → SocketManager → SocketManager
add_event_handler event handler s =
    let hs = handlers_of (lookup event s.event_handlers) in
    record s { event_handlers = insert event (hs ++ handler ∷ []) s.event_handlers }

-- The loop: `&h == &handler`, then `append(handlers[:i], handlers[i+1:]...)` and `break`.
remove_handler : List ℕ → List ℕ
unfolding same_address
remove_handler [] = []
remove_handler (h ∷ hs) =
    if same_address range_variable parameter then hs else h ∷ remove_handler hs

pub remove_event_handler : String → ℕ → SocketManager → SocketManager
unfolding remove_handler
remove_event_handler event handler s = elim (lookup event s.event_handlers) [
  | none ↦ s
  | some hs ↦
      let rest = remove_handler hs in
      record s {
        event_handlers =
            if is_nil rest
            then delete event s.event_handlers
            else insert event rest s.event_handlers;
      }
]

-- The handlers that `ProcessMessage` starts for the event.
pub process_message : String → SocketManager → List ℕ
process_message event s = handlers_of (lookup event s.event_handlers)

remove_handler_same : (hs : List ℕ) → remove_handler hs ≡ hs
unfolding remove_handler
remove_handler_same [] = refl
remove_handler_same (h ∷ hs) = ap (λ (r : List ℕ). h ∷ r) (remove_handler_same hs)

is_nil-eq-nil : (hs : List ℕ) → is_nil hs ≡ true → hs ≡ []
is_nil-eq-nil [] h = refl
is_nil-eq-nil (x ∷ hs) h = ground arith

-- `RemoveEventHandler` never removes a handler: whatever it is called with, each event still starts
-- the handlers that it started before.
pub process_message-remove_event_handler :
    (event e : String) (handler : ℕ) (s : SocketManager)
    → process_message e (remove_event_handler event handler s) ≡ process_message e s
unfolding process_message remove_event_handler
process_message-remove_event_handler event e handler s =
    elim (Option-cases (lookup event s.event_handlers)) [
      | inl n ↦ rw (n, remove_event_handler) refl
      | inr (hs, f) ↦
          rw (f, remove_event_handler)
            (ground (
              arith,
              f,
              eq_iff event e,
              remove_handler_same hs,
              is_nil-eq-nil hs,
              lookup-delete event e s.event_handlers,
              lookup-insert event e (remove_handler hs) s.event_handlers,
            ))
    ]

-- A handler that was added is still started last for its event after it was removed, and the other
-- events are as before.
pub add_then_remove :
    (event e : String) (handler : ℕ) (s : SocketManager)
    → process_message e (remove_event_handler event handler (add_event_handler event handler s))
      ≡ (if event == e then process_message e s ++ handler ∷ [] else process_message e s)
unfolding process_message add_event_handler
add_then_remove event e handler s =
    process_message-remove_event_handler event e handler (add_event_handler event handler s)
    ∙ ground (
      arith,
      eq_iff event e,
      lookup-insert event e (handlers_of (lookup event s.event_handlers) ++ handler ∷ [])
          s.event_handlers,
    )
