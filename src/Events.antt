-- ===== src/Events.antt =====
-- managers/events/event_manager.go: the handlers of events. A `func` value is a number. A panic of a
-- handler is caught in the goroutine that runs it.
use go_blockchain_watcher.Prelude.{
  ℕ, String, ◌≡◌, Option, none, some, List, [], ◌∷◌, ◌++◌, arith, ◌==◌, eq_iff, if◌then◌else◌, map,
}
use go_blockchain_watcher.Map.{Map, lookup, insert, delete, lookup-insert, lookup-delete}

abbrev pub EventManager : Type 0
EventManager = Map (List ℕ)

abbrev pub subscribers : Option (List ℕ) → List ℕ
subscribers none = []
subscribers (some hs) = hs

pub subscribe : String → ℕ → EventManager → EventManager
subscribe event handler em = insert event (subscribers (lookup event em) ++ handler ∷ []) em

-- The handlers that are started, each with the data.
pub publish : {D : Type 0} → String → D → EventManager → List (ℕ × D)
publish event payload em = map (λ h. (h, payload)) (subscribers (lookup event em))

pub unsubscribe_all : String → EventManager → EventManager
unsubscribe_all event em = delete event em

-- After `Subscribe`, `Publish` of the event starts its handlers and then the new one, and that of
-- another event is as before; after `UnsubscribeAll`, it starts none, and another event is as before.
pub publish-subscribe :
    {D : Type 0} (event e : String) (handler : ℕ) (payload : D) (em : EventManager)
    → (publish e payload (subscribe event handler em) ≡ (
        if event == e
        then map (λ h. (h, payload)) (subscribers (lookup e em) ++ handler ∷ [])
        else publish e payload em))
      × (publish e payload (unsubscribe_all event em)
          ≡ (if event == e then [] else publish e payload em))
unfolding publish subscribe unsubscribe_all
publish-subscribe event e handler payload em = (
  ground (
    arith,
    eq_iff event e,
    lookup-insert event e (subscribers (lookup event em) ++ handler ∷ []) em,
  ),
  ground (arith, eq_iff event e, lookup-delete event e em),
)
