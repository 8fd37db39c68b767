-- ===== src/Mobile/Reducer/Kept.antt =====
-- `orderReplayEvents` brings no event that was not there.
use mathlib.Core.Option
use cucoudle.Prelude.{
  ℕ, suc, String, subst, sym, List, [], ◌∷◌, ◌++◌, All, All-append, Option-cases, inl, inr, str_eq,
  if-holds,
}
use cucoudle.Prelude.Dict.{Dict, get, set, get-set}
use cucoudle.Prelude.Sorting.{at, All-sort_by, All-at}
use cucoudle.Protocol.Message.{EventMessage}
use cucoudle.Mobile.Reducer.{
  replay_coordinates, queue_events, earlier_event, sort_queues, take_queued, order_replay_events,
}
use cucoudle.Mobile.Reducer.Order.{get-sort_queues}

module _ (P : EventMessage → Type 0) where
  abbrev queue_of : String → Dict (List EventMessage) → List EventMessage
  queue_of id queues = Option.get_or (get id queues) []

  -- Each event of each queue has the property.
  abbrev AreQueued : Dict (List EventMessage) → Type 0
  AreQueued queues = (id : String) → All P (queue_of id queues)

  set-AreQueued :
      (queues : Dict (List EventMessage)) (event : EventMessage) (id : String)
      → P event
      → AreQueued queues
      → AreQueued (set id (queue_of id queues ++ event ∷ []) queues)
  set-AreQueued queues event id h a j =
      subst (λ o. All P (Option.get_or o []))
        (sym (get-set id j (queue_of id queues ++ event ∷ []) queues))
        (if-holds (λ o. All P (Option.get_or o [])) (str_eq id j)
          (All-append P (queue_of id queues) (event ∷ []) (a id) (h, tt)) (a j))

  queue_events-AreQueued :
      (queues : Dict (List EventMessage)) (events : List EventMessage)
      → All P events
      → AreQueued queues
      → AreQueued (queue_events queues events)
  unfolding queue_events
  queue_events-AreQueued queues [] h a = a
  queue_events-AreQueued queues (event ∷ events) h a =
      elim (Option-cases (replay_coordinates event)) [
        | inl e ↦ rw (e, queue_events) (queue_events-AreQueued queues events h.1 a)
        | inr (c, e) ↦
            rw (e, queue_events)
              (queue_events-AreQueued (set c.0 (queue_of c.0 queues ++ event ∷ []) queues) events
                h.1 (set-AreQueued queues event c.0 h.0 a))
      ]

  sort_queues-AreQueued :
      (queues : Dict (List EventMessage)) → AreQueued queues → AreQueued (sort_queues queues)
  sort_queues-AreQueued queues a id =
      rw (get-sort_queues id queues) (All-sort_by P earlier_event (queue_of id queues) (a id))

  queued_event :
      (queue : List EventMessage) (event : EventMessage) (i : ℕ)
      → P event
      → All P queue
      → P (Option.get_or (at i queue) event)
  queued_event queue event i h a = elim (Option-cases (at i queue)) [
    | inl e ↦ rw e h
    | inr (x, e) ↦ rw e (All-at P i queue x e a)
  ]

  take_queued-All :
      (queues : Dict (List EventMessage)) (next : Dict ℕ) (events : List EventMessage)
      → All P events
      → AreQueued queues
      → All P (take_queued queues next events)
  unfolding take_queued
  take_queued-All queues next [] h a = tt
  take_queued-All queues next (event ∷ events) h a =
      elim (Option-cases (replay_coordinates event)) [
        | inl e ↦ rw (e, take_queued) (h.0, take_queued-All queues next events h.1 a)
        | inr (c, e) ↦
            rw (e, take_queued)
              (
                queued_event (queue_of c.0 queues) event (Option.get_or (get c.0 next) 0) h.0
                    (a c.0),
                take_queued-All queues (set c.0 (suc (Option.get_or (get c.0 next) 0)) next) events
                    h.1 a,
              )
      ]

  pub order_replay_events-All :
      (events : List EventMessage) → All P events → All P (order_replay_events events)
  unfolding order_replay_events get
  order_replay_events-All events h =
      take_queued-All (sort_queues (queue_events [] events)) [] events h (
        sort_queues-AreQueued (queue_events [] events)
          (queue_events-AreQueued [] events h (λ id. tt)))
