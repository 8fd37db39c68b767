-- ===== src/Mobile/Reducer/Order.antt =====
-- What `orderReplayEvents` leaves where it is.
use mathlib.Core.Option
use mathlib.Core.Path.{ap₂}
use text.Mathlib.TextPositions.{eq_refl}
use cucoudle.Prelude.{
  ℕ, suc, String, ◌≡◌, refl, sym, ap, ◌∙◌, Option, none, some, List, [], ◌∷◌, ◌++◌, map, arith, All,
  All-append, Option-cases, inl, inr, str_eq-cases, subst,
}
use cucoudle.Prelude.Dict.{Dict, get, set, get-set}
use cucoudle.Prelude.Sorting.{sort_by, sort_onto, at, All-sort_by, All-at}
use cucoudle.Protocol.Message.{EventMessage}
use cucoudle.Mobile.Reducer.{
  replay_coordinates, queue_events, earlier_event, sort_queues, take_queued, order_replay_events,
}

-- The session whose output an event carries, if it carries any.
abbrev pub output_session : EventMessage → Option String
output_session event = elim (replay_coordinates event) [ none ↦ none | some c ↦ some c.0 ]

output_of :
    (event : EventMessage) (c : String × ℕ)
    → replay_coordinates event ≡ some c
    → output_session event ≡ some c.0
output_of event c e = rw (e, output_session) refl

-- Each queue holds output of its own session only.
abbrev AreQueues : Dict (List EventMessage) → Type 0
AreQueues queues =
    (id : String) → All (λ e. output_session e ≡ some id) (Option.get_or (get id queues) [])

set-AreQueues :
    (queues : Dict (List EventMessage)) (event : EventMessage) (id : String)
    → output_session event ≡ some id
    → AreQueues queues
    → AreQueues (set id (Option.get_or (get id queues) [] ++ event ∷ []) queues)
set-AreQueues queues event id h a j = elim (str_eq-cases id j) [
  | inl (y, p) ↦
      subst
        (λ (k : String).
          All (λ e. output_session e ≡ some k)
            (Option.get_or (get k (set id (Option.get_or (get id queues) [] ++ event ∷ []) queues))
              []))
        p
        (rw (get-set id id (Option.get_or (get id queues) [] ++ event ∷ []) queues, eq_refl id)
          (All-append _ _ (event ∷ []) (a id) (h, tt)))
  | inr (y, p) ↦ rw (get-set id j (Option.get_or (get id queues) [] ++ event ∷ []) queues, y) (a j)
]

queue_events-AreQueues :
    (queues : Dict (List EventMessage)) (events : List EventMessage)
    → AreQueues queues
    → AreQueues (queue_events queues events)
unfolding queue_events
queue_events-AreQueues queues [] a = a
queue_events-AreQueues queues (event ∷ events) a = elim (Option-cases (replay_coordinates event)) [
  | inl e ↦ rw (e, queue_events) (queue_events-AreQueues queues events a)
  | inr (c, e) ↦
      rw (e, queue_events)
        (queue_events-AreQueues (set c.0 (Option.get_or (get c.0 queues) [] ++ event ∷ []) queues)
          events (set-AreQueues queues event c.0 (output_of event c e) a))
]

pub get-sort_queues :
    (id : String) (queues : Dict (List EventMessage))
    → Option.get_or (get id (sort_queues queues)) []
      ≡ sort_by earlier_event (Option.get_or (get id queues) [])
unfolding sort_queues get sort_by sort_onto
get-sort_queues id [] = refl
get-sort_queues id ((j, es) ∷ queues) = ground (arith, get-sort_queues id queues)

sort_queues-AreQueues :
    (queues : Dict (List EventMessage)) → AreQueues queues → AreQueues (sort_queues queues)
sort_queues-AreQueues queues a id =
    rw (get-sort_queues id queues) (All-sort_by _ earlier_event _ (a id))

queued :
    (queue : List EventMessage) (event : EventMessage) (i : ℕ) (id : String)
    → output_session event ≡ some id
    → All (λ e. output_session e ≡ some id) queue
    → output_session (Option.get_or (at i queue) event) ≡ some id
queued queue event i id h a = elim (Option-cases (at i queue)) [
  | inl e ↦ rw e h
  | inr (x, e) ↦ rw e (All-at (λ e. output_session e ≡ some id) i queue x e a)
]

taken :
    (queues : Dict (List EventMessage)) (next : Dict ℕ) (events : List EventMessage)
    → AreQueues queues
    → map output_session (take_queued queues next events) ≡ map output_session events
unfolding take_queued
taken queues next [] a = refl
taken queues next (event ∷ events) a = elim (Option-cases (replay_coordinates event)) [
  | inl e ↦ rw (e, take_queued) (ap (λ l. output_session event ∷ l) (taken queues next events a))
  | inr (c, e) ↦
      rw (e, take_queued)
        (ap₂ ◌∷◌ (queued _ event _ c.0 (output_of event c e) (a c.0) ∙ sym (output_of event c e))
          (taken queues (set c.0 (suc (Option.get_or (get c.0 next) 0)) next) events a))
]

-- A replay is put in order within each session's output alone: at each place there is output of the
-- same session as before, and an event without output where there was one.
pub order_replay_events-sessions :
    (events : List EventMessage)
    → map output_session (order_replay_events events) ≡ map output_session events
unfolding order_replay_events get
order_replay_events-sessions events =
    taken (sort_queues (queue_events [] events)) [] events
      (sort_queues-AreQueues (queue_events [] events) (queue_events-AreQueues [] events (λ id. tt)))
