-- ===== src/Mobile/Reducer.antt =====
-- `sessionReducer` and `orderReplayEvents` of apps/mobile/src/state/sessionReducer.ts.
pub mod Invariant
pub mod Order
pub mod Kept
use mathlib.Core.Option
use cucoudle.Prelude.{
  ℕ, suc, String, Bool, true, Option, none, some, List, [], ◌∷◌, ◌++◌, str_eq, if◌then◌else◌, ltb,
  map,
}
use cucoudle.Prelude.Dict.{Dict, get, set}
use cucoudle.Prelude.Sorting.{sort_by, at}
use cucoudle.Protocol.Json.{Fields, field?, as_string, as_number}
use cucoudle.Protocol.Message.{EventMessage}
use cucoudle.Mobile.Terminal.{units, create_terminal_buffer, replace_terminal_snapshot}
use cucoudle.Mobile.Render.{replace_render_snapshot}
use cucoudle.Mobile.State.{
  SessionObject, SessionState, SessionSubscribeResult, SubscribeMode, SessionAction, list_received,
  subscribe_received, event_received, attention_dismissed, session_opened, subscription_changed,
}
use cucoudle.Mobile.Events.{upsert_session, omit_key, receive_event}

-- The session and the number of an event with terminal output.
unfoldable pub replay_coordinates : EventMessage → Option (String × ℕ)
replay_coordinates event =
    if str_eq event.event "terminal.output"
    then elim (as_string (field? "sessionId" event.content)) [
      | none ↦ none
      | some id ↦ elim (as_number (field? "seq" event.content)) [
        | none ↦ none
        | some seq ↦ some (id, seq)
      ]
    ]
    else none

-- terminalReplayCoordinates(event)?.seq ?? 0
unfoldable pub replay_seq : EventMessage → ℕ
replay_seq event = elim (replay_coordinates event) [ none ↦ 0 | some c ↦ c.1 ]

-- The first loop: the events with output, by session.
unfoldable pub queue_events :
    Dict (List EventMessage) → List EventMessage → Dict (List EventMessage)
queue_events queues [] = queues
queue_events queues (event ∷ events) = elim (replay_coordinates event) [
  | none ↦ queue_events queues events
  | some c ↦ queue_events (set c.0 (Option.get_or (get c.0 queues) [] ++ event ∷ []) queues) events
]

abbrev pub earlier_event : EventMessage → EventMessage → Bool
earlier_event left right = ltb (replay_seq left) (replay_seq right)

-- The second loop: each queue sorted.
unfoldable pub sort_queues : Dict (List EventMessage) → Dict (List EventMessage)
sort_queues queues = map (λ e. (e.0, sort_by earlier_event e.1)) queues

-- events.map(...): the next index of each session goes along.
unfoldable pub take_queued :
    Dict (List EventMessage) → Dict ℕ → List EventMessage → List EventMessage
take_queued queues next [] = []
take_queued queues next (event ∷ events) = elim (replay_coordinates event) [
  | none ↦ event ∷ take_queued queues next events
  | some c ↦
      let index = Option.get_or (get c.0 next) 0 in
      Option.get_or (at index (Option.get_or (get c.0 queues) [])) event
      ∷ take_queued queues (set c.0 (suc index) next) events
]

unfoldable pub order_replay_events : List EventMessage → List EventMessage
order_replay_events events = take_queued (sort_queues (queue_events [] events)) [] events

-- events.reduce(receiveEvent, state)
unfoldable pub receive_all : SessionState → List EventMessage → SessionState
receive_all s [] = s
receive_all s (event ∷ events) = receive_all (receive_event s event) events

-- Object.fromEntries(sessions.map((session) => [session.id, session]))
unfoldable pub by_id : Dict SessionObject → List SessionObject → Dict SessionObject
by_id d [] = d
by_id d (session ∷ sessions) = by_id (set session.id session d) sessions

unfoldable pub receive_list : SessionState → List SessionObject → SessionState
receive_list s sessions = record s {
  sessions_by_id = by_id [] sessions;
  session_ids = map (λ x. x.id) sessions;
}

unfoldable pub open_result : SessionState → SessionSubscribeResult → SessionState
open_result s result =
    let next = upsert_session s result.session in
    record next {
      open_session_id = some result.session.id;
      subscribed_session_id = some result.session.id;
      active_interactions_by_session_id = elim result.active_interaction [
        | none ↦ omit_key next.active_interactions_by_session_id result.session.id
        | some interaction ↦
            set result.session.id interaction next.active_interactions_by_session_id
      ];
    }

-- The terminal of the result, by its mode.
unfoldable pub fill_terminal : SubscribeMode → SessionState → SessionSubscribeResult → SessionState
fill_terminal SubscribeMode.snapshot s result = record s {
  terminal_by_session_id =
      set result.session.id
        (replace_terminal_snapshot
          (Option.get_or (get result.session.id s.terminal_by_session_id) create_terminal_buffer)
          (units (Option.get_or result.terminal_buffer "")) (Option.get_or result.last_seq 0))
        s.terminal_by_session_id;
}
fill_terminal SubscribeMode.replay s result =
    receive_all s (order_replay_events (Option.get_or result.events []))
fill_terminal SubscribeMode.live s result = s

unfoldable pub fill_render : SessionState → SessionSubscribeResult → SessionState
fill_render s result = elim result.terminal_render [
  | none ↦ s
  | some snapshot ↦ record s {
    render_by_session_id =
        set result.session.id (replace_render_snapshot snapshot) s.render_by_session_id;
  }
]

unfoldable pub receive_subscribe : SessionState → SessionSubscribeResult → SessionState
receive_subscribe s result =
    fill_render (fill_terminal result.mode (open_result s result) result) result

unfoldable pub session_reducer : SessionState → SessionAction → SessionState
session_reducer s (list_received sessions) = receive_list s sessions
session_reducer s (subscribe_received result) = receive_subscribe s result
session_reducer s (event_received event) = receive_event s event
session_reducer s (attention_dismissed key) = record s {
  dismissed_attention_keys = set key true s.dismissed_attention_keys;
}
session_reducer s (session_opened id) = record s { open_session_id = id }
session_reducer s (subscription_changed id) = record s { subscribed_session_id = id }
