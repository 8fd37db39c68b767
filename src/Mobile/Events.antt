-- ===== src/Mobile/Events.antt =====
-- `receiveEvent` of apps/mobile/src/state/sessionReducer.ts and its helpers.
use Prim.Native.String.{◌++◌ as append_text}
use text.Mathlib.Text.{starts_with}
use mathlib.Core.Option
use cucoudle.Prelude.{
  ℕ, suc, String, not, ◌||◌, Option, none, some, List, [], ◌∷◌, ◌++◌, str_eq, if◌then◌else◌, leb,
  filter,
}
use cucoudle.Prelude.Dict.{Dict, get, set, delete, has, keep_if, is_inherited}
use cucoudle.Protocol.Json.{
  Json, null, bool, number, string, array, object, Items, nil, cons, field?, set_field, as_string,
  as_number, as_object,
}
use cucoudle.Protocol.Message.{EventMessage}
use cucoudle.Relay.Pairings.{decimal}
use cucoudle.Mobile.Terminal.{
  TerminalChunk, units, slice_last, create_terminal_buffer, append_terminal_output,
}
use cucoudle.Mobile.Render.{create_render_buffer, apply_render_frame}
use cucoudle.Mobile.State.{
  SessionObject, ActivityFactType, created, updated, ended, removed, ActivityFact, SessionState,
}

-- isRecord(value) && typeof value.id === "string" ? value : undefined
unfoldable pub with_id : Option Json → Option SessionObject
with_id v = elim (as_object v) [
  | none ↦ none
  | some r ↦ elim (as_string (field? "id" r)) [
    | none ↦ none
    | some id ↦ some (record { id = id; fields = r })
  ]
]

unfoldable pub event_session : EventMessage → Option SessionObject
event_session event = with_id (field? "session" event.content)

unfoldable pub event_interaction : EventMessage → Option SessionObject
event_interaction event = with_id (field? "interaction" event.content)

unfoldable pub event_session_id : EventMessage → Option String
event_session_id event = as_string (field? "sessionId" event.content)

-- The session id of an event where it is neither missing nor empty, which `!sessionId` asks for.
unfoldable pub named_session_id : EventMessage → Option String
named_session_id event = elim (event_session_id event) [
  | none ↦ none
  | some id ↦ if str_eq id "" then none else some id
]

unfoldable pub add_activity : SessionState → ActivityFact → SessionState
add_activity s fact = record s { activity = slice_last 20 (s.activity ++ fact ∷ []) }

unfoldable pub make_activity :
    EventMessage → String → ActivityFactType → Option SessionObject → Option ℕ → ActivityFact
make_activity event session_id kind session exit_code = record {
  id =
      append_text event.sent_at
        (append_text ":" (append_text event.event (append_text ":" session_id)));
  session_id = session_id;
  kind = kind;
  at = event.sent_at;
  status = elim session [ none ↦ none | some o ↦ field? "status" o.fields ];
  title = elim session [ none ↦ none | some o ↦ field? "title" o.fields ];
  exit_code = exit_code;
}

-- `exists` is the lookup in a plain object.
unfoldable pub upsert_session : SessionState → SessionObject → SessionState
upsert_session s session = record s {
  sessions_by_id = set session.id session s.sessions_by_id;
  session_ids =
      if has session.id s.sessions_by_id || is_inherited session.id
      then s.session_ids
      else s.session_ids ++ session.id ∷ [];
}

-- A record without a key.
unfoldable pub omit_key {ℓ} : {T : Type ℓ} → Dict T → String → Dict T
omit_key r key = if not (has key r) then r else delete key r

-- A value as the text that it is where it is used as a key.
unfoldable mutual
  pub key_text : Json → String
  key_text null = "null"
  key_text (bool b) = if b then "true" else "false"
  key_text (number n) = decimal (suc n) n
  key_text (string s) = s
  key_text (array xs) = items_text xs
  key_text (object r) = "[object Object]"

  -- The texts of the elements with commas between them; `null` has none.
  pub items_text : Items → String
  items_text nil = ""
  items_text (cons null nil) = ""
  items_text (cons v nil) = key_text v
  items_text (cons null xs) = append_text "," (items_text xs)
  items_text (cons v xs) = append_text (key_text v) (append_text "," (items_text xs))

unfoldable pub property_key : Option Json → String
property_key none = "undefined"
property_key (some v) = key_text v

abbrev pub items : Items → List Json
items nil = []
items (cons v xs) = v ∷ items xs

-- Array.isArray(v)
abbrev pub as_array : Option Json → Option (List Json)
as_array (some (array xs)) = some (items xs)
as_array _ = none

unfoldable pub receive_session : SessionState → EventMessage → SessionState
receive_session s event = elim (event_session event) [
  | none ↦ s
  | some session ↦ add_activity (upsert_session s session) (
      make_activity event session.id
        (if str_eq event.event "session.created" then created else updated) (some session) none)
]

unfoldable pub output_to : SessionState → String → TerminalChunk → SessionState
output_to s id chunk =
    let current = Option.get_or (get id s.terminal_by_session_id) create_terminal_buffer in
    if leb chunk.seq current.last_seq then s else record s {
      terminal_by_session_id =
          set id (append_terminal_output current chunk) s.terminal_by_session_id;
    }

unfoldable pub receive_output : SessionState → EventMessage → SessionState
receive_output s event = elim (as_string (field? "sessionId" event.content)) [
  | none ↦ s
  | some id ↦ elim (as_number (field? "seq" event.content)) [
    | none ↦ s
    | some seq ↦ elim (as_string (field? "data" event.content)) [
      | none ↦ s
      | some text ↦ output_to s id (record { seq = seq; content = units text })
    ]
  ]
]

unfoldable pub render_to : SessionState → String → ℕ → List Json → List Json → SessionState
render_to s id seq history_append screen =
    let current = Option.get_or (get id s.render_by_session_id) create_render_buffer in
    if leb seq current.last_seq then s else record s {
      render_by_session_id =
          set id (apply_render_frame current seq history_append screen) s.render_by_session_id;
    }

unfoldable pub receive_render : SessionState → EventMessage → SessionState
receive_render s event = elim (as_string (field? "sessionId" event.content)) [
  | none ↦ s
  | some id ↦ elim (as_number (field? "seq" event.content)) [
    | none ↦ s
    | some seq ↦ elim (as_array (field? "historyAppend" event.content)) [
      | none ↦ s
      | some history_append ↦ elim (as_array (field? "screen" event.content)) [
        | none ↦ s
        | some screen ↦ render_to s id seq history_append screen
      ]
    ]
  ]
]

unfoldable pub receive_interaction : SessionState → EventMessage → SessionState
receive_interaction s event = elim (event_interaction event) [
  | none ↦ s
  | some interaction ↦ record s {
    active_interactions_by_session_id =
        set (property_key (field? "sessionId" interaction.fields)) interaction.fields
          s.active_interactions_by_session_id;
  }
]

unfoldable pub receive_resolved : SessionState → EventMessage → SessionState
receive_resolved s event = elim (named_session_id event) [
  | none ↦ s
  | some id ↦ record s {
    active_interactions_by_session_id = omit_key s.active_interactions_by_session_id id;
  }
]

-- { ...current, status: "stopped", lastActivityAt: sentAt, exitCode }
unfoldable pub ended_session : SessionObject → String → Option ℕ → SessionObject
ended_session current sent_at exit_code =
    let stopped =
      set_field "lastActivityAt" (string sent_at)
        (set_field "status" (string "stopped") current.fields) in
    record {
      id = current.id;
      fields = elim exit_code [ none ↦ stopped | some n ↦ set_field "exitCode" (number n) stopped ];
    }

unfoldable pub end_session : SessionState → EventMessage → String → SessionObject → SessionState
end_session s event id current =
    let exit_code = as_number (field? "exitCode" event.content) in
    let stopped = ended_session current event.sent_at exit_code in
    add_activity (upsert_session s stopped) (make_activity event id ended (some stopped) exit_code)

unfoldable pub receive_ended : SessionState → EventMessage → SessionState
receive_ended s event = elim (named_session_id event) [
  | none ↦ s
  | some id ↦ elim (get id s.sessions_by_id) [
    | none ↦ s
    | some current ↦ end_session s event id current
  ]
]

-- ...(value === id ? { value: undefined } : {})
unfoldable pub unset : Option String → String → Option String
unset none id = none
unset (some v) id = if str_eq v id then none else some v

-- `cleaned`
unfoldable pub without_session : SessionState → String → SessionState
without_session s id = record s {
  sessions_by_id = omit_key s.sessions_by_id id;
  session_ids = filter (λ i. not (str_eq i id)) s.session_ids;
  terminal_by_session_id = omit_key s.terminal_by_session_id id;
  render_by_session_id = omit_key s.render_by_session_id id;
  active_interactions_by_session_id = omit_key s.active_interactions_by_session_id id;
  dismissed_attention_keys =
      keep_if (λ k _. not (starts_with k (append_text id ":"))) s.dismissed_attention_keys;
  open_session_id = unset s.open_session_id id;
  subscribed_session_id = unset s.subscribed_session_id id;
}

unfoldable pub receive_removed : SessionState → EventMessage → SessionState
receive_removed s event = elim (named_session_id event) [
  | none ↦ s
  | some id ↦
      add_activity (without_session s id)
        (make_activity event id removed (get id s.sessions_by_id) none)
]

unfoldable pub receive_event : SessionState → EventMessage → SessionState
receive_event s event =
    if str_eq event.event "session.created" || str_eq event.event "session.updated"
    then receive_session s event
    else if str_eq event.event "terminal.output"
    then receive_output s event
    else if str_eq event.event "terminal.render"
    then receive_render s event
    else if str_eq event.event "interaction.requested" || str_eq event.event "interaction.updated"
    then receive_interaction s event
    else if str_eq event.event "interaction.resolved"
    then receive_resolved s event
    else if str_eq event.event "session.ended"
    then receive_ended s event
    else if str_eq event.event "session.removed"
    then receive_removed s event
    else s
