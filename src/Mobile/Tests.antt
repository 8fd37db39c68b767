-- ===== src/Mobile/Tests.antt =====
-- The theorems about the phone's state on concrete states and actions.
use cucoudle.Prelude.{String, ◌≡◌, refl, none, some, [], ◌∷◌, str_eq, if◌then◌else◌}
use cucoudle.Prelude.Dict.{get, set, has, is_inherited}
use cucoudle.Protocol.Json.{number, string, end, field, field?}
use cucoudle.Protocol.Message.{EventMessage, protocol_version}
use cucoudle.Mobile.Terminal.{TerminalChunk}
use cucoudle.Mobile.State.{SessionObject, SessionState, list_received, create_initial_session_state}
use cucoudle.Mobile.Events.{named_session_id, event_session_id, upsert_session, receive_event}
use cucoudle.Mobile.Consistency.{IsConsistent, initial-IsConsistent}
use cucoudle.Mobile.Reducer.{session_reducer}
use cucoudle.Mobile.Reducer.Invariant.{session_reducer-IsConsistent}
use cucoudle.Mobile.Removal.{IsGone, session_removed}

abbrev second : TerminalChunk
second = record { seq = 2; content = 98 ∷ [] }

abbrev first : TerminalChunk
first = record { seq = 1; content = 97 ∷ [] }

abbrev shell : SessionObject
shell = record {
  id = "s1";
  fields = field "id" (string "s1") (field "status" (string "running") end);
}

-- One known session.
abbrev one_session : SessionState
one_session = session_reducer create_initial_session_state (list_received (shell ∷ []))

session_reducer-IsConsistent_example : IsConsistent one_session
unfolding is_inherited
session_reducer-IsConsistent_example =
    session_reducer-IsConsistent create_initial_session_state initial-IsConsistent
      (list_received (shell ∷ [])) (refl, tt)

-- A session with the id "constructor" is stored, and not listed.
unlisted :
    let shadow : SessionObject = record { id = "constructor"; fields = end } in
    let t = upsert_session create_initial_session_state shadow in
    (get "constructor" t.sessions_by_id ≡ some shadow) × (t.session_ids ≡ [])
unfolding upsert_session create_initial_session_state is_inherited get set has
unlisted = (refl, refl)

abbrev about_session : String → EventMessage
about_session name = record {
  version = protocol_version;
  event = name;
  content = field "sessionId" (string "s1") (field "seq" (number 1) end);
  sent_at = "2026-07-11T00:00:00.000Z";
}

session_removed_example :
    let t = receive_event one_session (about_session "session.removed") in
    IsGone "s1" t
    × ((j : String)
        → (get j t.sessions_by_id
            ≡ (if str_eq "s1" j then none else get j one_session.sessions_by_id))
          × (get j t.terminal_by_session_id
              ≡ (if str_eq "s1" j then none else get j one_session.terminal_by_session_id)))
unfolding named_session_id event_session_id field?
session_removed_example =
    session_removed one_session (about_session "session.removed") "s1" refl refl
