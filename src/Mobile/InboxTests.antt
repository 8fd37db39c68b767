-- ===== src/Mobile/InboxTests.antt =====
-- Runs of the inbox's selectors.
use Prim.Native.String.{len}
use cucoudle.Prelude.{ℕ, ◌≡◌, refl, String, false, Option, none, some, [], ◌∷◌, str_eq, All}
use cucoudle.Prelude.Sorting.{sort_onto, insert_by}
use cucoudle.Protocol.Json.{Json, string, end, field}
use cucoudle.Mobile.State.{
  SessionObject, SessionState, ActivityFact, ActivityFactType, create_initial_session_state,
  attention_dismissed,
}
use cucoudle.Mobile.Reducer.{session_reducer}
use cucoudle.Mobile.Inbox.{
  every, active, select_attention_cards, select_sessions, make_dismissal_key, is_card,
}
use cucoudle.Mobile.Inbox.Order.{dismissed_gone}

abbrev text_of : Option Json → String
text_of (some (string s)) = s
text_of _ = "undefined"

-- Longer texts are later dates.
abbrev date : Option Json → ℕ
date (some (string s)) = len s
date _ = 0

abbrev session : String → String → String → SessionObject
session id status at = record {
  id = id;
  fields = field "status" (string status) (field "lastActivityAt" (string at) end);
}

abbrev stopped : SessionObject
stopped = session "a" "stopped" "12345"

abbrev running : SessionObject
running = session "b" "running" "1"

abbrev waiting : SessionObject
waiting = session "c" "waiting" "12"

abbrev fact : String → ActivityFact
fact at = record {
  id = at;
  session_id = "a";
  kind = ActivityFactType.updated;
  at = at;
  status = none;
  title = none;
  exit_code = none;
}

abbrev state : SessionState
state = record create_initial_session_state {
  session_ids = "a" ∷ "b" ∷ "c" ∷ [];
  sessions_by_id = ("a", stopped) ∷ ("b", running) ∷ ("c", waiting) ∷ [];
  activity = fact "1" ∷ fact "123" ∷ [];
}

cards_run : select_attention_cards text_of date state ≡ waiting ∷ stopped ∷ []
unfolding select_attention_cards sort_onto create_initial_session_state insert_by
cards_run = refl

sessions_run : select_sessions date state active ≡ waiting ∷ running ∷ []
unfolding select_sessions sort_onto insert_by
sessions_run = refl

dismissed_gone_example :
    let t = session_reducer state (attention_dismissed "c:waiting:12") in
    All
      (λ d. str_eq (make_dismissal_key text_of d) "c:waiting:12" ≡ false)
      (select_attention_cards text_of date t)
    × (is_card text_of t waiting ≡ false)
    × (select_sessions date t every ≡ select_sessions date state every)
unfolding is_card create_initial_session_state
dismissed_gone_example = dismissed_gone text_of date state "c:waiting:12" every waiting
