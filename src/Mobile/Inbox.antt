-- ===== src/Mobile/Inbox.antt =====
-- apps/mobile/src/state/inboxSelectors.ts. A session is an object of which only its `id` was looked
-- at: its other properties may be any JSON value, or missing.
pub mod Order
pub mod Cards
use cucoudle.Prelude.{
  ℕ, String, Bool, true, false, not, ◌&&◌, Option, none, some, List, [], ◌∷◌, map, take, filter,
  elem, is_some, ltb, ◌==◌, str_eq, if◌then◌else◌,
}
use Prim.Native.String.{◌++◌ as append_text}
use cucoudle.Prelude.Dict.{Dict, get}
use cucoudle.Prelude.Sorting.{sort_by}
use cucoudle.Protocol.Json.{Json, string, field?, as_string}
use cucoudle.Mobile.State.{SessionObject, ActivityFact, SessionState}

-- `filter` is the source's parameter `filter`, of the type SessionFilter.
pub data SessionFilter : Type 0 where
  every active completed : SessionFilter

abbrev pub attention_priorities : Dict ℕ
attention_priorities = ("waiting", 0) ∷ ("error", 1) ∷ ("stopped", 2) ∷ []

abbrev pub active_statuses : List String
active_statuses = "starting" ∷ "running" ∷ "waiting" ∷ []

abbrev pub completed_statuses : List String
completed_statuses = "stopped" ∷ "error" ∷ []

-- session.status, where it is a string; a value that is none equals no status.
abbrev pub status_of : SessionObject → Option String
status_of session = as_string (field? "status" session.fields)

-- ATTENTION_PRIORITY[session.status]
unfoldable pub attention_priority : SessionObject → Option ℕ
unfolding get field?
attention_priority session = elim (status_of session) [
  | none ↦ none
  | some status ↦ get status attention_priorities
]

abbrev pub has_status : List String → SessionObject → Bool
has_status statuses session = elim (status_of session) [
  | none ↦ false
  | some status ↦ elem status statuses
]

-- state.sessionIds.map((id) => state.sessionsById[id]), less those that are undefined
unfoldable pub known_sessions : Dict SessionObject → List String → List SessionObject
unfolding get
known_sessions sessions_by_id [] = []
known_sessions sessions_by_id (id ∷ ids) =
    let rest = known_sessions sessions_by_id ids in
    elim (get id sessions_by_id) [ none ↦ rest | some session ↦ session ∷ rest ]

-- The filter of selectSessions.
unfoldable pub is_shown : SessionFilter → SessionObject → Bool
is_shown every session = true
is_shown active session = has_status active_statuses session
is_shown completed session = has_status completed_statuses session

-- left < right, where `undefined` stands for Number.MAX_SAFE_INTEGER
abbrev pub less_urgent : Option ℕ → Option ℕ → Bool
less_urgent none _ = false
less_urgent (some left) none = true
less_urgent (some left) (some right) = ltb left right

-- The conversion of a value in a template literal.
module _ (to_text : Option Json → String) where
  unfoldable pub make_dismissal_key : SessionObject → String
  unfolding field?
  make_dismissal_key session =
      let base = append_text session.id (
        append_text ":" (
          append_text (to_text (field? "status" session.fields))
            (append_text ":" (to_text (field? "lastActivityAt" session.fields))))) in
      elim (field? "exitCode" session.fields) [
        | none ↦ base
        | some code ↦ append_text base (append_text ":" (to_text (some code)))
      ]

  -- The filter of selectAttentionCards.
  unfoldable pub is_card : SessionState → SessionObject → Bool
  unfolding attention_priority make_dismissal_key get
  is_card s session =
      is_some (attention_priority session)
      && not (elim (get (make_dismissal_key session) s.dismissed_attention_keys) [
        | none ↦ false
        | some dismissed ↦ dismissed
      ])

-- Date.parse, on dates that it reads.
module _ (date : Option Json → ℕ) where
  -- newestFirst(left, right) < 0
  unfoldable pub newest_first : SessionObject → SessionObject → Bool
  unfolding field?
  newest_first left right =
      ltb (date (field? "lastActivityAt" right.fields)) (date (field? "lastActivityAt" left.fields))

  -- waitingFirst(left, right) < 0
  unfoldable pub waiting_first : SessionObject → SessionObject → Bool
  unfolding newest_first
  waiting_first left right =
      let left_waits = has_status ("waiting" ∷ []) left in
      let right_waits = has_status ("waiting" ∷ []) right in
      if left_waits && not right_waits
      then true
      else if right_waits && not left_waits
      then false
      else newest_first left right

  -- The comparison of selectAttentionCards gives a negative number.
  unfoldable pub card_before : SessionObject → SessionObject → Bool
  unfolding attention_priority newest_first
  card_before left right =
      if less_urgent (attention_priority left) (attention_priority right)
      then true
      else if less_urgent (attention_priority right) (attention_priority left)
      then false
      else newest_first left right

  unfoldable pub select_sessions : SessionState → SessionFilter → List SessionObject
  unfolding known_sessions is_shown waiting_first sort_by
  select_sessions s choice =
      sort_by waiting_first
        (filter (is_shown choice) (known_sessions s.sessions_by_id s.session_ids))

  unfoldable pub newest_fact : ActivityFact → ActivityFact → Bool
  newest_fact left right = ltb (date (some (string right.at))) (date (some (string left.at)))

  unfoldable pub select_recent_activity : SessionState → List ActivityFact
  unfolding newest_fact sort_by
  select_recent_activity s = take 20 (sort_by newest_fact s.activity)

module _ (to_text : Option Json → String) (date : Option Json → ℕ) where
  unfoldable pub select_attention_cards : SessionState → List SessionObject
  unfolding known_sessions is_card card_before sort_by
  select_attention_cards s =
      sort_by (card_before date)
        (filter (is_card to_text s) (known_sessions s.sessions_by_id s.session_ids))
