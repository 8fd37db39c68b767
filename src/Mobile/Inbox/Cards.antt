-- ===== src/Mobile/Inbox/Cards.antt =====
-- The order of the attention cards in words of its own: how urgent a status is, which session comes
-- first, and which needs attention.
use cucoudle.Prelude.{
  ℕ, String, Bool, true, not, ◌&&◌, ◌||◌, Option, none, some, ltb, ◌==◌, str_eq, if◌then◌else◌,
}
use cucoudle.Prelude.Dict.{get}
use cucoudle.Protocol.Json.{Json, field?}
use cucoudle.Mobile.State.{SessionObject, SessionState}
use cucoudle.Mobile.Inbox.{status_of, make_dismissal_key}

abbrev pub status_urgency : Option String → ℕ
status_urgency none = 3
status_urgency (some status) =
    if str_eq status "waiting"
    then 0
    else if str_eq status "error"
    then 1
    else if str_eq status "stopped"
    then 2
    else 3

-- 0 for a session that waits, 1 for one that failed, 2 for one that stopped, 3 for any other.
abbrev pub urgency : SessionObject → ℕ
urgency session = status_urgency (status_of session)

-- `left` is more urgent, or as urgent and newer.
abbrev pub comes_before : (Option Json → ℕ) → SessionObject → SessionObject → Bool
comes_before date left right =
    ltb (urgency left) (urgency right)
    || (urgency left == urgency right
        && ltb (date (field? "lastActivityAt" right.fields))
            (date (field? "lastActivityAt" left.fields)))

-- It waits, failed or stopped, and its key was not dismissed.
abbrev pub needs_attention : (Option Json → String) → SessionState → SessionObject → Bool
needs_attention to_text s session =
    ltb (urgency session) 3
    && elim (get (make_dismissal_key to_text session) s.dismissed_attention_keys) [
      | none ↦ true
      | some dismissed ↦ not dismissed
    ]
