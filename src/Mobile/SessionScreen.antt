-- ===== src/Mobile/SessionScreen.antt =====
-- apps/mobile/src/features/session/SessionScreen.tsx, with the routes app/session/[id].tsx and
-- app/(tabs)/inbox.tsx, projectLabel of features/sessions/SessionRow.tsx and the choice of
-- features/sessions/SessionsScreen.tsx. A path is the list of its code units.
pub mod Offline
pub mod Label
use cucoudle.Prelude.{
  ℕ, String, Bool, true, false, not, ◌||◌, ◌&&◌, Option, none, some, List, [], ◌∷◌, ◌++◌, str_eq,
  ◌==◌, if◌then◌else◌, length, ◌%◌, is_some,
}
use cucoudle.Prelude.Dict.{get}
use cucoudle.Prelude.Texts.{trim_text}
use cucoudle.Mobile.State.{SessionObject, SessionState}
use cucoudle.Mobile.Inbox.{SessionFilter, every, completed_statuses, has_status, select_sessions}
use cucoudle.Mobile.App.{
  AppConnectionStatus, idle, reconnecting, resyncing, online, offline, recovery, pairing_required,
}

pub data SessionConnectionStatus : Type 0 where
  is_online is_reconnecting is_resyncing is_offline is_recovery : SessionConnectionStatus

-- The prop connectionStatus of the route's screen; that of the inbox is the same, with "connected" for
-- "online".
unfoldable pub route_connection_status : AppConnectionStatus → SessionConnectionStatus
route_connection_status online = is_online
route_connection_status offline = is_offline
route_connection_status resyncing = is_resyncing
route_connection_status recovery = is_recovery
route_connection_status _ = is_reconnecting

-- The values that are strings, in their order, `none` for `undefined`.
unfoldable pub normalize_session_route_id : List (Option String) → String
unfolding trim_text
normalize_session_route_id [] = ""
normalize_session_route_id (none ∷ values) = normalize_session_route_id values
normalize_session_route_id (some candidate ∷ values) =
    let rest = normalize_session_route_id values in
    if str_eq (trim_text candidate) "" then rest else trim_text candidate

abbrev pub is_online_status : SessionConnectionStatus → Bool
is_online_status is_online = true
is_online_status _ = false

-- What the screen makes of the session and the connection.
pub record SessionControls : Type 0 where
  pub stopped : Bool
  pub composer_disabled : Bool
  pub can_mutate : Bool

unfoldable pub session_controls : SessionConnectionStatus → SessionObject → SessionControls
session_controls connection_status session =
    let stopped = has_status completed_statuses session in
    record {
      stopped = stopped;
      composer_disabled = stopped || not (is_online_status connection_status);
      can_mutate = is_online_status connection_status;
    }

-- The prop `disabled` of the composer, if there is a session; `connected` tells that there is an
-- `onSendInput`.
unfoldable pub composer_disabled_prop :
    String → SessionState → SessionConnectionStatus → Bool → Option Bool
unfolding get session_controls
composer_disabled_prop session_id state connection_status connected =
    elim (get session_id state.sessions_by_id) [
      | none ↦ none
      | some session ↦ some (
          if connected
          then (session_controls connection_status session).composer_disabled
          else true)
    ]

-- [\\/]
unfoldable pub is_separator : ℕ → Bool
is_separator c = c == 92 || c == 47

-- cwd.replace(/[\\/]+$/, "")
unfoldable pub without_end : List ℕ → List ℕ
unfolding is_separator
without_end [] = []
without_end (c ∷ path) =
    let rest = without_end path in if is_separator c && length rest == 0 then [] else c ∷ rest

-- path.split(/[\\/]/).pop(); `name` is what stands behind the last separator up to here.
unfoldable pub last_part : List ℕ → List ℕ → List ℕ
unfolding is_separator
last_part name [] = name
last_part name (c ∷ path) = last_part (if is_separator c then [] else name ++ c ∷ []) path

unfoldable pub project_label : List ℕ → List ℕ
unfolding without_end last_part
project_label cwd =
    let name = last_part [] (without_end cwd) in if length name == 0 then cwd else name

-- The prop connectionStatus of the list of sessions.
pub data ListConnectionStatus : Type 0 where
  list_online list_reconnecting list_offline : ListConnectionStatus

unfoldable pub list_connection_status : AppConnectionStatus → ListConnectionStatus
list_connection_status online = list_online
list_connection_status offline = list_offline
list_connection_status _ = list_reconnecting

pub data EmptyContent : Type 0 where
  no_sessions is_loading now_reconnecting now_offline is_filtered : EmptyContent

-- The text of an empty list; `sessions` tells that there is a session in no filter.
unfoldable pub empty_content : ListConnectionStatus → Bool → Bool → EmptyContent
empty_content list_offline loaded sessions = now_offline
empty_content list_reconnecting loaded sessions = now_reconnecting
empty_content list_online loaded sessions =
    if not loaded then is_loading else if sessions then is_filtered else no_sessions
