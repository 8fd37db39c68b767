-- ===== src/Mobile/State.antt =====
-- apps/mobile/src/state/sessionState.ts. A session or an interaction that an event brings is an
-- object of which only its `id` was looked at: the program casts it.
use cucoudle.Prelude.{ℕ, String, Bool, Option, none, List, []}
use cucoudle.Prelude.Dict.{Dict}
use cucoudle.Protocol.Json.{Json, Fields}
use cucoudle.Protocol.Message.{EventMessage}
use cucoudle.Mobile.Terminal.{TerminalBuffer}
use cucoudle.Mobile.Render.{RenderBuffer, RenderSnapshot}

-- A `Session`: an object whose `id` is a string.
pub record SessionObject : Type 0 where
  pub id : String
  pub fields : Fields

pub data ActivityFactType : Type 0 where
  created updated ended removed : ActivityFactType

-- `type` is the field `kind`.
pub record ActivityFact : Type 0 where
  pub id : String
  pub session_id : String
  pub kind : ActivityFactType
  pub at : String
  pub status : Option Json
  pub title : Option Json
  pub exit_code : Option ℕ

pub data SubscribeMode : Type 0 where
  replay snapshot live : SubscribeMode

pub record SessionSubscribeResult : Type 0 where
  pub session : SessionObject
  pub mode : SubscribeMode
  pub events : Option (List EventMessage)
  pub terminal_buffer : Option String
  pub last_seq : Option ℕ
  pub active_interaction : Option Fields
  pub terminal_render : Option RenderSnapshot

pub record SessionState : Type 0 where
  pub sessions_by_id : Dict SessionObject
  pub session_ids : List String
  pub terminal_by_session_id : Dict TerminalBuffer
  pub render_by_session_id : Dict RenderBuffer
  pub active_interactions_by_session_id : Dict Fields
  pub dismissed_attention_keys : Dict Bool
  pub activity : List ActivityFact
  pub open_session_id : Option String
  pub subscribed_session_id : Option String

pub data SessionAction : Type 0 where
  list_received : List SessionObject → SessionAction
  subscribe_received : SessionSubscribeResult → SessionAction
  event_received : EventMessage → SessionAction
  attention_dismissed : String → SessionAction
  session_opened subscription_changed : Option String → SessionAction

unfoldable pub create_initial_session_state : SessionState
create_initial_session_state = record {
  sessions_by_id = [];
  session_ids = [];
  terminal_by_session_id = [];
  render_by_session_id = [];
  active_interactions_by_session_id = [];
  dismissed_attention_keys = [];
  activity = [];
  open_session_id = none;
  subscribed_session_id = none;
}
