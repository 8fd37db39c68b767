-- ===== src/Protocol/Interaction.antt =====
-- The interactions of packages/protocol/src/events.ts, and the answers to them of methods.ts.
use cucoudle.Prelude.{ℕ, String, Bool, Option, List}

pub data InteractionKind : Type 0 where
  approval confirmation single_select multi_select text : InteractionKind

pub data InteractionOptionIntent : Type 0 where
  approve approve_once approve_session reject cancel neutral : InteractionOptionIntent

pub record InteractionOption : Type 0 where
  pub id : String
  pub label : String
  pub description : Option String
  pub intent : InteractionOptionIntent
  pub shortcut : Option String
  pub disabled : Option Bool

-- `allowsTerminalInput` is always true.
pub record InteractionRequest : Type 0 where
  pub id : String
  pub session_id : String
  pub kind : InteractionKind
  pub prompt : String
  pub details : Option String
  pub options : Option (List InteractionOption)
  pub allows_text : Bool
  pub sensitive : Option Bool
  pub created_at : String
  pub terminal_seq : Option ℕ

pub data InteractionResponse : Type 0 where
  options_response : List String → InteractionResponse
  text_response : String → Option Bool → InteractionResponse
  cancel_response : InteractionResponse

-- InteractionRespondParams
pub record InteractionRespondParams : Type 0 where
  pub session_id : String
  pub interaction_id : String
  pub response : InteractionResponse
