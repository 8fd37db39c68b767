-- ===== src/Mobile/Composer.antt =====
-- apps/mobile/src/features/session/SessionComposer.tsx: the field for a command. A control is only
-- handled while it is not disabled.
pub mod Draft
use cucoudle.Prelude.{
  ◌≡◌, ◌⊎◌, inl, inr, refl, sym, ap, ◌∙◌, String, Bool, true, false, ◌||◌, Option, none, some, List,
  [], ◌∷◌, str_eq, if◌then◌else◌, arith, if-holds, subst,
}
use cucoudle.Prelude.Steps.{and_then}
use cucoudle.Protocol.Json.{Fields, end, field, string, bool}

-- The props and the state, with the two that are called `pending` in the source, and the data of the
-- calls of `onSendInput` that are not settled.
pub record Composer : Type 0 where
  pub session_id : String
  pub disabled : Bool
  pub draft : String
  pub pending : Bool
  pub pending_ref : Bool
  pub error : Option String
  pub unsettled : List String

abbrev pub new_composer : String → Bool → Composer
new_composer session_id disabled = record {
  session_id = session_id;
  disabled = disabled;
  draft = "";
  pending = false;
  pending_ref = false;
  error = none;
  unsettled = [];
}

-- What a promise of `onSendInput` comes to; an exception that is an Error has a message.
pub data SendResult : Type 0 where
  answered : Bool → SendResult
  thrown : Option String → SendResult

unfoldable pub controls_disabled : Composer → Bool
controls_disabled c = c.disabled || c.pending

unfoldable pub send_disabled : Composer → Bool
unfolding controls_disabled
send_disabled c = controls_disabled c || str_eq c.draft ""

-- The params of `onSendInput`.
unfoldable pub input_params : String → String → Fields
input_params session_id draft = field "sessionId" (string session_id) (
    field "inputMode" (string "text")
      (field "data" (string draft) (field "submit" (bool true) end)))

-- send up to its `await`
unfoldable pub send_draft : Composer → Composer × List Fields
unfolding input_params
send_draft c = if c.disabled || c.pending_ref || str_eq c.draft "" then (c, []) else (
  record c { pending = true; pending_ref = true; error = none; unsettled = c.draft ∷ c.unsettled },
  input_params c.session_id c.draft ∷ [],
)

abbrev pub error_message : Option String → String
error_message none = "Не удалось отправить команду"
error_message (some message) = message

-- The rest of `send`, with its `finally`; these calls still wait.
unfoldable pub finish_send : SendResult → List String → Composer → Composer
finish_send result others c =
    let d : Composer = record c { pending = false; pending_ref = false; unsettled = others } in
    elim result [
      | answered accepted ↦
          if accepted
          then record d { draft = "" }
          else record d { error = some (error_message (some "Команда не принята")) }
      | thrown message ↦ record d { error = some (error_message message) }
    ]

-- A promise of `onSendInput` is settled, if there is one.
unfoldable pub settle_send : SendResult → Composer → Composer
unfolding finish_send
settle_send result c = elim c.unsettled [ [] ↦ c | _ ∷ others ↦ finish_send result others c ]

pub data ComposerInput : Type 0 where
  disabled_changed : Bool → ComposerInput
  draft_typed : String → ComposerInput
  send_pressed : ComposerInput
  send_settled : SendResult → ComposerInput

unfoldable pub composer_step : ComposerInput → Composer → Composer × List Fields
unfolding controls_disabled send_disabled send_draft settle_send
composer_step (disabled_changed disabled) c = (record c { disabled = disabled }, [])
composer_step (draft_typed draft) c =
    if controls_disabled c then (c, []) else (record c { draft = draft }, [])
composer_step send_pressed c = if send_disabled c then (c, []) else send_draft c
composer_step (send_settled result) c = (settle_send result c, [])

unfoldable pub run_composer : List ComposerInput → Composer → Composer × List Fields
unfolding composer_step
run_composer [] c = (c, [])
run_composer (input ∷ inputs) c = and_then (composer_step input c) (run_composer inputs)
