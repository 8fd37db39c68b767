-- ===== src/Mobile/Answers.antt =====
-- apps/mobile/src/features/session/StructuredActionZone.tsx: the controls of an interaction. A press of a
-- control is only handled while the control is there and not disabled.
pub mod Options
pub mod Once
use cucoudle.Prelude.{
  ℕ, String, Bool, true, false, not, ◌||◌, ◌&&◌, Option, none, some, List, [], ◌∷◌, ◌++◌, any, map,
  elem, str_eq, ◌==◌, suc, ◌-◌, if◌then◌else◌,
}
use cucoudle.Prelude.Steps.{and_then}
use cucoudle.Protocol.Interaction.{
  InteractionKind, approval, confirmation, single_select, multi_select, InteractionOptionIntent,
  approve, approve_once, approve_session, reject, InteractionOption, InteractionRequest,
  InteractionResponse, options_response, text_response, InteractionRespondParams,
}

-- The props that change. An interaction is an object: a number, its identity, and what it holds.
pub record ZoneProps : Type 0 where
  pub can_mutate : Bool
  pub negotiated_capabilities : Option (List String)
  pub interaction : Option (ℕ × InteractionRequest)

pub data Phase : Type 0 where
  idle submitting submitted failed : Phase

-- The state of the component, and how many promises of `onRespond` are not settled.
pub record Zone : Type 0 where
  pub props : ZoneProps
  pub phase : Phase
  pub error : Option String
  pub text : String
  pub pending : Bool
  pub unsettled : ℕ

-- What stands in the zone.
pub data Content : Type 0 where
  decision : InteractionOption → Option InteractionOption → InteractionOption → Content
  choices : List InteractionOption → Content
  answer_field : Content

abbrev pub is_approve_intent : InteractionOptionIntent → Bool
is_approve_intent approve = true
is_approve_intent approve_once = true
is_approve_intent _ = false

abbrev pub is_reject_intent : InteractionOptionIntent → Bool
is_reject_intent reject = true
is_reject_intent InteractionOptionIntent.cancel = true
is_reject_intent _ = false

abbrev pub is_session_intent : InteractionOptionIntent → Bool
is_session_intent approve_session = true
is_session_intent _ = false

-- options?.find((option) => test(option.intent))
unfoldable pub find_option :
    (InteractionOptionIntent → Bool) → List InteractionOption → Option InteractionOption
find_option test [] = none
find_option test (option ∷ options) =
    let rest = find_option test options in if test option.intent then some option else rest

-- request.options ?? []
abbrev pub options_of : InteractionRequest → List InteractionOption
options_of request = elim request.options [ none ↦ [] | some options ↦ options ]

unfoldable pub render_decision : List InteractionOption → Option Content
unfolding find_option
render_decision options = elim (find_option is_approve_intent options) [
  | none ↦ none
  | some approve_option ↦ elim (find_option is_reject_intent options) [
    | none ↦ none
    | some reject_option ↦
        some (decision reject_option (find_option is_session_intent options) approve_option)
  ]
]

unfoldable pub render_kind : InteractionRequest → Option Content
unfolding render_decision
render_kind request = elim request.kind [
  | approval ↦ render_decision (options_of request)
  | confirmation ↦ render_decision (options_of request)
  | single_select ↦ elim (options_of request) [
    | [] ↦ none
    | option ∷ options ↦ some (choices (option ∷ options))
  ]
  | InteractionKind.text ↦ some answer_field
  | multi_select ↦ none
]

abbrev pub is_idle : Phase → Bool
is_idle idle = true
is_idle _ = false

unfoldable pub is_disabled : Zone → Bool
is_disabled z = not z.props.can_mutate || not (is_idle z.phase)

-- The ids of the options that can be pressed.
unfoldable pub offered_ids : Content → List String
offered_ids (decision reject_option none approve_option) = reject_option.id ∷ approve_option.id ∷ []
offered_ids (decision reject_option (some always_option) approve_option) =
    reject_option.id ∷ always_option.id ∷ approve_option.id ∷ []
offered_ids (choices options) = map (λ option. option.id) options
offered_ids answer_field = []

abbrev pub is_answer_field : Content → Bool
is_answer_field answer_field = true
is_answer_field _ = false

-- The same object, or `undefined` both times.
unfoldable pub same_interaction :
    Option (ℕ × InteractionRequest) → Option (ℕ × InteractionRequest) → Bool
same_interaction none none = true
same_interaction (some (a, _)) (some (b, _)) = a == b
same_interaction _ _ = false

abbrev pub reset : Zone → Zone
reset z = record z { phase = idle; error = none; text = ""; pending = false }

-- The component is rendered with these props, and runs its effect where the interaction is another.
unfoldable pub render_zone : ZoneProps → Zone → Zone
unfolding same_interaction
render_zone props z =
    let next : Zone = record z { props = props } in
    if same_interaction z.props.interaction props.interaction then next else reset next

-- What a settled promise of `onRespond` came to: an exception with its message, where it is an Error.
pub data Answer : Type 0 where
  accepted : Answer
  thrown : Option String → Answer

module _ (session_id : String) where
  unfoldable pub zone_content : ZoneProps → Option Content
  unfolding render_kind
  zone_content props = elim props.interaction [
    | none ↦ none
    | some (_, request) ↦ elim props.negotiated_capabilities [
      | none ↦ none
      | some capabilities ↦
          if elem "interaction.structured" capabilities && str_eq request.session_id session_id
          then render_kind request
          else none
    ]
  ]

  -- submit up to its `await`
  unfoldable pub submit : InteractionResponse → Zone → Zone × List InteractionRespondParams
  unfolding is_disabled
  submit response z = elim z.props.interaction [
    | none ↦ (z, [])
    | some (_, request) ↦ if z.pending || is_disabled z then (z, []) else (
      record z { pending = true; phase = submitting; error = none; unsettled = suc z.unsettled },
      record { session_id = session_id; interaction_id = request.id; response = response } ∷ [],
    )
  ]

-- The rest of `submit`, when one of the promises is settled.
unfoldable pub settle_answer : Answer → Zone → Zone
settle_answer answer z =
    let rest = z.unsettled - 1 in
    if z.unsettled == 0 then z else elim answer [
      | accepted ↦ record z { phase = submitted; unsettled = rest }
      | thrown (some message) ↦ record z { phase = failed; error = some message; unsettled = rest }
      | thrown none ↦ record z {
        phase = failed;
        error = some "Не удалось отправить ответ";
        unsettled = rest;
      }
    ]

-- What happens to the component.
pub data ZoneInput : Type 0 where
  rendered : ZoneProps → ZoneInput
  option_pressed typed : String → ZoneInput
  send_pressed : ZoneInput
  settled : Answer → ZoneInput

abbrev pub has_option : String → Option Content → Bool
has_option id none = false
has_option id (some content) = elem id (offered_ids content)

abbrev pub has_field : Option Content → Bool
has_field none = false
has_field (some content) = is_answer_field content

abbrev pub ZoneStep : Type 0
ZoneStep = Zone × List InteractionRespondParams

module _ (session_id : String) where
  unfoldable pub zone_step : ZoneInput → Zone → ZoneStep
  unfolding render_zone zone_content offered_ids is_disabled submit settle_answer
  zone_step (rendered props) z = (render_zone props z, [])
  zone_step (option_pressed id) z =
      if has_option id (zone_content session_id z.props) && not (is_disabled z)
      then submit session_id (options_response (id ∷ [])) z
      else (z, [])
  zone_step (typed text) z =
      if has_field (zone_content session_id z.props) && not (is_disabled z)
      then (record z { text = text }, [])
      else (z, [])
  zone_step send_pressed z =
      if has_field (zone_content session_id z.props) && not (is_disabled z || str_eq z.text "")
      then submit session_id (text_response z.text (some true)) z
      else (z, [])
  zone_step (settled answer) z = (settle_answer answer z, [])

  unfoldable pub run_zone : List ZoneInput → Zone → ZoneStep
  unfolding zone_step
  run_zone [] z = (z, [])
  run_zone (input ∷ inputs) z = and_then (zone_step input z) (run_zone inputs)
