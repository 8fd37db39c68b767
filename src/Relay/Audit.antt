-- ===== src/Relay/Audit.antt =====
-- What the audit log shows: `redactPayload` of apps/relay/src/audit.ts, and `sessionIdFrom`,
-- `inputTextFrom`, `terminalOutputTextFrom` of handlers.ts.
pub mod Redaction
use Prim.Native.Char.{code}
use Prim.Native.String.{[] as empty_text, ◌∷◌ as cons_text}
use cucoudle.Prelude.{
  ℕ, ◌+◌, String, Bool, true, false, not, ◌&&◌, ◌||◌, Option, none, some, List, [], ◌∷◌, any, ◌==◌,
  leb, str_eq, if◌then◌else◌,
}
use cucoudle.Protocol.Json.{
  Json, null, bool, number, string, array, object, Items, nil, cons, Fields, end, field, field?,
  as_string, as_object,
}

abbrev codes : String → List ℕ
codes empty_text = []
codes (cons_text c s) = code c ∷ codes s

-- The case folding of the flag `i`: a letter A to Z is read as its small letter.
unfoldable pub fold_case : ℕ → ℕ
fold_case c = if leb b'A' c && leb c b'Z' then c + 32 else c

unfoldable pub has_prefix : List ℕ → List ℕ → Bool
unfolding fold_case
has_prefix [] text = true
has_prefix (w ∷ ws) [] = false
has_prefix (w ∷ ws) (c ∷ cs) = fold_case c == w && has_prefix ws cs

unfoldable pub contains : List ℕ → List ℕ → Bool
unfolding has_prefix
contains word [] = has_prefix word []
contains word (c ∷ cs) = has_prefix word (c ∷ cs) || contains word cs

-- The words of /token|pairingcode|secret|password|authorization/i.
abbrev pub sensitive_words : List String
sensitive_words = "token" ∷ "pairingcode" ∷ "secret" ∷ "password" ∷ "authorization" ∷ []

unfoldable pub is_sensitive : String → Bool
unfolding contains
is_sensitive key = any (λ word. contains (codes word) (codes key)) sensitive_words

unfoldable mutual
  pub redact_payload : Json → Json
  redact_payload null = null
  redact_payload (bool b) = bool b
  redact_payload (number n) = number n
  redact_payload (string s) = string s
  redact_payload (array xs) = array (redact_items xs)
  redact_payload (object r) = object (redact_fields r)

  pub redact_items : Items → Items
  redact_items nil = nil
  redact_items (cons j xs) = cons (redact_payload j) (redact_items xs)

  pub redact_fields : Fields → Fields
  redact_fields end = end
  redact_fields (field k j r) =
      field k (if is_sensitive k then string "<redacted>" else redact_payload j) (redact_fields r)

-- The arguments are values of type `unknown`; `none` stands for `undefined`.
unfoldable pub session_id_from : Option Json → Option String
unfolding field?
session_id_from value = elim (as_object value) [
  | none ↦ none
  | some r ↦ elim (as_string (field? "sessionId" r)) [
    | some id ↦ some id
    | none ↦ elim (as_object (field? "session" r)) [
      | none ↦ none
      | some session ↦ as_string (field? "id" session)
    ]
  ]
]

unfoldable pub response_text : Fields → Option String
unfolding field?
response_text r = elim (as_object (field? "response" r)) [
  | none ↦ none
  | some response ↦ as_string (field? "text" response)
]

unfoldable pub input_text_of : String → Fields → Option String
unfolding response_text
input_text_of method r = elim (as_string (field? "data" r)) [
  | some text ↦
      if str_eq method "session.input"
      then some text
      else if str_eq method "interaction.respond"
      then response_text r
      else none
  | none ↦ if str_eq method "interaction.respond" then response_text r else none
]

unfoldable pub input_text_from : String → Option Json → Bool → Option String
unfolding input_text_of
input_text_from method params enabled = elim (as_object params) [
  | none ↦ none
  | some r ↦ if enabled then input_text_of method r else none
]

unfoldable pub terminal_output_text_from : String → Json → Bool → Option String
unfolding field?
terminal_output_text_from event content enabled = elim (as_object (some content)) [
  | none ↦ none
  | some r ↦ if enabled && str_eq event "terminal.output" then as_string (field? "data" r) else none
]
