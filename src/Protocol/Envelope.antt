-- ===== src/Protocol/Envelope.antt =====
-- packages/protocol/src/envelope.ts: parsing a message and making one.
use Prim.Native.String
use cucoudle.Prelude.{
  String, ◌≡◌, refl, Bool, true, false, Option, none, some, arith, str_eq, if◌then◌else◌, ◌↔◌,
}
use cucoudle.Protocol.Json.{Json, Fields, string, as_string, as_object, field?}
use cucoudle.Protocol.Message.{
  ErrorCode, invalid_message, unsupported_protocol, ResponseMessage, EventMessage, WireMessage,
  protocol_version,
}
use cucoudle.Protocol.Params.{success, failure, Schemas}

pub data ParseResult : Type 0 where
  ok : WireMessage → ParseResult
  failed : String → ErrorCode → String → ParseResult

-- typeof json === "object" && json !== null && "id" in json && typeof json.id === "string"
unfoldable pub id_of : Json → String
unfolding field?
id_of json = elim (as_object (some json)) [
  | none ↦ ""
  | some r ↦ elim (as_string (field? "id" r)) [ none ↦ "" | some id ↦ id ]
]

-- (json as { version: unknown }).version !== PROTOCOL_VERSION, where there is a version
unfoldable pub wrong_version : Json → Bool
unfolding field?
wrong_version json = elim (as_object (some json)) [
  | none ↦ false
  | some r ↦ elim (field? "version" r) [
    | some (string v) ↦ if str_eq v protocol_version then false else true
    | some _ ↦ true
    | none ↦ false
  ]
]

unfoldable pub check_schema : Schemas → Json → ParseResult
unfolding id_of wrong_version
check_schema z json =
    if wrong_version json
    then failed (id_of json) unsupported_protocol
        (String.◌++◌ "expected protocol " protocol_version)
    else elim (z.wire_message json) [
      | success msg ↦ ok msg
      | failure text ↦ failed (id_of json) invalid_message text
    ]

unfoldable pub parse_wire_message : Schemas → String → ParseResult
unfolding check_schema
parse_wire_message z raw = elim (z.parse_json raw) [
  | none ↦ failed "" invalid_message "payload is not valid JSON"
  | some json ↦ check_schema z json
]

unfoldable pub make_response : String → Fields → String → ResponseMessage
make_response id result sent_at = record {
  version = protocol_version;
  id = id;
  ok = true;
  result = some result;
  error = none;
  sent_at = sent_at;
}

unfoldable pub make_error : String → ErrorCode → String → Option Fields → String → ResponseMessage
make_error id code message details sent_at = record {
  version = protocol_version;
  id = id;
  ok = false;
  result = none;
  error = some (record { code = code; message = message; details = details });
  sent_at = sent_at;
}

unfoldable pub make_event : String → Fields → String → EventMessage
make_event name content sent_at = record {
  version = protocol_version;
  event = name;
  content = content;
  sent_at = sent_at;
}

-- What an accepted text is: JSON, of no other version, with a value that the schema accepts.
abbrev pub Accepted : Schemas → String → WireMessage → Type 0
Accepted z raw msg =
    (json : Json) × (z.parse_json raw ≡ some json)
    × (wrong_version json ≡ false)
    × (z.wire_message json ≡ success msg)

check_schema-Accepted :
    (z : Schemas) (json : Json) (msg : WireMessage)
    → check_schema z json ≡ ok msg
    → (wrong_version json ≡ false) × (z.wire_message json ≡ success msg)
unfolding check_schema
check_schema-Accepted z json msg h = ground arith

-- A text is parsed to a message exactly when it is JSON, carries no other protocol version, and the
-- schema accepts its value as that message.
pub parse_wire_message-Accepted :
    (z : Schemas) (raw : String) (msg : WireMessage)
    → (parse_wire_message z raw ≡ ok msg) ↔ Accepted z raw msg
unfolding parse_wire_message check_schema
parse_wire_message-Accepted z raw msg = (accepted (z.parse_json raw) refl, λ a. ground arith)
  where
    accepted :
        (found : Option Json)
        → z.parse_json raw ≡ found
        → parse_wire_message z raw ≡ ok msg
        → Accepted z raw msg
    accepted none e h = absurd (ground arith)
    accepted (some json) e h =
        let (v, w) = check_schema-Accepted z json msg (ground arith) in (json, e, v, w)

-- A payload that is JSON of another version is refused as unsupported, under its own id, whatever
-- the schema says of it.
pub parse_wire_message-version :
    (z : Schemas) (raw : String) (json : Json)
    → z.parse_json raw ≡ some json
    → wrong_version json ≡ true
    → parse_wire_message z raw
      ≡ failed (id_of json) unsupported_protocol (String.◌++◌ "expected protocol " protocol_version)
unfolding parse_wire_message check_schema
parse_wire_message-version z raw json e h = ground arith
