-- ===== src/Relay/Output.antt =====
-- What the handlers of apps/relay/src/handlers.ts put out: `send`, `logReceivedMessage`, and the
-- messages as the values that are logged and sent.
use Prim.Native.String.{len}
use cucoudle.Prelude.{ℕ, String, Bool, true, Option, none, some, List, [], ◌∷◌, ◌==◌, if◌then◌else◌}
use cucoudle.Protocol.Json.{Json, bool, number, string, object, Fields, end, field}
use cucoudle.Protocol.Message.{
  ErrorCode, error_code_text, ProtocolError, WireMessage, request, response, event,
}
use cucoudle.Protocol.Envelope.{make_error, make_response, make_event}
use cucoudle.Relay.State.{Socket, Effect, sent, logged, Host}
use cucoudle.Relay.Audit.{redact_payload}

-- if ("readyState" in socket && socket.readyState !== 1) return;
unfoldable pub is_open : Host → Socket → Bool
is_open host socket = elim (host.ready_state socket) [ none ↦ true | some n ↦ n == 1 ]

unfoldable pub send : Host → Socket → WireMessage → List Effect
unfolding is_open
send host socket msg = if is_open host socket then sent socket msg ∷ [] else []

-- An error made at the i-th reading of the clock, and sent.
unfoldable pub send_error : Host → ℕ → Socket → String → ErrorCode → String → List Effect
unfolding send make_error
send_error host i socket id code message =
    send host socket (response (make_error id code message none (host.iso (host.clock i))))

unfoldable pub send_response : Host → ℕ → Socket → String → Fields → List Effect
unfolding send make_response
send_response host i socket id result =
    send host socket (response (make_response id result (host.iso (host.clock i))))

unfoldable pub send_event : Host → ℕ → Socket → String → Fields → List Effect
unfolding send make_event
send_event host i socket name content =
    send host socket (event (make_event name content (host.iso (host.clock i))))

-- { ...rest, [k]: v } with `v` left out where it is `undefined`
abbrev pub field_if : String → Option Json → Fields → Fields
field_if k none rest = rest
field_if k (some v) rest = field k v rest

abbrev pub text? : Option String → Option Json
text? none = none
text? (some s) = some (string s)

abbrev pub object? : Option Fields → Option Json
object? none = none
object? (some r) = some (object r)

unfoldable pub error_json : ProtocolError → Json
unfolding error_code_text
error_json e = object (
    field "code" (string (error_code_text e.code))
      (field "message" (string e.message) (field_if "details" (object? e.details) end)))

abbrev error_json? : Option ProtocolError → Option Json
error_json? none = none
error_json? (some e) = some (error_json e)

-- A message as the object that the schema library makes of it.
unfoldable pub message_json : WireMessage → Json
unfolding error_json
message_json (request m) = object (
    field "version" (string m.version) (
      field "kind" (string "request") (
        field "id" (string m.id) (
          field "method" (string m.method)
            (field_if "params" (object? m.params) (field "sentAt" (string m.sent_at) end))))))
message_json (response m) = object (
    field "version" (string m.version) (
      field "kind" (string "response") (
        field "id" (string m.id) (
          field "ok" (bool m.ok) (
            field_if "result" (object? m.result)
              (field_if "error" (error_json? m.error) (field "sentAt" (string m.sent_at) end)))))))
message_json (event m) = object (
    field "version" (string m.version) (
      field "kind" (string "event") (
        field "event" (string m.event)
          (field "data" (object m.content) (field "sentAt" (string m.sent_at) end)))))

abbrev kind_text : WireMessage → String
kind_text (request _) = "request"
kind_text (response _) = "response"
kind_text (event _) = "event"

abbrev message_id : WireMessage → Option String
message_id (request m) = some m.id
message_id (response m) = some m.id
message_id (event _) = none

abbrev message_method : WireMessage → Option String
message_method (request m) = some m.method
message_method _ = none

abbrev message_event : WireMessage → Option String
message_event (event m) = some m.event
message_event _ = none

unfoldable pub log_received_message : String → WireMessage → String → Bool → Effect
unfolding message_json redact_payload
log_received_message role msg raw log_payloads = logged "message.received" (
    ("role", some (string role))
    ∷ ("kind", some (string (kind_text msg)))
    ∷ ("requestId", text? (message_id msg))
    ∷ ("method", text? (message_method msg))
    ∷ ("eventName", text? (message_event msg))
    ∷ ("messageBytes", some (number (len raw)))
    ∷ ("payload", if log_payloads then some (redact_payload (message_json msg)) else none)
    ∷ [])

-- auditLog("message.rejected", …)
unfoldable pub log_rejected : String → String → ErrorCode → String → Effect
unfolding error_code_text
log_rejected role id code raw = logged "message.rejected" (
    ("role", some (string role))
    ∷ ("code", some (string (error_code_text code)))
    ∷ ("requestId", some (string id))
    ∷ ("messageBytes", some (number (len raw)))
    ∷ [])
