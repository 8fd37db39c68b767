-- ===== src/Relay/DesktopHandler.antt =====
-- `handleDesktopMessage` and `onDesktopClose` of apps/relay/src/handlers.ts.
use mathlib.Core.Option
use Prim.Native.String.{len, ◌++◌ as append_text}
use cucoudle.Prelude.{
  ℕ, suc, String, Bool, true, ◌&&◌, ◌||◌, Option, none, some, List, [], ◌∷◌, ◌++◌, length, str_eq,
  elem, if◌then◌else◌,
}
use cucoudle.Protocol.Json.{
  Json, bool, number, string, array, object, Fields, end, field, set_field, strings,
}
use cucoudle.Protocol.Message.{
  invalid_message, unsupported_method, daemon_unavailable, desktop_offline, RequestMessage,
  ResponseMessage, EventMessage, WireMessage, request, response, event,
}
use cucoudle.Protocol.Params.{success, failure, Schemas}
use cucoudle.Protocol.Envelope.{ok, failed, parse_wire_message}
use cucoudle.Relay.State.{RelayState, MobileConn, Socket, Effect, logged, Host}
use cucoudle.Relay.Desktops.{
  register_desktop, get_desktop, remove_desktop_by_socket, find_desktop_id,
}
use cucoudle.Relay.Pairings.{CreatedPairing, create_pairing}
use cucoudle.Relay.Links.{negotiate_capabilities, mobiles_for_desktop}
use cucoudle.Relay.Pending.{take_pending, remove_pending_for_desktop}
use cucoudle.Relay.Audit.{session_id_from, terminal_output_text_from}
use cucoudle.Relay.Output.{
  send, send_error, send_response, log_received_message, log_rejected, text?,
}

-- The state and what was done to the host.
abbrev pub Step : Type 0
Step = RelayState × List Effect

abbrev pub desktop_events : List String
desktop_events =
    "session.created" ∷ "session.updated" ∷ "session.removed" ∷ "terminal.output"
    ∷ "terminal.render" ∷ "interaction.requested" ∷ "interaction.updated" ∷ "interaction.resolved"
    ∷ "session.ended" ∷ []

unfoldable pub handle_register : Schemas → Host → RelayState → Socket → RequestMessage → Step
handle_register z host s socket msg = elim (z.desktop_register msg.params) [
  | failure text ↦ (s, send_error host 0 socket msg.id invalid_message text)
  | success p ↦
      let registered : Step = register_desktop s p socket in
      (
        registered.0,
        registered.1
            ++ logged "desktop.registered" (
                ("desktopId", some (string p.desktop_id))
                ∷ ("platform", some (string p.platform))
                ∷ ("appVersion", some (string p.app_version))
                ∷ ("requestId", some (string msg.id))
                ∷ [])
              ∷ send_response host 0 socket msg.id (field "registered" (bool true) end),
      )
]

-- { desktopId, ...created }
unfoldable pub created_fields : String → CreatedPairing → Fields
created_fields id c = field "desktopId" (string id) (
    field "pairingCode" (string c.pairing_code) (
      field "expiresAt" (string c.expires_at) (
        field "qrPayload"
          (object (
            field "relayUrl" (string c.qr_payload.relay_url) (
              field "desktopId" (string c.qr_payload.desktop_id) (
                field "pairingCode" (string c.qr_payload.pairing_code)
                  (field "expiresAt" (string c.qr_payload.expires_at) end)))))
          end)))

-- `none` where the loop that draws a code does not end on the draws of the host.
unfoldable pub created_step :
    Host → Socket → String → RequestMessage → ℕ → Option (CreatedPairing × RelayState) → Option Step
created_step host socket id msg ttl_seconds none = none
created_step host socket id msg ttl_seconds (some (c, s')) = some (
  s',
  logged "desktop.pairing.created" (
        ("desktopId", some (string id))
        ∷ ("requestId", some (string msg.id))
        ∷ ("ttlSeconds", some (number ttl_seconds))
        ∷ [])
      ∷ send_response host 1 socket msg.id (created_fields id c),
)

unfoldable pub create_for :
    Host → RelayState → Socket → String → String → RequestMessage → ℕ → Option Step
create_for host s socket relay_mobile_url id msg ttl_seconds =
    if str_eq id ""
    then some (s, send_error host 0 socket msg.id daemon_unavailable "desktop not registered")
    else created_step host socket id msg ttl_seconds
        (create_pairing s id ttl_seconds relay_mobile_url (host.clock 0) host.iso host.draws)

unfoldable pub handle_pairing_create :
    Schemas → Host → RelayState → Socket → String → RequestMessage → Option Step
handle_pairing_create z host s socket relay_mobile_url msg =
    elim (z.desktop_pairing_create msg.params) [
      | failure text ↦ some (s, send_error host 0 socket msg.id invalid_message text)
      | success p ↦
          create_for host s socket relay_mobile_url (find_desktop_id s socket) msg p.ttl_seconds
    ]

unfoldable pub handle_desktop_request :
    Schemas → Host → RelayState → Socket → String → RequestMessage → Option Step
handle_desktop_request z host s socket relay_mobile_url msg =
    if str_eq msg.method "desktop.register"
    then some (handle_register z host s socket msg)
    else if str_eq msg.method "desktop.pairing.create"
    then handle_pairing_create z host s socket relay_mobile_url msg
    else some (
      s,
      send_error host 0 socket msg.id unsupported_method (append_text "unknown method " msg.method),
    )

-- method === "session.list" || method === "session.subscribe"
unfoldable pub negotiates : String → Bool
negotiates method = str_eq method "session.list" || str_eq method "session.subscribe"

unfoldable pub answer_fields : RelayState → String → MobileConn → Fields → Fields
answer_fields s id mobile result =
    let offered : List String = elim (get_desktop s id) [
      | none ↦ []
      | some desktop ↦ desktop.offered_capabilities
    ] in
    set_field "negotiatedCapabilities"
      (array (strings (negotiate_capabilities mobile.offered_capabilities offered))) result

-- The response as the phone receives it.
unfoldable pub answer :
    RelayState → String → MobileConn → String → ResponseMessage → ResponseMessage
answer s id mobile method msg = elim msg.result [
  | none ↦ msg
  | some result ↦
      if msg.ok && negotiates method
      then record msg { result = some (answer_fields s id mobile result) }
      else msg
]

unfoldable pub handle_desktop_response :
    Host → RelayState → Socket → String → ResponseMessage → Step
handle_desktop_response host s socket raw msg =
    let id = find_desktop_id s socket in
    let (taken, s') = take_pending s id msg.id in
    if str_eq id "" then (s, []) else elim taken [
      | none ↦ (s', [])
      | some (mobile, method) ↦ (
        s',
        logged "desktop.response.forwarded" (
              ("desktopId", some (string id))
              ∷ ("mobileDeviceId", some (string mobile.mobile_device_id))
              ∷ ("requestId", some (string msg.id))
              ∷ ("ok", some (bool msg.ok))
              ∷ ("messageBytes", some (number (len raw)))
              ∷ [])
            ∷ send host mobile.socket (response (answer s' id mobile method msg)),
      )
    ]

-- for (const mobile of mobiles) send(mobile.socket, msg)
unfoldable pub send_all : Host → List MobileConn → WireMessage → List Effect
send_all host [] msg = []
send_all host (c ∷ cs) msg = send host c.socket msg ++ send_all host cs msg

unfoldable pub handle_desktop_event :
    Host → RelayState → Socket → String → Bool → EventMessage → Step
handle_desktop_event host s socket raw log_terminal_text msg =
    let id = find_desktop_id s socket in
    let mobiles = mobiles_for_desktop s id in
    let content : Json = object msg.content in
    if elem msg.event desktop_events
    then (if str_eq id "" then (s, []) else (
      s,
      logged "desktop.event.forwarded" (
            ("desktopId", some (string id))
            ∷ ("eventName", some (string msg.event))
            ∷ ("sessionId", text? (session_id_from (some content)))
            ∷ ("mobileCount", some (number (length mobiles)))
            ∷ ("messageBytes", some (number (len raw)))
            ∷ ("outputText", text? (terminal_output_text_from msg.event content log_terminal_text))
            ∷ [])
          ∷ send_all host mobiles (event msg),
    ))
    else (s, [])

unfoldable pub dispatch_desktop :
    Schemas → Host → RelayState → Socket → String → String → Bool → WireMessage → Option Step
dispatch_desktop z host s socket raw relay_mobile_url log_terminal_text (request msg) =
    handle_desktop_request z host s socket relay_mobile_url msg
dispatch_desktop z host s socket raw relay_mobile_url log_terminal_text (response msg) =
    some (handle_desktop_response host s socket raw msg)
dispatch_desktop z host s socket raw relay_mobile_url log_terminal_text (event msg) =
    some (handle_desktop_event host s socket raw log_terminal_text msg)

abbrev pub after_log : Effect → Option Step → Option Step
after_log entry none = none
after_log entry (some (s, effects)) = some (s, entry ∷ effects)

unfoldable pub handle_desktop_message :
    Schemas → Host → RelayState → Socket → String → String → Bool → Bool → Option Step
handle_desktop_message z host s socket raw relay_mobile_url log_terminal_text log_payloads =
    elim (parse_wire_message z raw) [
      | failed id code message ↦
          some (s, log_rejected "desktop" id code raw ∷ send_error host 0 socket id code message)
      | ok msg ↦
          after_log (log_received_message "desktop" msg raw log_payloads)
            (dispatch_desktop z host s socket raw relay_mobile_url log_terminal_text msg)
    ]

-- The loop of `onDesktopClose`; the i-th error is made at the i-th reading of the clock.
unfoldable pub send_offline : Host → ℕ → List (String × MobileConn) → List Effect
send_offline host i [] = []
send_offline host i ((request_id, mobile) ∷ rest) =
    send_error host i mobile.socket request_id desktop_offline "desktop disconnected"
    ++ send_offline host (suc i) rest

unfoldable pub on_desktop_close : Host → RelayState → Socket → Step
on_desktop_close host s socket =
    let (removed, s') = remove_desktop_by_socket s socket in
    let id = Option.get_or removed "" in
    let (requests, s'') = remove_pending_for_desktop s' id in
    if str_eq id "" then (s', []) else (
      s'',
      logged "websocket.disconnected"
            (("role", some (string "desktop")) ∷ ("desktopId", some (string id)) ∷ [])
          ∷ send_offline host 0 requests,
    )
