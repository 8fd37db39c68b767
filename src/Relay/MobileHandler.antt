-- ===== src/Relay/MobileHandler.antt =====
-- `handleMobileMessage`, the timeout that it sets, and `onMobileClose` of
-- apps/relay/src/handlers.ts.
use mathlib.Core.Option
use Prim.Native.String.{len, ◌++◌ as append_text}
use cucoudle.Prelude.{
  ℕ, String, Bool, true, Option, none, some, List, [], ◌∷◌, ◌++◌, str_eq, elem, if◌then◌else◌,
}
use cucoudle.Protocol.Json.{Json, bool, number, string, array, end, field, strings}
use cucoudle.Protocol.Session.{MobilePlatform, platform_text, device_json}
use cucoudle.Protocol.Message.{
  invalid_message, unsupported_method, desktop_offline, mobile_not_paired, internal_error,
  RequestMessage, WireMessage, request,
}
use cucoudle.Protocol.Params.{success, failure, Schemas, MobilePairParams, MobileResumeParams}
use cucoudle.Protocol.Envelope.{ok, failed, parse_wire_message}
use cucoudle.Relay.State.{
  RelayState, DesktopConn, MobileConn, Socket, Effect, logged, Host, granted, refused,
}
use cucoudle.Relay.Desktops.{get_desktop}
use cucoudle.Relay.Pairings.{IssuedSession, consume_pairing, issue_mobile_session, resume_mobile}
use cucoudle.Relay.Links.{
  negotiate_capabilities, link_mobile, unlink_mobile_by_socket, find_mobile_conn,
}
use cucoudle.Relay.Pending.{add_pending, fire_timer}
use cucoudle.Relay.Audit.{session_id_from, input_text_from}
use cucoudle.Relay.Output.{
  send, send_error, send_response, send_event, log_received_message, log_rejected, text?, object?,
}
use cucoudle.Relay.DesktopHandler.{Step}

-- The options of `handleMobileMessage`, but for the log, which is always kept.
pub record MobileOptions : Type 0 where
  pub mobile_session_ttl_ms : Option ℕ
  pub desktop_response_timeout_ms : Option ℕ
  pub log_input_text : Bool
  pub log_payloads : Bool

abbrev pub default_mobile_session_ttl_ms : ℕ
default_mobile_session_ttl_ms = 28_800_000

abbrev pub default_desktop_response_timeout_ms : ℕ
default_desktop_response_timeout_ms = 15_000

abbrev pub forwarded_methods : List String
forwarded_methods =
    "session.list" ∷ "session.subscribe" ∷ "session.input" ∷ "session.interrupt" ∷ "terminal.resize"
    ∷ "interaction.respond" ∷ []

unfoldable pub paired_conn : MobilePairParams → IssuedSession → Socket → MobileConn
paired_conn p issued socket = record {
  mobile_device_id = p.mobile_device.id;
  mobile_device = p.mobile_device;
  desktop_id = p.desktop_id;
  token = issued.token;
  offered_capabilities = Option.get_or p.offered_capabilities [];
  socket = socket;
}

unfoldable pub negotiated : List String → DesktopConn → Json
negotiated offers desktop =
    array (strings (negotiate_capabilities offers desktop.offered_capabilities))

-- What `mobile.pair` does once the code is accepted.
unfoldable pub finish_pair :
    Host
    → RelayState
    → Socket
    → MobileOptions
    → RequestMessage
    → MobilePairParams
    → DesktopConn
    → Step
finish_pair host s socket options msg p desktop =
    let issuing : IssuedSession × RelayState =
      issue_mobile_session s p.desktop_id p.mobile_device.id
        (Option.get_or options.mobile_session_ttl_ms default_mobile_session_ttl_ms) (host.clock 1)
        host.iso host.uuid in
    let issued = issuing.0 in
    (
      link_mobile issuing.1 (paired_conn p issued socket),
      logged "mobile.paired" (
              ("desktopId", some (string p.desktop_id))
              ∷ ("mobileDeviceId", some (string p.mobile_device.id))
              ∷ ("platform", some (string (platform_text p.mobile_device.platform)))
              ∷ ("requestId", some (string msg.id))
              ∷ [])
            ∷ send_response host 2 socket msg.id (
                field "desktopId" (string desktop.desktop_id) (
                  field "desktopName" (string desktop.name) (
                    field "paired" (bool true) (
                      field "mobileSessionToken" (string issued.token) (
                        field "mobileSessionExpiresAt" (string issued.expires_at) (
                          field "negotiatedCapabilities"
                            (negotiated (Option.get_or p.offered_capabilities []) desktop) end))))))
          ++ send_event host 3 desktop.socket "mobile.paired" (
              field "mobileDevice" (device_json p.mobile_device)
                (field "mobileSessionExpiresAt" (string issued.expires_at) end)),
    )

unfoldable pub pair_with :
    Host
    → RelayState
    → Socket
    → MobileOptions
    → RequestMessage
    → MobilePairParams
    → DesktopConn
    → Step
pair_with host s socket options msg p desktop =
    let (verdict, s') = consume_pairing s p.desktop_id p.pairing_code (host.clock 0) in
    elim verdict [
      | refused code ↦ (s', send_error host 1 socket msg.id code "pairing failed")
      | granted ↦ finish_pair host s' socket options msg p desktop
    ]

unfoldable pub handle_pair :
    Schemas → Host → RelayState → Socket → MobileOptions → RequestMessage → Step
handle_pair z host s socket options msg = elim (z.mobile_pair msg.params) [
  | failure text ↦ (s, send_error host 0 socket msg.id invalid_message text)
  | success p ↦ elim (get_desktop s p.desktop_id) [
    | none ↦ (s, send_error host 0 socket msg.id desktop_offline "desktop is offline")
    | some desktop ↦ pair_with host s socket options msg p desktop
  ]
]

unfoldable pub resumed_conn : MobileResumeParams → Socket → MobileConn
resumed_conn p socket = record {
  mobile_device_id = p.mobile_device_id;
  mobile_device = record {
    id = p.mobile_device_id;
    name = "resumed";
    platform = MobilePlatform.unknown;
  };
  desktop_id = p.desktop_id;
  token = p.mobile_session_token;
  offered_capabilities = Option.get_or p.offered_capabilities [];
  socket = socket;
}

unfoldable pub resume_with :
    Host → RelayState → Socket → RequestMessage → MobileResumeParams → DesktopConn → Step
resume_with host s socket msg p desktop =
    let (verdict, s') =
      resume_mobile s p.desktop_id p.mobile_device_id p.mobile_session_token (host.clock 0) in
    elim verdict [
      | refused code ↦ (s', send_error host 1 socket msg.id code "resume failed")
      | granted ↦ (
        link_mobile s' (resumed_conn p socket),
        logged "mobile.resumed" (
              ("desktopId", some (string p.desktop_id))
              ∷ ("mobileDeviceId", some (string p.mobile_device_id))
              ∷ ("requestId", some (string msg.id))
              ∷ [])
            ∷ send_response host 1 socket msg.id (
                field "desktopId" (string desktop.desktop_id) (
                  field "desktopName" (string desktop.name) (
                    field "resumed" (bool true) (
                      field "negotiatedCapabilities"
                        (negotiated (Option.get_or p.offered_capabilities []) desktop) end)))),
      )
    ]

unfoldable pub handle_resume : Schemas → Host → RelayState → Socket → RequestMessage → Step
handle_resume z host s socket msg = elim (z.mobile_resume msg.params) [
  | failure text ↦ (s, send_error host 0 socket msg.id invalid_message text)
  | success p ↦ elim (get_desktop s p.desktop_id) [
    | none ↦ (s, send_error host 0 socket msg.id desktop_offline "desktop is offline")
    | some desktop ↦ resume_with host s socket msg p desktop
  ]
]

unfoldable pub forward_to :
    Host
    → RelayState
    → Socket
    → MobileOptions
    → String
    → RequestMessage
    → MobileConn
    → DesktopConn
    → Step
forward_to host s socket options raw msg conn desktop =
    let adding : Bool × RelayState =
      add_pending s desktop.desktop_id msg.id msg.method conn
        (Option.get_or options.desktop_response_timeout_ms default_desktop_response_timeout_ms)
        (record {
          desktop_id = desktop.desktop_id;
          method = msg.method;
          request_id = msg.id;
          params = msg.params;
        }) in
    if adding.0
    then (
      adding.1,
      logged "mobile.request.forwarded" (
            ("desktopId", some (string desktop.desktop_id))
            ∷ ("mobileDeviceId", some (string conn.mobile_device_id))
            ∷ ("method", some (string msg.method))
            ∷ ("requestId", some (string msg.id))
            ∷ ("sessionId", text? (session_id_from (object? msg.params)))
            ∷ ("messageBytes", some (number (len raw)))
            ∷ (
              "inputText",
              text? (input_text_from msg.method (object? msg.params) options.log_input_text),
            )
            ∷ [])
          ∷ send host desktop.socket (request msg),
    )
    else (
      adding.1,
      send_error host 0 socket msg.id invalid_message "request id is already in flight",
    )

unfoldable pub handle_forwarded :
    Host → RelayState → Socket → MobileOptions → String → RequestMessage → Step
handle_forwarded host s socket options raw msg = elim (find_mobile_conn s socket) [
  | none ↦
      (s, send_error host 0 socket msg.id mobile_not_paired "pair before sending session commands")
  | some conn ↦ elim (get_desktop s conn.desktop_id) [
    | none ↦ (s, send_error host 0 socket msg.id desktop_offline "desktop is offline")
    | some desktop ↦ forward_to host s socket options raw msg conn desktop
  ]
]

unfoldable pub handle_mobile_request :
    Schemas → Host → RelayState → Socket → MobileOptions → String → RequestMessage → Step
handle_mobile_request z host s socket options raw msg =
    if str_eq msg.method "mobile.pair"
    then handle_pair z host s socket options msg
    else if str_eq msg.method "mobile.resume"
    then handle_resume z host s socket msg
    else if elem msg.method forwarded_methods
    then handle_forwarded host s socket options raw msg
    else (
      s,
      send_error host 0 socket msg.id unsupported_method (append_text "unknown method " msg.method),
    )

-- A phone only sends requests.
unfoldable pub dispatch_mobile :
    Schemas → Host → RelayState → Socket → MobileOptions → String → WireMessage → Step
dispatch_mobile z host s socket options raw (request msg) =
    handle_mobile_request z host s socket options raw msg
dispatch_mobile z host s socket options raw _ = (s, [])

abbrev pub log_first : Effect → Step → Step
log_first entry (s, effects) = (s, entry ∷ effects)

unfoldable pub handle_mobile_message :
    Schemas → Host → RelayState → Socket → String → MobileOptions → Step
handle_mobile_message z host s socket raw options = elim (parse_wire_message z raw) [
  | failed id code message ↦
      (s, log_rejected "mobile" id code raw ∷ send_error host 0 socket id code message)
  | ok msg ↦
      log_first (log_received_message "mobile" msg raw options.log_payloads)
        (dispatch_mobile z host s socket options raw msg)
]

-- The `onTimeout` that is passed to `addPending`, run by the host when the timer falls due.
unfoldable pub on_timeout : Host → RelayState → ℕ → Step
on_timeout host s handle =
    let (due, s') = fire_timer s handle in
    elim due [
      | none ↦ (s', [])
      | some (t, mobile) ↦ (
        s',
        logged "mobile.request.timed_out" (
              ("desktopId", some (string t.desktop_id))
              ∷ ("mobileDeviceId", some (string mobile.mobile_device_id))
              ∷ ("method", some (string t.method))
              ∷ ("requestId", some (string t.request_id))
              ∷ ("sessionId", text? (session_id_from (object? t.params)))
              ∷ [])
            ∷ send_error host 0 mobile.socket t.request_id internal_error
                "desktop response timed out",
      )
    ]

unfoldable pub on_mobile_close : Host → RelayState → Socket → Step
on_mobile_close host s socket =
    let (removed, s') = unlink_mobile_by_socket s socket in
    elim removed [
      | none ↦ (s', [])
      | some gone ↦ (
        s',
        logged "websocket.disconnected" (
              ("role", some (string "mobile"))
              ∷ ("desktopId", some (string gone.desktop_id))
              ∷ ("mobileDeviceId", some (string gone.mobile_device_id))
              ∷ [])
            ∷ elim (get_desktop s' gone.desktop_id) [
              | none ↦ []
              | some desktop ↦
                  send_event host 0 desktop.socket "mobile.disconnected"
                    (field "mobileDeviceId" (string gone.mobile_device_id) end)
            ],
      )
    ]
