-- ===== src/Relay/Tests.antt =====
-- Concrete states and inputs on which the theorems about the relay are run.
pub mod Routes
pub mod Requests
pub mod Codes
pub mod Registry
use cucoudle.Prelude.{
  ℕ, String, ◌≡◌, refl, Bool, true, false, Option, none, some, List, [], ◌∷◌, str_eq, if◌then◌else◌,
}
use cucoudle.Protocol.Json.{Json, number, string, object, Fields, end, field}
use cucoudle.Protocol.Session.{MobileDevice, MobilePlatform}
use cucoudle.Protocol.Message.{
  RequestMessage, ResponseMessage, EventMessage, request, protocol_version,
}
use cucoudle.Protocol.Params.{DesktopRegisterParams, Schemas, success, failure}
use cucoudle.Relay.State.{RelayState, MobileConn, DesktopConn, Host, new_state}
use cucoudle.Relay.Desktops.{register_desktop, desktop_conn}
use cucoudle.Relay.Links.{link_mobile}
use cucoudle.Relay.Pending.{Captured, add_pending}
use cucoudle.Relay.MobileHandler.{MobileOptions}
use cucoudle.Relay.Validity.{
  IsValid, new_state-IsValid, register_desktop-IsValid, link_mobile-IsValid, add_pending-IsValid,
}

abbrev pub host : Host
host = record {
  clock = λ i. i;
  iso = λ t. "2026-07-11T00:00:00.000Z";
  uuid = "6f1e";
  draws = 42 ∷ 7 ∷ [];
  ready_state = λ socket. some 1;
}

abbrev pub options : MobileOptions
options = record {
  mobile_session_ttl_ms = none;
  desktop_response_timeout_ms = none;
  log_input_text = false;
  log_payloads = false;
}

abbrev pub laptop : DesktopRegisterParams
laptop = record {
  desktop_id = "laptop";
  desktop_name = "Laptop";
  platform = "macos";
  app_version = "1.0.0";
  offered_capabilities = some ("interaction.structured" ∷ []);
}

abbrev pub phone : MobileConn
phone = record {
  mobile_device_id = "phone";
  mobile_device = record { id = "phone"; name = "Phone"; platform = MobilePlatform.unknown };
  desktop_id = "laptop";
  token = "mst_6f1e";
  offered_capabilities = "interaction.structured" ∷ [];
  socket = 9;
}

abbrev pub captured : Captured
captured = record {
  desktop_id = "laptop";
  method = "session.list";
  request_id = "r1";
  params = none;
}

-- A desktop on socket 7, then a phone on socket 9 linked to it, then a request of this phone.
abbrev pub one_desktop : RelayState
one_desktop = (register_desktop new_state laptop 7).0

abbrev pub one_link : RelayState
one_link = link_mobile one_desktop phone

abbrev pub one_request : RelayState
one_request = (add_pending one_link "laptop" "r1" "session.list" phone 15_000 captured).1

pub one_desktop-IsValid : IsValid one_desktop
one_desktop-IsValid = register_desktop-IsValid new_state new_state-IsValid laptop 7

pub one_link-IsValid : IsValid one_link
one_link-IsValid = link_mobile-IsValid one_desktop one_desktop-IsValid phone

pub one_request-IsValid : IsValid one_request
one_request-IsValid =
    add_pending-IsValid one_link one_link-IsValid "laptop" "r1" "session.list" phone 15_000 captured
      refl

abbrev pub list_request : RequestMessage
list_request = record {
  version = protocol_version;
  id = "r1";
  method = "session.list";
  params = none;
  sent_at = "2026-07-11T00:00:00.000Z";
}

abbrev pub list_response : ResponseMessage
list_response = record {
  version = protocol_version;
  id = "r1";
  ok = true;
  result = some end;
  error = none;
  sent_at = "2026-07-11T00:00:00.000Z";
}

abbrev pub output_event : EventMessage
output_event = record {
  version = protocol_version;
  event = "terminal.output";
  content = end;
  sent_at = "2026-07-11T00:00:00.000Z";
}

abbrev pub register_json : Json
register_json = object (field "version" (string protocol_version) end)

-- One text that is JSON of the current version, and one of another.
abbrev pub schemas : Schemas
schemas = record {
  parse_json = λ raw.
      if str_eq raw "register"
      then some register_json
      else if str_eq raw "old"
      then some (object (field "id" (string "r0") (field "version" (string "1") end)))
      else none;
  wire_message = λ json. success (request (record list_request { method = "desktop.register" }));
  desktop_register = λ p. success laptop;
  desktop_pairing_create = λ p. failure "none";
  mobile_pair = λ p. failure "none";
  mobile_resume = λ p. failure "none";
}
