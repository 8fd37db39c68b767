-- ===== src/Relay/Tests/Routes.antt =====
-- Requests, answers and events on concrete states.
use cucoudle.Prelude.{◌≡◌, refl, false, List}
use cucoudle.Prelude.Dict.{get, set, has}
use cucoudle.Protocol.Json.{field?}
use cucoudle.Protocol.Message.{request, response, event, mobile_not_paired}
use cucoudle.Protocol.Envelope.{wrong_version, check_schema, parse_wire_message}
use cucoudle.Relay.State.{RelayState, new_state, Effect}
use cucoudle.Relay.Desktops.{
  register_desktop, drop_other_ids, desktop_conn, replaced, get_desktop, first_with_socket,
  find_desktop_id,
}
use cucoudle.Relay.Links.{link_mobile, mobiles_for_desktop, find_mobile_conn, conn_in, first_conn}
use cucoudle.Relay.Pending.{pending_key}
use cucoudle.Relay.DesktopHandler.{
  handle_desktop_request, handle_desktop_message, dispatch_desktop, handle_register,
  handle_desktop_response, handle_desktop_event, answer,
}
use cucoudle.Relay.MobileHandler.{handle_mobile_request, handle_forwarded}
use cucoudle.Relay.Output.{send_error}
use cucoudle.Relay.App.{step, start, later, desktop_message}
use cucoudle.Relay.App.Invariant.{Reach-IsValid}
use cucoudle.Relay.Validity.{IsValid}
use cucoudle.Relay.Routing.{sends, delivered, request_answered, unpaired_refused}
use cucoudle.Relay.Routing.Events.{fan_out, ToLinked, event_fan_out}
use cucoudle.Relay.Tests.{
  host, options, laptop, phone, one_desktop, one_link, one_link-IsValid, list_request,
  list_response, output_event, schemas,
}

abbrev forwarded : RelayState × List Effect
forwarded = handle_forwarded host one_link 9 options "raw" list_request

abbrev sent_back : RelayState × List Effect
sent_back = handle_desktop_response host forwarded.0 7 "raw" list_response

request_answered_example :
    (sends forwarded.1 ≡ delivered host 7 (request list_request))
    × (sends sent_back.1
        ≡ delivered host 9
            (response (answer sent_back.0 "laptop" phone "session.list" list_response)))
unfolding register_desktop drop_other_ids desktop_conn replaced link_mobile new_state get set has
    find_mobile_conn conn_in first_conn get_desktop pending_key
request_answered_example =
    request_answered one_link one_link-IsValid 9 phone (desktop_conn laptop 7) list_request refl
      refl (λ e. cc) refl host options "raw" host "raw" list_response refl

unpaired_refused_example :
    handle_mobile_request schemas host one_desktop 9 options "raw" list_request ≡ (
      one_desktop,
      send_error host 0 9 "r1" mobile_not_paired "pair before sending session commands",
    )
unfolding register_desktop drop_other_ids desktop_conn replaced new_state get set has
    find_mobile_conn conn_in first_conn
unpaired_refused_example =
    unpaired_refused host one_desktop 9 options "raw" list_request schemas refl (λ e. cc) (λ e. cc)

event_fan_out_example :
    (sends (handle_desktop_event host one_link 7 "raw" false output_event).1
      ≡ fan_out host (mobiles_for_desktop one_link "laptop") (event output_event))
    × ToLinked "laptop"
        (event output_event)
        (fan_out host (mobiles_for_desktop one_link "laptop") (event output_event))
    × ((handle_desktop_event host one_link 7 "raw" false output_event).0 ≡ one_link)
unfolding register_desktop drop_other_ids desktop_conn replaced link_mobile new_state get set has
    find_desktop_id first_with_socket
event_fan_out_example =
    event_fan_out host one_link one_link-IsValid 7 "raw" false output_event "laptop" refl (λ e. cc)
      refl

Reach-IsValid_example : IsValid one_desktop
unfolding step handle_desktop_message parse_wire_message check_schema wrong_version dispatch_desktop
    handle_desktop_request handle_register register_desktop drop_other_ids desktop_conn replaced
    new_state get set has field?
Reach-IsValid_example =
    Reach-IsValid schemas "wss://relay" options
      (later start host (desktop_message 7 "register") _ refl)
