-- ===== src/Relay/Tests/Requests.antt =====
-- Waiting requests, their timers and the links of phones on concrete states.
use cucoudle.Prelude.{String, ◌≡◌, refl, none, some, [], str_eq, not, map, filter}
use cucoudle.Prelude.Dict.{get, set, has, filter_some}
use cucoudle.Protocol.Message.{response, internal_error}
use cucoudle.Protocol.Envelope.{make_error}
use cucoudle.Relay.State.{PendingRequest, Timer, new_state}
use cucoudle.Relay.Desktops.{
  register_desktop, drop_other_ids, desktop_conn, replaced, first_with_socket, find_desktop_id,
}
use cucoudle.Relay.Links.{link_mobile}
use cucoudle.Relay.Pending.{pending_key, add_pending, armed}
use cucoudle.Relay.Pending.Keys.{NoNul}
use cucoudle.Relay.DesktopHandler.{handle_desktop_response, on_desktop_close}
use cucoudle.Relay.MobileHandler.{on_timeout}
use cucoudle.Relay.Routing.{sends, delivered}
use cucoudle.Relay.Routing.Once.{answered_once, timed_out, offline_errors, desktop_gone}
use cucoudle.Relay.Tests.{host, one_request, one_request-IsValid, list_response}

answered_once_example :
    let s' = (handle_desktop_response host one_request 7 "raw" list_response).0 in
    handle_desktop_response host s' 7 "raw" list_response ≡ (s', [])
answered_once_example =
    answered_once host host one_request 7 "raw" "raw" list_response list_response refl

abbrev due_timer : Timer
due_timer = record {
  handle = 0;
  key = pending_key "laptop" "r1";
  delay = 15_000;
  desktop_id = "laptop";
  request_id = "r1";
  method = "session.list";
  params = none;
}

timed_out_example :
    (q : PendingRequest) × (get (pending_key "laptop" "r1") one_request.pending ≡ some q)
    × (sends (on_timeout host one_request 0).1
        ≡ delivered host q.mobile.socket (
            response (
              make_error q.request_id internal_error "desktop response timed out" none
                (host.iso (host.clock 0)))))
    × (get (pending_key "laptop" "r1") (on_timeout host one_request 0).0.pending ≡ none)
unfolding register_desktop drop_other_ids desktop_conn replaced link_mobile new_state get set has
    add_pending armed
timed_out_example = timed_out host one_request one_request-IsValid 0 due_timer refl

desktop_gone_example :
    (sends (on_desktop_close host one_request 7).1
      ≡ offline_errors host 0 (
          map
            (λ e. (e.1.request_id, e.1.mobile))
            (filter (λ e. str_eq e.1.desktop_id "laptop") one_request.pending)))
    × ((k : String)
        → get k (on_desktop_close host one_request 7).0.pending
          ≡ filter_some (λ q. not (str_eq q.desktop_id "laptop")) (get k one_request.pending))
unfolding register_desktop drop_other_ids desktop_conn replaced link_mobile new_state get set has
    add_pending find_desktop_id first_with_socket
desktop_gone_example = desktop_gone host one_request one_request-IsValid 7 "laptop" refl (λ e. cc)

abbrev name : String
name = "laptop"

abbrev first_id : String
first_id = "r1"

name-NoNul : NoNul name
name-NoNul = ((λ e. cc), ((λ e. cc), ((λ e. cc), ((λ e. cc), ((λ e. cc), ((λ e. cc), tt))))))
