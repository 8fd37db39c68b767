-- ===== src/Relay/Routing.antt =====
-- Who is sent what: the requests and answers of handlers.ts end to end through the relay.
pub mod Events
pub mod Once
use mathlib.Core.Option
use text.Mathlib.TextPositions.{eq_refl}
use cucoudle.Prelude.{
  ℕ, String, ◌≡◌, ◌≢◌, refl, sym, ap, ◌∙◌, subst, Bool, true, false, Option, none, some, List, [],
  ◌∷◌, ◌++◌, inl, inr, arith, Option-cases, Bool-cases, str_eq, eq_iff, str_eq-cases, if◌then◌else◌,
  elem, All, All-append,
}
use cucoudle.Prelude.Dict.{get, has}
use Prim.Native.String.{◌++◌ as append_text}
use cucoudle.Protocol.Params.{Schemas}
use cucoudle.Protocol.Message.{
  RequestMessage, ResponseMessage, EventMessage, WireMessage, request, response, event,
  mobile_not_paired, unsupported_method,
}
use cucoudle.Relay.State.{
  RelayState, MobileConn, DesktopConn, Socket, Host, Effect, sent, closed, logged, PendingRequest,
}
use cucoudle.Relay.Desktops.{IsRegistry, find_desktop_id, get_desktop}
use cucoudle.Relay.Desktops.Removal.{find_desktop_id_lem}
use cucoudle.Relay.Links.{find_mobile_conn, mobiles_for_desktop}
use cucoudle.Relay.Links.Grouping.{AllOf, mobiles_for_desktop-AllOf}
use cucoudle.Relay.Pending.{pending_key, add_pending, take_pending}
use cucoudle.Relay.Pending.Steps.{take-add_pending}
use cucoudle.Relay.Output.{is_open, send, send_error}
use cucoudle.Relay.DesktopHandler.{
  Step, handle_desktop_response, handle_desktop_event, answer, send_all,
}
use cucoudle.Relay.MobileHandler.{
  MobileOptions, forward_to, handle_forwarded, handle_mobile_request, forwarded_methods,
  default_desktop_response_timeout_ms,
}
use cucoudle.Relay.Validity.{IsValid}

-- The messages that are sent, in order.
unfoldable pub sends : List Effect → List (Socket × WireMessage)
sends [] = []
sends (sent socket msg ∷ es) = (socket, msg) ∷ sends es
sends (_ ∷ es) = sends es

-- What arrives of one message: it is dropped where the socket is not open.
abbrev pub delivered : Host → Socket → WireMessage → List (Socket × WireMessage)
delivered host socket msg = if is_open host socket then (socket, msg) ∷ [] else []

sends-send :
    (host : Host) (socket : Socket) (msg : WireMessage)
    → sends (send host socket msg) ≡ delivered host socket msg
unfolding sends send
sends-send host socket msg = ground arith

sends-append : (es fs : List Effect) → sends (es ++ fs) ≡ sends es ++ sends fs
unfolding sends
sends-append [] fs = refl
sends-append (sent socket msg ∷ es) fs = rw (sends-append es fs)
sends-append (closed socket code text ∷ es) fs = sends-append es fs
sends-append (logged name fields ∷ es) fs = sends-append es fs

module _ (host : Host) (s : RelayState) (socket : Socket) (raw : String)
    (msg : ResponseMessage) where
  abbrev answered : Step
  answered = handle_desktop_response host s socket raw msg

  -- The answer to a request that waits, under the desktop whose socket it came in on, goes to the
  -- phone that made this request and to nobody else, and the request is taken off the list.
  pub response_routed :
      (id : String) (mobile : MobileConn) (method : String)
      → id ≢ ""
      → find_desktop_id s socket ≡ id
      → (take_pending s id msg.id).0 ≡ some (mobile, method)
      → (sends answered.1
          ≡ delivered host mobile.socket (response (answer answered.0 id mobile method msg)))
        × (answered.0 ≡ (take_pending s id msg.id).1)
  unfolding handle_desktop_response sends
  response_routed id mobile method n f t =
      let reply = response (answer (take_pending s id msg.id).1 id mobile method msg) in
      (
        ground (arith, n, f, t, eq_iff id "", sends-send host mobile.socket reply),
        ground (arith, n, f, t, eq_iff id ""),
      )

  -- An answer from a socket that is no desktop's, or to a request that does not wait at its desktop,
  -- is sent to nobody and changes nothing.
  pub response_dropped :
      (id : String)
      → find_desktop_id s socket ≡ id
      → (take_pending s id msg.id).0 ≡ none
      → answered ≡ (s, [])
  unfolding handle_desktop_response take_pending
  response_dropped id f t = ground (arith, f, t)

module _ (host : Host) (s : RelayState) (socket : Socket) (options : MobileOptions) (raw : String)
    (msg : RequestMessage) where
  -- A socket with no link cannot reach a desktop: any request but a pairing or a resumption is
  -- refused, with nothing changed and nothing sent to another socket.
  pub unpaired_refused :
      (z : Schemas)
      → find_mobile_conn s socket ≡ none
      → msg.method ≢ "mobile.pair"
      → msg.method ≢ "mobile.resume"
      → handle_mobile_request z host s socket options raw msg ≡ (
        s,
        if elem msg.method forwarded_methods
            then send_error host 0 socket msg.id mobile_not_paired
                "pair before sending session commands"
            else send_error host 0 socket msg.id unsupported_method
                (append_text "unknown method " msg.method),
      )
  unfolding handle_mobile_request handle_forwarded
  unpaired_refused z f n m =
      ground (arith, f, eq_iff msg.method "mobile.pair", eq_iff msg.method "mobile.resume")

module _ (s : RelayState) (v : IsValid s) (mobile_socket : Socket) (conn : MobileConn)
    (desktop : DesktopConn) (msg : RequestMessage)
    (paired : find_mobile_conn s mobile_socket ≡ some conn)
    (online : get_desktop s conn.desktop_id ≡ some desktop) (named : desktop.desktop_id ≢ "")
    (new : has (pending_key desktop.desktop_id msg.id) s.pending ≡ false) where
  module _ (host : Host) (options : MobileOptions) (raw : String) where
    abbrev forwarded : Step
    forwarded = handle_forwarded host s mobile_socket options raw msg

    forwarded_state :
        forwarded.0
        ≡ (add_pending s desktop.desktop_id msg.id msg.method conn
            (Option.get_or options.desktop_response_timeout_ms default_desktop_response_timeout_ms)
            (record {
              desktop_id = desktop.desktop_id;
              method = msg.method;
              request_id = msg.id;
              params = msg.params;
            })).1
    unfolding handle_forwarded forward_to add_pending
    forwarded_state = ground (arith, paired, online, new)

    forwarded_sends : sends forwarded.1 ≡ delivered host desktop.socket (request msg)
    unfolding handle_forwarded forward_to add_pending sends
    forwarded_sends =
        ground (arith, paired, online, new, sends-send host desktop.socket (request msg))

    forwarded_desktops : forwarded.0.desktops ≡ s.desktops
    unfolding add_pending
    forwarded_desktops = rw forwarded_state (ground arith)

    stands : get desktop.desktop_id s.desktops ≡ some desktop
    unfolding get_desktop
    stands =
        subst (λ (i : String). get i s.desktops ≡ some desktop)
          (sym (v.registry.own_id conn.desktop_id desktop online)) online

    known : find_desktop_id forwarded.0 desktop.socket ≡ desktop.desktop_id
    known =
        (find_desktop_id_lem forwarded.0 desktop.socket
            (subst IsRegistry (sym forwarded_desktops) v.registry) desktop.desktop_id named).1
          (desktop, rw forwarded_desktops stands, refl)

    taken : (take_pending forwarded.0 desktop.desktop_id msg.id).0 ≡ some (conn, msg.method)
    taken =
        rw forwarded_state (take-add_pending s desktop.desktop_id msg.id msg.method conn _ _ new).0

    -- A request of a paired phone, whose id is not in flight at its desktop, arrives at this desktop's
    -- socket and nowhere else. An answer with its id that comes in on that socket next arrives at
    -- the connection that the request came from, and nowhere else.
    pub request_answered :
        (host' : Host) (raw' : String) (reply : ResponseMessage)
        → reply.id ≡ msg.id
        → let back = handle_desktop_response host' forwarded.0 desktop.socket raw' reply in
          (sends forwarded.1 ≡ delivered host desktop.socket (request msg))
          × (sends back.1
              ≡ delivered host' conn.socket
                  (response (answer back.0 desktop.desktop_id conn msg.method reply)))
    request_answered host' raw' reply same = (
      forwarded_sends,
      (response_routed host' forwarded.0 desktop.socket raw' reply desktop.desktop_id conn
          msg.method named known (rw same taken)).0,
    )
