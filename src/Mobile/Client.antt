-- ===== src/Mobile/Client.antt =====
-- apps/mobile/src/protocol/mobileClient.ts and protocolError.ts: requests over one socket at a time.
pub mod Settling
use cucoudle.Prelude.{
  ℕ, suc, String, Bool, true, false, not, ◌||◌, ◌&&◌, Option, none, some, List, [], ◌∷◌, ◌++◌, map,
  any, ◌==◌, filter, if◌then◌else◌,
}
use mathlib.Core.Option
use cucoudle.Prelude.Steps.{and_then}
use cucoudle.Prelude.Dict.{Dict, get, set, delete}
use cucoudle.Protocol.Json.{Fields, end}
use cucoudle.Protocol.Message.{
  ErrorCode, internal_error, ProtocolError, RequestMessage, ResponseMessage, EventMessage,
  WireMessage, request, response, event, protocol_version,
}
use cucoudle.Protocol.Params.{Schemas}
use cucoudle.Protocol.Envelope.{ok, failed, parse_wire_message}

pub data ConnectionState : Type 0 where
  disconnected connecting connected : ConnectionState

-- What a promise is rejected with: an `Error` with this message, or a `ProtocolError`.
pub data Reason : Type 0 where
  plain : String → Reason
  protocol : ProtocolError → Reason

-- The variables of `createMobileClient`. A socket and a promise are numbers, their identities; the
-- resolve and reject of a pending request are its promise. `settled` holds the sockets whose attempt
-- to connect is settled, `cancel_connect` the socket whose attempt it cancels.
pub record ClientState : Type 0 where
  pub pending : Dict ℕ
  pub event_listeners : List ℕ
  pub connection_listeners : List ℕ
  pub socket : Option ℕ
  pub state : ConnectionState
  pub cancel_connect : Option ℕ
  pub settled : List ℕ
  pub next_promise : ℕ

unfoldable pub create_client : ClientState
create_client = record {
  pending = [];
  event_listeners = [];
  connection_listeners = [];
  socket = none;
  state = disconnected;
  cancel_connect = none;
  settled = [];
  next_promise = 0;
}

-- What the client does: it settles promises, of requests (`resolved`, `rejected`) or of attempts to
-- connect (`opened`, `refused`, `threw`), calls listeners, and uses the socket.
pub data ClientEffect : Type 0 where
  resolved : ℕ → Fields → ClientEffect
  rejected : ℕ → Reason → ClientEffect
  opened : ℕ → ClientEffect
  refused : ℕ → String → ClientEffect
  threw : String → ClientEffect
  notified : ℕ → ConnectionState → ClientEffect
  delivered : ℕ → EventMessage → ClientEffect
  sent : ℕ → RequestMessage → ClientEffect
  closed : ℕ → ClientEffect

abbrev pub ClientStep : Type 0
ClientStep = ClientState × List ClientEffect

unfoldable pub set_state : ClientState → ConnectionState → ClientStep
set_state c next_state =
    (record c { state = next_state }, map (λ l. notified l next_state) c.connection_listeners)

unfoldable pub reject_pending : ClientState → String → ClientStep
reject_pending c reason =
    (record c { pending = [] }, map (λ e. rejected e.1 (plain reason)) c.pending)

-- response.error, or the error that stands in for it
unfoldable pub error_of : ResponseMessage → ProtocolError
error_of msg =
    Option.get_or msg.error
      (record { code = internal_error; message = "request failed"; details = none })

unfoldable pub handle_response : ClientState → ResponseMessage → ClientStep
handle_response c msg = elim (get msg.id c.pending) [
  | none ↦ (c, [])
  | some promise ↦ (
    record c { pending = delete msg.id c.pending },
    (if msg.ok
          then resolved promise (Option.get_or msg.result end)
          else rejected promise (protocol (error_of msg)))
        ∷ [],
  )
]

unfoldable pub receive : ClientState → WireMessage → ClientStep
receive c (request msg) = (c, [])
receive c (response msg) = handle_response c msg
receive c (event msg) = (c, map (λ l. delivered l msg) c.event_listeners)

unfoldable pub handle_message : Schemas → ClientState → String → ClientStep
handle_message z c raw = elim (parse_wire_message z raw) [
  | failed id code text ↦ (c, [])
  | ok msg ↦ receive c msg
]

-- o === socket
abbrev pub is_socket : Option ℕ → ℕ → Bool
is_socket none socket = false
is_socket (some s) socket = s == socket

unfoldable pub is_settled : ClientState → ℕ → Bool
is_settled c socket = any (λ s. s == socket) c.settled

-- `settled = true`, and `cancelConnect = null` where it is this attempt's.
unfoldable pub settle_attempt : ClientState → ℕ → ClientState
settle_attempt c socket = record c {
  settled = socket ∷ c.settled;
  cancel_connect = if is_socket c.cancel_connect socket then none else c.cancel_connect;
}

unfoldable pub cancel_attempt : ClientState → ℕ → String → ClientStep
cancel_attempt c socket reason =
    if is_settled c socket then (c, []) else (settle_attempt c socket, refused socket reason ∷ [])

unfoldable pub handle_close : ClientState → ℕ → ClientStep
handle_close c closed_socket =
    if is_socket c.socket closed_socket
    then and_then (reject_pending (record c { socket = none }) "connection closed")
        (λ d. set_state d disconnected)
    else (c, [])

-- What the socket factory does: it makes a socket, or throws.
pub data Factory : Type 0 where
  made : ℕ → Factory
  thrown : String → Factory

unfoldable pub start_attempt : ClientState → ℕ → ClientState
start_attempt c next_socket = record c {
  cancel_connect = some next_socket;
  socket = some next_socket;
}

unfoldable pub cancel_previous : ClientState → ClientStep
cancel_previous c = elim c.cancel_connect [
  | none ↦ (c, [])
  | some socket ↦ cancel_attempt c socket "connection superseded"
]

unfoldable pub attempt : Factory → ClientState → ClientStep
attempt (made next_socket) c = (start_attempt c next_socket, [])
attempt (thrown reason) c = and_then (set_state c disconnected) (λ d. (d, threw reason ∷ []))

unfoldable pub connect : ClientState → Factory → ClientStep
connect c factory =
    and_then (and_then (cancel_previous c) (λ d. set_state d connecting)) (attempt factory)

unfoldable pub on_open : ClientState → ℕ → ClientStep
on_open c socket =
    if is_settled c socket || not (is_socket c.socket socket)
    then (c, [])
    else and_then (set_state (settle_attempt c socket) connected) (λ d. (d, opened socket ∷ []))

unfoldable pub on_close : ClientState → ℕ → ClientStep
on_close c socket =
    and_then (cancel_attempt c socket "connection closed") (λ d. handle_close d socket)

unfoldable pub on_error : ClientState → ℕ → ClientStep
on_error c socket =
    if not (is_settled c socket) && is_socket c.socket socket
    then and_then (cancel_attempt c socket "connection failed") (λ d. set_state d disconnected)
    else (c, [])

unfoldable pub close : ClientState → ClientStep
close c = elim c.socket [ none ↦ (c, []) | some socket ↦ (c, closed socket ∷ []) ]

abbrev pub is_connected : ConnectionState → Bool
is_connected connected = true
is_connected _ = false

-- The request sent on the socket under a new id; `error` is what `send` throws, if it does.
unfoldable pub send_request :
    ClientState → ℕ → String → String → Fields → String → Option String → ClientStep
send_request c socket id method params now error =
    let promise = c.next_promise in
    let added : ClientState = record c {
      pending = set id promise c.pending;
      next_promise = suc promise;
    } in
    elim error [
      | none ↦ (
        added,
        sent socket (record {
          version = protocol_version;
          id = id;
          method = method;
          params = some params;
          sent_at = now;
        })
            ∷ [],
      )
      | some reason ↦
          (record added { pending = delete id added.pending }, rejected promise (plain reason) ∷ [])
    ]

unfoldable pub client_request :
    ClientState → String → String → Fields → String → Option String → ClientStep
client_request c id method params now error =
    let refusal : ClientStep = (
      record c { next_promise = suc c.next_promise },
      rejected c.next_promise (plain "not connected") ∷ [],
    ) in
    if is_connected c.state
    then elim c.socket [
      | none ↦ refusal
      | some socket ↦ send_request c socket id method params now error
    ]
    else refusal

-- listeners.add(listener)
unfoldable pub add_listener : ℕ → List ℕ → List ℕ
add_listener listener listeners =
    if any (λ l. l == listener) listeners then listeners else listeners ++ listener ∷ []

-- listeners.delete(listener)
unfoldable pub delete_listener : ℕ → List ℕ → List ℕ
delete_listener listener = filter (λ l. not (l == listener))

unfoldable pub on_event : ClientState → ℕ → ClientState
on_event c listener = record c { event_listeners = add_listener listener c.event_listeners }

-- What `onEvent` returns, called.
unfoldable pub off_event : ClientState → ℕ → ClientState
off_event c listener = record c { event_listeners = delete_listener listener c.event_listeners }

unfoldable pub on_connection : ClientState → ℕ → ClientState
on_connection c listener = record c {
  connection_listeners = add_listener listener c.connection_listeners;
}

-- What `onConnection` returns, called.
unfoldable pub off_connection : ClientState → ℕ → ClientState
off_connection c listener = record c {
  connection_listeners = delete_listener listener c.connection_listeners;
}
