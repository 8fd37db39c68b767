-- ===== src/Relay/Routing/Once.antt =====
-- A request is answered at most once: by its desktop, by its timer, or by the close of its
-- desktop (`handleDesktopResponse`, `onTimeout` and `onDesktopClose` of apps/relay/src/handlers.ts).
use mathlib.Core.Option
use text.Mathlib.TextPositions.{eq_refl}
use cucoudle.Prelude.{
  ℕ, suc, String, ◌≡◌, ◌≢◌, refl, ap, ◌∙◌, not, none, some, List, [], ◌∷◌, ◌++◌, inl, inr, arith,
  Option-cases, str_eq, str_eq-cases, eq_iff, map, filter,
}
use cucoudle.Prelude.Dict.{get, get-delete, filter_some}
use cucoudle.Protocol.Message.{
  ResponseMessage, WireMessage, response, internal_error, desktop_offline,
}
use cucoudle.Protocol.Envelope.{make_error}
use cucoudle.Relay.State.{RelayState, MobileConn, PendingRequest, Timer, Socket, Host}
use cucoudle.Relay.Desktops.{find_desktop_id, remove_desktop_by_socket}
use cucoudle.Relay.Pending.{pending_key, armed, take_pending, remove_pending_for_desktop}
use cucoudle.Relay.Pending.Steps.{fire_timer_lem, get-remove_pending_for_desktop}
use cucoudle.Relay.Output.{send_error}
use cucoudle.Relay.DesktopHandler.{handle_desktop_response, send_offline, on_desktop_close}
use cucoudle.Relay.MobileHandler.{on_timeout}
use cucoudle.Relay.Validity.{IsValid, remove_desktop_by_socket-IsValid}
use cucoudle.Relay.Routing.{sends, delivered, sends-send, sends-append, response_dropped}

taken_once :
    (s : RelayState) (id rid : String) → (take_pending (take_pending s id rid).1 id rid).0 ≡ none
unfolding take_pending
taken_once s id rid =
    let key = pending_key id rid in
    ground (arith, get-delete key key s.pending, eq_refl key, Option-cases (get key s.pending))

take_pending-desktops :
    (s : RelayState) (id rid : String) → (take_pending s id rid).1.desktops ≡ s.desktops
unfolding take_pending
take_pending-desktops s id rid = ground arith

find_desktop_id-desktops :
    (s t : RelayState) (socket : Socket)
    → t.desktops ≡ s.desktops
    → find_desktop_id t socket ≡ find_desktop_id s socket
unfolding find_desktop_id
find_desktop_id-desktops s t socket h = rw (h, find_desktop_id) refl

module _ (host : Host) (s : RelayState) (socket : Socket) (raw : String)
    (msg : ResponseMessage) where
  unregistered :
      find_desktop_id s socket ≡ "" → handle_desktop_response host s socket raw msg ≡ (s, [])
  unfolding handle_desktop_response
  unregistered h = ground (arith, h, eq_iff (find_desktop_id s socket) "")

  registered_state :
      find_desktop_id s socket ≢ ""
      → (handle_desktop_response host s socket raw msg).0
        ≡ (take_pending s (find_desktop_id s socket) msg.id).1
  unfolding handle_desktop_response
  registered_state h = ground (arith, h, eq_iff (find_desktop_id s socket) "")

-- After an answer has come in on a socket, a second one with the same id on that socket is sent to
-- nobody and changes nothing.
pub answered_once :
    (host host' : Host) (s : RelayState) (socket : Socket) (raw raw' : String)
    (msg again : ResponseMessage)
    → again.id ≡ msg.id
    → let s' = (handle_desktop_response host s socket raw msg).0 in
      handle_desktop_response host' s' socket raw' again ≡ (s', [])
answered_once host host' s socket raw raw' msg again same =
    let id = find_desktop_id s socket in
    elim (str_eq-cases id "") [
      | inl (_, e) ↦
          rw (unregistered host s socket raw msg e) (unregistered host' s socket raw' again e)
      | inr (_, n) ↦ rw (registered_state host s socket raw msg n) (
          response_dropped host' _ socket raw' again id
            (find_desktop_id-desktops s _ socket (take_pending-desktops s id msg.id))
            (rw same (taken_once s id msg.id)))
    ]

module _ (host : Host) (s : RelayState) (v : IsValid s) (h : ℕ) (t : Timer)
    (due : armed h s.timers ≡ some t) where
  -- A timer that falls due belongs to a request that still waits. The phone that made this request,
  -- and nobody else, is sent an internal error under the request's id, and no request waits under the
  -- timer's key any longer.
  pub timed_out :
      (q : PendingRequest) × (get t.key s.pending ≡ some q)
      × (sends (on_timeout host s h).1
          ≡ delivered host q.mobile.socket (
              response (
                make_error q.request_id internal_error "desktop response timed out" none
                  (host.iso (host.clock 0)))))
      × (get t.key (on_timeout host s h).0.pending ≡ none)
  unfolding on_timeout send_error sends
  timed_out =
      let (q, found, _, same, fired, gone) = fire_timer_lem s v.timed h t due in
      (
        q,
        found,
        ground (
          arith,
          fired,
          same,
          sends-send host q.mobile.socket (
              response (
                make_error q.request_id internal_error "desktop response timed out" none
                  (host.iso (host.clock 0)))),
        ),
        ground (arith, fired, gone),
      )

-- The errors that arrive when a desktop goes, the i-th made at the i-th reading of the clock.
unfoldable pub offline_errors : Host → ℕ → List (String × MobileConn) → List (Socket × WireMessage)
offline_errors host i [] = []
offline_errors host i ((request_id, mobile) ∷ rest) =
    delivered host mobile.socket (
      response (
        make_error request_id desktop_offline "desktop disconnected" none
          (host.iso (host.clock i))))
    ++ offline_errors host (suc i) rest

sends-send_offline :
    (host : Host) (i : ℕ) (rs : List (String × MobileConn))
    → sends (send_offline host i rs) ≡ offline_errors host i rs
unfolding sends send_offline offline_errors send_error
sends-send_offline host i [] = refl
sends-send_offline host i ((rid, mobile) ∷ rs) =
    rw (sends-append, sends-send, sends-send_offline host (suc i) rs)

remove_desktop_by_socket-pending :
    (s : RelayState) (socket : Socket) → (remove_desktop_by_socket s socket).1.pending ≡ s.pending
unfolding remove_desktop_by_socket
remove_desktop_by_socket-pending s socket = ground arith

removed_id :
    (s : RelayState) (socket : Socket)
    → Option.get_or (remove_desktop_by_socket s socket).0 "" ≡ find_desktop_id s socket
unfolding remove_desktop_by_socket find_desktop_id
removed_id s socket = ground arith

module _ (host : Host) (s : RelayState) (v : IsValid s) (socket : Socket) (id : String)
    (found : find_desktop_id s socket ≡ id) (named : id ≢ "") where
  abbrev after_close : RelayState
  after_close = (remove_desktop_by_socket s socket).1

  closing :
      ((on_desktop_close host s socket).0 ≡ (remove_pending_for_desktop after_close id).1)
      × (sends (on_desktop_close host s socket).1
          ≡ sends (send_offline host 0 (remove_pending_for_desktop after_close id).0))
  unfolding on_desktop_close sends
  closing = (
    ground (arith, removed_id s socket, found, named, eq_iff id ""),
    ground (arith, removed_id s socket, found, named, eq_iff id ""),
  )

  removed_requests :
      (remove_pending_for_desktop after_close id).0
      ≡ map (λ e. (e.1.request_id, e.1.mobile)) (filter (λ e. str_eq e.1.desktop_id id) s.pending)
  unfolding remove_pending_for_desktop
  removed_requests = rw (remove_desktop_by_socket-pending s socket) refl

  -- When a desktop's socket closes, each of its waiting requests, in the order in which they were
  -- made, is answered with an error to the phone that made it; afterwards none of them waits, and
  -- every request to another desktop waits as before.
  pub desktop_gone :
      (sends (on_desktop_close host s socket).1
        ≡ offline_errors host 0 (
            map
              (λ e. (e.1.request_id, e.1.mobile))
              (filter (λ e. str_eq e.1.desktop_id id) s.pending)))
      × ((k : String)
          → get k (on_desktop_close host s socket).0.pending
            ≡ filter_some (λ q. not (str_eq q.desktop_id id)) (get k s.pending))
  desktop_gone = (
    closing.1 ∙ sends-send_offline host 0 _ ∙ ap (offline_errors host 0) removed_requests,
    λ k.
        rw
          (
            closing.0,
            get-remove_pending_for_desktop after_close
                (remove_desktop_by_socket-IsValid s v socket).timed id k,
            remove_desktop_by_socket-pending s socket,
          )
          refl,
  )
