-- ===== src/Relay/App/Invariant.antt =====
-- Every event of the host keeps the relay's invariant, so it holds in every state that it reaches.
use mathlib.Core.Option
use cucoudle.Prelude.{
  ℕ, String, ◌≡◌, refl, Bool, true, false, Option, none, some, List, inl, inr, arith, Option-cases,
  if◌then◌else◌,
}
use cucoudle.Protocol.Message.{
  RequestMessage, ResponseMessage, EventMessage, WireMessage, request, response, event,
}
use cucoudle.Protocol.Envelope.{ParseResult, ok, failed, parse_wire_message}
use cucoudle.Protocol.Params.{Schemas, MobilePairParams, MobileResumeParams}
use cucoudle.Relay.State.{RelayState, MobileConn, DesktopConn, Socket, Host, Effect}
use cucoudle.Relay.Desktops.{find_desktop_id, remove_desktop_by_socket}
use cucoudle.Relay.Pairings.{create_pairing}
use cucoudle.Relay.DesktopHandler.{
  Step, after_log, create_for, created_step, handle_register, handle_pairing_create,
  handle_desktop_request, handle_desktop_response, handle_desktop_event, dispatch_desktop,
  handle_desktop_message, on_desktop_close,
}
use cucoudle.Relay.MobileHandler.{
  MobileOptions, finish_pair, pair_with, handle_pair, resume_with, handle_resume, forward_to,
  handle_forwarded, handle_mobile_request, dispatch_mobile, handle_mobile_message, on_mobile_close,
  on_timeout, resumed_conn,
}
use cucoudle.Relay.Output.{log_received_message}
use cucoudle.Relay.App.{
  Input, desktop_connected, mobile_connected, desktop_message, mobile_message, desktop_closed,
  mobile_closed, timer_due, step, Reach, start, later,
}
use cucoudle.Relay.Validity.{
  IsValid, new_state-IsValid, register_desktop-IsValid, remove_desktop_by_socket-IsValid,
  consume_pairing-IsValid, create_pairing-IsValid, issue_mobile_session-IsValid,
  resume_mobile-IsValid, link_mobile-IsValid, unlink_mobile_by_socket-IsValid, add_pending-IsValid,
  take_pending-IsValid, fire_timer-IsValid, remove_pending_for_desktop-IsValid,
}

after_log-IsValid :
    (entry : Effect) (o : Option Step) (t : RelayState) (effects : List Effect)
    → after_log entry o ≡ some (t, effects)
    → ((f : List Effect) → o ≡ some (t, f) → IsValid t)
    → IsValid t
after_log-IsValid entry none t effects h k = absurd (ground arith)
after_log-IsValid entry (some (u, f)) t effects h k = k f (ground arith)

if-IsValid : (b : Bool) (x y : Step) → IsValid x.0 → IsValid y.0 → IsValid (if b then x else y).0
if-IsValid true x y h k = h
if-IsValid false x y h k = k

module _ (z : Schemas) (host : Host) (s : RelayState) (v : IsValid s) (socket : Socket) where
  handle_register-IsValid : (msg : RequestMessage) → IsValid (handle_register z host s socket msg).0
  unfolding handle_register
  handle_register-IsValid msg = grind (arith, v, register_desktop-IsValid s v)

  create_for-IsValid :
      (url id : String) (msg : RequestMessage) (ttl : ℕ) (t : RelayState) (effects : List Effect)
      → create_for host s socket url id msg ttl ≡ some (t, effects)
      → IsValid t
  unfolding create_for created_step
  create_for-IsValid url id msg ttl t effects h =
      elim (Option-cases (create_pairing s id ttl url (host.clock 0) host.iso host.draws)) [
        | inl e ↦ ground (arith, h, e, v)
        | inr ((c, s'), e) ↦
            let w =
              create_pairing-IsValid s v id ttl url (host.clock 0) host.iso host.draws c s' e in
            ground (arith, h, e, v, w)
      ]

  handle_pairing_create-IsValid :
      (url : String) (msg : RequestMessage) (t : RelayState) (effects : List Effect)
      → handle_pairing_create z host s socket url msg ≡ some (t, effects)
      → IsValid t
  unfolding handle_pairing_create
  handle_pairing_create-IsValid url msg t effects h = grind (arith, v, create_for-IsValid)

  handle_desktop_response-IsValid :
      (raw : String) (msg : ResponseMessage)
      → IsValid (handle_desktop_response host s socket raw msg).0
  unfolding handle_desktop_response
  handle_desktop_response-IsValid raw msg =
      ground (arith, v, take_pending-IsValid s v (find_desktop_id s socket) msg.id)

  handle_desktop_event-IsValid :
      (raw : String) (log : Bool) (msg : EventMessage)
      → IsValid (handle_desktop_event host s socket raw log msg).0
  unfolding handle_desktop_event
  handle_desktop_event-IsValid raw log msg = if-IsValid _ _ _ (if-IsValid _ _ _ v v) v

  on_desktop_close-IsValid : IsValid (on_desktop_close host s socket).0
  unfolding on_desktop_close
  on_desktop_close-IsValid =
      let w = remove_desktop_by_socket-IsValid s v socket in
      ground (
        arith,
        w,
        remove_pending_for_desktop-IsValid _ w
            (Option.get_or (remove_desktop_by_socket s socket).0 ""),
      )

  on_mobile_close-IsValid : IsValid (on_mobile_close host s socket).0
  unfolding on_mobile_close
  on_mobile_close-IsValid = ground (arith, unlink_mobile_by_socket-IsValid s v socket)

  on_timeout-IsValid : (h : ℕ) → IsValid (on_timeout host s h).0
  unfolding on_timeout
  on_timeout-IsValid h = ground (arith, fire_timer-IsValid s v h)

  handle_desktop_request-IsValid :
      (url : String) (msg : RequestMessage) (t : RelayState) (effects : List Effect)
      → handle_desktop_request z host s socket url msg ≡ some (t, effects)
      → IsValid t
  unfolding handle_desktop_request
  handle_desktop_request-IsValid url msg t effects h =
      ground
        (arith, h, v, handle_register-IsValid msg, handle_pairing_create-IsValid url msg t effects)

  dispatch_desktop-IsValid :
      (raw url : String) (log : Bool) (msg : WireMessage) (t : RelayState) (effects : List Effect)
      → dispatch_desktop z host s socket raw url log msg ≡ some (t, effects)
      → IsValid t
  unfolding dispatch_desktop
  dispatch_desktop-IsValid raw url log (request msg) t effects h =
      handle_desktop_request-IsValid url msg t effects h
  dispatch_desktop-IsValid raw url log (response msg) t effects h =
      ground (arith, h, handle_desktop_response-IsValid raw msg)
  dispatch_desktop-IsValid raw url log (event msg) t effects h =
      ground (arith, h, handle_desktop_event-IsValid raw log msg)

  handle_desktop_message-IsValid :
      (raw url : String) (log log_payloads : Bool) (t : RelayState) (effects : List Effect)
      → handle_desktop_message z host s socket raw url log log_payloads ≡ some (t, effects)
      → IsValid t
  unfolding handle_desktop_message
  handle_desktop_message-IsValid raw url log log_payloads t effects h =
      accepted (parse_wire_message z raw) refl
    where
      accepted : (r : ParseResult) → parse_wire_message z raw ≡ r → IsValid t
      accepted (failed id code text) e = ground (arith, h, e, v)
      accepted (ok msg) e =
          after_log-IsValid (log_received_message "desktop" msg raw log_payloads)
            (dispatch_desktop z host s socket raw url log msg) t effects (ground (arith, h, e))
            (λ f g. dispatch_desktop-IsValid raw url log msg t f g)

module _ (z : Schemas) (host : Host) (s : RelayState) (v : IsValid s) (socket : Socket)
    (options : MobileOptions) where
  finish_pair-IsValid :
      (msg : RequestMessage) (p : MobilePairParams) (desktop : DesktopConn)
      → IsValid (finish_pair host s socket options msg p desktop).0
  unfolding finish_pair
  finish_pair-IsValid msg p desktop =
      link_mobile-IsValid _ (issue_mobile_session-IsValid s v _ _ _ _ _ _) _

  forward_to-IsValid :
      (raw : String) (msg : RequestMessage) (conn : MobileConn) (desktop : DesktopConn)
      → IsValid (forward_to host s socket options raw msg conn desktop).0
  unfolding forward_to
  forward_to-IsValid raw msg conn desktop =
      let w = add_pending-IsValid s v desktop.desktop_id msg.id msg.method conn _ _ refl in
      if-IsValid _ _ _ w w

  handle_forwarded-IsValid :
      (raw : String) (msg : RequestMessage)
      → IsValid (handle_forwarded host s socket options raw msg).0
  unfolding handle_forwarded
  handle_forwarded-IsValid raw msg = grind (arith, v, forward_to-IsValid)

module _ (z : Schemas) (host : Host) (s : RelayState) (v : IsValid s) (socket : Socket)
    (options : MobileOptions) where
  pair_with-IsValid :
      (msg : RequestMessage) (p : MobilePairParams) (desktop : DesktopConn)
      → IsValid (pair_with host s socket options msg p desktop).0
  unfolding pair_with
  pair_with-IsValid msg p desktop =
      let w = consume_pairing-IsValid s v p.desktop_id p.pairing_code (host.clock 0) in
      ground (arith, w, finish_pair-IsValid z host _ w socket options msg p desktop)

  resume_with-IsValid :
      (msg : RequestMessage) (p : MobileResumeParams) (desktop : DesktopConn)
      → IsValid (resume_with host s socket msg p desktop).0
  unfolding resume_with
  resume_with-IsValid msg p desktop =
      let w =
        resume_mobile-IsValid s v p.desktop_id p.mobile_device_id p.mobile_session_token
          (host.clock 0) in
      ground (arith, w, link_mobile-IsValid _ w (resumed_conn p socket))

  handle_pair-IsValid : (msg : RequestMessage) → IsValid (handle_pair z host s socket options msg).0
  unfolding handle_pair
  handle_pair-IsValid msg = grind (arith, v, pair_with-IsValid)

  handle_resume-IsValid : (msg : RequestMessage) → IsValid (handle_resume z host s socket msg).0
  unfolding handle_resume
  handle_resume-IsValid msg = grind (arith, v, resume_with-IsValid)

  handle_mobile_request-IsValid :
      (raw : String) (msg : RequestMessage)
      → IsValid (handle_mobile_request z host s socket options raw msg).0
  unfolding handle_mobile_request
  handle_mobile_request-IsValid raw msg = if-IsValid _ _ _ (handle_pair-IsValid msg) (
      if-IsValid _ _ _ (handle_resume-IsValid msg)
        (if-IsValid _ _ _ (handle_forwarded-IsValid z host s v socket options raw msg) v))

  dispatch_mobile-IsValid :
      (raw : String) (msg : WireMessage)
      → IsValid (dispatch_mobile z host s socket options raw msg).0
  unfolding dispatch_mobile
  dispatch_mobile-IsValid raw (request msg) = handle_mobile_request-IsValid raw msg
  dispatch_mobile-IsValid raw _ = v

  handle_mobile_message-IsValid :
      (raw : String) → IsValid (handle_mobile_message z host s socket raw options).0
  unfolding handle_mobile_message
  handle_mobile_message-IsValid raw = grind (arith, v, dispatch_mobile-IsValid)

module _ (z : Schemas) (url : String) (options : MobileOptions) where
  -- Whatever the host reports, the state that the relay is left in is valid if the one before was:
  -- the registry is well formed, the codes are distinct keys, the links are grouped by desktop, and
  -- pending requests and armed timers belong to one another.
  pub step-IsValid :
      (host : Host) (s : RelayState) (input : Input) (t : RelayState) (effects : List Effect)
      → IsValid s
      → step z url options host s input ≡ some (t, effects)
      → IsValid t
  unfolding step
  step-IsValid host s (desktop_connected socket) t effects v h = ground (arith, h, v)
  step-IsValid host s (mobile_connected socket) t effects v h = ground (arith, h, v)
  step-IsValid host s (desktop_message socket raw) t effects v h =
      handle_desktop_message-IsValid z host s v socket raw url options.log_input_text
        options.log_payloads t effects h
  step-IsValid host s (mobile_message socket raw) t effects v h =
      ground (arith, h, handle_mobile_message-IsValid z host s v socket options raw)
  step-IsValid host s (desktop_closed socket) t effects v h =
      ground (arith, h, on_desktop_close-IsValid z host s v socket)
  step-IsValid host s (mobile_closed socket) t effects v h =
      ground (arith, h, on_mobile_close-IsValid z host s v socket)
  step-IsValid host s (timer_due handle) t effects v h =
      ground (arith, h, on_timeout-IsValid z host s v 0 handle)

  -- Every state that the relay can come to is valid.
  pub Reach-IsValid : {s : RelayState} → Reach z url options s → IsValid s
  Reach-IsValid start = new_state-IsValid
  Reach-IsValid (later {s} {t} r host input effects h) =
      step-IsValid host s input t effects (Reach-IsValid r) h
