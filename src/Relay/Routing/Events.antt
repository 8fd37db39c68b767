-- ===== src/Relay/Routing/Events.antt =====
-- Who is sent a desktop's event: the loop of `handleDesktopEvent` of apps/relay/src/handlers.ts.
use cucoudle.Prelude.{
  String, ◌≡◌, ◌≢◌, refl, sym, Bool, true, List, [], ◌∷◌, ◌++◌, inl, inr, arith, Bool-cases, eq_iff,
  elem, All, All-append,
}
use cucoudle.Protocol.Message.{EventMessage, WireMessage, event}
use cucoudle.Relay.State.{RelayState, MobileConn, Socket, Host}
use cucoudle.Relay.Desktops.{find_desktop_id}
use cucoudle.Relay.Links.{mobiles_for_desktop}
use cucoudle.Relay.Links.Grouping.{AllOf, mobiles_for_desktop-AllOf}
use cucoudle.Relay.Output.{is_open, send}
use cucoudle.Relay.DesktopHandler.{desktop_events, handle_desktop_event, send_all}
use cucoudle.Relay.Validity.{IsValid}
use cucoudle.Relay.Routing.{sends, delivered, sends-send, sends-append}

-- The connections whose sockets are open are sent the message, once each, in their order.
unfoldable pub fan_out : Host → List MobileConn → WireMessage → List (Socket × WireMessage)
fan_out host [] msg = []
fan_out host (c ∷ cs) msg = delivered host c.socket msg ++ fan_out host cs msg

sends-send_all :
    (host : Host) (cs : List MobileConn) (msg : WireMessage)
    → sends (send_all host cs msg) ≡ fan_out host cs msg
unfolding send_all fan_out sends
sends-send_all host [] msg = refl
sends-send_all host (c ∷ cs) msg =
    rw (sends-append (send host c.socket msg), sends-send, sends-send_all host cs msg)

-- Each of the messages is this one, and goes to a connection of the desktop.
abbrev pub ToLinked : String → WireMessage → List (Socket × WireMessage) → Type 0
ToLinked id msg =
    All (λ e. (e.1 ≡ msg) × ((c : MobileConn) × (c.socket ≡ e.0) × (c.desktop_id ≡ id)))

delivered-ToLinked :
    (host : Host) (c : MobileConn) (msg : WireMessage)
    → ToLinked c.desktop_id msg (delivered host c.socket msg)
delivered-ToLinked host c msg = elim (Bool-cases (is_open host c.socket)) [
  | inl y ↦ rw y ((refl, (c, refl, refl)), tt)
  | inr n ↦ rw n tt
]

fan_out-ToLinked :
    (host : Host) (id : String) (msg : WireMessage) (cs : List MobileConn)
    → AllOf id cs
    → ToLinked id msg (fan_out host cs msg)
unfolding fan_out
fan_out-ToLinked host id msg [] a = tt
fan_out-ToLinked host id msg (c ∷ cs) a =
    All-append _ (delivered host c.socket msg) (fan_out host cs msg)
      (rw (sym (a.0)) (delivered-ToLinked host c msg)) (fan_out-ToLinked host id msg cs a.1)

module _ (host : Host) (s : RelayState) (v : IsValid s) (socket : Socket) (raw : String)
    (log : Bool) (msg : EventMessage) (id : String) (found : find_desktop_id s socket ≡ id)
    (named : id ≢ "") (known : elem msg.event desktop_events ≡ true) where
  -- An event of the protocol that comes in on a desktop's socket is sent on unchanged to the open
  -- sockets of the connections that this desktop is linked to, to each in turn, and each of these
  -- was linked to this desktop and no other; the state stays.
  pub event_fan_out :
      (sends (handle_desktop_event host s socket raw log msg).1
        ≡ fan_out host (mobiles_for_desktop s id) (event msg))
      × ToLinked id (event msg) (fan_out host (mobiles_for_desktop s id) (event msg))
      × ((handle_desktop_event host s socket raw log msg).0 ≡ s)
  unfolding handle_desktop_event sends
  event_fan_out = (
    ground (
      arith,
      found,
      eq_iff id "",
      named,
      known,
      sends-send_all host (mobiles_for_desktop s id) (event msg),
    ),
    fan_out-ToLinked host id (event msg) _ (mobiles_for_desktop-AllOf s id v.grouped),
    ground (arith, found, eq_iff id "", named, known),
  )
