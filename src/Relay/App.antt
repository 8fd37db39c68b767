-- ===== src/Relay/App.antt =====
-- apps/relay/src/app.ts: one event of the host after another.
pub mod Invariant
use cucoudle.Prelude.{ℕ, String, ◌≡◌, Option, none, some, List, [], ◌∷◌, ◌++◌}
use cucoudle.Protocol.Json.{string}
use cucoudle.Protocol.Params.{Schemas}
use cucoudle.Relay.State.{RelayState, Socket, Effect, logged, Host, new_state}
use cucoudle.Relay.DesktopHandler.{Step, handle_desktop_message, on_desktop_close}
use cucoudle.Relay.MobileHandler.{MobileOptions, handle_mobile_message, on_mobile_close, on_timeout}

-- What the host reports: a new socket, a message or a close on one of the two endpoints, or a
-- timer that falls due.
pub data Input : Type 0 where
  desktop_connected mobile_connected : Socket → Input
  desktop_message mobile_message : Socket → String → Input
  desktop_closed mobile_closed : Socket → Input
  timer_due : ℕ → Input

-- The handlers that `buildApp` attaches to the endpoints.
unfoldable pub step : Schemas → String → MobileOptions → Host → RelayState → Input → Option Step
step z relay_mobile_url options host s (desktop_connected socket) =
    some (s, logged "websocket.connected" (("role", some (string "desktop")) ∷ []) ∷ [])
step z relay_mobile_url options host s (mobile_connected socket) =
    some (s, logged "websocket.connected" (("role", some (string "mobile")) ∷ []) ∷ [])
step z relay_mobile_url options host s (desktop_message socket raw) =
    handle_desktop_message z host s socket raw relay_mobile_url options.log_input_text
      options.log_payloads
step z relay_mobile_url options host s (mobile_message socket raw) =
    some (handle_mobile_message z host s socket raw options)
step z relay_mobile_url options host s (desktop_closed socket) =
    some (on_desktop_close host s socket)
step z relay_mobile_url options host s (mobile_closed socket) = some (on_mobile_close host s socket)
step z relay_mobile_url options host s (timer_due handle) = some (on_timeout host s handle)

-- The states that the relay can come to, whatever its host reports and answers.
pub data Reach (z : Schemas) (relay_mobile_url : String) (options : MobileOptions)
    : RelayState → Type 0 where
  start : Reach z relay_mobile_url options new_state
  later :
      {s t : RelayState}
      → Reach z relay_mobile_url options s
      → (host : Host) (input : Input) (effects : List Effect)
      → step z relay_mobile_url options host s input ≡ some (t, effects)
      → Reach z relay_mobile_url options t
