-- ===== src/Mobile/Coordinator/Steps.antt =====
-- The coordinator as a machine: what the host, the client and the application ask of it, in turn.
use cucoudle.Prelude.{ℕ, Bool, Option, [], if◌then◌else◌}
use cucoudle.Protocol.Message.{EventMessage}
use cucoudle.Mobile.Client.{ConnectionState}
use cucoudle.Mobile.Pairing.{PairingProfile}
use cucoudle.Mobile.Coordinator.{
  OpenSessionRecovery, Coordinator, create_connection_coordinator, CoordinatorStep, on_connection,
}
use cucoudle.Mobile.Coordinator.Sync.{Outcome, settle, start, retry, dispose, fire, on_event}

pub data Input : Type 0 where
  started : Option PairingProfile → Input
  retried closed : Input
  fired : ℕ → Input
  settled : ℕ → Option OpenSessionRecovery → Outcome → Input
  connection_changed : ConnectionState → Input
  event_received : EventMessage → Input

-- The client calls the listeners until they are taken off.
unfoldable pub step : ℕ → Bool → Input → Coordinator → CoordinatorStep
unfolding start retry dispose fire settle on_connection on_event
step delay reported (started profile) c = start delay reported profile c
step delay reported retried c = retry delay reported c
step delay reported closed c = dispose c
step delay reported (fired timer) c = fire delay reported timer c
step delay reported (settled version open_session outcome) c =
    settle delay version open_session outcome c
step delay reported (connection_changed state) c =
    if c.listening then on_connection delay c state else (c, [])
step delay reported (event_received event) c = if c.listening then on_event c event else (c, [])

-- The states that the inputs lead to.
pub data Reach (delay : ℕ) : Coordinator → Type 0 where
  created : Reach delay create_connection_coordinator
  stepped :
      {c : Coordinator} (input : Input) (reported : Bool)
      → Reach delay c
      → Reach delay (step delay reported input c).0
