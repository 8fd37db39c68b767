-- ===== src/Mobile/Coordinator.antt =====
-- apps/mobile/src/application/connectionCoordinator.ts. An `await` suspends a call of `synchronize`:
-- the rest of its body is a `Run`, which the state keeps until the promise is settled.
pub mod Sync
pub mod Steps
pub mod Invariant
pub mod Calls
pub mod Transport
pub mod Returns
pub mod Reachable
pub mod Silence
pub mod Stages
pub mod Progress
pub mod Failure
pub mod Reports
pub mod Told
pub mod Heard
use cucoudle.Prelude.{
  ℕ, suc, String, Bool, true, false, not, ◌||◌, ◌&&◌, Option, none, some, List, [], ◌∷◌, ◌++◌, ◌==◌,
  filter, elem, if◌then◌else◌, ltb, is_some,
}
use cucoudle.Prelude.Steps.{and_then}
use cucoudle.Protocol.Json.{
  Json, string, number, array, Items, nil, cons, Fields, end, field, field?, strings,
}
use cucoudle.Protocol.Message.{ErrorCode, error_code_text, ProtocolError, EventMessage}
use cucoudle.Mobile.Client.{ConnectionState, disconnected, Reason, plain, protocol}
use cucoudle.Mobile.Pairing.{PairingProfile}

pub data CoordinatorStatus : Type 0 where
  idle connecting online reconnecting resyncing recovery pairing_required : CoordinatorStatus

pub record OpenSessionRecovery : Type 0 where
  pub session_id : String
  pub after_seq : Option ℕ

-- What a call waits for: `connect`, the three requests, or `onProfileInvalidated`.
pub data Stage : Type 0 where
  opening resuming listing subscribing invalidating : Stage

-- A call of `synchronize` at an `await`, with its `version` and its `activeProfile`.
pub record Run : Type 0 where
  pub version : ℕ
  pub active_profile : PairingProfile
  pub stage : Stage

-- The variables of `createConnectionCoordinator`. `armed` holds the host's timers that run, and
-- `runs` the suspended calls.
pub record Coordinator : Type 0 where
  pub status : CoordinatorStatus
  pub profile : Option PairingProfile
  pub capabilities : Option (List String)
  pub reconnect_timer : Option ℕ
  pub disposed : Bool
  pub run_version : ℕ
  pub has_active_transport : Bool
  pub replacing_transport : Bool
  pub listening : Bool
  pub armed : List ℕ
  pub next_timer : ℕ
  pub runs : List Run

unfoldable pub create_connection_coordinator : Coordinator
create_connection_coordinator = record {
  status = idle;
  profile = none;
  capabilities = none;
  reconnect_timer = none;
  disposed = false;
  run_version = 0;
  has_active_transport = false;
  replacing_transport = false;
  listening = true;
  armed = [];
  next_timer = 0;
  runs = [];
}

-- The calls that the coordinator makes, of its dependencies and of the client.
pub data CoordinatorEffect : Type 0 where
  status_changed : CoordinatorStatus → CoordinatorEffect
  capabilities_changed : Option (List String) → CoordinatorEffect
  profile_invalidated : PairingProfile → CoordinatorEffect
  list_dispatched : Option Json → CoordinatorEffect
  subscribe_dispatched : Fields → CoordinatorEffect
  event_dispatched : EventMessage → CoordinatorEffect
  connect_called : String → CoordinatorEffect
  requested : String → Fields → CoordinatorEffect
  close_called : CoordinatorEffect
  timer_set : ℕ → CoordinatorEffect

abbrev pub CoordinatorStep : Type 0
CoordinatorStep = Coordinator × List CoordinatorEffect

-- left === right
unfoldable pub same_status : CoordinatorStatus → CoordinatorStatus → Bool
same_status idle idle = true
same_status connecting connecting = true
same_status online online = true
same_status reconnecting reconnecting = true
same_status resyncing resyncing = true
same_status recovery recovery = true
same_status pairing_required pairing_required = true
same_status _ _ = false

abbrev pub pairing_required_codes : List String
pairing_required_codes =
    "UNAUTHORIZED" ∷ "PAIRING_EXPIRED" ∷ "PAIRING_NOT_FOUND" ∷ "MOBILE_NOT_PAIRED" ∷ []

abbrev pub recovery_codes : List String
recovery_codes = "DESKTOP_OFFLINE" ∷ "DAEMON_UNAVAILABLE" ∷ []

abbrev pub max_demo_reconnect_delay_ms : ℕ
max_demo_reconnect_delay_ms = 5000

unfoldable pub error_code : Reason → Option String
error_code (plain message) = none
error_code (protocol error) = some (error_code_text error.code)

-- capabilities.every((item) => typeof item === "string") ? capabilities : undefined
unfoldable pub texts : Items → Option (List String)
texts nil = some []
texts (cons (string s) rest) = elim (texts rest) [ none ↦ none | some l ↦ some (s ∷ l) ]
texts (cons v rest) = none

-- [...new Set(added)], after the values in `set`
unfoldable pub to_set : List String → List String → List String
to_set set [] = set
to_set set (s ∷ added) = to_set (if elem s set then set else set ++ s ∷ []) added

unfoldable pub negotiated_capabilities : Fields → Option (List String)
unfolding texts to_set
negotiated_capabilities value = elim (field? "negotiatedCapabilities" value) [
  | some (array items) ↦ elim (texts items) [
    | none ↦ none
    | some capabilities ↦ some (to_set [] capabilities)
  ]
  | _ ↦ none
]

-- reconnectDelayMs, in whole milliseconds
unfoldable pub reconnect_delay : Option ℕ → ℕ
reconnect_delay none = 1000
reconnect_delay (some n) =
    if ltb n max_demo_reconnect_delay_ms then n else max_demo_reconnect_delay_ms

unfoldable pub set_status : Coordinator → CoordinatorStatus → CoordinatorStep
unfolding same_status
set_status c next_status =
    if c.disposed || same_status c.status next_status
    then (c, [])
    else (record c { status = next_status }, status_changed next_status ∷ [])

unfoldable pub set_capabilities : Coordinator → Option (List String) → CoordinatorStep
set_capabilities c none = (c, [])
set_capabilities c (some next) =
    (record c { capabilities = some next }, capabilities_changed (some next) ∷ [])

unfoldable pub cancel_reconnect : Coordinator → Coordinator
cancel_reconnect c = elim c.reconnect_timer [
  | none ↦ c
  | some timer ↦ record c { armed = filter (λ t. not (t == timer)) c.armed; reconnect_timer = none }
]

-- reconnectTimer = timers.setTimeout(…, reconnectDelayMs)
unfoldable pub arm_timer : ℕ → Coordinator → CoordinatorStep
arm_timer delay c = (
  record c {
    reconnect_timer = some c.next_timer;
    armed = c.armed ++ c.next_timer ∷ [];
    next_timer = suc c.next_timer;
  },
  timer_set delay ∷ [],
)

unfoldable pub schedule_reconnect : ℕ → Coordinator → CoordinatorStep
unfolding set_status arm_timer
schedule_reconnect delay c =
    if c.disposed || not (is_some c.profile) || is_some c.reconnect_timer
    then (c, [])
    else and_then (set_status c reconnecting) (arm_timer delay)

unfoldable pub on_connection : ℕ → Coordinator → ConnectionState → CoordinatorStep
unfolding same_status schedule_reconnect
on_connection delay c disconnected =
    let d : Coordinator = record c { has_active_transport = false } in
    if c.replacing_transport
      || same_status c.status idle
      || same_status c.status recovery
      || same_status c.status pairing_required
    then (d, [])
    else schedule_reconnect delay d
on_connection delay c state = (c, [])
