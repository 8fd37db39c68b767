-- ===== src/Relay/State.antt =====
-- The state of apps/relay/src/state.ts, what a call reads from its host, and what it does to it.
use cucoudle.Prelude.{ℕ, String, Option, List, []}
use cucoudle.Prelude.Dict.{Dict}
use cucoudle.Protocol.Json.{Json, Fields}
use cucoudle.Protocol.Session.{MobileDevice}
use cucoudle.Protocol.Message.{WireMessage}

-- A WebSocket, by its identity.
abbrev pub Socket : Type 0
Socket = ℕ

pub record DesktopConn : Type 0 where
  pub desktop_id : String
  pub name : String
  pub platform : String
  pub app_version : String
  pub offered_capabilities : List String
  pub socket : Socket

pub record MobileConn : Type 0 where
  pub mobile_device_id : String
  pub mobile_device : MobileDevice
  pub desktop_id : String
  pub token : String
  pub offered_capabilities : List String
  pub socket : Socket

pub record Pairing : Type 0 where
  pub desktop_id : String
  pub expires_at : ℕ

pub record MobileSession : Type 0 where
  pub desktop_id : String
  pub mobile_device_id : String
  pub expires_at : ℕ

-- `timeout` is the handle that `setTimeout` returned.
pub record PendingRequest : Type 0 where
  pub desktop_id : String
  pub request_id : String
  pub method : String
  pub mobile : MobileConn
  pub timeout : ℕ

-- An armed timer of the host, with what its callback has captured: `key` by `addPending`, the
-- rest by the `onTimeout` that `handleMobileMessage` passes.
pub record Timer : Type 0 where
  pub handle : ℕ
  pub key : String
  pub delay : ℕ
  pub desktop_id : String
  pub request_id : String
  pub method : String
  pub params : Option Fields

-- The class `RelayState`, beside the host's armed timers and its next timer handle. A link's `Set`
-- is the list of its connections in the order of insertion: `linkMobile` is only ever called with
-- an object that was just made.
pub record RelayState : Type 0 where
  pub desktops : Dict DesktopConn
  pub pairings : Dict Pairing
  pub mobile_sessions : Dict MobileSession
  pub links : Dict (List MobileConn)
  pub pending : Dict PendingRequest
  pub timers : List Timer
  pub next_timer : ℕ

unfoldable pub new_state : RelayState
new_state = record {
  desktops = [];
  pairings = [];
  mobile_sessions = [];
  links = [];
  pending = [];
  timers = [];
  next_timer = 0;
}

-- What a call does to its host: a message sent, a socket closed, an entry of the audit log, whose
-- fields are `none` where the source has `undefined`.
pub data Effect : Type 0 where
  sent : Socket → WireMessage → Effect
  closed : Socket → ℕ → String → Effect
  logged : String → List (String × Option Json) → Effect

-- What a call reads from its host: the i-th reading of the clock in milliseconds, the ISO text of
-- a time, `randomUUID()`, the successive results of `randomInt(0, 1_000_000)`, and a socket's
-- `readyState`, `none` where the object has none.
pub record Host : Type 0 where
  pub clock : ℕ → ℕ
  pub iso : ℕ → String
  pub uuid : String
  pub draws : List ℕ
  pub ready_state : Socket → Option ℕ

-- `Ok | Err` of state.ts.
pub data Verdict {ℓ} (E : Type ℓ) : Type ℓ where
  granted : Verdict E
  refused : E → Verdict E
