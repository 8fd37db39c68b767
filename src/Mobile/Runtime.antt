-- ===== src/Mobile/Runtime.antt =====
-- apps/mobile/src/application/createMobileRuntime.ts: the coordinator, and the sessions that are opened.
-- A call of `openSession` at its `await` is the id of its session, in `subscribing`.
pub mod Latest
use Prim.Native.String.{◌++◌ as append_text}
use cucoudle.Prelude.{
  ℕ, String, Bool, true, false, not, ◌||◌, ◌&&◌, Option, none, some, List, [], ◌∷◌, ◌++◌, map,
  filter, elem, str_eq, is_some, if◌then◌else◌,
}
use cucoudle.Prelude.Steps.{and_then}
use cucoudle.Protocol.Json.{Json, string, number, array, object, strings, Fields, end, field}
use cucoudle.Mobile.Pairing.{PairingProfile}
use cucoudle.Mobile.Coordinator.{
  Coordinator, create_connection_coordinator, CoordinatorEffect, CoordinatorStep,
  OpenSessionRecovery, online, same_status,
}
use cucoudle.Mobile.Coordinator.Sync.{Outcome, fulfilled, refused, start, retry, dispose}

-- The variables of `createMobileRuntime`, and the coordinator's.
pub record Runtime : Type 0 where
  pub coordinator : Coordinator
  pub subscribing : List String
  pub latest : Option String
  pub disposed : Bool

unfoldable pub create_mobile_runtime : Runtime
unfolding create_connection_coordinator
create_mobile_runtime = record {
  coordinator = create_connection_coordinator;
  subscribing = [];
  latest = none;
  disposed = false;
}

-- What the coordinator does, what the runtime dispatches, where it navigates, and the calls that it
-- makes of its two clients.
pub data RuntimeEffect : Type 0 where
  coordinated : CoordinatorEffect → RuntimeEffect
  opened_dispatched : String → RuntimeEffect
  result_dispatched : Fields → RuntimeEffect
  pushed : String → RuntimeEffect
  session_requested : String → Fields → RuntimeEffect
  client_closed : RuntimeEffect
  pairing_connected : String → RuntimeEffect
  pairing_requested : String → Fields → RuntimeEffect
  pairing_closed : RuntimeEffect

abbrev pub RuntimeStep : Type 0
RuntimeStep = Runtime × List RuntimeEffect

-- A step of the coordinator, as one of the runtime.
abbrev pub coordinate : Runtime → CoordinatorStep → RuntimeStep
coordinate r (c, effects) = (record r { coordinator = c }, map coordinated effects)

-- openSession?.sessionId === sessionId && openSession.afterSeq !== undefined
unfoldable pub open_params : String → Option OpenSessionRecovery → Fields
open_params session_id none = field "sessionId" (string session_id) end
open_params session_id (some s) = field "sessionId" (string session_id) (
    if str_eq s.session_id session_id
    then elim s.after_seq [ none ↦ end | some seq ↦ field "afterSeq" (number seq) end ]
    else end)

-- openSession up to its `await`; `current` is what `getOpenSession` returns.
unfoldable pub open_session : String → Option OpenSessionRecovery → Runtime → RuntimeStep
unfolding same_status open_params
open_session session_id current r =
    let known = opened_dispatched session_id ∷ pushed (append_text "/session/" session_id) ∷ [] in
    let s : Runtime = record r { latest = some session_id } in
    if r.disposed || not (same_status r.coordinator.status online) || elem session_id r.subscribing
    then (s, known)
    else (
      record s { subscribing = r.subscribing ++ session_id ∷ [] },
      known ++ session_requested "session.subscribe" (open_params session_id current) ∷ [],
    )

-- latestOpenSessionId === sessionId
unfoldable pub is_latest : String → Option String → Bool
is_latest session_id none = false
is_latest session_id (some latest) = str_eq latest session_id

-- The rest of openSession, with its `finally`; a promise that is refused is passed over.
unfoldable pub session_answered : String → Outcome → Runtime → RuntimeStep
unfolding is_latest
session_answered session_id outcome r =
    let s : Runtime = record r {
      subscribing = filter (λ id. not (str_eq id session_id)) r.subscribing;
    } in
    elim outcome [
      | refused error ↦ (s, [])
      | fulfilled result ↦
          if not r.disposed && is_latest session_id r.latest
          then (s, result_dispatched result ∷ [])
          else (s, [])
    ]

-- The promise of `coordinator.start` is fulfilled at once where there is no profile.
unfoldable pub start_runtime : ℕ → Bool → Option PairingProfile → Runtime → RuntimeStep
unfolding start
start_runtime delay reported profile r =
    and_then (coordinate r (start delay reported profile r.coordinator))
      (λ s. (s, if is_some profile then [] else client_closed ∷ []))

unfoldable pub retry_runtime : ℕ → Bool → Runtime → RuntimeStep
unfolding retry
retry_runtime delay reported r = coordinate r (retry delay reported r.coordinator)

unfoldable pub dispose_runtime : Runtime → RuntimeStep
unfolding dispose
dispose_runtime r =
    if r.disposed
    then (r, [])
    else and_then (coordinate (record r { disposed = true }) (dispose r.coordinator))
        (λ s. (s, pairing_closed ∷ []))

-- sendInput, interrupt and respondInteraction
unfoldable pub send_input : Fields → RuntimeEffect
send_input params = session_requested "session.input" params

unfoldable pub interrupt : Fields → RuntimeEffect
interrupt params = session_requested "session.interrupt" params

unfoldable pub respond_interaction : Fields → RuntimeEffect
respond_interaction params = session_requested "interaction.respond" params

-- pair: what it does with the client of its own, as `connect` and the request turn out.
unfoldable pub pair :
    String → String → String → Json → Outcome → Outcome → List RuntimeEffect × Outcome
pair relay_ws_url desktop_id pairing_code mobile_device connection answer = elim connection [
  | refused error ↦ (pairing_connected relay_ws_url ∷ pairing_closed ∷ [], refused error)
  | fulfilled _ ↦ (
    pairing_connected relay_ws_url
        ∷ pairing_requested "mobile.pair" (
            field "desktopId" (string desktop_id) (
              field "pairingCode" (string pairing_code) (
                field "mobileDevice" mobile_device (
                  field "offeredCapabilities" (array (strings ("interaction.structured" ∷ [])))
                    end))))
        ∷ pairing_closed
        ∷ [],
    answer,
  )
]
