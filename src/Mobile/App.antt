-- ===== src/Mobile/App.antt =====
-- apps/mobile/src/application/AppProvider.tsx: the state of the application around its runtime, and what
-- the runtime's callbacks do to it. The promises of the secure store are fulfilled at once.
pub mod Status
pub mod Reachable
pub mod Faithful
pub mod Recovery
use cucoudle.Prelude.{
  ℕ, String, Bool, true, false, ◌&&◌, Option, none, some, List, [], ◌∷◌, map, is_some, str_eq,
  if◌then◌else◌,
}
use cucoudle.Prelude.Dict.{get}
use cucoudle.Prelude.Steps.{and_then}
use cucoudle.Protocol.Json.{Json, Fields}
use cucoudle.Protocol.Params.{Parsed, success, failure}
use cucoudle.Mobile.State.{SessionState}
use cucoudle.Mobile.Pairing.{PairingProfile, PairingRequest, Platform, build_pairing_profile}
use cucoudle.Mobile.Pairing.Repository.{Storage, get_profile, replace_profile, clear_profile}
use cucoudle.Mobile.Coordinator.{
  CoordinatorStatus, OpenSessionRecovery, status_changed, capabilities_changed, profile_invalidated,
  list_dispatched,
}
use cucoudle.Mobile.Coordinator.Sync.{Outcome}
use cucoudle.Mobile.Coordinator.Steps.{Input, step}
use cucoudle.Mobile.Runtime.{
  Runtime, create_mobile_runtime, RuntimeEffect, coordinated, RuntimeStep, coordinate,
  start_runtime, open_session, session_answered, dispose_runtime,
}

pub data AppConnectionStatus : Type 0 where
  idle reconnecting resyncing online offline recovery pairing_required : AppConnectionStatus

-- The state, the refs and the store; `is_ready` is bootstrapStatus.
pub record App (S : Type 0) : Type 0 where
  pub is_ready : Bool
  pub profile : Option PairingProfile
  pub connection_status : AppConnectionStatus
  pub has_loaded_session_list : Bool
  pub negotiated_capabilities : Option (List String)
  pub exit_recovery_on_online : Bool
  pub runtime : Runtime
  pub store : S

-- Where the application navigates, and what its runtime does besides calling it back.
pub data AppEffect : Type 0 where
  route_replaced route_pushed : String → AppEffect
  performed : RuntimeEffect → AppEffect

abbrev pub app_status : CoordinatorStatus → AppConnectionStatus
app_status CoordinatorStatus.idle = idle
app_status CoordinatorStatus.connecting = reconnecting
app_status CoordinatorStatus.online = online
app_status CoordinatorStatus.reconnecting = reconnecting
app_status CoordinatorStatus.resyncing = resyncing
app_status CoordinatorStatus.recovery = recovery
app_status CoordinatorStatus.pairing_required = pairing_required

-- getOpenSession
unfoldable pub get_open_session : SessionState → Option OpenSessionRecovery
unfolding get
get_open_session s = elim s.open_session_id [
  | none ↦ none
  | some session_id ↦
      if str_eq session_id ""
      then none
      else some (record {
        session_id = session_id;
        after_seq = elim (get session_id s.terminal_by_session_id) [
          | none ↦ none
          | some buffer ↦ some buffer.last_seq
        ];
      })
]

abbrev pub AppStep : Type 0 → Type 0
AppStep S = App S × List AppEffect

module _ {S : Type 0} where
  unfoldable pub on_status_change : CoordinatorStatus → App S → AppStep S
  on_status_change status a =
      let shown : App S = record a { connection_status = app_status status } in
      elim status [
        | CoordinatorStatus.recovery ↦
            (record shown { exit_recovery_on_online = true }, route_replaced "/recovery" ∷ [])
        | CoordinatorStatus.pairing_required ↦
            (record shown { exit_recovery_on_online = false }, route_replaced "/pairing" ∷ [])
        | CoordinatorStatus.online ↦
            if a.exit_recovery_on_online
            then (
              record shown { exit_recovery_on_online = false },
              route_replaced "/(tabs)/inbox" ∷ [],
            )
            else (shown, [])
        | _ ↦ (shown, [])
      ]

module _ {S : Type 0} (z : Platform) (storage : Storage S) where
  -- The callbacks of the runtime; `dispatch` also notes that a list came.
  unfoldable pub deliver : RuntimeEffect → App S → AppStep S
  unfolding on_status_change clear_profile
  deliver (coordinated (status_changed status)) a = on_status_change status a
  deliver (coordinated (capabilities_changed capabilities)) a =
      (record a { negotiated_capabilities = capabilities }, [])
  deliver (coordinated (profile_invalidated profile)) a =
      (record a { profile = none; store = clear_profile z storage a.store }, [])
  deliver (coordinated (list_dispatched list)) a = (
    record a { has_loaded_session_list = true },
    performed (coordinated (list_dispatched list)) ∷ [],
  )
  deliver effect a = (a, performed effect ∷ [])

  unfoldable pub deliver_all : List RuntimeEffect → App S → AppStep S
  unfolding deliver
  deliver_all [] a = (a, [])
  deliver_all (effect ∷ effects) a = and_then (deliver effect a) (deliver_all effects)

  -- A step of the runtime, with the callbacks that it makes.
  abbrev pub perform : App S → RuntimeStep → AppStep S
  perform a (r, effects) = deliver_all effects (record a { runtime = r })

  -- The state before the profile is restored.
  abbrev pub new_app : S → App S
  new_app store = record {
    is_ready = false;
    profile = none;
    connection_status = idle;
    has_loaded_session_list = false;
    negotiated_capabilities = none;
    exit_recovery_on_online = false;
    runtime = create_mobile_runtime;
    store = store;
  }

  -- The first effect: the stored profile is restored, and the runtime started with it.
  unfoldable pub bootstrap : ℕ → Bool → S → AppStep S
  unfolding get_profile start_runtime deliver_all
  bootstrap delay reported store =
      let a : App S = record (new_app store) { is_ready = true } in
      elim (get_profile z storage store) [
        | none ↦ (a, route_replaced "/pairing" ∷ [])
        | some restored ↦
            and_then
              (
                record a { profile = some restored; connection_status = reconnecting },
                route_replaced "/(tabs)/inbox" ∷ [],
              )
              (λ b. perform b (start_runtime delay reported (some restored) b.runtime))
      ]

  unfoldable pub on_paired : ℕ → Bool → PairingProfile → App S → AppStep S
  unfolding start_runtime deliver_all
  on_paired delay reported next_profile a =
      and_then
        (
          record a { profile = some next_profile; connection_status = reconnecting },
          route_replaced "/(tabs)/inbox" ∷ [],
        )
        (λ b. perform b (start_runtime delay reported (some next_profile) b.runtime))

  unfoldable pub clear_pairing : ℕ → Bool → App S → AppStep S
  unfolding start_runtime deliver_all clear_profile
  clear_pairing delay reported a =
      and_then (perform a (start_runtime delay reported none a.runtime))
        (λ b. (record b { profile = none; store = clear_profile z storage b.store }, []))

  -- saveProfile and onPaired, as `submit` of PairingScreen.tsx calls them when the desktop has answered;
  -- an exception leaves the application as it is.
  unfoldable pub save_and_pair : ℕ → Bool → PairingRequest → Json → Json → App S → AppStep S
  unfolding build_pairing_profile replace_profile on_paired
  save_and_pair delay reported request mobile_device result a =
      elim (build_pairing_profile z request mobile_device result) [
        | failure message ↦ (a, [])
        | success profile ↦ elim (replace_profile z storage profile a.store) [
          | failure message ↦ (a, [])
          | success store ↦ on_paired delay reported profile (record a { store = store })
        ]
      ]

  -- What the coordinator is asked by its host, its client and the application.
  unfoldable pub coordinator_step : ℕ → Bool → Input → App S → AppStep S
  unfolding step deliver_all
  coordinator_step delay reported input a =
      perform a (coordinate a.runtime (step delay reported input a.runtime.coordinator))

  -- openSession and viewSession
  unfoldable pub view_session : String → SessionState → App S → AppStep S
  unfolding open_session deliver_all get_open_session
  view_session session_id state a =
      perform a (open_session session_id (get_open_session state) a.runtime)

  -- The rest of openSession.
  unfoldable pub view_answered : String → Outcome → App S → AppStep S
  unfolding session_answered deliver_all
  view_answered session_id outcome a = perform a (session_answered session_id outcome a.runtime)

  -- The cleanup of the second effect.
  unfoldable pub unmount : App S → AppStep S
  unfolding dispose_runtime deliver_all
  unmount a = perform a (dispose_runtime a.runtime)

abbrev pub pair_another_computer : List AppEffect
pair_another_computer = route_pushed "/pairing" ∷ []
