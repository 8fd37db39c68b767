-- ===== src/Mobile/Coordinator/Sync.antt =====
-- `synchronize` of apps/mobile/src/application/connectionCoordinator.ts with the rest of its body
-- after each `await`, `handleFailure`, and the functions that the coordinator returns.
use cucoudle.Prelude.{
  ℕ, suc, String, Bool, true, false, not, ◌||◌, ◌&&◌, Option, none, some, List, [], ◌∷◌, ◌++◌, ◌==◌,
  filter, any, elem, if◌then◌else◌,
}
use cucoudle.Prelude.Steps.{and_then}
use cucoudle.Protocol.Json.{string, number, array, Fields, end, field, field?, strings}
use cucoudle.Protocol.Message.{EventMessage}
use cucoudle.Mobile.Client.{disconnected, Reason}
use cucoudle.Mobile.Pairing.{PairingProfile}
use cucoudle.Mobile.Coordinator.{
  CoordinatorStatus, connecting, online, reconnecting, resyncing, recovery, pairing_required,
  OpenSessionRecovery, Stage, opening, resuming, listing, subscribing, invalidating, Run,
  Coordinator, capabilities_changed, profile_invalidated, list_dispatched, subscribe_dispatched,
  event_dispatched, connect_called, requested, close_called, CoordinatorStep, same_status,
  pairing_required_codes, recovery_codes, error_code, negotiated_capabilities, set_status,
  set_capabilities, cancel_reconnect, schedule_reconnect, on_connection,
}

-- The call waits.
abbrev pub suspend : ℕ → PairingProfile → Stage → Coordinator → Coordinator
suspend version profile stage c = record c {
  runs = c.runs ++ record { version = version; active_profile = profile; stage = stage } ∷ [];
}

-- `reported` says whether the client reports the close before its `close` returns.
unfoldable pub close_active_transport : ℕ → Bool → Coordinator → CoordinatorStep
unfolding on_connection
close_active_transport delay reported c =
    if c.has_active_transport
    then and_then
        (and_then (record c { replacing_transport = true }, close_called ∷ [])
          (λ d. if reported then on_connection delay d disconnected else (d, [])))
        (λ d. (record d { has_active_transport = false; replacing_transport = false }, []))
    else (c, [])

-- handleFailure up to the `await` in it.
unfoldable pub handle_failure : ℕ → ℕ → PairingProfile → Reason → Coordinator → CoordinatorStep
unfolding cancel_reconnect error_code schedule_reconnect set_status
handle_failure delay version active_profile error c =
    if c.disposed then (c, []) else elim (error_code error) [
      | none ↦ schedule_reconnect delay c
      | some code ↦
          if elem code pairing_required_codes
          then (
            suspend version active_profile invalidating
                (record (cancel_reconnect c) { profile = none; capabilities = none }),
            capabilities_changed none ∷ profile_invalidated active_profile ∷ [],
          )
          else if elem code recovery_codes
          then set_status (cancel_reconnect c) recovery
          else schedule_reconnect delay c
    ]

-- The body of `synchronize` behind its guard, up to the first `await`.
unfoldable pub begin : ℕ → Bool → CoordinatorStatus → PairingProfile → Coordinator → CoordinatorStep
unfolding set_status close_active_transport
begin delay reported entry_status active_profile c =
    let version = suc c.run_version in
    and_then
      (and_then (set_status (record c { run_version = version }) entry_status)
        (close_active_transport delay reported))
      (λ d.
        (suspend version active_profile opening d, connect_called active_profile.relay_ws_url ∷ []))

unfoldable pub synchronize : ℕ → Bool → CoordinatorStatus → Coordinator → CoordinatorStep
unfolding begin
synchronize delay reported entry_status c = elim c.profile [
  | none ↦ (c, [])
  | some active_profile ↦
      if c.disposed then (c, []) else begin delay reported entry_status active_profile c
]

-- The call sends a request, and waits.
abbrev pub ask : Run → Stage → String → Fields → Coordinator → CoordinatorStep
ask run stage method params c =
    (suspend run.version run.active_profile stage c, requested method params ∷ [])

unfoldable pub resume_params : PairingProfile → Fields
resume_params p = field "desktopId" (string p.desktop_id) (
    field "mobileDeviceId" (string p.mobile_device_id) (
      field "mobileSessionToken" (string p.mobile_session_token)
        (field "offeredCapabilities" (array (strings ("interaction.structured" ∷ []))) end)))

unfoldable pub subscribe_params : OpenSessionRecovery → Fields
subscribe_params s =
    field "sessionId" (string s.session_id)
      (elim s.after_seq [ none ↦ end | some seq ↦ field "afterSeq" (number seq) end ])

-- if (capabilities) { capabilities = undefined; … }
unfoldable pub forget_capabilities : Coordinator → CoordinatorStep
forget_capabilities c = elim c.capabilities [
  | none ↦ (c, [])
  | some l ↦ (record c { capabilities = none }, capabilities_changed none ∷ [])
]

-- After `connect`.
unfoldable pub transport_opened : Run → Coordinator → CoordinatorStep
unfolding set_status forget_capabilities resume_params
transport_opened run c =
    and_then
      (and_then (set_status (record c { has_active_transport = true }) resyncing)
        forget_capabilities)
      (ask run resuming "mobile.resume" (resume_params run.active_profile))

-- After the request `mobile.resume`.
unfoldable pub resumed : Run → Fields → Coordinator → CoordinatorStep
unfolding set_capabilities negotiated_capabilities
resumed run result c =
    and_then (set_capabilities c (negotiated_capabilities result))
      (ask run listing "session.list" end)

-- After the request `session.list`; `open_session` is what `getOpenSession` returns.
unfoldable pub listed : Run → Option OpenSessionRecovery → Fields → Coordinator → CoordinatorStep
unfolding set_capabilities negotiated_capabilities set_status subscribe_params
listed run open_session list c =
    and_then
      (and_then (set_capabilities c (negotiated_capabilities list))
        (λ d. (d, list_dispatched (field? "sessions" list) ∷ [])))
      (λ d. elim open_session [
        | none ↦ set_status d online
        | some s ↦ ask run subscribing "session.subscribe" (subscribe_params s) d
      ])

-- After the request `session.subscribe`.
unfoldable pub subscribed : Fields → Coordinator → CoordinatorStep
unfolding set_capabilities negotiated_capabilities set_status
subscribed result c =
    and_then
      (and_then (set_capabilities c (negotiated_capabilities result))
        (λ d. (d, subscribe_dispatched result ∷ [])))
      (λ d. set_status d online)

-- What a promise is settled with.
pub data Outcome : Type 0 where
  fulfilled : Fields → Outcome
  refused : Reason → Outcome

-- The rest of a call whose promise is fulfilled, behind the test of `disposed` and `version`.
unfoldable pub proceed : Run → Option OpenSessionRecovery → Fields → Coordinator → CoordinatorStep
unfolding transport_opened resumed listed subscribed
proceed run open_session result c = elim run.stage [
  | opening ↦ transport_opened run c
  | resuming ↦ resumed run result c
  | listing ↦ listed run open_session result c
  | subscribing ↦ subscribed result c
  | invalidating ↦ (c, [])
]

-- The rest of `handleFailure` after its `await`; an exception ends the call.
unfoldable pub invalidated : Outcome → Coordinator → CoordinatorStep
unfolding set_status
invalidated (fulfilled result) c = if c.disposed then (c, []) else set_status c pairing_required
invalidated (refused error) c = (c, [])

-- The rest of `synchronize` after an `await`; the `catch` takes an exception.
unfoldable pub returned :
    ℕ → Run → Option OpenSessionRecovery → Outcome → Coordinator → CoordinatorStep
unfolding proceed handle_failure
returned delay run open_session (fulfilled result) c =
    if c.disposed || not (run.version == c.run_version)
    then (c, [])
    else proceed run open_session result c
returned delay run open_session (refused error) c =
    if run.version == c.run_version
    then handle_failure delay run.version run.active_profile error c
    else (c, [])

unfoldable pub continue_run :
    ℕ → Run → Option OpenSessionRecovery → Outcome → Coordinator → CoordinatorStep
unfolding returned invalidated
continue_run delay run open_session outcome c = elim run.stage [
  | invalidating ↦ invalidated outcome c
  | _ ↦ returned delay run open_session outcome c
]

unfoldable pub find_run : ℕ → List Run → Option Run
find_run version [] = none
find_run version (run ∷ runs) =
    let rest = find_run version runs in if run.version == version then some run else rest

-- A promise that the call with this version waits for is settled.
unfoldable pub settle : ℕ → ℕ → Option OpenSessionRecovery → Outcome → Coordinator → CoordinatorStep
unfolding find_run continue_run
settle delay version open_session outcome c = elim (find_run version c.runs) [
  | none ↦ (c, [])
  | some run ↦
      continue_run delay run open_session outcome
        (record c { runs = filter (λ r. not (r.version == version)) c.runs })
]

unfoldable pub start : ℕ → Bool → Option PairingProfile → Coordinator → CoordinatorStep
unfolding cancel_reconnect synchronize set_status
start delay reported next_profile c =
    let d : Coordinator = record (cancel_reconnect c) { profile = next_profile } in
    elim next_profile [
      | none ↦
          and_then (record d { capabilities = none }, capabilities_changed none ∷ [])
            (λ e. set_status e pairing_required)
      | some profile ↦ synchronize delay reported connecting d
    ]

unfoldable pub retry : ℕ → Bool → Coordinator → CoordinatorStep
unfolding cancel_reconnect synchronize
retry delay reported c = elim c.profile [
  | none ↦ (c, [])
  | some profile ↦
      if c.disposed then (c, []) else synchronize delay reported reconnecting (cancel_reconnect c)
]

unfoldable pub dispose : Coordinator → CoordinatorStep
unfolding cancel_reconnect
dispose c = if c.disposed then (c, []) else (
  record (cancel_reconnect (record c { disposed = true; run_version = suc c.run_version })) {
    listening = false;
  },
  close_called ∷ [],
)

-- A timer of the host comes due: its callback runs.
unfoldable pub fire : ℕ → Bool → ℕ → Coordinator → CoordinatorStep
unfolding synchronize
fire delay reported timer c =
    if any (λ t. t == timer) c.armed
    then synchronize delay reported reconnecting
        (record c { armed = filter (λ t. not (t == timer)) c.armed; reconnect_timer = none })
    else (c, [])

-- The listener of events.
unfoldable pub on_event : Coordinator → EventMessage → CoordinatorStep
unfolding same_status
on_event c event =
    if not c.disposed && same_status c.status online
    then (c, event_dispatched event ∷ [])
    else (c, [])

pub record Snapshot : Type 0 where
  pub status : CoordinatorStatus
  pub profile : Option PairingProfile
  pub can_mutate : Bool
  pub negotiated_capabilities : Option (List String)

unfoldable pub get_snapshot : Coordinator → Snapshot
unfolding same_status
get_snapshot c = record {
  status = c.status;
  profile = c.profile;
  can_mutate = same_status c.status online;
  negotiated_capabilities = c.capabilities;
}
