-- ===== src/Mobile/Coordinator/Returns.antt =====
-- The coordinator's invariant over what a call does when its promise is settled.
use cucoudle.Prelude.{ℕ, String, true, not, ◌||◌, Option, none, some, List, ◌==◌, if-holds}
use cucoudle.Protocol.Json.{Fields}
use cucoudle.Mobile.Pairing.{PairingProfile}
use cucoudle.Mobile.Coordinator.{
  CoordinatorStatus, Coordinator, OpenSessionRecovery, Stage, Run, CoordinatorStep, set_status,
  set_capabilities, negotiated_capabilities,
}
use cucoudle.Mobile.Coordinator.Sync.{
  Outcome, fulfilled, refused, transport_opened, forget_capabilities, resumed, listed, subscribed,
  proceed, invalidated, returned, continue_run,
}
use cucoudle.Mobile.Coordinator.Invariant.{
  IsCoordinated, same_core, set_status-IsCoordinated, set_capabilities-IsCoordinated,
  forget_capabilities-IsCoordinated,
}
use cucoudle.Mobile.Coordinator.Calls.{ended, suspend-IsCoordinated}
use cucoudle.Mobile.Coordinator.Transport.{handle_failure-IsCoordinated}

abbrev pub Kept : Option ℕ → CoordinatorStep → Type 0
Kept o s = IsCoordinated o s.0

-- A call that waits.
abbrev run_at : ℕ → PairingProfile → Stage → Run
run_at version profile stage = record { version = version; active_profile = profile; stage = stage }

transport_opened-IsCoordinated :
    (run : Run) (c : Coordinator)
    → IsCoordinated (some run.version) c
    → Kept none (transport_opened run c)
unfolding transport_opened
transport_opened-IsCoordinated run c h =
    let o = some run.version in
    let d : Coordinator = record c { has_active_transport = true } in
    let s = (set_status d CoordinatorStatus.resyncing).0 in
    suspend-IsCoordinated run.version run.active_profile Stage.resuming (forget_capabilities s).0 (
      forget_capabilities-IsCoordinated o s (
        set_status-IsCoordinated o d CoordinatorStatus.resyncing
          (same_core o c c.status c.capabilities true h)))

resumed-IsCoordinated :
    (run : Run) (result : Fields) (c : Coordinator)
    → IsCoordinated (some run.version) c
    → Kept none (resumed run result c)
unfolding resumed
resumed-IsCoordinated run result c h =
    let next = negotiated_capabilities result in
    suspend-IsCoordinated run.version run.active_profile Stage.listing (set_capabilities c next).0
      (set_capabilities-IsCoordinated (some run.version) c next h)

went_online :
    (v : ℕ) (next : Option (List String)) (c : Coordinator)
    → IsCoordinated (some v) c
    → Kept none (set_status (set_capabilities c next).0 CoordinatorStatus.online)
went_online v next c h =
    let d = (set_capabilities c next).0 in
    ended v (set_status d CoordinatorStatus.online).0 (
      set_status-IsCoordinated (some v) d CoordinatorStatus.online
        (set_capabilities-IsCoordinated (some v) c next h))

listed-IsCoordinated :
    (run : Run) (open_session : Option OpenSessionRecovery) (list : Fields) (c : Coordinator)
    → IsCoordinated (some run.version) c
    → Kept none (listed run open_session list c)
unfolding listed
listed-IsCoordinated run none list c h = went_online run.version (negotiated_capabilities list) c h
listed-IsCoordinated run (some session) list c h =
    let next = negotiated_capabilities list in
    suspend-IsCoordinated run.version run.active_profile Stage.subscribing
      (set_capabilities c next).0 (set_capabilities-IsCoordinated (some run.version) c next h)

proceed-IsCoordinated :
    (version : ℕ) (profile : PairingProfile) (stage : Stage)
    (open_session : Option OpenSessionRecovery) (result : Fields) (c : Coordinator)
    → IsCoordinated (some version) c
    → Kept none (proceed (run_at version profile stage) open_session result c)
unfolding proceed subscribed
proceed-IsCoordinated version profile Stage.opening open_session result c h =
    transport_opened-IsCoordinated (run_at version profile Stage.opening) c h
proceed-IsCoordinated version profile Stage.resuming open_session result c h =
    resumed-IsCoordinated (run_at version profile Stage.resuming) result c h
proceed-IsCoordinated version profile Stage.listing open_session result c h =
    listed-IsCoordinated (run_at version profile Stage.listing) open_session result c h
proceed-IsCoordinated version profile Stage.subscribing open_session result c h =
    went_online version (negotiated_capabilities result) c h
proceed-IsCoordinated version profile Stage.invalidating open_session result c h = ended version c h

invalidated-IsCoordinated :
    (v : ℕ) (outcome : Outcome) (c : Coordinator)
    → IsCoordinated (some v) c
    → Kept none (invalidated outcome c)
unfolding invalidated
invalidated-IsCoordinated v (fulfilled result) c h = ended v (invalidated (fulfilled result) c).0 (
    if-holds (Kept (some v)) c.disposed h
      (set_status-IsCoordinated (some v) c CoordinatorStatus.pairing_required h))
invalidated-IsCoordinated v (refused error) c h = ended v c h

returned-IsCoordinated :
    (delay : ℕ) (run : Run) (open_session : Option OpenSessionRecovery) (outcome : Outcome)
    (c : Coordinator)
    → IsCoordinated (some run.version) c
    → Kept none (returned delay run open_session outcome c)
unfolding returned
returned-IsCoordinated delay run open_session (fulfilled result) c h =
    if-holds (Kept none) (c.disposed || not (run.version == c.run_version)) (ended run.version c h)
      (proceed-IsCoordinated run.version run.active_profile run.stage open_session result c h)
returned-IsCoordinated delay run open_session (refused error) c h =
    if-holds (Kept none) (run.version == c.run_version)
      (handle_failure-IsCoordinated delay run.version run.active_profile error c h)
      (ended run.version c h)

pub continue_run-IsCoordinated :
    (delay version : ℕ) (profile : PairingProfile) (stage : Stage)
    (open_session : Option OpenSessionRecovery) (outcome : Outcome) (c : Coordinator)
    → IsCoordinated (some version) c
    → Kept none (continue_run delay (run_at version profile stage) open_session outcome c)
unfolding continue_run
continue_run-IsCoordinated delay version profile Stage.opening open_session outcome c h =
    returned-IsCoordinated delay (run_at version profile Stage.opening) open_session outcome c h
continue_run-IsCoordinated delay version profile Stage.resuming open_session outcome c h =
    returned-IsCoordinated delay (run_at version profile Stage.resuming) open_session outcome c h
continue_run-IsCoordinated delay version profile Stage.listing open_session outcome c h =
    returned-IsCoordinated delay (run_at version profile Stage.listing) open_session outcome c h
continue_run-IsCoordinated delay version profile Stage.subscribing open_session outcome c h =
    returned-IsCoordinated delay (run_at version profile Stage.subscribing) open_session outcome c h
continue_run-IsCoordinated delay version profile Stage.invalidating open_session outcome c h =
    invalidated-IsCoordinated version outcome c h
