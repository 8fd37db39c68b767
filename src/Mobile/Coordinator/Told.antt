-- ===== src/Mobile/Coordinator/Told.antt =====
-- That every step of the coordinator reports the status that it leaves.
use cucoudle.Prelude.{
  ℕ, suc, ◌≡◌, refl, sym, subst, String, Bool, true, not, ◌||◌, Option, none, some, List, [], ◌∷◌,
  arith, if-holds, if◌then◌else◌, Option-cases, inl, inr, ◌==◌,
}
use cucoudle.Prelude.Steps.{and_then}
use cucoudle.Protocol.Json.{Fields, end, field?}
use cucoudle.Mobile.Pairing.{PairingProfile}
use cucoudle.Mobile.Coordinator.{
  CoordinatorStatus, Coordinator, OpenSessionRecovery, Stage, opening, resuming, listing,
  subscribing, invalidating, Run, capabilities_changed, CoordinatorEffect, negotiated_capabilities,
  set_status, set_capabilities,
}
use cucoudle.Mobile.Coordinator.Sync.{
  ask, resume_params, subscribe_params, begin, synchronize, forget_capabilities, transport_opened,
  resumed, listed, subscribed, Outcome, fulfilled, refused, proceed, invalidated, returned,
  continue_run,
}
use cucoudle.Mobile.Coordinator.Reports.{
  last_status, Tells, Tells-then, quiet, tells, set_status-Tells, set_capabilities-Tells,
  handle_failure-Tells, begin-Tells,
}

pub synchronize-if :
    (delay : ℕ) (reported : Bool) (entry : CoordinatorStatus) (p : PairingProfile) (c : Coordinator)
    → c.profile ≡ some p
    → synchronize delay reported entry c
      ≡ (if c.disposed then (c, []) else begin delay reported entry p c)
unfolding synchronize
synchronize-if delay reported entry p c e = ground (arith, e)

synchronize-none :
    (delay : ℕ) (reported : Bool) (entry : CoordinatorStatus) (c : Coordinator)
    → c.profile ≡ none
    → synchronize delay reported entry c ≡ (c, [])
unfolding synchronize
synchronize-none delay reported entry c e = ground (arith, e)

pub synchronize-Tells :
    (delay : ℕ) (reported : Bool) (entry : CoordinatorStatus) (c : Coordinator)
    → Tells c.status (synchronize delay reported entry c)
unfolding synchronize
synchronize-Tells delay reported entry c = elim (Option-cases c.profile) [
  | inl e ↦ subst (Tells c.status) (sym (synchronize-none delay reported entry c e)) (quiet c)
  | inr (p, e) ↦ subst (Tells c.status) (sym (synchronize-if delay reported entry p c e)) (
      if-holds (Tells c.status) c.disposed (quiet c) (
        begin-Tells c.status delay reported entry p c
          (set_status-Tells (record c { run_version = suc c.run_version }) entry)))
]

forget_capabilities-some :
    (l : List String) (c : Coordinator)
    → c.capabilities ≡ some l
    → forget_capabilities c ≡ (record c { capabilities = none }, capabilities_changed none ∷ [])
unfolding forget_capabilities
forget_capabilities-some l c e = ground (arith, e)

forget_capabilities-none :
    (c : Coordinator) → c.capabilities ≡ none → forget_capabilities c ≡ (c, [])
unfolding forget_capabilities
forget_capabilities-none c e = ground (arith, e)

forget_capabilities-Tells : (c : Coordinator) → Tells c.status (forget_capabilities c)
unfolding forget_capabilities last_status
forget_capabilities-Tells c = elim (Option-cases c.capabilities) [
  | inl e ↦ subst (Tells c.status) (sym (forget_capabilities-none c e)) (quiet c)
  | inr (l, e) ↦
      subst (Tells c.status) (sym (forget_capabilities-some l c e))
        (tells c.status (record c { capabilities = none }) (capabilities_changed none ∷ []) refl)
]

ask-Tells :
    (run : Run) (stage : Stage) (method : String) (params : Fields) (c : Coordinator)
    → Tells c.status (ask run stage method params c)
unfolding last_status
ask-Tells run stage method params c = record { told = refl }

transport_opened-Tells : (run : Run) (c : Coordinator) → Tells c.status (transport_opened run c)
unfolding transport_opened
transport_opened-Tells run c =
    let d : Coordinator = record c { has_active_transport = true } in
    let first = set_status d CoordinatorStatus.resyncing in
    let second = and_then first forget_capabilities in
    Tells-then c.status second (ask run resuming "mobile.resume" (resume_params run.active_profile))
      (Tells-then c.status first forget_capabilities
        (set_status-Tells d CoordinatorStatus.resyncing) (forget_capabilities-Tells first.0))
      (ask-Tells run resuming "mobile.resume" (resume_params run.active_profile) second.0)

resumed-Tells :
    (run : Run) (result : Fields) (c : Coordinator) → Tells c.status (resumed run result c)
unfolding resumed
resumed-Tells run result c =
    let first = set_capabilities c (negotiated_capabilities result) in
    Tells-then c.status first (ask run listing "session.list" end)
      (set_capabilities-Tells c (negotiated_capabilities result))
      (ask-Tells run listing "session.list" end first.0)

-- The capabilities of a result, and what is dispatched of it.
dispatched-Tells :
    (next : Option (List String)) (effect : CoordinatorEffect) (c : Coordinator)
    → last_status (effect ∷ []) (set_capabilities c next).0.status
      ≡ (set_capabilities c next).0.status
    → Tells c.status (and_then (set_capabilities c next) (λ d. (d, effect ∷ [])))
dispatched-Tells next effect c h =
    Tells-then c.status (set_capabilities c next) (λ d. (d, effect ∷ []))
      (set_capabilities-Tells c next)
      (tells (set_capabilities c next).0.status (set_capabilities c next).0 (effect ∷ []) h)

listed-Tells :
    (run : Run) (open_session : Option OpenSessionRecovery) (list : Fields) (c : Coordinator)
    → Tells c.status (listed run open_session list c)
unfolding listed last_status
listed-Tells run none list c =
    let next = negotiated_capabilities list in
    let effect = CoordinatorEffect.list_dispatched (field? "sessions" list) in
    let first = and_then (set_capabilities c next) (λ d. (d, effect ∷ [])) in
    Tells-then c.status first (λ d. set_status d CoordinatorStatus.online)
      (dispatched-Tells next effect c refl) (set_status-Tells first.0 CoordinatorStatus.online)
listed-Tells run (some s) list c =
    let next = negotiated_capabilities list in
    let effect = CoordinatorEffect.list_dispatched (field? "sessions" list) in
    let first = and_then (set_capabilities c next) (λ d. (d, effect ∷ [])) in
    Tells-then c.status first (ask run subscribing "session.subscribe" (subscribe_params s))
      (dispatched-Tells next effect c refl)
      (ask-Tells run subscribing "session.subscribe" (subscribe_params s) first.0)

subscribed-Tells : (result : Fields) (c : Coordinator) → Tells c.status (subscribed result c)
unfolding subscribed last_status
subscribed-Tells result c =
    let next = negotiated_capabilities result in
    let effect = CoordinatorEffect.subscribe_dispatched result in
    let first = and_then (set_capabilities c next) (λ d. (d, effect ∷ [])) in
    Tells-then c.status first (λ d. set_status d CoordinatorStatus.online)
      (dispatched-Tells next effect c refl) (set_status-Tells first.0 CoordinatorStatus.online)

proceed-Tells :
    (run : Run) (open_session : Option OpenSessionRecovery) (result : Fields) (c : Coordinator)
    → Tells c.status (proceed run open_session result c)
unfolding proceed
proceed-Tells run open_session result c = go run.stage
  where
    go :
        (stage : Stage)
        → Tells c.status (proceed (record run { stage = stage }) open_session result c)
    go opening = transport_opened-Tells (record run { stage = opening }) c
    go resuming = resumed-Tells (record run { stage = resuming }) result c
    go listing = listed-Tells (record run { stage = listing }) open_session result c
    go subscribing = subscribed-Tells result c
    go invalidating = quiet c

invalidated-Tells : (outcome : Outcome) (c : Coordinator) → Tells c.status (invalidated outcome c)
unfolding invalidated
invalidated-Tells (fulfilled result) c =
    if-holds (Tells c.status) c.disposed (quiet c)
      (set_status-Tells c CoordinatorStatus.pairing_required)
invalidated-Tells (refused error) c = quiet c

returned-Tells :
    (delay : ℕ) (run : Run) (open_session : Option OpenSessionRecovery) (outcome : Outcome)
    (c : Coordinator)
    → Tells c.status (returned delay run open_session outcome c)
unfolding returned
returned-Tells delay run open_session (fulfilled result) c =
    if-holds (Tells c.status) (c.disposed || not (run.version == c.run_version)) (quiet c)
      (proceed-Tells run open_session result c)
returned-Tells delay run open_session (refused error) c =
    if-holds (Tells c.status) (run.version == c.run_version)
      (handle_failure-Tells delay run.version run.active_profile error c) (quiet c)

pub continue_run-Tells :
    (delay : ℕ) (run : Run) (open_session : Option OpenSessionRecovery) (outcome : Outcome)
    (c : Coordinator)
    → Tells c.status (continue_run delay run open_session outcome c)
unfolding continue_run
continue_run-Tells delay run open_session outcome c = go run.stage
  where
    go :
        (stage : Stage)
        → Tells c.status (continue_run delay (record run { stage = stage }) open_session outcome c)
    go opening = returned-Tells delay (record run { stage = opening }) open_session outcome c
    go resuming = returned-Tells delay (record run { stage = resuming }) open_session outcome c
    go listing = returned-Tells delay (record run { stage = listing }) open_session outcome c
    go subscribing =
        returned-Tells delay (record run { stage = subscribing }) open_session outcome c
    go invalidating = invalidated-Tells outcome c
