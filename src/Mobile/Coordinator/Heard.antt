-- ===== src/Mobile/Coordinator/Heard.antt =====
-- What is heard of the coordinator's status, whatever it is asked.
use cucoudle.Prelude.{
  ℕ, suc, ◌≡◌, refl, sym, ◌∙◌, subst, Bool, true, false, not, ◌&&◌, Option, none, some, [], ◌∷◌,
  filter, any, arith, if-holds, if◌then◌else◌, Option-cases, inl, inr, ◌==◌,
}
use cucoudle.Protocol.Message.{EventMessage}
use cucoudle.Mobile.Pairing.{PairingProfile}
use cucoudle.Mobile.Coordinator.{
  CoordinatorStatus, Coordinator, OpenSessionRecovery, capabilities_changed, CoordinatorEffect,
  CoordinatorStep, same_status, set_status, cancel_reconnect,
}
use cucoudle.Mobile.Coordinator.Sync.{
  begin, synchronize, Outcome, find_run, settle, start, retry, dispose, fire, on_event,
}
use cucoudle.Mobile.Coordinator.Steps.{
  Input, started, retried, closed, fired, settled, connection_changed, event_received, step,
}
use cucoudle.Mobile.Coordinator.Reports.{
  last_status, Tells, Tells-then, quiet, tells, set_status-Tells, set_status-connects,
  cancel_reconnect-status, on_connection-Tells, begin-Tells,
}
use cucoudle.Mobile.Coordinator.Told.{synchronize-if, synchronize-Tells, continue_run-Tells}

settle-Tells :
    (delay version : ℕ) (open_session : Option OpenSessionRecovery) (outcome : Outcome)
    (c : Coordinator)
    → Tells c.status (settle delay version open_session outcome c)
unfolding settle
settle-Tells delay version open_session outcome c = elim (Option-cases (find_run version c.runs)) [
  | inl e ↦ rw (e, settle) (quiet c)
  | inr (run, e) ↦
      rw (e, settle)
        (continue_run-Tells delay run open_session outcome
          (record c { runs = filter (λ r. not (r.version == version)) c.runs }))
]

start-Tells :
    (delay : ℕ) (reported : Bool) (next : Option PairingProfile) (c : Coordinator)
    → Tells c.status (start delay reported next c)
unfolding start last_status
start-Tells delay reported none c =
    let d : Coordinator = record (cancel_reconnect c) { profile = none; capabilities = none } in
    Tells-then c.status (d, capabilities_changed none ∷ [])
      (λ e. set_status e CoordinatorStatus.pairing_required)
      (tells c.status d (capabilities_changed none ∷ []) (sym (cancel_reconnect-status c)))
      (set_status-Tells d CoordinatorStatus.pairing_required)
start-Tells delay reported (some p) c =
    let d : Coordinator = record (cancel_reconnect c) { profile = some p } in
    subst (λ s. Tells s (synchronize delay reported CoordinatorStatus.connecting d))
      (cancel_reconnect-status c) (synchronize-Tells delay reported CoordinatorStatus.connecting d)

retry-none :
    (delay : ℕ) (reported : Bool) (c : Coordinator)
    → c.profile ≡ none
    → retry delay reported c ≡ (c, [])
unfolding retry
retry-none delay reported c e = ground (arith, e)

retry-if :
    (delay : ℕ) (reported : Bool) (p : PairingProfile) (c : Coordinator)
    → c.profile ≡ some p
    → retry delay reported c ≡ (
        if c.disposed
        then (c, [])
        else synchronize delay reported CoordinatorStatus.reconnecting (cancel_reconnect c))
unfolding retry
retry-if delay reported p c e = ground (arith, e)

retry-Tells :
    (delay : ℕ) (reported : Bool) (c : Coordinator) → Tells c.status (retry delay reported c)
unfolding retry
retry-Tells delay reported c = elim (Option-cases c.profile) [
  | inl e ↦ subst (Tells c.status) (sym (retry-none delay reported c e)) (quiet c)
  | inr (p, e) ↦ subst (Tells c.status) (sym (retry-if delay reported p c e)) (
      if-holds (Tells c.status) c.disposed (quiet c) (
        subst
          (λ s.
            Tells s
              (synchronize delay reported CoordinatorStatus.reconnecting (cancel_reconnect c)))
          (cancel_reconnect-status c)
          (synchronize-Tells delay reported CoordinatorStatus.reconnecting (cancel_reconnect c))))
]

pub dispose-Tells : (c : Coordinator) → Tells c.status (dispose c)
unfolding dispose last_status
dispose-Tells c =
    let d : Coordinator = record c { disposed = true; run_version = suc c.run_version } in
    if-holds (Tells c.status) c.disposed (quiet c) (
      tells c.status (record (cancel_reconnect d) { listening = false })
        (CoordinatorEffect.close_called ∷ []) (sym (cancel_reconnect-status d)))

fire-Tells :
    (delay : ℕ) (reported : Bool) (timer : ℕ) (c : Coordinator)
    → Tells c.status (fire delay reported timer c)
unfolding fire
fire-Tells delay reported timer c =
    if-holds (Tells c.status) (any (λ t. t == timer) c.armed)
      (synchronize-Tells delay reported CoordinatorStatus.reconnecting
        (record c { armed = filter (λ t. not (t == timer)) c.armed; reconnect_timer = none }))
      (quiet c)

on_event-Tells : (c : Coordinator) (event : EventMessage) → Tells c.status (on_event c event)
unfolding on_event last_status
on_event-Tells c event =
    if-holds (Tells c.status) (not c.disposed && same_status c.status CoordinatorStatus.online)
      (tells c.status c (CoordinatorEffect.event_dispatched event ∷ []) refl) (quiet c)

-- Whatever the coordinator is asked, the status that it reports last is the one that it has then.
pub step-Tells :
    (delay : ℕ) (reported : Bool) (input : Input) (c : Coordinator)
    → Tells c.status (step delay reported input c)
unfolding step
step-Tells delay reported (started profile) c = start-Tells delay reported profile c
step-Tells delay reported retried c = retry-Tells delay reported c
step-Tells delay reported closed c = dispose-Tells c
step-Tells delay reported (fired timer) c = fire-Tells delay reported timer c
step-Tells delay reported (settled version open_session outcome) c =
    settle-Tells delay version open_session outcome c
step-Tells delay reported (connection_changed state) c =
    if-holds (Tells c.status) c.listening (on_connection-Tells delay c state) (quiet c)
step-Tells delay reported (event_received event) c =
    if-holds (Tells c.status) c.listening (on_event-Tells c event) (quiet c)

cancel_reconnect-disposed : (c : Coordinator) → (cancel_reconnect c).disposed ≡ c.disposed
unfolding cancel_reconnect
cancel_reconnect-disposed c = elim (Option-cases c.reconnect_timer) [
  | inl e ↦ ground (arith, e)
  | inr (t, e) ↦ ground (arith, e)
]

begin_if : (s x : CoordinatorStep) (b : Bool) → b ≡ false → (if b then s else x) ≡ x
begin_if s x b h = rw h refl

-- A start with a profile tells all of the status to whoever takes it to be `connecting`.
pub start-connects :
    (delay : ℕ) (reported : Bool) (p : PairingProfile) (c : Coordinator)
    → c.disposed ≡ false
    → Tells CoordinatorStatus.connecting (start delay reported (some p) c)
unfolding start
start-connects delay reported p c h =
    let d : Coordinator = record (cancel_reconnect c) { profile = some p } in
    let k : d.disposed ≡ false = cancel_reconnect-disposed c ∙ h in
    subst (Tells CoordinatorStatus.connecting)
      (sym (
        synchronize-if delay reported CoordinatorStatus.connecting p d refl
        ∙ begin_if (d, []) (begin delay reported CoordinatorStatus.connecting p d) d.disposed k))
      (begin-Tells CoordinatorStatus.connecting delay reported CoordinatorStatus.connecting p d
        (set_status-connects (record d { run_version = suc d.run_version }) k))
