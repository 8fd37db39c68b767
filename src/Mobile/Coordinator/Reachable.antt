-- ===== src/Mobile/Coordinator/Reachable.antt =====
-- Every input keeps the coordinator's invariant.
use cucoudle.Prelude.{
  ℕ, suc, ◌≡◌, refl, subst, sym, Bool, true, false, not, ◌&&◌, Option, none, some, [], ◌==◌, filter,
  any, arith, if-holds, Bool-cases, Option-cases, inl, inr,
}
use cucoudle.Mobile.Pairing.{PairingProfile}
use cucoudle.Mobile.Coordinator.{
  CoordinatorStatus, Coordinator, OpenSessionRecovery, same_status, cancel_reconnect,
}
use cucoudle.Mobile.Coordinator.Sync.{
  Outcome, find_run, settle, start, retry, dispose, fire, on_event,
}
use cucoudle.Mobile.Coordinator.Steps.{
  Input, started, retried, closed, fired, settled, connection_changed, event_received, step, Reach,
  created, stepped,
}
use cucoudle.Mobile.Coordinator.Invariant.{
  IsCoordinated, create_connection_coordinator-IsCoordinated, set_status-IsCoordinated,
  cancel_reconnect-IsCoordinated, cancel_reconnect-untimed, cancel_reconnect-clears,
  cancel_reconnect-replaced, untimed-IsCoordinated,
}
use cucoudle.Mobile.Coordinator.Calls.{resume-IsCoordinated, given_later}
use cucoudle.Mobile.Coordinator.Transport.{on_connection-IsCoordinated, synchronize-IsCoordinated}
use cucoudle.Mobile.Coordinator.Returns.{Kept, continue_run-IsCoordinated}

settle-IsCoordinated :
    (delay version : ℕ) (open_session : Option OpenSessionRecovery) (outcome : Outcome)
    (c : Coordinator)
    → IsCoordinated none c
    → Kept none (settle delay version open_session outcome c)
unfolding settle
settle-IsCoordinated delay version open_session outcome c h =
    elim (Option-cases (find_run version c.runs)) [
      | inl e ↦ rw (e, settle) h
      | inr (run, e) ↦
          rw (e, settle)
            (continue_run-IsCoordinated delay run.version run.active_profile run.stage open_session
              outcome (record c { runs = filter (λ r. not (r.version == version)) c.runs })
              (resume-IsCoordinated version run c e h))
    ]

start-IsCoordinated :
    (delay : ℕ) (reported : Bool) (next : Option PairingProfile) (c : Coordinator)
    → IsCoordinated none c
    → Kept none (start delay reported next c)
unfolding start
start-IsCoordinated delay reported none c h =
    let d : Coordinator = record (cancel_reconnect c) { profile = none; capabilities = none } in
    set_status-IsCoordinated none d CoordinatorStatus.pairing_required
      (cancel_reconnect-replaced none c none none h)
start-IsCoordinated delay reported (some profile) c h =
    let d : Coordinator = record (cancel_reconnect c) { profile = some profile } in
    synchronize-IsCoordinated delay reported CoordinatorStatus.connecting d (
      subst (λ d. IsCoordinated none (record d { profile = some profile }))
        (sym (cancel_reconnect-untimed none c h))
        (untimed-IsCoordinated none c (some profile) c.capabilities h))

retry-IsCoordinated :
    (delay : ℕ) (reported : Bool) (c : Coordinator)
    → IsCoordinated none c
    → Kept none (retry delay reported c)
unfolding retry
retry-IsCoordinated delay reported c h = elim (Option-cases c.profile) [
  | inl e ↦ rw (e, retry) h
  | inr (profile, e) ↦
      rw (e, retry)
        (if-holds (Kept none) c.disposed h (
          synchronize-IsCoordinated delay reported CoordinatorStatus.reconnecting
            (cancel_reconnect c) (cancel_reconnect-IsCoordinated none c h)))
]

dispose-IsCoordinated : (c : Coordinator) → IsCoordinated none c → Kept none (dispose c)
unfolding dispose
dispose-IsCoordinated c h = if-holds (Kept none) c.disposed h (
    let d : Coordinator = record c { disposed = true; run_version = suc c.run_version } in
    subst (λ e. IsCoordinated none (record e { listening = false }))
      (sym (cancel_reconnect-clears d c.disposed c.profile h.timed))
      (record {
        timed = refl;
        given = given_later c.run_version c.runs h.given;
        apart = h.apart;
        call = tt;
        quiet = h.quiet;
        heard = refl;
      }))

fired_alone :
    (timer : ℕ) (c : Coordinator)
    → any (λ t. t == timer) c.armed ≡ true
    → IsCoordinated none c
    → filter (λ t. not (t == timer)) c.armed ≡ []
fired_alone timer c e h = elim (Option-cases c.reconnect_timer) [
  | inl n ↦ ground (arith, n, h.timed)
  | inr (t, n) ↦ ground (arith, e, n, h.timed)
]

fire-IsCoordinated :
    (delay : ℕ) (reported : Bool) (timer : ℕ) (c : Coordinator)
    → IsCoordinated none c
    → Kept none (fire delay reported timer c)
unfolding fire
fire-IsCoordinated delay reported timer c h = elim (Bool-cases (any (λ t. t == timer) c.armed)) [
  | inl e ↦
      rw (e, fire)
        (synchronize-IsCoordinated delay reported CoordinatorStatus.reconnecting
          (record c { armed = filter (λ t. not (t == timer)) c.armed; reconnect_timer = none })
          (record {
            timed = fired_alone timer c e h;
            given = h.given;
            apart = h.apart;
            call = tt;
            quiet = h.quiet;
            heard = h.heard;
          }))
  | inr e ↦ rw (e, fire) h
]

step-IsCoordinated :
    (delay : ℕ) (reported : Bool) (input : Input) (c : Coordinator)
    → IsCoordinated none c
    → Kept none (step delay reported input c)
unfolding step on_event
step-IsCoordinated delay reported (started profile) c h =
    start-IsCoordinated delay reported profile c h
step-IsCoordinated delay reported retried c h = retry-IsCoordinated delay reported c h
step-IsCoordinated delay reported closed c h = dispose-IsCoordinated c h
step-IsCoordinated delay reported (fired timer) c h = fire-IsCoordinated delay reported timer c h
step-IsCoordinated delay reported (settled version open_session outcome) c h =
    settle-IsCoordinated delay version open_session outcome c h
step-IsCoordinated delay reported (connection_changed state) c h =
    if-holds (Kept none) c.listening (on_connection-IsCoordinated none delay c state h) h
step-IsCoordinated delay reported (event_received event) c h =
    if-holds (Kept none) c.listening
      (if-holds (Kept none) (not c.disposed && same_status c.status CoordinatorStatus.online) h h) h

-- In every state that the inputs lead to, at most one timer of the host runs, and only while the
-- coordinator is not disposed of and has a profile; no two calls of `synchronize` that wait have the
-- same version, and none has a version above the current one; no close of the connection is under
-- way between two inputs; and the listeners are on until `dispose`.
pub Reach-IsCoordinated : (delay : ℕ) (c : Coordinator) → Reach delay c → IsCoordinated none c
Reach-IsCoordinated delay c created = create_connection_coordinator-IsCoordinated
Reach-IsCoordinated delay c (stepped {c = b} input reported r) =
    step-IsCoordinated delay reported input b (Reach-IsCoordinated delay b r)
