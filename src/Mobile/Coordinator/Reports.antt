-- ===== src/Mobile/Coordinator/Reports.antt =====
-- That the coordinator reports each change of its status.
use cucoudle.Prelude.{
  ℕ, suc, ◌≡◌, refl, sym, ap, ◌∙◌, subst, String, Bool, true, false, not, ◌||◌, Option, none, some,
  List, [], ◌∷◌, ◌++◌, elem, is_some, arith, if-holds, Bool-cases, Option-cases, inl, inr,
}
use cucoudle.Prelude.Steps.{and_then}
use cucoudle.Mobile.Client.{ConnectionState, disconnected, connecting, connected, Reason}
use cucoudle.Mobile.Pairing.{PairingProfile}
use cucoudle.Mobile.Coordinator.{
  CoordinatorStatus, Coordinator, opening, invalidating, CoordinatorEffect, status_changed,
  capabilities_changed, CoordinatorStep, same_status, pairing_required_codes, recovery_codes,
  error_code, set_status, set_capabilities, cancel_reconnect, arm_timer, schedule_reconnect,
  on_connection,
}
use cucoudle.Mobile.Coordinator.Sync.{close_active_transport, handle_failure, begin}
use cucoudle.Mobile.Coordinator.Transport.{close_active_transport-closes}

-- The status that was reported last.
unfoldable pub last_status : List CoordinatorEffect → CoordinatorStatus → CoordinatorStatus
last_status [] s = s
last_status (status_changed t ∷ effects) s = last_status effects t
last_status (effect ∷ effects) s = last_status effects s

pub last_status-append :
    (left right : List CoordinatorEffect) (s : CoordinatorStatus)
    → last_status (left ++ right) s ≡ last_status right (last_status left s)
unfolding last_status
last_status-append [] right s = refl
last_status-append (status_changed t ∷ left) right s = last_status-append left right t
last_status-append (capabilities_changed c ∷ left) right s = last_status-append left right s
last_status-append (CoordinatorEffect.profile_invalidated p ∷ left) right s =
    last_status-append left right s
last_status-append (CoordinatorEffect.list_dispatched l ∷ left) right s =
    last_status-append left right s
last_status-append (CoordinatorEffect.subscribe_dispatched l ∷ left) right s =
    last_status-append left right s
last_status-append (CoordinatorEffect.event_dispatched l ∷ left) right s =
    last_status-append left right s
last_status-append (CoordinatorEffect.connect_called l ∷ left) right s =
    last_status-append left right s
last_status-append (CoordinatorEffect.requested m l ∷ left) right s =
    last_status-append left right s
last_status-append (CoordinatorEffect.close_called ∷ left) right s = last_status-append left right s
last_status-append (CoordinatorEffect.timer_set l ∷ left) right s = last_status-append left right s

-- Whoever knew this status, and hears what the step reports, knows the status afterwards.
pub record Tells (s : CoordinatorStatus) (x : CoordinatorStep) : Type 0 where
  pub told : last_status x.1 s ≡ x.0.status

pub Tells-then :
    (s : CoordinatorStatus) (first : CoordinatorStep) (f : Coordinator → CoordinatorStep)
    → Tells s first
    → Tells first.0.status (f first.0)
    → Tells s (and_then first f)
Tells-then s (c, effects) f h k = record {
  told = last_status-append effects (f c).1 s ∙ ap (λ t. last_status (f c).1 t) h.told ∙ k.told;
}

same_status-connecting :
    (s : CoordinatorStatus)
    → same_status s CoordinatorStatus.connecting ≡ true
    → CoordinatorStatus.connecting ≡ s
unfolding same_status
same_status-connecting CoordinatorStatus.connecting h = refl
same_status-connecting CoordinatorStatus.idle h = absurd (ground arith)
same_status-connecting CoordinatorStatus.online h = absurd (ground arith)
same_status-connecting CoordinatorStatus.reconnecting h = absurd (ground arith)
same_status-connecting CoordinatorStatus.resyncing h = absurd (ground arith)
same_status-connecting CoordinatorStatus.recovery h = absurd (ground arith)
same_status-connecting CoordinatorStatus.pairing_required h = absurd (ground arith)

-- A step that reports no status and leaves it.
pub quiet : (c : Coordinator) → Tells c.status (c, [])
unfolding last_status
quiet c = record { told = refl }

-- A step to this state, with these effects.
pub tells :
    (s : CoordinatorStatus) (c : Coordinator) (effects : List CoordinatorEffect)
    → last_status effects s ≡ c.status
    → Tells s (c, effects)
tells s c effects h = record { told = h }

pub set_status-Tells :
    (c : Coordinator) (next : CoordinatorStatus) → Tells c.status (set_status c next)
unfolding set_status last_status
set_status-Tells c next =
    if-holds (Tells c.status) (c.disposed || same_status c.status next) (quiet c)
      (tells c.status (record c { status = next }) (status_changed next ∷ []) refl)

-- Where nothing was disposed of, it is enough to know the status that is set.
pub set_status-connects :
    (c : Coordinator)
    → c.disposed ≡ false
    → Tells CoordinatorStatus.connecting (set_status c CoordinatorStatus.connecting)
unfolding set_status last_status
set_status-connects c h = elim (Bool-cases (same_status c.status CoordinatorStatus.connecting)) [
  | inl e ↦ rw (h, e, set_status) (record { told = same_status-connecting c.status e })
  | inr e ↦ rw (h, e, set_status) (record { told = refl })
]

pub set_capabilities-Tells :
    (c : Coordinator) (next : Option (List String)) → Tells c.status (set_capabilities c next)
unfolding set_capabilities last_status
set_capabilities-Tells c none = record { told = refl }
set_capabilities-Tells c (some next) = record { told = refl }

pub cancel_reconnect-status : (c : Coordinator) → (cancel_reconnect c).status ≡ c.status
unfolding cancel_reconnect
cancel_reconnect-status c = elim (Option-cases c.reconnect_timer) [
  | inl e ↦ ground (arith, e)
  | inr (t, e) ↦ ground (arith, e)
]

schedule_reconnect-Tells :
    (delay : ℕ) (c : Coordinator) → Tells c.status (schedule_reconnect delay c)
unfolding schedule_reconnect arm_timer last_status
schedule_reconnect-Tells delay c =
    if-holds (Tells c.status) (c.disposed || not (is_some c.profile) || is_some c.reconnect_timer)
      (quiet c)
      (Tells-then c.status (set_status c CoordinatorStatus.reconnecting) (arm_timer delay)
        (set_status-Tells c CoordinatorStatus.reconnecting) (record { told = refl }))

pub on_connection-Tells :
    (delay : ℕ) (c : Coordinator) (state : ConnectionState)
    → Tells c.status (on_connection delay c state)
unfolding on_connection last_status
on_connection-Tells delay c disconnected =
    let d : Coordinator = record c { has_active_transport = false } in
    if-holds (Tells c.status)
      (c.replacing_transport
        || same_status c.status CoordinatorStatus.idle
        || same_status c.status CoordinatorStatus.recovery
        || same_status c.status CoordinatorStatus.pairing_required)
      (tells c.status d [] refl) (schedule_reconnect-Tells delay d)
on_connection-Tells delay c connecting = quiet c
on_connection-Tells delay c connected = quiet c

close_active_transport-Tells :
    (delay : ℕ) (reported : Bool) (c : Coordinator)
    → Tells c.status (close_active_transport delay reported c)
unfolding last_status
close_active_transport-Tells delay reported c =
    subst (Tells c.status) (sym (close_active_transport-closes delay reported c)) (
      if-holds (Tells c.status) c.has_active_transport
        (tells c.status (record c { has_active_transport = false; replacing_transport = false })
          (CoordinatorEffect.close_called ∷ []) refl)
        (quiet c))

-- A status that is set, on a coordinator whose timer was cancelled.
pub cancelled-Tells :
    (c : Coordinator) (f : Coordinator → CoordinatorStep)
    → Tells (cancel_reconnect c).status (f (cancel_reconnect c))
    → Tells c.status (f (cancel_reconnect c))
cancelled-Tells c f h = subst (λ s. Tells s (f (cancel_reconnect c))) (cancel_reconnect-status c) h

pub handle_failure-Tells :
    (delay version : ℕ) (p : PairingProfile) (error : Reason) (c : Coordinator)
    → Tells c.status (handle_failure delay version p error c)
unfolding handle_failure last_status
handle_failure-Tells delay version p error c =
    if-holds (Tells c.status) c.disposed (quiet c) (elim (Option-cases (error_code error)) [
      | inl e ↦ rw e (schedule_reconnect-Tells delay c)
      | inr (code, e) ↦ rw e (
          if-holds (Tells c.status) (elem code pairing_required_codes)
            (tells c.status
              (record (cancel_reconnect c) {
                profile = none;
                capabilities = none;
                runs =
                    (cancel_reconnect c).runs
                    ++ record { version = version; active_profile = p; stage = invalidating } ∷ [];
              })
              (capabilities_changed none ∷ CoordinatorEffect.profile_invalidated p ∷ [])
              (sym (cancel_reconnect-status c)))
            (if-holds (Tells c.status) (elem code recovery_codes)
              (cancelled-Tells c (λ d. set_status d CoordinatorStatus.recovery)
                (set_status-Tells (cancel_reconnect c) CoordinatorStatus.recovery))
              (schedule_reconnect-Tells delay c)))
    ])

pub begin-Tells :
    (s : CoordinatorStatus) (delay : ℕ) (reported : Bool) (entry : CoordinatorStatus)
    (p : PairingProfile) (c : Coordinator)
    → Tells s (set_status (record c { run_version = suc c.run_version }) entry)
    → Tells s (begin delay reported entry p c)
unfolding begin last_status
begin-Tells s delay reported entry p c h =
    let first = set_status (record c { run_version = suc c.run_version }) entry in
    Tells-then s (and_then first (close_active_transport delay reported))
      (λ d. (
        record d {
          runs =
              d.runs
              ++ record { version = suc c.run_version; active_profile = p; stage = opening } ∷ [];
        },
        CoordinatorEffect.connect_called p.relay_ws_url ∷ [],
      ))
      (Tells-then s first (close_active_transport delay reported) h
        (close_active_transport-Tells delay reported first.0))
      (record { told = refl })
