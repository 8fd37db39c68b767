-- ===== src/Mobile/Coordinator/Transport.antt =====
-- The coordinator's invariant over the connection's changes, its failures and its restarts.
use cucoudle.Prelude.{
  ℕ, suc, ◌≡◌, refl, subst, sym, Bool, true, false, ◌||◌, Option, none, some, [], ◌∷◌, elem,
  if◌then◌else◌, if-holds, Option-cases, inl, inr,
}
use cucoudle.Mobile.Client.{ConnectionState, disconnected, connecting, connected, Reason}
use cucoudle.Mobile.Pairing.{PairingProfile}
use cucoudle.Mobile.Coordinator.{
  close_called, CoordinatorStatus, Coordinator, Stage, CoordinatorStep, set_status, same_status,
  cancel_reconnect, schedule_reconnect, on_connection, error_code, pairing_required_codes,
  recovery_codes,
}
use cucoudle.Mobile.Coordinator.Sync.{close_active_transport, handle_failure, begin, synchronize}
use cucoudle.Mobile.Coordinator.Invariant.{
  IsCoordinated, same_core, set_status-IsCoordinated, cancel_reconnect-IsCoordinated,
  schedule_reconnect-IsCoordinated, cancel_reconnect-replaced,
}
use cucoudle.Mobile.Coordinator.Calls.{ended, suspend-IsCoordinated, next_version-IsCoordinated}

-- Whether the client reports the close at once makes no difference.
pub close_active_transport-closes :
    (delay : ℕ) (reported : Bool) (c : Coordinator)
    → close_active_transport delay reported c ≡ (
        if c.has_active_transport
        then (
          record c { has_active_transport = false; replacing_transport = false },
          close_called ∷ [],
        )
        else (c, []))
unfolding close_active_transport on_connection
close_active_transport-closes delay true c = refl
close_active_transport-closes delay false c = refl

module _ (o : Option ℕ) where
  abbrev Kept : CoordinatorStep → Type 0
  Kept s = IsCoordinated o s.0

  close_active_transport-IsCoordinated :
      (delay : ℕ) (reported : Bool) (c : Coordinator)
      → IsCoordinated o c
      → Kept (close_active_transport delay reported c)
  close_active_transport-IsCoordinated delay reported c h =
      subst Kept (sym (close_active_transport-closes delay reported c)) (
        if-holds Kept c.has_active_transport
          (record {
            timed = h.timed;
            given = h.given;
            apart = h.apart;
            call = h.call;
            quiet = refl;
            heard = h.heard;
          })
          h)

  pub on_connection-IsCoordinated :
      (delay : ℕ) (c : Coordinator) (state : ConnectionState)
      → IsCoordinated o c
      → Kept (on_connection delay c state)
  unfolding on_connection
  on_connection-IsCoordinated delay c disconnected h =
      let d : Coordinator = record c { has_active_transport = false } in
      let k : IsCoordinated o d = same_core o c c.status c.capabilities false h in
      if-holds Kept
        (c.replacing_transport
          || same_status c.status CoordinatorStatus.idle
          || same_status c.status CoordinatorStatus.recovery
          || same_status c.status CoordinatorStatus.pairing_required)
        k (schedule_reconnect-IsCoordinated o delay d k)
  on_connection-IsCoordinated delay c connecting h = h
  on_connection-IsCoordinated delay c connected h = h

pub handle_failure-IsCoordinated :
    (delay version : ℕ) (profile : PairingProfile) (error : Reason) (c : Coordinator)
    → IsCoordinated (some version) c
    → Kept none (handle_failure delay version profile error c)
unfolding handle_failure
handle_failure-IsCoordinated delay version profile error c h =
    let end = ended version in
    let schedule =
      end (schedule_reconnect delay c).0
        (schedule_reconnect-IsCoordinated (some version) delay c h) in
    if-holds (Kept none) c.disposed (end c h) (elim (Option-cases (error_code error)) [
      | inl e ↦ rw e schedule
      | inr (code, e) ↦ rw e (
          if-holds (Kept none) (elem code pairing_required_codes)
            (suspend-IsCoordinated version profile Stage.invalidating
              (record (cancel_reconnect c) { profile = none; capabilities = none })
              (cancel_reconnect-replaced (some version) c none none h))
            (if-holds (Kept none) (elem code recovery_codes)
              (end (set_status (cancel_reconnect c) CoordinatorStatus.recovery).0 (
                set_status-IsCoordinated (some version) (cancel_reconnect c)
                  CoordinatorStatus.recovery (cancel_reconnect-IsCoordinated (some version) c h)))
              schedule))
    ])

pub synchronize-IsCoordinated :
    (delay : ℕ) (reported : Bool) (entry_status : CoordinatorStatus) (c : Coordinator)
    → IsCoordinated none c
    → Kept none (synchronize delay reported entry_status c)
unfolding synchronize begin
synchronize-IsCoordinated delay reported entry_status c h = elim (Option-cases c.profile) [
  | inl e ↦ rw (e, synchronize) h
  | inr (profile, e) ↦
      let v = suc c.run_version in
      let d : Coordinator = record c { run_version = v } in
      let s = set_status-IsCoordinated (some v) d entry_status (next_version-IsCoordinated c h) in
      rw (e, synchronize)
        (if-holds (Kept none) c.disposed h (
          suspend-IsCoordinated v profile Stage.opening
            (close_active_transport delay reported (set_status d entry_status).0).0
            (close_active_transport-IsCoordinated (some v) delay reported
              (set_status d entry_status).0 s)))
]
