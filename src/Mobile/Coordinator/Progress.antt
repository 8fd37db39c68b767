-- ===== src/Mobile/Coordinator/Progress.antt =====
-- How a call of `synchronize` gets online, and what a failure leads to.
use cucoudle.Prelude.{
  ℕ, suc, ◌≡◌, refl, sym, subst, Bool, false, Option, none, some, [], ◌∷◌, arith,
}
use cucoudle.Protocol.Json.{Fields}
use cucoudle.Mobile.Pairing.{PairingProfile}
use cucoudle.Mobile.Coordinator.{
  CoordinatorStatus, online, Coordinator, OpenSessionRecovery, opening, resuming, listing,
  subscribing, CoordinatorStep, set_status,
}
use cucoudle.Mobile.Coordinator.Sync.{start, begin, synchronize, close_active_transport}
use cucoudle.Mobile.Coordinator.Steps.{Reach}
use cucoudle.Mobile.Coordinator.Invariant.{
  IsCoordinated, cancel_reconnect-untimed, untimed-IsCoordinated, untimed,
}
use cucoudle.Mobile.Coordinator.Calls.{versions-fresh}
use cucoudle.Mobile.Coordinator.Reachable.{Reach-IsCoordinated}
use cucoudle.Mobile.Coordinator.Stages.{
  IsAt, set_status-IsCurrent, close_active_transport-IsCurrent, suspend-IsAt, settle-Next, fulfill,
  results_for,
}

synchronize-begin :
    (delay : ℕ) (reported : Bool) (entry_status : CoordinatorStatus) (p : PairingProfile)
    (c : Coordinator)
    → c.disposed ≡ false
    → c.profile ≡ some p
    → synchronize delay reported entry_status c ≡ begin delay reported entry_status p c
unfolding synchronize
synchronize-begin delay reported entry_status p c h e = ground (arith, h, e)

synchronize-IsAt :
    (delay : ℕ) (reported : Bool) (entry_status : CoordinatorStatus) (p : PairingProfile)
    (c : Coordinator)
    → IsCoordinated none c
    → c.disposed ≡ false
    → c.profile ≡ some p
    → IsAt (suc c.run_version) p opening (synchronize delay reported entry_status c).0
unfolding begin
synchronize-IsAt delay reported entry_status p c k h e =
    let v = suc c.run_version in
    let d : Coordinator = record c { run_version = v } in
    let s = (set_status d entry_status).0 in
    let current =
      set_status-IsCurrent v p d entry_status
        (h, refl, e, versions-fresh c.run_version c.runs k.given) in
    subst (λ (x : CoordinatorStep). IsAt v p opening x.0)
      (sym (synchronize-begin delay reported entry_status p c h e))
      (suspend-IsAt v p opening (close_active_transport delay reported s).0
        (close_active_transport-IsCurrent v p delay reported s current))

start-IsAt :
    (delay : ℕ) (reported : Bool) (p : PairingProfile) (c : Coordinator)
    → IsCoordinated none c
    → c.disposed ≡ false
    → IsAt (suc c.run_version) p opening (start delay reported (some p) c).0
unfolding start
start-IsAt delay reported p c k h =
    subst
      (λ d.
        IsAt (suc c.run_version) p opening
          (synchronize delay reported CoordinatorStatus.connecting
            (record d { profile = some p })).0)
      (sym (cancel_reconnect-untimed none c k))
      (synchronize-IsAt delay reported CoordinatorStatus.connecting p
        (record (untimed c) { profile = some p })
        (untimed-IsCoordinated none c (some p) c.capabilities k) h refl)

-- After two promises the call waits for the list of sessions.
up_to_listing :
    (delay : ℕ) (reported : Bool) (p : PairingProfile) (open_session : Option OpenSessionRecovery)
    (connection resume : Fields) (c : Coordinator)
    → Reach delay c
    → c.disposed ≡ false
    → IsAt (suc c.run_version) p listing (
        fulfill delay
          (suc c.run_version)
          open_session
          (connection ∷ resume ∷ [])
          (start delay reported (some p) c).0)
unfolding fulfill
up_to_listing delay reported p open_session connection resume c r h =
    let v = suc c.run_version in
    let at_opening = start-IsAt delay reported p c (Reach-IsCoordinated delay c r) h in
    settle-Next v p delay open_session resume resuming _ refl
      (settle-Next v p delay open_session connection opening _ refl at_opening)

-- A coordinator that is not disposed of gets online: after `start` with a profile, when the client
-- connects and answers the requests that the call makes, it is online with this profile, after three
-- promises where no session is open and after four where one is.
pub comes_online :
    (delay : ℕ) (reported : Bool) (p : PairingProfile) (open_session : Option OpenSessionRecovery)
    (connection resume list last : Fields) (c : Coordinator)
    → Reach delay c
    → c.disposed ≡ false
    → let d =
        fulfill delay
          (suc c.run_version)
          open_session
          (results_for open_session connection resume list last)
          (start delay reported (some p) c).0 in
      (d.status ≡ online) × (d.profile ≡ some p)
unfolding fulfill
comes_online delay reported p none connection resume list last c r h =
    let e = up_to_listing delay reported p none connection resume c r h in
    let (status, profile, _) = settle-Next (suc c.run_version) p delay none list listing _ refl e in
    (status, profile)
comes_online delay reported p (some session) connection resume list last c r h =
    let e = up_to_listing delay reported p (some session) connection resume c r h in
    let f = settle-Next (suc c.run_version) p delay (some session) list listing _ refl e in
    let (status, profile, _) =
      settle-Next (suc c.run_version) p delay (some session) last subscribing _ refl f in
    (status, profile)
