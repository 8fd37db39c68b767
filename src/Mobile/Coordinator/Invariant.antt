-- ===== src/Mobile/Coordinator/Invariant.antt =====
-- The timer, the versions and the flags of the coordinator, at every moment.
use cucoudle.Prelude.{
  ℕ, String, ◌≤◌, ◌≡◌, refl, ◌∙◌, ap, subst, sym, Bool, true, false, not, ◌||◌, Option, none, some,
  List, [], ◌∷◌, ◌++◌, ◌==◌, count, All, arith, is_some, if-holds, Bool-cases, Option-cases, inl,
  inr,
}
use cucoudle.Mobile.Pairing.{PairingProfile}
use cucoudle.Mobile.Coordinator.{
  CoordinatorStatus, Coordinator, Run, create_connection_coordinator, CoordinatorStep, set_status,
  same_status, set_capabilities, cancel_reconnect, schedule_reconnect, arm_timer,
}
use cucoudle.Mobile.Coordinator.Sync.{forget_capabilities}
use cucoudle.Mobile.Coordinator.Steps.{step}

-- One timer of the host runs, the one remembered, and only while there is a profile to reconnect
-- with; or none runs.
abbrev pub IsTimed : Option ℕ → List ℕ → Bool → Option PairingProfile → Type 0
IsTimed none armed disposed profile = armed ≡ []
IsTimed (some timer) armed disposed profile =
    (armed ≡ timer ∷ []) × (disposed ≡ false) × (is_some profile ≡ true)

-- How many of the calls have this version.
abbrev pub versions : ℕ → List Run → ℕ
versions v = count (λ r. r.version == v)

-- The call that runs, not suspended, has a version that is given out and that no other call has.
abbrev pub IsRunning : Option ℕ → ℕ → List Run → Type 0
IsRunning none run_version runs = Unit
IsRunning (some v) run_version runs = (v ≤ run_version) × (versions v runs ≡ 0)

-- The invariant, with the version of the call that runs, if one does: the timer as in IsTimed; no
-- call has a version that is not given out, and no two calls have the same; no close of a connection
-- is under way; and the listeners are on until `dispose`.
pub record IsCoordinated (running : Option ℕ) (c : Coordinator) : Type 0 where
  pub timed : IsTimed c.reconnect_timer c.armed c.disposed c.profile
  pub given : All (λ r. r.version ≤ c.run_version) c.runs
  pub apart : (v : ℕ) → versions v c.runs ≤ 1
  pub call : IsRunning running c.run_version c.runs
  pub quiet : c.replacing_transport ≡ false
  pub heard : c.listening ≡ not c.disposed

pub create_connection_coordinator-IsCoordinated : IsCoordinated none create_connection_coordinator
unfolding create_connection_coordinator
create_connection_coordinator-IsCoordinated = record {
  timed = refl;
  given = tt;
  apart = λ v. omega arith;
  call = tt;
  quiet = refl;
  heard = refl;
}

-- The coordinator with no timer.
abbrev pub untimed : Coordinator → Coordinator
untimed c = record c { reconnect_timer = none; armed = [] }

pub cancel_reconnect-clears :
    (c : Coordinator) (disposed : Bool) (profile : Option PairingProfile)
    → IsTimed c.reconnect_timer c.armed disposed profile
    → cancel_reconnect c ≡ untimed c
unfolding cancel_reconnect
cancel_reconnect-clears c disposed profile h = elim (Option-cases c.reconnect_timer) [
  | inl e ↦ ground (arith, e, h)
  | inr (timer, e) ↦ ground (arith, e, h)
]

module _ (o : Option ℕ) where
  abbrev Kept : CoordinatorStep → Type 0
  Kept step = IsCoordinated o step.0

  pub same_core :
      (c : Coordinator) (status : CoordinatorStatus) (capabilities : Option (List String))
      (active : Bool)
      → IsCoordinated o c
      → IsCoordinated o
          (record c { status = status; capabilities = capabilities; has_active_transport = active })
  same_core c status capabilities active h = record {
    timed = h.timed;
    given = h.given;
    apart = h.apart;
    call = h.call;
    quiet = h.quiet;
    heard = h.heard;
  }

  pub set_status-IsCoordinated :
      (c : Coordinator) (next : CoordinatorStatus)
      → IsCoordinated o c
      → IsCoordinated o (set_status c next).0
  unfolding set_status
  set_status-IsCoordinated c next h =
      if-holds Kept (c.disposed || same_status c.status next) h
        (same_core c next c.capabilities c.has_active_transport h)

  pub set_capabilities-IsCoordinated :
      (c : Coordinator) (next : Option (List String))
      → IsCoordinated o c
      → IsCoordinated o (set_capabilities c next).0
  unfolding set_capabilities
  set_capabilities-IsCoordinated c none h = h
  set_capabilities-IsCoordinated c (some next) h =
      same_core c c.status (some next) c.has_active_transport h

  pub forget_capabilities-IsCoordinated :
      (c : Coordinator) → IsCoordinated o c → IsCoordinated o (forget_capabilities c).0
  unfolding forget_capabilities
  forget_capabilities-IsCoordinated c h = elim (Option-cases c.capabilities) [
    | inl e ↦ rw (e, forget_capabilities) h
    | inr (l, e) ↦ rw (e, forget_capabilities) (same_core c c.status none c.has_active_transport h)
  ]

  pub cancel_reconnect-untimed :
      (c : Coordinator) → IsCoordinated o c → cancel_reconnect c ≡ untimed c
  cancel_reconnect-untimed c h = cancel_reconnect-clears c c.disposed c.profile h.timed

  -- Without a timer, the profile may change.
  pub untimed-IsCoordinated :
      (c : Coordinator) (profile : Option PairingProfile) (capabilities : Option (List String))
      → IsCoordinated o c
      → IsCoordinated o (record (untimed c) { profile = profile; capabilities = capabilities })
  untimed-IsCoordinated c profile capabilities h = record {
    timed = refl;
    given = h.given;
    apart = h.apart;
    call = h.call;
    quiet = h.quiet;
    heard = h.heard;
  }

  pub cancel_reconnect-replaced :
      (c : Coordinator) (profile : Option PairingProfile) (capabilities : Option (List String))
      → IsCoordinated o c
      → IsCoordinated o
          (record (cancel_reconnect c) { profile = profile; capabilities = capabilities })
  cancel_reconnect-replaced c profile capabilities h =
      subst (λ d. IsCoordinated o (record d { profile = profile; capabilities = capabilities }))
        (sym (cancel_reconnect-untimed c h)) (untimed-IsCoordinated c profile capabilities h)

  pub cancel_reconnect-IsCoordinated :
      (c : Coordinator) → IsCoordinated o c → IsCoordinated o (cancel_reconnect c)
  cancel_reconnect-IsCoordinated c h =
      subst (IsCoordinated o) (sym (cancel_reconnect-untimed c h))
        (untimed-IsCoordinated c c.profile c.capabilities h)

  arm_timer-IsCoordinated :
      (delay : ℕ) (c : Coordinator)
      → c.disposed ≡ false
      → is_some c.profile ≡ true
      → c.armed ≡ []
      → IsCoordinated o c
      → IsCoordinated o (arm_timer delay c).0
  unfolding arm_timer
  arm_timer-IsCoordinated delay c d p a h = record {
    timed = (ap (λ l. l ++ c.next_timer ∷ []) a, d, p);
    given = h.given;
    apart = h.apart;
    call = h.call;
    quiet = h.quiet;
    heard = h.heard;
  }

  set_status-core :
      (c : Coordinator) (next : CoordinatorStatus)
      → ((set_status c next).0.disposed ≡ c.disposed)
        × ((set_status c next).0.profile ≡ c.profile)
        × ((set_status c next).0.armed ≡ c.armed)
  unfolding set_status
  set_status-core c next = (ground arith, ground arith, ground arith)

  pub schedule_reconnect-IsCoordinated :
      (delay : ℕ) (c : Coordinator)
      → IsCoordinated o c
      → IsCoordinated o (schedule_reconnect delay c).0
  unfolding schedule_reconnect
  schedule_reconnect-IsCoordinated delay c h =
      elim (Bool-cases (c.disposed || not (is_some c.profile) || is_some c.reconnect_timer)) [
        | inl e ↦ rw (e, schedule_reconnect) h
        | inr e ↦
            let (d, p, a) = set_status-core c CoordinatorStatus.reconnecting in
            rw (e, schedule_reconnect)
              (arm_timer-IsCoordinated delay (set_status c CoordinatorStatus.reconnecting).0
                (d ∙ ground (arith, e)) (ap is_some p ∙ ground (arith, e))
                (a ∙ ground (arith, e, h.timed))
                (set_status-IsCoordinated c CoordinatorStatus.reconnecting h))
      ]
