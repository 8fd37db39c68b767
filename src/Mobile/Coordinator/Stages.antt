-- ===== src/Mobile/Coordinator/Stages.antt =====
-- How a call of `synchronize` goes from one stage to the next.
use cucoudle.Prelude.{
  ℕ, ◌≡◌, refl, ◌∙◌, sym, subst, Bool, true, false, not, Option, none, some, List, [], ◌∷◌, ◌++◌,
  ◌==◌, filter, arith, if-holds, ◌||◌, String, Bool-cases, Option-cases, inl, inr,
}
use cucoudle.Protocol.Json.{Fields}
use cucoudle.Mobile.Pairing.{PairingProfile}
use cucoudle.Mobile.Coordinator.{
  CoordinatorStatus, online, Coordinator, OpenSessionRecovery, Stage, opening, resuming, listing,
  subscribing, invalidating, Run, CoordinatorStep, set_status, set_capabilities, same_status,
  negotiated_capabilities,
}
use cucoudle.Mobile.Coordinator.Sync.{
  fulfilled, transport_opened, resumed, listed, subscribed, forget_capabilities, suspend, proceed,
  returned, find_run, settle, close_active_transport,
}
use cucoudle.Mobile.Coordinator.Invariant.{versions}
use cucoudle.Mobile.Coordinator.Calls.{versions-filter_other}
use cucoudle.Mobile.Coordinator.Silence.{is_invalidating, continue_run-returned}
use cucoudle.Mobile.Coordinator.Transport.{close_active_transport-closes}

-- The promises that a call waits for are fulfilled in turn.
unfoldable pub fulfill :
    ℕ → ℕ → Option OpenSessionRecovery → List Fields → Coordinator → Coordinator
unfolding settle
fulfill delay version open_session [] c = c
fulfill delay version open_session (result ∷ results) c =
    fulfill delay version open_session results
      (settle delay version open_session (fulfilled result) c).0

-- The results of the calls that get the coordinator online: `last` is that of the subscription, which
-- is only asked for where a session is open.
abbrev pub results_for :
    Option OpenSessionRecovery → Fields → Fields → Fields → Fields → List Fields
results_for none connection resume list last = connection ∷ resume ∷ list ∷ []
results_for (some session) connection resume list last = connection ∷ resume ∷ list ∷ last ∷ []

find_run-last :
    (v : ℕ) (rs : List Run) (run : Run)
    → versions v rs ≡ 0
    → run.version ≡ v
    → find_run v (rs ++ run ∷ []) ≡ some run
unfolding find_run
find_run-last v [] run h e = ground (arith, e)
find_run-last v (r ∷ rs) run h e = ground (arith, h, e, find_run-last v rs run)

find_run-none : (v : ℕ) (rs : List Run) → versions v rs ≡ 0 → find_run v rs ≡ none
unfolding find_run
find_run-none v [] h = refl
find_run-none v (r ∷ rs) h = ground (arith, h, find_run-none v rs)

abbrev run_at : ℕ → PairingProfile → Stage → Run
run_at v p stage = record { version = v; active_profile = p; stage = stage }

module _ (v : ℕ) (p : PairingProfile) where
  -- The coordinator's current call has version `v`, for the profile `p`; it is not suspended.
  abbrev pub IsCurrent : Coordinator → Type 0
  IsCurrent c =
      (c.disposed ≡ false) × (c.run_version ≡ v) × (c.profile ≡ some p) × (versions v c.runs ≡ 0)

  -- It waits at this stage.
  abbrev pub IsAt : Stage → Coordinator → Type 0
  IsAt stage c =
      (c.disposed ≡ false)
      × (c.run_version ≡ v)
      × (c.profile ≡ some p)
      × (find_run v c.runs ≡ some (run_at v p stage))

  -- It has ended well.
  abbrev pub IsOnline : Coordinator → Type 0
  IsOnline c = (c.status ≡ online) × (c.profile ≡ some p) × (find_run v c.runs ≡ none)

  pub set_status-IsCurrent :
      (c : Coordinator) (next : CoordinatorStatus) → IsCurrent c → IsCurrent (set_status c next).0
  unfolding set_status
  set_status-IsCurrent c next h =
      if-holds (λ (s : CoordinatorStep). IsCurrent s.0) (c.disposed || same_status c.status next) h
        h

  set_capabilities-IsCurrent :
      (c : Coordinator) (next : Option (List String))
      → IsCurrent c
      → IsCurrent (set_capabilities c next).0
  unfolding set_capabilities
  set_capabilities-IsCurrent c none h = h
  set_capabilities-IsCurrent c (some next) h = h

  forget_capabilities-IsCurrent :
      (c : Coordinator) → IsCurrent c → IsCurrent (forget_capabilities c).0
  unfolding forget_capabilities
  forget_capabilities-IsCurrent c h = elim (Option-cases c.capabilities) [
    | inl e ↦ rw (e, forget_capabilities) h
    | inr (l, e) ↦ rw (e, forget_capabilities) h
  ]

  pub close_active_transport-IsCurrent :
      (delay : ℕ) (reported : Bool) (c : Coordinator)
      → IsCurrent c
      → IsCurrent (close_active_transport delay reported c).0
  close_active_transport-IsCurrent delay reported c h =
      subst (λ (s : CoordinatorStep). IsCurrent s.0)
        (sym (close_active_transport-closes delay reported c))
        (if-holds (λ (s : CoordinatorStep). IsCurrent s.0) c.has_active_transport h h)

  pub suspend-IsAt :
      (stage : Stage) (c : Coordinator) → IsCurrent c → IsAt stage (suspend v p stage c)
  suspend-IsAt stage c h = (h.0, h.1, h.2, find_run-last v c.runs (run_at v p stage) h.3 refl)

  pub current_lem :
      (stage : Stage) (c : Coordinator)
      → IsAt stage c
      → (c.disposed || not (v == c.run_version)) ≡ false
  current_lem stage c h = ground (arith, h.0, h.1)

  -- A call that waits goes on where its promise is fulfilled.
  settle-proceed :
      (delay : ℕ) (open_session : Option OpenSessionRecovery) (result : Fields) (stage : Stage)
      (c : Coordinator)
      → is_invalidating stage ≡ false
      → IsAt stage c
      → let d : Coordinator = record c { runs = filter (λ r. not (r.version == v)) c.runs } in
        (settle delay v open_session (fulfilled result) c
          ≡ proceed (run_at v p stage) open_session result d)
        × IsCurrent d
  unfolding settle returned
  settle-proceed delay open_session result stage c s h =
      let d : Coordinator = record c { runs = filter (λ r. not (r.version == v)) c.runs } in
      (
        rw (h.3, settle)
            (continue_run-returned delay (run_at v p stage) open_session (fulfilled result) d s
              ∙ rw (current_lem stage c h) refl),
        (h.0, h.1, h.2, ground (arith, versions-filter_other v v c.runs)),
      )

  same_status-online : (s : CoordinatorStatus) → same_status s online ≡ true → s ≡ online
  unfolding same_status
  same_status-online online h = refl
  same_status-online CoordinatorStatus.idle h = absurd (ground arith)
  same_status-online CoordinatorStatus.connecting h = absurd (ground arith)
  same_status-online CoordinatorStatus.reconnecting h = absurd (ground arith)
  same_status-online CoordinatorStatus.resyncing h = absurd (ground arith)
  same_status-online CoordinatorStatus.recovery h = absurd (ground arith)
  same_status-online CoordinatorStatus.pairing_required h = absurd (ground arith)

  went_online : (c : Coordinator) → IsCurrent c → IsOnline (set_status c online).0
  unfolding set_status
  went_online c h =
      let gone = find_run-none v c.runs h.3 in
      elim (Bool-cases (same_status c.status online)) [
        | inl e ↦ rw (h.0, e, set_status) (same_status-online c.status e, h.2, gone)
        | inr e ↦ rw (h.0, e, set_status) (refl, h.2, gone)
      ]

  -- What a call at this stage comes to with one promise more, where this session is open.
  abbrev pub Next : Option OpenSessionRecovery → Stage → Coordinator → Type 0
  Next open_session opening c = IsAt resuming c
  Next open_session resuming c = IsAt listing c
  Next none listing c = IsOnline c
  Next (some session) listing c = IsAt subscribing c
  Next open_session subscribing c = IsOnline c
  Next open_session invalidating c = Unit

  proceed-Next :
      (open_session : Option OpenSessionRecovery) (result : Fields) (stage : Stage)
      (c : Coordinator)
      → IsCurrent c
      → Next open_session stage (proceed (run_at v p stage) open_session result c).0
  unfolding proceed transport_opened resumed listed subscribed
  proceed-Next open_session result opening c h =
      let d : Coordinator = record c { has_active_transport = true } in
      let e = (set_status d CoordinatorStatus.resyncing).0 in
      suspend-IsAt resuming (forget_capabilities e).0
        (forget_capabilities-IsCurrent e (set_status-IsCurrent d CoordinatorStatus.resyncing h))
  proceed-Next open_session result resuming c h =
      let next = negotiated_capabilities result in
      suspend-IsAt listing (set_capabilities c next).0 (set_capabilities-IsCurrent c next h)
  proceed-Next none result listing c h =
      let next = negotiated_capabilities result in
      went_online (set_capabilities c next).0 (set_capabilities-IsCurrent c next h)
  proceed-Next (some session) result listing c h =
      let next = negotiated_capabilities result in
      suspend-IsAt subscribing (set_capabilities c next).0 (set_capabilities-IsCurrent c next h)
  proceed-Next open_session result subscribing c h =
      let next = negotiated_capabilities result in
      went_online (set_capabilities c next).0 (set_capabilities-IsCurrent c next h)
  proceed-Next open_session result invalidating c h = tt

  pub settle-Next :
      (delay : ℕ) (open_session : Option OpenSessionRecovery) (result : Fields) (stage : Stage)
      (c : Coordinator)
      → is_invalidating stage ≡ false
      → IsAt stage c
      → Next open_session stage (settle delay v open_session (fulfilled result) c).0
  settle-Next delay open_session result stage c s h =
      let (e, k) = settle-proceed delay open_session result stage c s h in
      subst (λ x. Next open_session stage x.0) (sym e) (proceed-Next open_session result stage _ k)
