-- ===== src/Mobile/Coordinator/Silence.antt =====
-- What the coordinator no longer does once a call is superseded, the profile is gone, or it is
-- disposed of.
use cucoudle.Prelude.{
  ℕ, ◌≡◌, ◌≢◌, refl, ◌∙◌, Bool, true, false, not, Option, none, some, [], ◌∷◌, ◌==◌, filter, any,
  arith, if◌then◌else◌, Bool-cases, Option-cases, inl, inr,
}
use cucoudle.Mobile.Client.{ConnectionState, disconnected, connecting, connected}
use cucoudle.Mobile.Coordinator.{
  CoordinatorStatus, Coordinator, capabilities_changed, OpenSessionRecovery, Stage, opening,
  resuming, listing, subscribing, invalidating, Run, CoordinatorStep, set_status,
  schedule_reconnect, on_connection,
}
use cucoudle.Mobile.Coordinator.Sync.{
  Outcome, close_active_transport, fulfilled, refused, handle_failure, begin, synchronize, returned,
  invalidated, continue_run, find_run, settle, start, retry, dispose, fire,
}
use cucoudle.Mobile.Coordinator.Steps.{
  Input, started, retried, closed, fired, settled, connection_changed, event_received, step, Reach,
}
use cucoudle.Mobile.Coordinator.Invariant.{IsCoordinated, cancel_reconnect-untimed}
use cucoudle.Mobile.Coordinator.Calls.{find_run-found}
use cucoudle.Mobile.Coordinator.Reachable.{Reach-IsCoordinated}

-- Whether a call waits for `onProfileInvalidated`.
abbrev pub is_invalidating : Stage → Bool
is_invalidating invalidating = true
is_invalidating _ = false

pub continue_run-returned :
    (delay : ℕ) (run : Run) (open_session : Option OpenSessionRecovery) (outcome : Outcome)
    (c : Coordinator)
    → is_invalidating run.stage ≡ false
    → continue_run delay run open_session outcome c ≡ returned delay run open_session outcome c
unfolding continue_run
continue_run-returned delay run open_session outcome c h = go run.stage h
  where
    go :
        (stage : Stage)
        → is_invalidating stage ≡ false
        → elim stage [
          | invalidating ↦ invalidated outcome c
          | _ ↦ returned delay run open_session outcome c
        ]
          ≡ returned delay run open_session outcome c
    go opening e = refl
    go resuming e = refl
    go listing e = refl
    go subscribing e = refl
    go invalidating e = absurd (ground arith)

returned-stale :
    (delay : ℕ) (run : Run) (open_session : Option OpenSessionRecovery) (outcome : Outcome)
    (c : Coordinator)
    → (run.version == c.run_version) ≡ false
    → returned delay run open_session outcome c ≡ (c, [])
unfolding returned
returned-stale delay run open_session (fulfilled result) c h = ground (arith, h)
returned-stale delay run open_session (refused error) c h = rw (h, returned) refl

-- A call of `synchronize` whose version is no longer the current one, and that waits for the
-- connection or for the answer to one of its requests, not for onProfileInvalidated, ends when its
-- promise is settled, whether with a result or an error: nothing is called, and of the state only the
-- waiting call is gone.
pub stale_silent :
    (delay version : ℕ) (run : Run) (open_session : Option OpenSessionRecovery) (outcome : Outcome)
    (c : Coordinator)
    → find_run version c.runs ≡ some run
    → is_invalidating run.stage ≡ false
    → version ≢ c.run_version
    → settle delay version open_session outcome c
      ≡ (record c { runs = filter (λ r. not (r.version == version)) c.runs }, [])
unfolding settle
stale_silent delay version run open_session outcome c e s n =
    let d : Coordinator = record c { runs = filter (λ r. not (r.version == version)) c.runs } in
    let stale : (run.version == c.run_version) ≡ false =
      ground (arith, n, find_run-found version c.runs run e) in
    rw (e, settle)
      (continue_run-returned delay run open_session outcome d s
        ∙ returned-stale delay run open_session outcome d stale)

-- A disposed coordinator

set_status-disposed :
    (c : Coordinator) (next : CoordinatorStatus) → c.disposed ≡ true → set_status c next ≡ (c, [])
unfolding set_status
set_status-disposed c next h = rw (h, set_status) refl

synchronize-disposed :
    (delay : ℕ) (reported : Bool) (entry_status : CoordinatorStatus) (c : Coordinator)
    → c.disposed ≡ true
    → synchronize delay reported entry_status c ≡ (c, [])
unfolding synchronize
synchronize-disposed delay reported entry_status c h = ground (arith, h, Option-cases c.profile)

returned-disposed :
    (delay : ℕ) (run : Run) (open_session : Option OpenSessionRecovery) (outcome : Outcome)
    (c : Coordinator)
    → c.disposed ≡ true
    → returned delay run open_session outcome c ≡ (c, [])
unfolding returned handle_failure
returned-disposed delay run open_session (fulfilled result) c h = rw (h, returned) refl
returned-disposed delay run open_session (refused error) c h =
    ground (arith, h, Bool-cases (run.version == c.run_version))

invalidated-disposed :
    (outcome : Outcome) (c : Coordinator) → c.disposed ≡ true → invalidated outcome c ≡ (c, [])
unfolding invalidated
invalidated-disposed (fulfilled result) c h = rw (h, invalidated) refl
invalidated-disposed (refused error) c h = refl

continue_run-disposed :
    (delay : ℕ) (run : Run) (open_session : Option OpenSessionRecovery) (outcome : Outcome)
    (c : Coordinator)
    → c.disposed ≡ true
    → continue_run delay run open_session outcome c ≡ (c, [])
unfolding continue_run
continue_run-disposed delay run open_session outcome c h =
    elim (Bool-cases (is_invalidating run.stage)) [
      | inl e ↦ invalidating_lem run.stage e
      | inr e ↦
          continue_run-returned delay run open_session outcome c e
          ∙ returned-disposed delay run open_session outcome c h
    ]
  where
    invalidating_lem :
        (stage : Stage)
        → is_invalidating stage ≡ true
        → elim stage [
          | invalidating ↦ invalidated outcome c
          | _ ↦ returned delay run open_session outcome c
        ]
          ≡ (c, [])
    invalidating_lem invalidating e = invalidated-disposed outcome c h
    invalidating_lem opening e = absurd (ground arith)
    invalidating_lem resuming e = absurd (ground arith)
    invalidating_lem listing e = absurd (ground arith)
    invalidating_lem subscribing e = absurd (ground arith)

settle-disposed :
    (delay version : ℕ) (open_session : Option OpenSessionRecovery) (outcome : Outcome)
    (c : Coordinator)
    → c.disposed ≡ true
    → ((settle delay version open_session outcome c).1 ≡ [])
      × ((settle delay version open_session outcome c).0.disposed ≡ true)
unfolding settle continue_run
settle-disposed delay version open_session outcome c h =
    elim (Option-cases (find_run version c.runs)) [
      | inl e ↦ rw (e, settle) (refl, h)
      | inr (run, e) ↦
          rw
            (
              e,
              settle,
              continue_run-disposed delay run open_session outcome
                  (record c { runs = filter (λ r. not (r.version == version)) c.runs }) h,
            )
            (refl, h)
    ]

-- Whether an input is `start(null)`.
abbrev pub is_start_null : Input → Bool
is_start_null (started none) = true
is_start_null _ = false

-- What a coordinator does that is disposed of and listens to nothing.
abbrev pub IsSilent : Input → CoordinatorStep → Type 0
IsSilent input (d, effects) =
    (d.disposed ≡ true)
    × (effects ≡ (if is_start_null input then capabilities_changed none ∷ [] else []))

step-disposed :
    (delay : ℕ) (reported : Bool) (input : Input) (c : Coordinator)
    → IsCoordinated none c
    → c.disposed ≡ true
    → IsSilent input (step delay reported input c)
unfolding step start retry dispose fire synchronize set_status
step-disposed delay reported (started none) c k h =
    rw (cancel_reconnect-untimed none c k, step, start) (ground (arith, h))
step-disposed delay reported (started (some profile)) c k h =
    rw (cancel_reconnect-untimed none c k, step, start) (ground (arith, h))
step-disposed delay reported retried c k h = ground (arith, h, Option-cases c.profile)
step-disposed delay reported closed c k h = ground (arith, h)
step-disposed delay reported (fired timer) c k h = ground (arith, h, Option-cases c.profile)
step-disposed delay reported (settled version open_session outcome) c k h =
    let (e, d) = settle-disposed delay version open_session outcome c h in (d, e)
step-disposed delay reported (connection_changed state) c k h = ground (arith, h, k.heard)
step-disposed delay reported (event_received event) c k h = ground (arith, h, k.heard)

-- Once disposed of, a coordinator that the inputs led to stays so, and whatever comes next calls
-- nothing: no timer, no request, no status and no event; only `start(null)` still reports that the
-- capabilities are gone.
pub disposed-IsSilent :
    (delay : ℕ) (reported : Bool) (input : Input) (c : Coordinator)
    → Reach delay c
    → c.disposed ≡ true
    → IsSilent input (step delay reported input c)
disposed-IsSilent delay reported input c r h =
    step-disposed delay reported input c (Reach-IsCoordinated delay c r) h

unarmed :
    (timer : ℕ) (c : Coordinator)
    → IsCoordinated none c
    → c.profile ≡ none
    → any (λ t. t == timer) c.armed ≡ false
unarmed timer c k h = elim (Option-cases c.reconnect_timer) [
  | inl e ↦ ground (arith, e, k.timed)
  | inr (t, e) ↦ ground (arith, h, e, k.timed)
]

unscheduled :
    (delay : ℕ) (state : ConnectionState) (c : Coordinator)
    → c.profile ≡ none
    → (on_connection delay c state).1 ≡ []
unfolding on_connection schedule_reconnect
unscheduled delay disconnected c h = ground (arith, h)
unscheduled delay connecting c h = refl
unscheduled delay connected c h = refl

-- A coordinator without a profile makes no attempt to connect on its own: `retry` and a timer of the
-- host change nothing, and a report of the connection sets no timer and calls nothing.
pub without_profile :
    (delay : ℕ) (reported : Bool) (timer : ℕ) (state : ConnectionState) (c : Coordinator)
    → Reach delay c
    → c.profile ≡ none
    → (retry delay reported c ≡ (c, []))
      × (fire delay reported timer c ≡ (c, []))
      × ((on_connection delay c state).1 ≡ [])
unfolding retry fire on_connection schedule_reconnect
without_profile delay reported timer state c r h =
    let k = Reach-IsCoordinated delay c r in
    (ground (arith, h), rw (unarmed timer c k h, fire) refl, unscheduled delay state c h)

-- It makes no difference to any input whether the client reports a close that the coordinator asks
-- for before its `close` returns.
pub unreported :
    (delay : ℕ) (input : Input) (c : Coordinator)
    → step delay true input c ≡ step delay false input c
unfolding step start retry fire synchronize begin close_active_transport on_connection
unreported delay (started none) c = refl
unreported delay (started (some profile)) c = refl
unreported delay retried c = refl
unreported delay closed c = refl
unreported delay (fired timer) c = refl
unreported delay (settled version open_session outcome) c = refl
unreported delay (connection_changed state) c = refl
unreported delay (event_received event) c = refl
