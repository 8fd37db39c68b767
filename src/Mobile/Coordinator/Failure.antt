-- ===== src/Mobile/Coordinator/Failure.antt =====
-- What a failed call of `synchronize` leads to, by the code of the error.
use cucoudle.Prelude.{
  ℕ, ◌≡◌, refl, ◌∙◌, sym, subst, Bool, true, false, not, ◌||◌, ◌&&◌, Option, none, some, List, [],
  ◌∷◌, ◌==◌, filter, elem, arith, if◌then◌else◌, is_some, Bool-cases, Option-cases, inl, inr,
  String,
}
use cucoudle.Mobile.Client.{Reason}
use cucoudle.Mobile.Pairing.{PairingProfile}
use cucoudle.Mobile.Coordinator.{
  recovery, Coordinator, CoordinatorEffect, profile_invalidated, capabilities_changed,
  OpenSessionRecovery, invalidating, Run, CoordinatorStep, set_status, same_status,
  schedule_reconnect, arm_timer, error_code, pairing_required_codes, recovery_codes,
}
use cucoudle.Mobile.Coordinator.Sync.{refused, suspend, handle_failure, returned, find_run, settle}
use cucoudle.Mobile.Coordinator.Steps.{Reach}
use cucoudle.Mobile.Coordinator.Invariant.{IsCoordinated, untimed, cancel_reconnect-untimed}
use cucoudle.Mobile.Coordinator.Calls.{find_run-found, resume-IsCoordinated}
use cucoudle.Mobile.Coordinator.Silence.{is_invalidating, continue_run-returned}
use cucoudle.Mobile.Coordinator.Reachable.{Reach-IsCoordinated}

-- Whether the error has one of these codes.
abbrev pub has_code : List String → Reason → Bool
has_code codes error = elim (error_code error) [ none ↦ false | some code ↦ elem code codes ]

-- The profiles that the application is told to drop.
abbrev pub invalidates : List CoordinatorEffect → List PairingProfile
invalidates [] = []
invalidates (profile_invalidated p ∷ es) = p ∷ invalidates es
invalidates (_ ∷ es) = invalidates es

-- Which failure it is, and what comes of it for the coordinator `d` and its effects.
abbrev pub Follows : Bool → Bool → PairingProfile → PairingProfile → CoordinatorStep → Type 0
Follows unpaired offline profile active_profile (d, effects) =
    (d.profile ≡ (if unpaired then none else some profile))
    × (invalidates effects ≡ (if unpaired then active_profile ∷ [] else []))
    × (is_some d.reconnect_timer ≡ not (unpaired || offline))
    × ((not unpaired && offline && not (same_status d.status recovery)) ≡ false)

set_status-Follows :
    (c : Coordinator) (p q : PairingProfile)
    → c.disposed ≡ false
    → c.profile ≡ some p
    → c.reconnect_timer ≡ none
    → Follows false true p q (set_status c recovery)
unfolding set_status same_status
set_status-Follows c p q h e n = elim (Bool-cases (same_status c.status recovery)) [
  | inl s ↦ ground (arith, h, e, n, s)
  | inr s ↦ ground (arith, h, e, n, s)
]

schedule_reconnect-Follows :
    (delay : ℕ) (c : Coordinator) (p q : PairingProfile)
    → c.disposed ≡ false
    → c.profile ≡ some p
    → Follows false false p q (schedule_reconnect delay c)
unfolding schedule_reconnect arm_timer set_status
schedule_reconnect-Follows delay c p q h e = elim (Option-cases c.reconnect_timer) [
  | inl n ↦ ground (arith, h, e, n)
  | inr (t, n) ↦ ground (arith, h, e, n)
]

handle_failure-branches :
    (delay version : ℕ) (q : PairingProfile) (error : Reason) (c : Coordinator)
    → IsCoordinated (some version) c
    → c.disposed ≡ false
    → handle_failure delay version q error c ≡ (
        if has_code pairing_required_codes error
        then (
          suspend version q invalidating
              (record (untimed c) { profile = none; capabilities = none }),
          capabilities_changed none ∷ profile_invalidated q ∷ [],
        )
        else if has_code recovery_codes error
        then set_status (untimed c) recovery
        else schedule_reconnect delay c)
unfolding handle_failure
handle_failure-branches delay version q error c k h = elim (Option-cases (error_code error)) [
  | inl n ↦ ground (arith, n, h)
  | inr (code, n) ↦ ground (arith, n, h, cancel_reconnect-untimed (some version) c k)
]

branches-Follows :
    (delay version : ℕ) (p q : PairingProfile) (c : Coordinator) (unpaired offline : Bool)
    → IsCoordinated (some version) c
    → c.disposed ≡ false
    → c.profile ≡ some p
    → Follows unpaired offline p q (
        if unpaired
        then (
          suspend version q invalidating
              (record (untimed c) { profile = none; capabilities = none }),
          capabilities_changed none ∷ profile_invalidated q ∷ [],
        )
        else if offline
        then set_status (untimed c) recovery
        else schedule_reconnect delay c)
branches-Follows delay version p q c true offline k h e = (refl, refl, refl, refl)
branches-Follows delay version p q c false true k h e = set_status-Follows (untimed c) p q h e refl
branches-Follows delay version p q c false false k h e = schedule_reconnect-Follows delay c p q h e

-- A current call of `synchronize` fails while a profile is there and the coordinator is not disposed
-- of. If the code says that the pairing is gone, the profile is dropped, the application is told so,
-- and no timer runs; if it says that the desktop is offline, the status is `recovery` and no timer
-- runs; in all other cases a timer runs that tries again. In the last two cases the profile is kept.
pub failure-Follows :
    (delay version : ℕ) (p : PairingProfile) (run : Run) (open_session : Option OpenSessionRecovery)
    (error : Reason) (c : Coordinator)
    → Reach delay c
    → c.disposed ≡ false
    → c.profile ≡ some p
    → find_run version c.runs ≡ some run
    → version ≡ c.run_version
    → is_invalidating run.stage ≡ false
    → Follows
        (has_code pairing_required_codes error)
        (has_code recovery_codes error)
        p
        run.active_profile
        (settle delay version open_session (refused error) c)
unfolding settle returned
failure-Follows delay version p run open_session error c r h e f current s =
    let d : Coordinator = record c { runs = filter (λ r. not (r.version == version)) c.runs } in
    let k = resume-IsCoordinated version run c f (Reach-IsCoordinated delay c r) in
    let same : (run.version == c.run_version) ≡ true =
      ground (arith, current, find_run-found version c.runs run f) in
    let fails : settle delay version open_session (refused error) c
        ≡ handle_failure delay run.version run.active_profile error d =
      rw (f, settle)
        (continue_run-returned delay run open_session (refused error) d s
          ∙ rw (same, returned) refl) in
    subst
      (Follows (has_code pairing_required_codes error) (has_code recovery_codes error) p
        run.active_profile)
      (sym (fails ∙ handle_failure-branches delay run.version run.active_profile error d k h))
      (branches-Follows delay run.version p run.active_profile d
        (has_code pairing_required_codes error) (has_code recovery_codes error) k h e)
