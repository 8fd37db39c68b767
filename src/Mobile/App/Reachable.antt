-- ===== src/Mobile/App/Reachable.antt =====
-- What holds in every state of the application.
use cucoudle.Prelude.{
  ℕ, ◌≡◌, inl, inr, refl, sym, ap, ◌∙◌, subst, String, Bool, true, false, Option, none, some, List,
  [], ◌∷◌, ◌++◌, if-holds, Option-cases, arith,
}
use cucoudle.Mobile.State.{SessionState}
use cucoudle.Mobile.Pairing.{PairingProfile, Platform}
use cucoudle.Mobile.Pairing.Repository.{Storage, get_profile}
use cucoudle.Mobile.Coordinator.{
  CoordinatorStatus, CoordinatorStep, OpenSessionRecovery, create_connection_coordinator,
}
use cucoudle.Mobile.Coordinator.Sync.{Outcome, fulfilled, refused, start, dispose}
use cucoudle.Mobile.Coordinator.Steps.{Input, started, step}
use cucoudle.Mobile.Coordinator.Reports.{Tells}
use cucoudle.Mobile.Coordinator.Heard.{step-Tells, start-connects, dispose-Tells}
use cucoudle.Mobile.Runtime.{
  Runtime, create_mobile_runtime, RuntimeEffect, client_closed, pairing_closed, RuntimeStep,
  coordinate, start_runtime, open_session, session_answered, dispose_runtime,
}
use cucoudle.Mobile.App.{
  App, AppStep, route_replaced, app_status, reconnecting, perform, new_app, bootstrap, on_paired,
  clear_pairing, coordinator_step, view_session, view_answered, unmount, get_open_session,
}
use cucoudle.Mobile.App.Status.{heard, heard-coordinated, heard-append, IsStored, deliver_all-Heard}

-- A step of the runtime, heard by whoever takes the coordinator's status to be this one.
record Hears (s : CoordinatorStatus) (x : RuntimeStep) : Type 0 where
  pub told : heard x.1 s ≡ x.0.coordinator.status

hears :
    (s : CoordinatorStatus) (r : Runtime) (effects : List RuntimeEffect)
    → heard effects s ≡ r.coordinator.status
    → Hears s (r, effects)
hears s r effects h = record { told = h }

coordinate-Hears :
    (s : CoordinatorStatus) (r : Runtime) (x : CoordinatorStep)
    → Tells s x
    → Hears s (coordinate r x)
coordinate-Hears s r (c, effects) h = record { told = heard-coordinated effects s ∙ h.told }

-- Effects behind it that report no status.
Hears-more :
    (s : CoordinatorStatus) (x : RuntimeStep) (more : List RuntimeEffect)
    → Hears s x
    → ((t : CoordinatorStatus) → heard more t ≡ t)
    → Hears s (x.0, x.1 ++ more)
Hears-more s (r, effects) more h k = record {
  told = heard-append effects more s ∙ ap (λ t. heard more t) h.told ∙ k r.coordinator.status;
}

-- A step of the runtime that does not reach the coordinator.
open_session-Hears :
    (session_id : String) (current : Option OpenSessionRecovery) (r : Runtime)
    → Hears r.coordinator.status (open_session session_id current r)
unfolding open_session heard
open_session-Hears session_id current r = record { told = ground arith }

session_answered-Hears :
    (session_id : String) (outcome : Outcome) (r : Runtime)
    → Hears r.coordinator.status (session_answered session_id outcome r)
unfolding session_answered heard
session_answered-Hears session_id (refused error) r = record { told = refl }
session_answered-Hears session_id (fulfilled result) r = record { told = ground arith }

dispose_runtime-Hears : (r : Runtime) → Hears r.coordinator.status (dispose_runtime r)
unfolding dispose_runtime heard
dispose_runtime-Hears r =
    let s = r.coordinator.status in
    let d : Runtime = record r { disposed = true } in
    if-holds (Hears s) r.disposed (hears s r [] refl) (
      Hears-more s (coordinate d (dispose r.coordinator)) (pairing_closed ∷ [])
        (coordinate-Hears s d (dispose r.coordinator) (dispose-Tells r.coordinator)) (λ t. refl))

module _ {S : Type 0} (z : Platform) (storage : Storage S) where
  -- What the application shows: the coordinator's status, and no profile that is not stored.
  abbrev pub IsFaithful : App S → Type 0
  IsFaithful a =
      (a.connection_status ≡ app_status a.runtime.coordinator.status) × IsStored z storage a

  perform-IsFaithful :
      (s : CoordinatorStatus) (a : App S) (x : RuntimeStep)
      → a.connection_status ≡ app_status s
      → Hears s x
      → IsStored z storage a
      → IsFaithful (perform z storage a x).0
  perform-IsFaithful s a (r, effects) h k g =
      let b : App S = record a { runtime = r } in
      let (e, c, kept) = deliver_all-Heard z storage effects s b h in
      (
        c ∙ ap app_status k.told ∙ ap (λ (t : Runtime). app_status t.coordinator.status) (sym e),
        kept g,
      )

  module _ (delay : ℕ) where
    start_runtime-Hears :
        (reported : Bool) (p : PairingProfile) (r : Runtime)
        → r.coordinator.disposed ≡ false
        → Hears CoordinatorStatus.connecting (start_runtime delay reported (some p) r)
    unfolding start_runtime heard
    start_runtime-Hears reported p r h =
        let x = start delay reported (some p) r.coordinator in
        Hears-more CoordinatorStatus.connecting (coordinate r x) []
          (coordinate-Hears CoordinatorStatus.connecting r x
            (start-connects delay reported p r.coordinator h))
          (λ t. refl)

    pub on_paired-IsFaithful :
        (reported : Bool) (p : PairingProfile) (a : App S)
        → a.runtime.coordinator.disposed ≡ false
        → some p ≡ get_profile z storage a.store
        → IsFaithful (on_paired z storage delay reported p a).0
    unfolding on_paired
    on_paired-IsFaithful reported p a h k =
        let b : App S = record a { profile = some p; connection_status = reconnecting } in
        perform-IsFaithful CoordinatorStatus.connecting b
          (start_runtime delay reported (some p) a.runtime) refl
          (start_runtime-Hears reported p a.runtime h) (inr k)

    bootstrap-none :
        (reported : Bool) (store : S)
        → get_profile z storage store ≡ none
        → bootstrap z storage delay reported store
          ≡ (record (new_app z storage store) { is_ready = true }, route_replaced "/pairing" ∷ [])
    unfolding bootstrap
    bootstrap-none reported store e = rw (e, bootstrap) refl

    bootstrap-some :
        (reported : Bool) (store : S) (p : PairingProfile)
        → get_profile z storage store ≡ some p
        → bootstrap z storage delay reported store
          ≡ on_paired z storage delay reported p
              (record (new_app z storage store) { is_ready = true })
    unfolding bootstrap on_paired
    bootstrap-some reported store p e = rw (e, bootstrap) refl

    pub bootstrap-IsFaithful :
        (reported : Bool) (store : S) → IsFaithful (bootstrap z storage delay reported store).0
    unfolding create_mobile_runtime create_connection_coordinator
    bootstrap-IsFaithful reported store = elim (Option-cases (get_profile z storage store)) [
      | inl e ↦
          subst (λ (x : AppStep S). IsFaithful x.0) (sym (bootstrap-none reported store e))
            (refl, inl refl)
      | inr (p, e) ↦
          subst (λ (x : AppStep S). IsFaithful x.0) (sym (bootstrap-some reported store p e))
            (on_paired-IsFaithful reported p (record (new_app z storage store) { is_ready = true })
              refl (sym e))
    ]

    pub clear_pairing-IsFaithful :
        (reported : Bool) (a : App S)
        → IsFaithful a
        → IsFaithful (clear_pairing z storage delay reported a).0
    unfolding clear_pairing start_runtime step heard
    clear_pairing-IsFaithful reported a (h, k) =
        let s = a.runtime.coordinator.status in
        let x = step delay reported (started none) a.runtime.coordinator in
        let hears =
          Hears-more s (coordinate a.runtime x) (client_closed ∷ [])
            (coordinate-Hears s a.runtime x
              (step-Tells delay reported (started none) a.runtime.coordinator))
            (λ t. refl) in
        let (e, _) =
          perform-IsFaithful s a (start_runtime delay reported none a.runtime) h hears k in
        (e, inl refl)

    pub coordinator_step-IsFaithful :
        (reported : Bool) (input : Input) (a : App S)
        → IsFaithful a
        → IsFaithful (coordinator_step z storage delay reported input a).0
    unfolding coordinator_step
    coordinator_step-IsFaithful reported input a (h, k) =
        let s = a.runtime.coordinator.status in
        let x = step delay reported input a.runtime.coordinator in
        perform-IsFaithful s a (coordinate a.runtime x) h
          (coordinate-Hears s a.runtime x (step-Tells delay reported input a.runtime.coordinator)) k

  pub view_session-IsFaithful :
      (session_id : String) (state : SessionState) (a : App S)
      → IsFaithful a
      → IsFaithful (view_session z storage session_id state a).0
  unfolding view_session
  view_session-IsFaithful session_id state a (h, k) =
      let current = get_open_session state in
      perform-IsFaithful a.runtime.coordinator.status a (open_session session_id current a.runtime)
        h (open_session-Hears session_id current a.runtime) k

  pub view_answered-IsFaithful :
      (session_id : String) (outcome : Outcome) (a : App S)
      → IsFaithful a
      → IsFaithful (view_answered z storage session_id outcome a).0
  unfolding view_answered
  view_answered-IsFaithful session_id outcome a (h, k) =
      perform-IsFaithful a.runtime.coordinator.status a
        (session_answered session_id outcome a.runtime) h
        (session_answered-Hears session_id outcome a.runtime) k

  pub unmount-IsFaithful : (a : App S) → IsFaithful a → IsFaithful (unmount z storage a).0
  unfolding unmount
  unmount-IsFaithful a (h, k) =
      perform-IsFaithful a.runtime.coordinator.status a (dispose_runtime a.runtime) h
        (dispose_runtime-Hears a.runtime) k
