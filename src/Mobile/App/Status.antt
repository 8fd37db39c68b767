-- ===== src/Mobile/App/Status.antt =====
-- What the callbacks of the runtime leave of the application's state.
use cucoudle.Prelude.{◌≡◌, ◌⊎◌, inl, refl, sym, ap, ◌∙◌, none, List, [], ◌∷◌, ◌++◌, map, if-holds}
use cucoudle.Mobile.Pairing.{Platform}
use cucoudle.Mobile.Pairing.Repository.{Storage, get_profile}
use cucoudle.Mobile.Coordinator.{
  CoordinatorStatus, CoordinatorEffect, status_changed, capabilities_changed, profile_invalidated,
  list_dispatched, subscribe_dispatched, event_dispatched, connect_called, requested, close_called,
  timer_set,
}
use cucoudle.Mobile.Coordinator.Reports.{last_status}
use cucoudle.Mobile.Runtime.{
  RuntimeEffect, coordinated, opened_dispatched, result_dispatched, pushed, session_requested,
  client_closed, pairing_connected, pairing_requested, pairing_closed,
}
use cucoudle.Mobile.App.{App, AppStep, app_status, on_status_change, deliver, deliver_all}

-- The status that the runtime reported last.
unfoldable pub heard : List RuntimeEffect → CoordinatorStatus → CoordinatorStatus
heard [] s = s
heard (coordinated (status_changed t) ∷ effects) s = heard effects t
heard (effect ∷ effects) s = heard effects s

pub heard-coordinated :
    (effects : List CoordinatorEffect) (s : CoordinatorStatus)
    → heard (map coordinated effects) s ≡ last_status effects s
unfolding heard last_status
heard-coordinated [] s = refl
heard-coordinated (status_changed t ∷ effects) s = heard-coordinated effects t
heard-coordinated (capabilities_changed c ∷ effects) s = heard-coordinated effects s
heard-coordinated (profile_invalidated p ∷ effects) s = heard-coordinated effects s
heard-coordinated (list_dispatched l ∷ effects) s = heard-coordinated effects s
heard-coordinated (subscribe_dispatched l ∷ effects) s = heard-coordinated effects s
heard-coordinated (event_dispatched l ∷ effects) s = heard-coordinated effects s
heard-coordinated (connect_called l ∷ effects) s = heard-coordinated effects s
heard-coordinated (requested m l ∷ effects) s = heard-coordinated effects s
heard-coordinated (close_called ∷ effects) s = heard-coordinated effects s
heard-coordinated (timer_set l ∷ effects) s = heard-coordinated effects s

pub heard-append :
    (left right : List RuntimeEffect) (s : CoordinatorStatus)
    → heard (left ++ right) s ≡ heard right (heard left s)
unfolding heard
heard-append [] right s = refl
heard-append (coordinated (status_changed t) ∷ left) right s = heard-append left right t
heard-append (coordinated (capabilities_changed c) ∷ left) right s = heard-append left right s
heard-append (coordinated (profile_invalidated p) ∷ left) right s = heard-append left right s
heard-append (coordinated (list_dispatched l) ∷ left) right s = heard-append left right s
heard-append (coordinated (subscribe_dispatched l) ∷ left) right s = heard-append left right s
heard-append (coordinated (event_dispatched l) ∷ left) right s = heard-append left right s
heard-append (coordinated (connect_called l) ∷ left) right s = heard-append left right s
heard-append (coordinated (requested m l) ∷ left) right s = heard-append left right s
heard-append (coordinated close_called ∷ left) right s = heard-append left right s
heard-append (coordinated (timer_set l) ∷ left) right s = heard-append left right s
heard-append (opened_dispatched l ∷ left) right s = heard-append left right s
heard-append (result_dispatched l ∷ left) right s = heard-append left right s
heard-append (pushed l ∷ left) right s = heard-append left right s
heard-append (session_requested m l ∷ left) right s = heard-append left right s
heard-append (client_closed ∷ left) right s = heard-append left right s
heard-append (pairing_connected l ∷ left) right s = heard-append left right s
heard-append (pairing_requested m l ∷ left) right s = heard-append left right s
heard-append (pairing_closed ∷ left) right s = heard-append left right s

module _ {S : Type 0} (z : Platform) (storage : Storage S) where
  -- The application shows no profile, or the one that the store gives back.
  abbrev pub IsStored : App S → Type 0
  IsStored a = (a.profile ≡ none) ⊎ (a.profile ≡ get_profile z storage a.store)

  -- The callbacks leave the runtime; they show the status that is heard last, and keep what is shown of
  -- the profile stored.
  abbrev pub Heard : CoordinatorStatus → App S → App S → Type 0
  Heard s a b =
      (b.runtime ≡ a.runtime) × (b.connection_status ≡ app_status s) × (IsStored a → IsStored b)

  on_status_change-Heard : (t : CoordinatorStatus) (a : App S) → Heard t a (on_status_change t a).0
  unfolding on_status_change
  on_status_change-Heard CoordinatorStatus.idle a = (refl, refl, λ h. h)
  on_status_change-Heard CoordinatorStatus.connecting a = (refl, refl, λ h. h)
  on_status_change-Heard CoordinatorStatus.online a =
      if-holds (λ (b : AppStep S). Heard CoordinatorStatus.online a b.0) a.exit_recovery_on_online
        (refl, refl, λ h. h) (refl, refl, λ h. h)
  on_status_change-Heard CoordinatorStatus.reconnecting a = (refl, refl, λ h. h)
  on_status_change-Heard CoordinatorStatus.resyncing a = (refl, refl, λ h. h)
  on_status_change-Heard CoordinatorStatus.recovery a = (refl, refl, λ h. h)
  on_status_change-Heard CoordinatorStatus.pairing_required a = (refl, refl, λ h. h)

  deliver-Heard :
      (effect : RuntimeEffect) (s : CoordinatorStatus) (a : App S)
      → a.connection_status ≡ app_status s
      → Heard (heard (effect ∷ []) s) a (deliver z storage effect a).0
  unfolding heard deliver
  deliver-Heard (coordinated (status_changed t)) s a h = on_status_change-Heard t a
  deliver-Heard (coordinated (profile_invalidated p)) s a h = (refl, h, λ k. inl refl)
  deliver-Heard (coordinated (subscribe_dispatched l)) s a h = (refl, h, λ k. k)
  deliver-Heard (coordinated (event_dispatched l)) s a h = (refl, h, λ k. k)
  deliver-Heard (coordinated (connect_called l)) s a h = (refl, h, λ k. k)
  deliver-Heard (coordinated (requested m l)) s a h = (refl, h, λ k. k)
  deliver-Heard (coordinated close_called) s a h = (refl, h, λ k. k)
  deliver-Heard (coordinated (timer_set l)) s a h = (refl, h, λ k. k)
  deliver-Heard (opened_dispatched l) s a h = (refl, h, λ k. k)
  deliver-Heard (result_dispatched l) s a h = (refl, h, λ k. k)
  deliver-Heard (pushed l) s a h = (refl, h, λ k. k)
  deliver-Heard (session_requested m l) s a h = (refl, h, λ k. k)
  deliver-Heard client_closed s a h = (refl, h, λ k. k)
  deliver-Heard (pairing_connected l) s a h = (refl, h, λ k. k)
  deliver-Heard (pairing_requested m l) s a h = (refl, h, λ k. k)
  deliver-Heard pairing_closed s a h = (refl, h, λ k. k)
  deliver-Heard (coordinated (capabilities_changed c)) s a h = (refl, h, λ k. k)
  deliver-Heard (coordinated (list_dispatched l)) s a h = (refl, h, λ k. k)

  pub deliver_all-Heard :
      (effects : List RuntimeEffect) (s : CoordinatorStatus) (a : App S)
      → a.connection_status ≡ app_status s
      → Heard (heard effects s) a (deliver_all z storage effects a).0
  unfolding heard deliver_all
  deliver_all-Heard [] s a h = (refl, h, λ k. k)
  deliver_all-Heard (effect ∷ effects) s a h =
      let t = heard (effect ∷ []) s in
      let b = (deliver z storage effect a).0 in
      let (r, c, k) = deliver-Heard effect s a h in
      let (r2, c2, k2) = deliver_all-Heard effects t b c in
      (r2 ∙ r, c2 ∙ ap app_status (sym (heard-append (effect ∷ []) effects s)), λ g. k2 (k g))
