-- ===== src/Mobile/App/Recovery.antt =====
-- When the application leaves the recovery screen.
use cucoudle.Prelude.{
  ◌≡◌, refl, Bool, true, false, not, ◌&&◌, ◌||◌, List, [], ◌∷◌, any, if◌then◌else◌, arith,
}
use cucoudle.Prelude.Steps.{and_then}
use cucoudle.Mobile.Coordinator.{CoordinatorStatus}
use cucoudle.Mobile.App.{App, AppStep, route_replaced, on_status_change}

abbrev is_recovery : CoordinatorStatus → Bool
is_recovery CoordinatorStatus.recovery = true
is_recovery _ = false

-- The statuses that end a recovery.
abbrev ends_recovery : CoordinatorStatus → Bool
ends_recovery CoordinatorStatus.online = true
ends_recovery CoordinatorStatus.pairing_required = true
ends_recovery _ = false

-- A recovery is among the statuses, and nothing behind it ends it.
abbrev pub is_recovering : List CoordinatorStatus → Bool
is_recovering [] = false
is_recovering (s ∷ later) = (is_recovery s && not (any ends_recovery later)) || is_recovering later

recovery_ends : (s : CoordinatorStatus) → (is_recovery s && ends_recovery s) ≡ false
recovery_ends CoordinatorStatus.idle = refl
recovery_ends CoordinatorStatus.connecting = refl
recovery_ends CoordinatorStatus.online = refl
recovery_ends CoordinatorStatus.reconnecting = refl
recovery_ends CoordinatorStatus.resyncing = refl
recovery_ends CoordinatorStatus.recovery = refl
recovery_ends CoordinatorStatus.pairing_required = refl

module _ {S : Type 0} where
  -- The statuses that are reported, in turn.
  unfoldable pub hear_statuses : List CoordinatorStatus → App S → AppStep S
  unfolding on_status_change
  hear_statuses [] a = (a, [])
  hear_statuses (s ∷ statuses) a = and_then (on_status_change s a) (hear_statuses statuses)

  flag-on_status_change :
      (s : CoordinatorStatus) (a : App S)
      → (on_status_change s a).0.exit_recovery_on_online
        ≡ (is_recovery s || (a.exit_recovery_on_online && not (ends_recovery s)))
  unfolding on_status_change
  flag-on_status_change CoordinatorStatus.idle a = ground arith
  flag-on_status_change CoordinatorStatus.connecting a = ground arith
  flag-on_status_change CoordinatorStatus.online a = ground arith
  flag-on_status_change CoordinatorStatus.reconnecting a = ground arith
  flag-on_status_change CoordinatorStatus.resyncing a = ground arith
  flag-on_status_change CoordinatorStatus.recovery a = ground arith
  flag-on_status_change CoordinatorStatus.pairing_required a = ground arith

  flag-hear_statuses :
      (statuses : List CoordinatorStatus) (a : App S)
      → (hear_statuses statuses a).0.exit_recovery_on_online ≡ (
          (a.exit_recovery_on_online && not (any ends_recovery statuses)) || is_recovering statuses)
  unfolding hear_statuses
  flag-hear_statuses [] a = ground arith
  flag-hear_statuses (s ∷ statuses) a = ground (
    arith,
    flag-hear_statuses statuses (on_status_change s a).0,
    flag-on_status_change s a,
    recovery_ends s,
  )

  -- An application that is not recovering, and then hears of any statuses in turn, goes to the inbox when
  -- it hears of `online` exactly where a `recovery` was among them with no `online` and no
  -- `pairing_required` behind it; it goes to the recovery screen at each `recovery`.
  pub leaves_recovery :
      (statuses : List CoordinatorStatus) (a : App S)
      → a.exit_recovery_on_online ≡ false
      → let b = (hear_statuses statuses a).0 in
        ((on_status_change CoordinatorStatus.online b).1
          ≡ (if is_recovering statuses then route_replaced "/(tabs)/inbox" ∷ [] else []))
        × ((on_status_change CoordinatorStatus.recovery b).1 ≡ route_replaced "/recovery" ∷ [])
  unfolding on_status_change
  leaves_recovery statuses a h = (ground (arith, flag-hear_statuses statuses a, h), refl)
