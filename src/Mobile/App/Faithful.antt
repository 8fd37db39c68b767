-- ===== src/Mobile/App/Faithful.antt =====
-- The states that the application comes to, and what they show.
use cucoudle.Prelude.{ℕ, ◌≡◌, ◌⊎◌, inl, inr, sym, String, Bool, false, none, some, str_eq}
use cucoudle.Protocol.Json.{Json}
use cucoudle.Protocol.Params.{success}
use cucoudle.Mobile.State.{SessionState}
use cucoudle.Mobile.Pairing.{
  PairingProfile, PairingRequest, Platform, build_pairing_profile, profile_json,
}
use cucoudle.Mobile.Pairing.Repository.{Storage, active_pairing_profile_key, get_profile}
use cucoudle.Mobile.Pairing.Laws.{Parsed-cases, get-replace_profile}
use cucoudle.Mobile.Pairing.Built.{build_pairing_profile-parsed}
use cucoudle.Mobile.Coordinator.Sync.{Outcome}
use cucoudle.Mobile.Coordinator.Steps.{Input}
use cucoudle.Mobile.App.{
  App, app_status, bootstrap, clear_pairing, save_and_pair, coordinator_step, view_session,
  view_answered, unmount,
}
use cucoudle.Mobile.App.Reachable.{
  IsFaithful, on_paired-IsFaithful, bootstrap-IsFaithful, clear_pairing-IsFaithful,
  coordinator_step-IsFaithful, view_session-IsFaithful, view_answered-IsFaithful,
  unmount-IsFaithful,
}

module _ {S : Type 0} (z : Platform) (storage : Storage S) (delay : ℕ) where
  -- A profile is saved and shown while the application is mounted.
  pub data Reach : App S → Type 0 where
    launched : (reported : Bool) (store : S) → Reach (bootstrap z storage delay reported store).0
    paired :
        {a : App S} (reported : Bool) (request : PairingRequest) (device result : Json)
        → a.runtime.coordinator.disposed ≡ false
        → Reach a
        → Reach (save_and_pair z storage delay reported request device result a).0
    cleared :
        {a : App S} (reported : Bool) → Reach a → Reach (clear_pairing z storage delay reported a).0
    asked :
        {a : App S} (reported : Bool) (input : Input)
        → Reach a
        → Reach (coordinator_step z storage delay reported input a).0
    viewed :
        {a : App S} (session_id : String) (state : SessionState)
        → Reach a
        → Reach (view_session z storage session_id state a).0
    answered :
        {a : App S} (session_id : String) (outcome : Outcome)
        → Reach a
        → Reach (view_answered z storage session_id outcome a).0
    unmounted : {a : App S} → Reach a → Reach (unmount z storage a).0

  module _ (kept : (s : S) (k v : String) → storage.get_item (storage.set_item s k v) k ≡ some v)
      (written : (p : PairingProfile)
        → z.parse_json (z.stringify (profile_json p)) ≡ success (profile_json p))
      (not_empty : (p : PairingProfile) → str_eq (z.stringify (profile_json p)) "" ≡ false) where
    save_and_pair-IsFaithful :
        (reported : Bool) (request : PairingRequest) (device result : Json) (a : App S)
        → a.runtime.coordinator.disposed ≡ false
        → IsFaithful z storage a
        → IsFaithful z storage (save_and_pair z storage delay reported request device result a).0
    unfolding save_and_pair
    save_and_pair-IsFaithful reported request device result a d h =
        elim (Parsed-cases (build_pairing_profile z request device result)) [
          | inl (m, e) ↦ rw (e, save_and_pair) h
          | inr (p, e) ↦
              let (j, accepted) = build_pairing_profile-parsed z request device result p e in
              let (stored, found) =
                get-replace_profile z storage j p a.store (kept a.store) (written p) (not_empty p)
                  accepted in
              let t =
                storage.set_item a.store active_pairing_profile_key
                  (z.stringify (profile_json p)) in
              rw (e, save_and_pair, stored)
                (on_paired-IsFaithful z storage delay reported p (record a { store = t }) d
                  (sym found))
        ]

    -- In every state that the application comes to, it shows the connection status of its coordinator,
    -- which was reported to it, and no profile or the one that the secure store gives back, so that a
    -- restart finds it. This on a store that gives back what was set last, with JSON functions that
    -- give back a profile from its text, which is not empty.
    pub Reach-IsFaithful :
        {a : App S}
        → Reach a
        → (a.connection_status ≡ app_status a.runtime.coordinator.status)
          × ((a.profile ≡ none) ⊎ (a.profile ≡ get_profile z storage a.store))
    Reach-IsFaithful (launched reported store) = bootstrap-IsFaithful z storage delay reported store
    Reach-IsFaithful (paired {a} reported request device result d r) =
        save_and_pair-IsFaithful reported request device result a d (Reach-IsFaithful r)
    Reach-IsFaithful (cleared {a} reported r) =
        clear_pairing-IsFaithful z storage delay reported a (Reach-IsFaithful r)
    Reach-IsFaithful (asked {a} reported input r) =
        coordinator_step-IsFaithful z storage delay reported input a (Reach-IsFaithful r)
    Reach-IsFaithful (viewed {a} session_id state r) =
        view_session-IsFaithful z storage session_id state a (Reach-IsFaithful r)
    Reach-IsFaithful (answered {a} session_id outcome r) =
        view_answered-IsFaithful z storage session_id outcome a (Reach-IsFaithful r)
    Reach-IsFaithful (unmounted {a} r) = unmount-IsFaithful z storage a (Reach-IsFaithful r)
