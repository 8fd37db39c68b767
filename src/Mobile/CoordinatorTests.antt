-- ===== src/Mobile/CoordinatorTests.antt =====
-- Runs of the phone's connection coordinator.
use cucoudle.Prelude.{ℕ, ◌≡◌, refl, true, false, none, some, [], ◌∷◌}
use cucoudle.Protocol.Json.{Fields, field?, end, field, array, string, cons, nil}
use cucoudle.Protocol.Session.{MobilePlatform}
use cucoudle.Protocol.Message.{ErrorCode, error_code_text}
use cucoudle.Mobile.Client.{Reason, protocol}
use cucoudle.Mobile.Pairing.{PairingProfile}
use cucoudle.Mobile.Coordinator.{
  Coordinator, CoordinatorStatus, Stage, Run, OpenSessionRecovery, create_connection_coordinator,
}
use cucoudle.Mobile.Coordinator.Sync.{fulfilled, refused, settle, start}
use cucoudle.Mobile.Coordinator.Steps.{started, retried, closed, Reach, created, stepped, step}
use cucoudle.Mobile.Coordinator.Invariant.{IsCoordinated}
use cucoudle.Mobile.Coordinator.Reachable.{Reach-IsCoordinated}
use cucoudle.Mobile.Coordinator.Silence.{stale_silent, disposed-IsSilent, IsSilent}
use cucoudle.Mobile.Coordinator.Progress.{comes_online}
use cucoudle.Mobile.Coordinator.Stages.{fulfill}
use cucoudle.Mobile.Coordinator.Failure.{failure-Follows, Follows}

abbrev profile : PairingProfile
profile = record {
  relay_ws_url = "wss://relay/v1/ws/mobile";
  desktop_id = "desk";
  desktop_name = "Desk";
  mobile_device_id = "phone";
  mobile_device_name = "Phone";
  mobile_platform = MobilePlatform.ios;
  mobile_session_token = "token";
  mobile_session_expires_at = "2027";
}

-- A first attempt to connect that waits, and a second that supersedes it.
abbrev first : Coordinator
first = (step 1000 false (started (some profile)) create_connection_coordinator).0

abbrev second : Coordinator
second = (step 1000 false retried first).0

abbrev gone : Coordinator
gone = (step 1000 false closed first).0

abbrev first-Reach : Reach 1000 first
first-Reach = stepped (started (some profile)) false created

Reach-IsCoordinated_example : IsCoordinated none second
Reach-IsCoordinated_example = Reach-IsCoordinated 1000 second (stepped retried false first-Reach)

abbrev waiting : ℕ → Stage → Run
waiting version stage = record { version = version; active_profile = profile; stage = stage }

stale_silent_example :
    settle 1000 1 none (fulfilled end) second
    ≡ (record second { runs = waiting 2 Stage.opening ∷ [] }, [])
unfolding step create_connection_coordinator
stale_silent_example =
    stale_silent 1000 1 (waiting 1 Stage.opening) none (fulfilled end) second refl refl
      (λ e. absurd (cc (e)))

disposed-IsSilent_example : IsSilent retried (step 1000 false retried gone)
unfolding step create_connection_coordinator
disposed-IsSilent_example =
    disposed-IsSilent 1000 false retried gone (stepped closed false first-Reach) refl

abbrev unpaired : Coordinator
unpaired = (step 1000 false (started none) create_connection_coordinator).0

abbrev opened : OpenSessionRecovery
opened = record { session_id = "s1"; after_seq = some 3 }

-- The answer to `mobile.resume`.
abbrev resume : Fields
resume = field "negotiatedCapabilities" (array (cons (string "interaction.structured") nil)) end

comes_online_example :
    let d =
      fulfill 1000 1
        (some opened)
        (end ∷ resume ∷ end ∷ end ∷ [])
        (start 1000 false (some profile) create_connection_coordinator).0 in
    (d.status ≡ CoordinatorStatus.online) × (d.profile ≡ some profile)
unfolding create_connection_coordinator
comes_online_example =
    comes_online 1000 false profile (some opened) end resume end end create_connection_coordinator
      created refl

abbrev unauthorized : Reason
unauthorized =
    protocol (record { code = ErrorCode.unauthorized; message = "unknown token"; details = none })

failure-Follows_example :
    Follows true false profile profile (settle 1000 1 none (refused unauthorized) first)
unfolding step create_connection_coordinator error_code_text
failure-Follows_example =
    failure-Follows 1000 1 profile (waiting 1 Stage.opening) none unauthorized first first-Reach
      refl refl refl refl refl

-- `start(null)` does not end the call that waits: it goes online without a profile.
online_unpaired :
    let d = (start 1000 false none first).0 in
    let e = fulfill 1000 1 none (end ∷ resume ∷ end ∷ []) d in
    (e.status ≡ CoordinatorStatus.online) × (e.profile ≡ none)
unfolding step create_connection_coordinator fulfill start field?
online_unpaired = (refl, refl)
