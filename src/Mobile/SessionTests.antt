-- ===== src/Mobile/SessionTests.antt =====
-- Runs of the screen of a session, of its composer and of the controls of an interaction, and of the
-- screen that pairs.
use cucoudle.Prelude.{
  ◌≡◌, ◌≤◌, ◌⊎◌, refl, String, false, true, none, some, List, [], ◌∷◌, All, length,
}
use cucoudle.Protocol.Json.{end, field, field?, string}
use cucoudle.Protocol.Params.{failure}
use cucoudle.Protocol.Interaction.{
  InteractionOption, InteractionOptionIntent, InteractionRequest, InteractionKind,
}
use cucoudle.Mobile.State.{SessionState, create_initial_session_state}
use cucoudle.Mobile.Pairing.{PairingRequest, Platform}
use cucoudle.Mobile.Answers.{
  ZoneProps, Zone, Phase, rendered, option_pressed, settled, accepted, thrown, ZoneInput, run_zone,
  zone_step, render_zone, same_interaction, submit, settle_answer, is_disabled, zone_content,
  render_kind, render_decision, find_option, offered_ids,
}
use cucoudle.Mobile.Answers.Once.{IsAnswer, answered_at_most_once}
use cucoudle.Mobile.Composer.{
  Composer, send_settled, new_composer, disabled_changed, controls_disabled, composer_step,
  answered, draft_typed, send_pressed, run_composer,
}
use cucoudle.Mobile.Composer.Draft.{Keeps, draft_kept}
use cucoudle.Mobile.SessionScreen.{is_resyncing, composer_disabled_prop, session_controls}
use cucoudle.Mobile.SessionScreen.Offline.{offline_silent}
use cucoudle.Mobile.PairingScreen.{
  scanned, manual_pressed, submit_pressed, thrown as failed_with, attempted, new_screen, run_screen,
  submit_request, finish_attempt,
}
use cucoudle.Mobile.PairingScreen.Attempts.{one_attempt}

abbrev option : String → InteractionOptionIntent → InteractionOption
option id intent = record {
  id = id;
  label = id;
  description = none;
  intent = intent;
  shortcut = none;
  disabled = none;
}

abbrev approval_request : InteractionRequest
approval_request = record {
  id = "q1";
  session_id = "a";
  kind = InteractionKind.approval;
  prompt = "Run it?";
  details = none;
  options = some (
      option "no" InteractionOptionIntent.reject
      ∷ option "yes" InteractionOptionIntent.approve
      ∷ []);
  allows_text = false;
  sensitive = none;
  created_at = "2026";
  terminal_seq = none;
}

abbrev online_props : ZoneProps
online_props = record {
  can_mutate = true;
  negotiated_capabilities = some ("interaction.structured" ∷ []);
  interaction = some (1, approval_request);
}

abbrev zone : Zone
zone = record {
  props = online_props;
  phase = Phase.idle;
  error = none;
  text = "";
  pending = false;
  unsettled = 0;
}

abbrev presses : List ZoneInput
presses =
    option_pressed "yes" ∷ option_pressed "no" ∷ settled (thrown none) ∷ option_pressed "no" ∷ []

answered_at_most_once_example :
    let sent = (run_zone "a" presses zone).1 in
    (zone.pending ≡ true → sent ≡ [])
    × (length sent ≤ 1)
    × All (IsAnswer "a" 1 approval_request) sent
answered_at_most_once_example =
    answered_at_most_once "a" 1 approval_request presses zone refl (tt, (tt, (tt, (tt, tt))))

-- An answer that is accepted when another interaction is shown already disables the controls of that one.
late_answer :
    let next : ZoneProps = record online_props { interaction = some (2, approval_request) } in
    let z = (run_zone "a" (option_pressed "yes" ∷ rendered next ∷ settled accepted ∷ []) zone).0 in
    (z.pending ≡ false) × (is_disabled z ≡ true)
unfolding run_zone zone_step render_zone same_interaction submit settle_answer is_disabled
    zone_content render_kind render_decision find_option offered_ids
late_answer = (refl, refl)

draft_kept_example :
    let c = (run_composer (draft_typed "ls" ∷ send_pressed ∷ []) (new_composer "a" false)).0 in
    ((c.unsettled ≡ []) ⊎ (c.unsettled ≡ c.draft ∷ []))
    × Keeps "a" (send_settled (answered false)) c (composer_step (send_settled (answered false)) c)
draft_kept_example =
    draft_kept "a" false (draft_typed "ls" ∷ send_pressed ∷ []) (send_settled (answered false))

abbrev session_state : SessionState
session_state = record create_initial_session_state {
  sessions_by_id = ("a", record { id = "a"; fields = field "status" (string "waiting") end }) ∷ [];
  session_ids = "a" ∷ [];
}

-- A draft that was typed while the phone was online.
abbrev typed_online : Composer
typed_online = record (new_composer "a" false) { draft = "ls" }

typed_online_lem : (run_composer (draft_typed "ls" ∷ []) (new_composer "a" false)).0 ≡ typed_online
unfolding run_composer composer_step controls_disabled
typed_online_lem = refl

offline_silent_example :
    let z : Zone = record zone { props = record online_props { can_mutate = false } } in
    ((run_composer (disabled_changed true ∷ send_pressed ∷ []) typed_online).1 ≡ [])
    × ((run_zone "a" (option_pressed "yes" ∷ []) z).1 ≡ [])
unfolding composer_disabled_prop session_controls field?
offline_silent_example =
    offline_silent "a" session_state is_resyncing true true typed_online
      (record zone { props = record online_props { can_mutate = false } }) (send_pressed ∷ [])
      (option_pressed "yes" ∷ []) refl refl refl (tt, tt) (tt, tt)

abbrev screen_platform : Platform
screen_platform = record {
  new_url = λ s. some (record { hostname = "relay"; pathname = "/v1/ws/mobile" });
  parse_json = λ s. failure "no JSON";
  stringify = λ j. "";
  qr_payload = λ j. failure "no payload";
  mobile_device = λ j. failure "no device";
  pair_result = λ j. failure "no result";
}

abbrev scanned_request : PairingRequest
scanned_request = record {
  relay_ws_url = "wss://relay/v1/ws/mobile";
  desktop_id = "desk";
  pairing_code = "123456";
}

one_attempt_example :
    let s = (submit_request scanned_request new_screen).0 in
    let effects =
      (run_screen screen_platform (scanned "x" ∷ manual_pressed ∷ submit_pressed ∷ []) s).1 in
    (s.pairing_in_progress ≡ true → effects ≡ [])
    × (length effects ≤ 1)
    × ((submit_request scanned_request
          (finish_attempt (failed_with (some "PAIRING_EXPIRED")) s).0).1
        ≡ attempted scanned_request ∷ [])
one_attempt_example =
    one_attempt screen_platform (scanned "x" ∷ manual_pressed ∷ submit_pressed ∷ [])
      (submit_request scanned_request new_screen).0 (failed_with (some "PAIRING_EXPIRED"))
      scanned_request (tt, (tt, (tt, tt)))
