-- ===== src/Mobile/AppTests.antt =====
-- Runs of the application around its runtime, on a secure store that is a dictionary, with a text for a
-- profile in which each character of a value stands behind an "a", and a "b" ends the value.
use Prim.Native.Char.{Char}
use Prim.Native.String.compare
use Prim.Native.String.{[] as empty_text, ◌∷◌ as cons_text}
use text.Mathlib.TextPositions.{eq_refl}
use cucoudle.Prelude.{
  ◌≡◌, ◌⊎◌, refl, String, false, true, none, some, List, [], ◌∷◌, str_eq, is_some, if◌then◌else◌,
}
use cucoudle.Prelude.Dict.{Dict, get, set, delete, get-set}
use cucoudle.Protocol.Json.{Json, object, string, null, Fields, end, field}
use cucoudle.Protocol.Params.{Parsed, success, failure}
use cucoudle.Protocol.Session.{MobilePlatform, MobileDevice, platform_text}
use cucoudle.Mobile.Pairing.{
  PairingProfile, PairingRequest, PairingResult, Platform, profile_json, profile_keys,
}
use cucoudle.Mobile.Pairing.Repository.{Storage, get_profile}
use cucoudle.Mobile.Coordinator.{CoordinatorStatus}
use cucoudle.Mobile.Runtime.{create_mobile_runtime}
use cucoudle.Mobile.App.{
  App, AppConnectionStatus, app_status, route_replaced, new_app, bootstrap, save_and_pair,
  on_status_change,
}
use cucoudle.Mobile.App.Faithful.{launched, paired, Reach-IsFaithful}
use cucoudle.Mobile.App.Recovery.{hear_statuses, leaves_recovery}

-- A value, and what stands behind it.
unfoldable written_text : String → String → String
written_text empty_text rest = cons_text "b" rest
written_text (cons_text c s) rest = cons_text "a" (cons_text c (written_text s rest))

unfoldable read_text : String → String × String
read_text empty_text = ("", "")
read_text (cons_text mark empty_text) = ("", "")
read_text (cons_text mark (cons_text c s)) =
    let (value, rest) = read_text s in
    if str_eq (cons_text mark "") "a" then (cons_text c value, rest) else ("", cons_text c s)

read_text-written_text : (s rest : String) → read_text (written_text s rest) ≡ (s, rest)
unfolding read_text written_text
read_text-written_text empty_text empty_text = refl
read_text-written_text empty_text (cons_text c rest) = refl
read_text-written_text (cons_text c s) rest = rw (read_text-written_text s rest) refl

-- The text of a profile.
abbrev write_fields : Fields → String
write_fields end = ""
write_fields (field key (string value) rest) = written_text value (write_fields rest)
write_fields (field key value rest) = ""

abbrev write_json : Json → String
write_json (object fields) = cons_text "p" (write_fields fields)
write_json _ = ""

-- The values of these keys.
abbrev read_fields : List String → String → Fields
read_fields [] text = end
read_fields (key ∷ keys) text =
    let (value, rest) = read_text text in field key (string value) (read_fields keys rest)

abbrev read_json : String → Parsed Json
read_json empty_text = failure "no JSON"
read_json (cons_text mark text) = success (object (read_fields profile_keys text))

read_json-write_json :
    (p : PairingProfile) → read_json (write_json (profile_json p)) ≡ success (profile_json p)
unfolding profile_json
read_json-write_json p =
    rw
      (
        read_text-written_text p.relay_ws_url _,
        read_text-written_text p.desktop_id _,
        read_text-written_text p.desktop_name _,
        read_text-written_text p.mobile_device_id _,
        read_text-written_text p.mobile_device_name _,
        read_text-written_text (platform_text p.mobile_platform) _,
        read_text-written_text p.mobile_session_token _,
        read_text-written_text p.mobile_session_expires_at _,
      )
      refl

cons-full : (c : Char) (s : String) → str_eq (cons_text c s) "" ≡ false
cons-full c s = rw (compare.cons-nil c s) refl

write_json-full : (p : PairingProfile) → str_eq (write_json (profile_json p)) "" ≡ false
unfolding profile_json
write_json-full p = cons-full "p" _

abbrev test_device : MobileDevice
test_device = record { id = "phone"; name = "Phone"; platform = MobilePlatform.ios }

abbrev test_result : PairingResult
test_result = record {
  desktop_id = "desk";
  desktop_name = "Desk";
  mobile_session_token = "token";
  mobile_session_expires_at = "2027";
}

abbrev test_platform : Platform
test_platform = record {
  new_url = λ s. some (record { hostname = "relay"; pathname = "/v1/ws/mobile" });
  parse_json = read_json;
  stringify = write_json;
  qr_payload = λ j. failure "no payload";
  mobile_device = λ j. success test_device;
  pair_result = λ j. success test_result;
}

abbrev test_storage : Storage (Dict String)
test_storage = record {
  get_item = λ m k. get k m;
  set_item = λ m k v. set k v m;
  delete_item = λ m k. delete k m;
}

kept_last :
    (m : Dict String) (k v : String)
    → test_storage.get_item (test_storage.set_item m k v) k ≡ some v
kept_last m k v = rw (get-set k k v m, eq_refl k) refl

abbrev test_request : PairingRequest
test_request = record {
  relay_ws_url = " wss://relay/v1/ws/mobile";
  desktop_id = "desk";
  pairing_code = "123456";
}

abbrev first_run : App (Dict String)
first_run = (bootstrap test_platform test_storage 1000 false []).0

-- A first start, and a pairing.
abbrev paired_app : App (Dict String)
paired_app =
    (save_and_pair test_platform test_storage 1000 false test_request null null first_run).0

Reach-IsFaithful_example :
    (paired_app.connection_status ≡ app_status paired_app.runtime.coordinator.status)
    × ((paired_app.profile ≡ none)
        ⊎ (paired_app.profile ≡ get_profile test_platform test_storage paired_app.store))
unfolding bootstrap get create_mobile_runtime
Reach-IsFaithful_example =
    Reach-IsFaithful test_platform test_storage 1000 kept_last read_json-write_json write_json-full
      (paired false test_request null null refl (launched false []))

abbrev recovering_app : App (Dict String)
recovering_app = new_app test_platform test_storage []

abbrev reported_statuses : List CoordinatorStatus
reported_statuses =
    CoordinatorStatus.recovery ∷ CoordinatorStatus.reconnecting ∷ CoordinatorStatus.resyncing ∷ []

leaves_recovery_example :
    let b = (hear_statuses reported_statuses recovering_app).0 in
    ((on_status_change CoordinatorStatus.online b).1 ≡ route_replaced "/(tabs)/inbox" ∷ [])
    × ((on_status_change CoordinatorStatus.recovery b).1 ≡ route_replaced "/recovery" ∷ [])
leaves_recovery_example = leaves_recovery reported_statuses recovering_app refl

-- The pairing is shown, and navigates to the inbox.
pairing_run :
    (is_some paired_app.profile ≡ true)
    × (paired_app.connection_status ≡ AppConnectionStatus.reconnecting)
unfolding save_and_pair bootstrap get create_mobile_runtime
pairing_run = (refl, refl)
