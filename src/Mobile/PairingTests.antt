-- ===== src/Mobile/PairingTests.antt =====
-- Runs of the phone's pairing.
use cucoudle.Prelude.{◌≡◌, refl, String, Option, some, [], str_eq, if◌then◌else◌}
use text.Mathlib.TextPositions.{eq_refl}
use cucoudle.Prelude.Dict.{Dict, get, set, delete, get-set}
use cucoudle.Protocol.Json.{Json, null}
use cucoudle.Protocol.Session.{MobilePlatform, MobileDevice, device_json}
use cucoudle.Protocol.Params.{success, failure}
use cucoudle.Mobile.Pairing.{
  PairingProfile, Platform, Url, parse_pairing_profile, profile_json, parse_qr_pairing_request,
  relay_url_error,
}
use cucoudle.Mobile.Pairing.Repository.{
  Storage, active_pairing_profile_key, get_profile, replace_profile, get_or_create_device_identity,
}
use cucoudle.Mobile.Pairing.Laws.{get-replace_profile, get_or_create_device_identity_kept}

abbrev url : String → Option Url
url s = some (record { hostname = "relay"; pathname = "/v1/ws/mobile" })

abbrev profile : PairingProfile
profile = record {
  relay_ws_url = "wss://relay/v1/ws/mobile";
  desktop_id = "desk";
  desktop_name = "Desk";
  mobile_device_id = "phone";
  mobile_device_name = "Phone";
  mobile_platform = MobilePlatform.ios;
  mobile_session_token = "token";
  mobile_session_expires_at = "2027";
}

abbrev device : MobileDevice
device = record { id = "phone"; name = "Phone"; platform = MobilePlatform.ios }

-- The one text is that of the value.
abbrev platform : Json → Platform
platform value = record {
  new_url = url;
  parse_json = λ raw. if str_eq raw "text" then success value else failure "no JSON";
  stringify = λ j. "text";
  qr_payload = λ j. success (record {
    relay_url = " wss://relay/v1/ws/mobile";
    desktop_id = "desk";
    pairing_code = "123456 ";
    expires_at = "2027";
  });
  mobile_device = λ j. success device;
  pair_result = λ j. failure "no result";
}

abbrev storage : Storage (Dict String)
storage = record {
  get_item = λ m k. get k m;
  set_item = λ m k v. set k v m;
  delete_item = λ m k. delete k m;
}

stored_last :
    (m : Dict String) (k v : String) → storage.get_item (storage.set_item m k v) k ≡ some v
stored_last m k v = rw (get-set k k v m, eq_refl k) refl

qr_run :
    parse_qr_pairing_request (platform null) "text"
    ≡ success (record {
      relay_ws_url = "wss://relay/v1/ws/mobile";
      desktop_id = "desk";
      pairing_code = "123456";
    })
unfolding parse_qr_pairing_request
qr_run = refl

path_run :
    relay_url_error url "wss://relay/v1/ws/desktop"
    ≡ some "Адрес реле должен оканчиваться на /v1/ws/mobile"
unfolding relay_url_error
path_run = refl

get-replace_profile_example :
    let t : Dict String = set active_pairing_profile_key "text" [] in
    (replace_profile (platform (profile_json profile)) storage profile [] ≡ success t)
    × (get_profile (platform (profile_json profile)) storage t ≡ some profile)
unfolding parse_pairing_profile profile_json
get-replace_profile_example =
    get-replace_profile (platform (profile_json profile)) storage (profile_json profile) profile []
      (stored_last []) refl refl refl

get_or_create_device_identity_kept_example :
    let t : Dict String = set "cucoudle.mobileDeviceIdentity.v1" "text" [] in
    get_or_create_device_identity
      (platform (device_json device))
      storage
      "other"
      MobilePlatform.android
      "Other"
      t
    ≡ success (device, t)
unfolding get_or_create_device_identity get
get_or_create_device_identity_kept_example =
    get_or_create_device_identity_kept (platform (device_json device)) storage []
      (set "cucoudle.mobileDeviceIdentity.v1" "text" []) device "phone" "Phone" "other" "Other"
      MobilePlatform.ios MobilePlatform.android (stored_last []) refl refl refl refl
