-- ===== src/Mobile/Pairing.antt =====
-- apps/mobile/src/pairing/pairingProfile.ts: what the phone keeps of its pairing with a desktop, and
-- the checks of what comes in.
pub mod Repository
pub mod Accepted
pub mod Laws
pub mod Built
use Prim.Native.String.{◌++◌ as append_text}
use cucoudle.Prelude.{
  ℕ, zero, suc, String, Bool, true, false, not, ◌||◌, ◌&&◌, Option, none, some, List, [], ◌∷◌, any,
  ◌==◌, str_eq, is_some, if◌then◌else◌,
}
use cucoudle.Prelude.Texts.{trim_text, starts_with, ends_with}
use cucoudle.Protocol.Json.{Json, string, object, Fields, end, field, field?}
use cucoudle.Protocol.Session.{MobilePlatform, MobileDevice, platform_text}
use cucoudle.Protocol.Params.{Parsed, success, failure, QrPayload}

pub record PairingRequest : Type 0 where
  pub relay_ws_url : String
  pub desktop_id : String
  pub pairing_code : String

pub record PairingProfile : Type 0 where
  pub relay_ws_url : String
  pub desktop_id : String
  pub desktop_name : String
  pub mobile_device_id : String
  pub mobile_device_name : String
  pub mobile_platform : MobilePlatform
  pub mobile_session_token : String
  pub mobile_session_expires_at : String

pub record PairingResult : Type 0 where
  pub desktop_id : String
  pub desktop_name : String
  pub mobile_session_token : String
  pub mobile_session_expires_at : String

pub record ManualPairingErrors : Type 0 where
  pub relay_ws_url : Option String
  pub desktop_id : Option String
  pub pairing_code : Option String

pub data ManualPairingValidation : Type 0 where
  valid : PairingRequest → ManualPairingValidation
  invalid : ManualPairingErrors → ManualPairingValidation

-- What the code reads of a `URL`.
pub record Url : Type 0 where
  pub hostname : String
  pub pathname : String

-- The platform's functions: `new URL`, `none` where it throws; JSON.parse, a failure with the text of
-- the error that it throws, and JSON.stringify; and zod's `parse` at the schemas of the protocol.
pub record Platform : Type 0 where
  pub new_url : String → Option Url
  pub parse_json : String → Parsed Json
  pub stringify : Json → String
  pub qr_payload : Json → Parsed QrPayload
  pub mobile_device : Json → Parsed MobileDevice
  pub pair_result : Json → Parsed PairingResult

abbrev pub profile_keys : List String
profile_keys =
    "relayWsUrl" ∷ "desktopId" ∷ "desktopName" ∷ "mobileDeviceId" ∷ "mobileDeviceName"
    ∷ "mobilePlatform" ∷ "mobileSessionToken" ∷ "mobileSessionExpiresAt" ∷ []

abbrev pub incorrect_url : String
incorrect_url = "Укажите корректный адрес реле"

unfoldable pub relay_url_error : (String → Option Url) → String → Option String
unfolding starts_with ends_with
relay_url_error new_url value =
    if str_eq value ""
    then some "Укажите адрес реле"
    else if not (starts_with "ws://" value) && not (starts_with "wss://" value)
    then some "Адрес реле должен начинаться с ws:// или wss://"
    else if not (ends_with "/v1/ws/mobile" value)
    then some "Адрес реле должен оканчиваться на /v1/ws/mobile"
    else elim (new_url value) [
      | none ↦ some incorrect_url
      | some url ↦
          if str_eq url.hostname "" || not (str_eq url.pathname "/v1/ws/mobile")
          then some incorrect_url
          else none
    ]

-- if (!value) errors.… = message
abbrev pub missing : String → String → Option String
missing message value = if str_eq value "" then some message else none

unfoldable pub validate_manual_pairing_request :
    (String → Option Url) → PairingRequest → ManualPairingValidation
unfolding trim_text relay_url_error
validate_manual_pairing_request new_url input =
    let value : PairingRequest = record {
      relay_ws_url = trim_text input.relay_ws_url;
      desktop_id = trim_text input.desktop_id;
      pairing_code = trim_text input.pairing_code;
    } in
    let errors : ManualPairingErrors = record {
      relay_ws_url = relay_url_error new_url value.relay_ws_url;
      desktop_id = missing "Укажите ID компьютера" value.desktop_id;
      pairing_code = missing "Укажите код подключения" value.pairing_code;
    } in
    if is_some errors.relay_ws_url || is_some errors.desktop_id || is_some errors.pairing_code
    then invalid errors
    else valid value

-- A call that may throw, then another on its result.
abbrev pub on_success {ℓ κ} : {A : Type ℓ} {B : Type κ} → Parsed A → (A → Parsed B) → Parsed B
on_success (success x) f = f x
on_success (failure message) f = failure message

unfoldable pub parse_qr_pairing_request : Platform → String → Parsed PairingRequest
unfolding validate_manual_pairing_request
parse_qr_pairing_request z raw = on_success (on_success (z.parse_json raw) z.qr_payload) (λ payload.
    elim (validate_manual_pairing_request z.new_url (record {
      relay_ws_url = payload.relay_url;
      desktop_id = payload.desktop_id;
      pairing_code = payload.pairing_code;
    })) [ valid value ↦ success value | invalid errors ↦ failure "Invalid QR pairing payload" ])

-- Object.keys(source).length
unfoldable pub key_count : Fields → ℕ
key_count end = 0
key_count (field k v rest) = suc (key_count rest)

-- typeof source[key] === "string" && source[key] is not empty
unfoldable pub is_text : String → Fields → Bool
unfolding field?
is_text key source = elim (field? key source) [ some (string s) ↦ not (str_eq s "") | _ ↦ false ]

-- source[key] as string
unfoldable pub text_at : String → Fields → String
unfolding field?
text_at key source = elim (field? key source) [ some (string s) ↦ s | _ ↦ "" ]

-- The first key at which the loop throws.
unfoldable pub bad_key : Fields → List String → Option String
unfolding is_text
bad_key source [] = none
bad_key source (key ∷ keys) =
    let rest = bad_key source keys in
    if not (str_eq key "mobilePlatform") && not (is_text key source) then some key else rest

abbrev pub platform_named : String → Option MobilePlatform
platform_named s =
    if str_eq s "ios"
    then some MobilePlatform.ios
    else if str_eq s "android"
    then some MobilePlatform.android
    else if str_eq s "unknown"
    then some MobilePlatform.unknown
    else none

unfoldable pub profile_of : Fields → MobilePlatform → PairingProfile
unfolding text_at
profile_of source platform = record {
  relay_ws_url = text_at "relayWsUrl" source;
  desktop_id = text_at "desktopId" source;
  desktop_name = text_at "desktopName" source;
  mobile_device_id = text_at "mobileDeviceId" source;
  mobile_device_name = text_at "mobileDeviceName" source;
  mobile_platform = platform;
  mobile_session_token = text_at "mobileSessionToken" source;
  mobile_session_expires_at = text_at "mobileSessionExpiresAt" source;
}

-- The checks of the values, and the profile that they leave.
unfoldable pub checked_profile : (String → Option Url) → Fields → Parsed PairingProfile
unfolding bad_key text_at relay_url_error profile_of
checked_profile new_url source = elim (bad_key source profile_keys) [
  | some key ↦ failure (append_text "Invalid pairing profile " key)
  | none ↦ elim (relay_url_error new_url (text_at "relayWsUrl" source)) [
    | some message ↦ failure message
    | none ↦ elim (platform_named (text_at "mobilePlatform" source)) [
      | none ↦ failure "Invalid pairing profile mobilePlatform"
      | some platform ↦ success (profile_of source platform)
    ]
  ]
]

unfoldable pub parse_pairing_profile : (String → Option Url) → Json → Parsed PairingProfile
unfolding key_count field? checked_profile
parse_pairing_profile new_url (object source) =
    if not (key_count source == 8) || any (λ k. not (is_some (field? k source))) profile_keys
    then failure "Invalid pairing profile fields"
    else checked_profile new_url source
parse_pairing_profile new_url _ = failure "Invalid pairing profile"

-- A profile as the object that it is.
unfoldable pub profile_json : PairingProfile → Json
profile_json p = object (
    field "relayWsUrl" (string p.relay_ws_url) (
      field "desktopId" (string p.desktop_id) (
        field "desktopName" (string p.desktop_name) (
          field "mobileDeviceId" (string p.mobile_device_id) (
            field "mobileDeviceName" (string p.mobile_device_name) (
              field "mobilePlatform" (string (platform_text p.mobile_platform)) (
                field "mobileSessionToken" (string p.mobile_session_token)
                  (field "mobileSessionExpiresAt" (string p.mobile_session_expires_at) end))))))))

unfoldable pub build_pairing_profile :
    Platform → PairingRequest → Json → Json → Parsed PairingProfile
unfolding validate_manual_pairing_request parse_pairing_profile profile_json
build_pairing_profile z request mobile_device_input result_input =
    elim (validate_manual_pairing_request z.new_url request) [
      | invalid errors ↦ failure "Invalid pairing request"
      | valid value ↦ on_success (z.mobile_device mobile_device_input) (λ mobile_device.
          on_success (z.pair_result result_input) (λ result.
            if not (str_eq request.desktop_id result.desktop_id)
            then failure "Pairing result desktopId does not match request desktopId"
            else parse_pairing_profile z.new_url (
                profile_json (record {
                  relay_ws_url = value.relay_ws_url;
                  desktop_id = result.desktop_id;
                  desktop_name = result.desktop_name;
                  mobile_device_id = mobile_device.id;
                  mobile_device_name = mobile_device.name;
                  mobile_platform = mobile_device.platform;
                  mobile_session_token = result.mobile_session_token;
                  mobile_session_expires_at = result.mobile_session_expires_at;
                }))))
    ]
