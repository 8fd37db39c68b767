-- ===== src/Mobile/Pairing/Repository.antt =====
-- apps/mobile/src/pairing/pairingRepository.ts and deviceIdentity.ts, on the platform's secure store.
use cucoudle.Prelude.{String, Option, none, some, str_eq, if◌then◌else◌}
use cucoudle.Protocol.Json.{string, object, end, field}
use cucoudle.Protocol.Session.{MobilePlatform, MobileDevice, platform_text, device_json}
use cucoudle.Protocol.Params.{Parsed, success, failure}
use cucoudle.Mobile.Pairing.{
  PairingProfile, Platform, on_success, parse_pairing_profile, profile_json,
}

-- getItemAsync, setItemAsync and deleteItemAsync, on what is stored.
pub record Storage (S : Type 0) : Type 0 where
  pub get_item : S → String → Option String
  pub set_item : S → String → String → S
  pub delete_item : S → String → S

abbrev pub active_pairing_profile_key : String
active_pairing_profile_key = "cucoudle.activePairingProfile.v1"

abbrev pub device_identity_key : String
device_identity_key = "cucoudle.mobileDeviceIdentity.v1"

-- What a text that is stored parses to; `none` where there is none, or it is empty or not accepted.
abbrev pub stored_value {ℓ} : {A : Type ℓ} → Option String → (String → Parsed A) → Option A
stored_value none parse = none
stored_value (some raw) parse =
    if str_eq raw "" then none else elim (parse raw) [ success x ↦ some x | failure message ↦ none ]

module _ {S : Type 0} (z : Platform) (storage : Storage S) where
  unfoldable pub get_profile : S → Option PairingProfile
  unfolding parse_pairing_profile
  get_profile s =
      stored_value (storage.get_item s active_pairing_profile_key)
        (λ raw. on_success (z.parse_json raw) (parse_pairing_profile z.new_url))

  unfoldable pub replace_profile : PairingProfile → S → Parsed S
  unfolding parse_pairing_profile profile_json
  replace_profile profile s =
      on_success (parse_pairing_profile z.new_url (profile_json profile)) (λ validated.
        success
          (storage.set_item s active_pairing_profile_key (z.stringify (profile_json validated))))

  unfoldable pub clear_profile : S → S
  clear_profile s = storage.delete_item s active_pairing_profile_key

  -- A new identity, stored.
  unfoldable pub create_identity : String → MobilePlatform → String → S → Parsed (MobileDevice × S)
  create_identity uuid platform device_name s =
      on_success
        (z.mobile_device (
          object (
            field "id" (string uuid) (
              field "name" (string device_name)
                (field "platform" (string (platform_text platform)) end)))))
        (λ identity.
          success
            (identity, storage.set_item s device_identity_key (z.stringify (device_json identity))))

  unfoldable pub get_or_create_device_identity :
      String → MobilePlatform → String → S → Parsed (MobileDevice × S)
  unfolding create_identity
  get_or_create_device_identity uuid platform device_name s =
      elim (stored_value (storage.get_item s device_identity_key)
        (λ raw. on_success (z.parse_json raw) z.mobile_device)) [
          | some identity ↦ success (identity, s)
          | none ↦ create_identity uuid platform device_name s
        ]
