-- ===== src/Mobile/Pairing/Laws.antt =====
-- That a profile that was accepted is accepted again, and that what is stored is found again.
use cucoudle.Prelude.{
  ◌⊎◌, ◌≡◌, refl, sym, ap, ◌∙◌, subst, String, false, Option, some, arith, str_eq, Option-cases,
  inl, inr,
}
use cucoudle.Protocol.Json.{Json, string, object, Fields, end, field}
use cucoudle.Protocol.Session.{MobilePlatform, MobileDevice, platform_text, device_json}
use cucoudle.Protocol.Params.{Parsed, success, failure}
use cucoudle.Mobile.Pairing.{
  PairingProfile, Platform, Url, on_success, parse_pairing_profile, profile_json,
}
use cucoudle.Mobile.Pairing.Repository.{
  Storage, stored_value, active_pairing_profile_key, device_identity_key, get_profile,
  replace_profile, create_identity, get_or_create_device_identity,
}
use cucoudle.Mobile.Pairing.Accepted.{parse-profile_json, success_injective, parse-IsAccepted}

-- A profile that parsePairingProfile accepts from any value is accepted again when it is written as an
-- object and parsed, and is the same profile.
pub parse_pairing_profile_again :
    (new_url : String → Option Url) (j : Json) (p : PairingProfile)
    → parse_pairing_profile new_url j ≡ success p
    → parse_pairing_profile new_url (profile_json p) ≡ success p
parse_pairing_profile_again new_url j p h =
    parse-profile_json new_url p (parse-IsAccepted new_url j p h)

-- A profile that was accepted and replaces the stored one is stored, and is what the repository gives
-- next; this on a store that gives back what was set last, and with JSON functions that give back this
-- profile from its text, which is not empty.
pub get-replace_profile :
    {S : Type 0} (z : Platform) (storage : Storage S) (j : Json) (p : PairingProfile) (s : S)
    → ((k v : String) → storage.get_item (storage.set_item s k v) k ≡ some v)
    → z.parse_json (z.stringify (profile_json p)) ≡ success (profile_json p)
    → str_eq (z.stringify (profile_json p)) "" ≡ false
    → parse_pairing_profile z.new_url j ≡ success p
    → let t = storage.set_item s active_pairing_profile_key (z.stringify (profile_json p)) in
      (replace_profile z storage p s ≡ success t) × (get_profile z storage t ≡ some p)
unfolding replace_profile get_profile
get-replace_profile z storage j p s kept written not_empty h =
    let again = parse_pairing_profile_again z.new_url j p h in
    (
      rw (again, replace_profile) refl,
      rw
          (
            kept active_pairing_profile_key (z.stringify (profile_json p)),
            get_profile,
            not_empty,
            written,
            again,
          )
          refl,
    )

-- The identity that a store holds.
abbrev found : {S : Type 0} → Platform → Storage S → S → Option MobileDevice
found z storage s =
    stored_value (storage.get_item s device_identity_key)
      (λ raw. on_success (z.parse_json raw) z.mobile_device)

abbrev written_device : String → MobilePlatform → String → Json
written_device uuid platform name = object (
    field "id" (string uuid)
      (field "name" (string name) (field "platform" (string (platform_text platform)) end)))

pub Parsed-cases :
    {A : Type 0} (r : Parsed A) → ((m : String) × (r ≡ failure m)) ⊎ ((x : A) × (r ≡ success x))
Parsed-cases (failure m) = inl (m, refl)
Parsed-cases (success x) = inr (x, refl)

-- The fields of the device as an object.
abbrev device_fields : MobileDevice → Fields
device_fields d =
    field "id" (string d.id)
      (field "name" (string d.name) (field "platform" (string (platform_text d.platform)) end))

module _ {S : Type 0} (z : Platform) (storage : Storage S) where
  identity_found :
      (s t : S) (device : MobileDevice) (uuid name : String) (platform : MobilePlatform)
      → ((k v : String) → storage.get_item (storage.set_item s k v) k ≡ some v)
      → z.parse_json (z.stringify (device_json device)) ≡ success (device_json device)
      → str_eq (z.stringify (device_json device)) "" ≡ false
      → z.mobile_device (device_json device) ≡ success device
      → get_or_create_device_identity z storage uuid platform name s ≡ success (device, t)
      → found z storage t ≡ some device
  unfolding get_or_create_device_identity create_identity
  identity_found s t device uuid name platform kept written not_empty accepted h =
      elim (Option-cases (found z storage s)) [
        | inr (identity, e) ↦
            let same : (identity, s) ≡ (device, t) =
              success_injective (identity, s) (device, t) (ground (arith, h, e)) in
            subst (λ (x : MobileDevice × S). found z storage x.1 ≡ some x.0) same e
        | inl e ↦ elim (Parsed-cases (z.mobile_device (written_device uuid platform name))) [
          | inl (m, f) ↦ absurd (ground (arith, h, e, f))
          | inr (d, f) ↦
              let stored = storage.set_item s device_identity_key (z.stringify (device_json d)) in
              let same : (d, stored) ≡ (device, t) =
                success_injective (d, stored) (device, t) (ground (arith, h, e, f)) in
              let kept_text =
                storage.set_item s device_identity_key (z.stringify (device_json device)) in
              let renamed : stored ≡ kept_text =
                ap
                  (λ (x : MobileDevice × S).
                    storage.set_item s device_identity_key (z.stringify (device_json x.0)))
                  same in
              let holds : found z storage kept_text ≡ some device =
                rw
                  (
                    kept device_identity_key (z.stringify (device_json device)),
                    not_empty,
                    written,
                    accepted,
                  )
                  refl in
              subst (λ (u : S). found z storage u ≡ some device)
                (sym renamed ∙ ap (λ (x : MobileDevice × S). x.1) same) holds
        ]
      ]

  -- The device keeps its identity: after a call gave one, a later call gives the same and leaves the
  -- store as it is, whatever it is called with; this on a store that gives back what was set last, with
  -- JSON functions that give back this device from its text, which is not empty, and with a schema
  -- that accepts it.
  pub get_or_create_device_identity_kept :
      (s t : S) (device : MobileDevice) (uuid name uuid2 name2 : String)
      (platform platform2 : MobilePlatform)
      → ((k v : String) → storage.get_item (storage.set_item s k v) k ≡ some v)
      → z.parse_json (z.stringify (device_json device)) ≡ success (device_json device)
      → str_eq (z.stringify (device_json device)) "" ≡ false
      → z.mobile_device (device_json device) ≡ success device
      → get_or_create_device_identity z storage uuid platform name s ≡ success (device, t)
      → get_or_create_device_identity z storage uuid2 platform2 name2 t ≡ success (device, t)
  unfolding get_or_create_device_identity create_identity
  get_or_create_device_identity_kept s t device uuid name uuid2 name2 platform platform2 kept
        written not_empty accepted h =
      rw
        (
          identity_found s t device uuid name platform kept written not_empty accepted h,
          get_or_create_device_identity,
        )
        refl
