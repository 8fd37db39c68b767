-- ===== src/Mobile/Pairing/Built.antt =====
-- That a profile which is built has passed the checks of parsePairingProfile.
use cucoudle.Prelude.{◌≡◌, ◌⊎◌, inl, inr, refl, str_eq, arith, Bool-cases}
use cucoudle.Protocol.Json.{Json}
use cucoudle.Protocol.Params.{success}
use cucoudle.Mobile.Pairing.{
  PairingProfile, PairingRequest, ManualPairingErrors, ManualPairingValidation, valid, invalid,
  Platform, validate_manual_pairing_request, parse_pairing_profile, profile_json,
  build_pairing_profile,
}
use cucoudle.Mobile.Pairing.Laws.{Parsed-cases}

validation-cases :
    (v : ManualPairingValidation)
    → ((errors : ManualPairingErrors) × (v ≡ invalid errors))
      ⊎ ((value : PairingRequest) × (v ≡ valid value))
validation-cases (invalid errors) = inl (errors, refl)
validation-cases (valid value) = inr (value, refl)

pub build_pairing_profile-parsed :
    (z : Platform) (request : PairingRequest) (device result : Json) (p : PairingProfile)
    → build_pairing_profile z request device result ≡ success p
    → (j : Json) × (parse_pairing_profile z.new_url j ≡ success p)
unfolding build_pairing_profile
build_pairing_profile-parsed z request device result p h =
    elim (validation-cases (validate_manual_pairing_request z.new_url request)) [
      | inl (errors, e) ↦ absurd (ground (arith, h, e))
      | inr (value, e) ↦ elim (Parsed-cases (z.mobile_device device)) [
        | inl (m, f) ↦ absurd (ground (arith, h, e, f))
        | inr (d, f) ↦ elim (Parsed-cases (z.pair_result result)) [
          | inl (m, g) ↦ absurd (ground (arith, h, e, f, g))
          | inr (r, g) ↦ elim (Bool-cases (str_eq request.desktop_id r.desktop_id)) [
            | inr b ↦ absurd (ground (arith, h, e, f, g, b))
            | inl b ↦ (
              profile_json (record {
                relay_ws_url = value.relay_ws_url;
                desktop_id = r.desktop_id;
                desktop_name = r.desktop_name;
                mobile_device_id = d.id;
                mobile_device_name = d.name;
                mobile_platform = d.platform;
                mobile_session_token = r.mobile_session_token;
                mobile_session_expires_at = r.mobile_session_expires_at;
              }),
              ground (arith, h, e, f, g, b),
            )
          ]
        ]
      ]
    ]
