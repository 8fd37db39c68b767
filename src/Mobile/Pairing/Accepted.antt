-- ===== src/Mobile/Pairing/Accepted.antt =====
-- What parsePairingProfile accepts.
use cucoudle.Prelude.{
  ◌≡◌, refl, subst, String, true, false, not, ◌&&◌, Option, none, some, List, [], ◌∷◌, All, arith,
  str_eq, Option-cases, inl, inr,
}
use cucoudle.Protocol.Json.{
  Json, null, bool, number, string, array, object, Fields, end, field, field?,
}
use cucoudle.Protocol.Session.{MobilePlatform, platform_text}
use cucoudle.Protocol.Params.{success}
use cucoudle.Mobile.Pairing.{
  PairingProfile, Url, parse_pairing_profile, profile_json, profile_keys, relay_url_error, is_text,
  text_at, bad_key, platform_named, profile_of, checked_profile, key_count,
}

-- No text of the profile is empty, and its relay is accepted.
abbrev pub IsAccepted : (String → Option Url) → PairingProfile → Type 0
IsAccepted new_url p =
    (str_eq p.relay_ws_url "" ≡ false)
    × (str_eq p.desktop_id "" ≡ false)
    × (str_eq p.desktop_name "" ≡ false)
    × (str_eq p.mobile_device_id "" ≡ false)
    × (str_eq p.mobile_device_name "" ≡ false)
    × (str_eq p.mobile_session_token "" ≡ false)
    × (str_eq p.mobile_session_expires_at "" ≡ false)
    × (relay_url_error new_url p.relay_ws_url ≡ none)

named-platform_text :
    (platform : MobilePlatform) → platform_named (platform_text platform) ≡ some platform
named-platform_text MobilePlatform.ios = refl
named-platform_text MobilePlatform.android = refl
named-platform_text MobilePlatform.unknown = refl

good_keys :
    (source : Fields) (keys : List String)
    → All (λ k. (not (str_eq k "mobilePlatform") && not (is_text k source)) ≡ false) keys
    → bad_key source keys ≡ none
unfolding bad_key
good_keys source [] a = refl
good_keys source (key ∷ keys) a = ground (arith, a.0, good_keys source keys a.1)

-- The fields of the profile as an object.
abbrev fields_of : PairingProfile → Fields
fields_of p = field "relayWsUrl" (string p.relay_ws_url) (
    field "desktopId" (string p.desktop_id) (
      field "desktopName" (string p.desktop_name) (
        field "mobileDeviceId" (string p.mobile_device_id) (
          field "mobileDeviceName" (string p.mobile_device_name) (
            field "mobilePlatform" (string (platform_text p.mobile_platform)) (
              field "mobileSessionToken" (string p.mobile_session_token)
                (field "mobileSessionExpiresAt" (string p.mobile_session_expires_at) end)))))))

fields_of-good :
    (new_url : String → Option Url) (p : PairingProfile)
    → IsAccepted new_url p
    → bad_key (fields_of p) profile_keys ≡ none
unfolding is_text field?
fields_of-good new_url p (a, b, c, d, e, f, g, h) = good_keys (fields_of p) profile_keys (
  ground (arith, a),
  (
    ground (arith, b),
    (
      ground (arith, c),
      (
        ground (arith, d),
        (ground (arith, e), (refl, (ground (arith, f), (ground (arith, g), tt)))),
      ),
    ),
  ),
)

checked-fields_of :
    (new_url : String → Option Url) (p : PairingProfile)
    → IsAccepted new_url p
    → checked_profile new_url (fields_of p) ≡ success p
unfolding checked_profile text_at field? profile_of
checked-fields_of new_url p h =
    let (_, _, _, _, _, _, _, relay) = h in
    rw (fields_of-good new_url p h, checked_profile, relay, named-platform_text p.mobile_platform)
      refl

pub parse-profile_json :
    (new_url : String → Option Url) (p : PairingProfile)
    → IsAccepted new_url p
    → parse_pairing_profile new_url (profile_json p) ≡ success p
unfolding parse_pairing_profile profile_json key_count field?
parse-profile_json new_url p h = checked-fields_of new_url p h

filled :
    (v : Option Json)
    → elim v [ some (string s) ↦ not (str_eq s "") | _ ↦ false ] ≡ true
    → str_eq (elim v [ some (string s) ↦ s | _ ↦ "" ]) "" ≡ false
filled none h = absurd (ground (arith, h))
filled (some (string s)) h = ground (arith, h)
filled (some null) h = absurd (ground (arith, h))
filled (some (bool b)) h = absurd (ground (arith, h))
filled (some (number n)) h = absurd (ground (arith, h))
filled (some (array l)) h = absurd (ground (arith, h))
filled (some (object r)) h = absurd (ground (arith, h))

text_at-filled :
    (key : String) (source : Fields)
    → is_text key source ≡ true
    → str_eq (text_at key source) "" ≡ false
unfolding is_text text_at
text_at-filled key source h = filled (field? key source) h

-- Where no key is bad, a key that is looked at holds a text.
bad_key-none :
    (source : Fields) (key : String) (keys : List String)
    → bad_key source (key ∷ keys) ≡ none
    → ((not (str_eq key "mobilePlatform") && not (is_text key source)) ≡ false)
      × (bad_key source keys ≡ none)
unfolding bad_key
bad_key-none source key keys h = (ground (arith, h), ground (arith, h))

key_filled :
    (source : Fields) (key : String)
    → str_eq key "mobilePlatform" ≡ false
    → (not (str_eq key "mobilePlatform") && not (is_text key source)) ≡ false
    → str_eq (text_at key source) "" ≡ false
key_filled source key n h = text_at-filled key source (ground (arith, n, h))

profile_of-IsAccepted :
    (new_url : String → Option Url) (source : Fields) (platform : MobilePlatform)
    → bad_key source profile_keys ≡ none
    → relay_url_error new_url (text_at "relayWsUrl" source) ≡ none
    → IsAccepted new_url (profile_of source platform)
unfolding profile_of
profile_of-IsAccepted new_url source platform h relay =
    let (a, h1) = bad_key-none source "relayWsUrl" _ h in
    let (b, h2) = bad_key-none source "desktopId" _ h1 in
    let (c, h3) = bad_key-none source "desktopName" _ h2 in
    let (d, h4) = bad_key-none source "mobileDeviceId" _ h3 in
    let (e, h5) = bad_key-none source "mobileDeviceName" _ h4 in
    let (_, h6) = bad_key-none source "mobilePlatform" _ h5 in
    let (f, h7) = bad_key-none source "mobileSessionToken" _ h6 in
    let (g, _) = bad_key-none source "mobileSessionExpiresAt" _ h7 in
    (
      key_filled source "relayWsUrl" refl a,
      key_filled source "desktopId" refl b,
      key_filled source "desktopName" refl c,
      key_filled source "mobileDeviceId" refl d,
      key_filled source "mobileDeviceName" refl e,
      key_filled source "mobileSessionToken" refl f,
      key_filled source "mobileSessionExpiresAt" refl g,
      relay,
    )

pub success_injective : {A : Type 0} (x y : A) → success x ≡ success y → x ≡ y
success_injective x y h = ground (arith, h)

checked_profile-IsAccepted :
    (new_url : String → Option Url) (source : Fields) (p : PairingProfile)
    → checked_profile new_url source ≡ success p
    → IsAccepted new_url p
unfolding checked_profile
checked_profile-IsAccepted new_url source p h = elim (Option-cases (bad_key source profile_keys)) [
  | inr (key, e) ↦ absurd (ground (arith, h, e))
  | inl e ↦ elim (Option-cases (relay_url_error new_url (text_at "relayWsUrl" source))) [
    | inr (message, r) ↦ absurd (ground (arith, h, e, r))
    | inl r ↦ elim (Option-cases (platform_named (text_at "mobilePlatform" source))) [
      | inl n ↦ absurd (ground (arith, h, e, r, n))
      | inr (platform, n) ↦
          subst (IsAccepted new_url)
            (success_injective (profile_of source platform) p (ground (arith, h, e, r, n)))
            (profile_of-IsAccepted new_url source platform e r)
    ]
  ]
]

pub parse-IsAccepted :
    (new_url : String → Option Url) (j : Json) (p : PairingProfile)
    → parse_pairing_profile new_url j ≡ success p
    → IsAccepted new_url p
unfolding parse_pairing_profile
parse-IsAccepted new_url (object source) p h =
    checked_profile-IsAccepted new_url source p (ground (arith, h))
parse-IsAccepted new_url null p h = absurd (ground (arith, h))
parse-IsAccepted new_url (bool b) p h = absurd (ground (arith, h))
parse-IsAccepted new_url (number n) p h = absurd (ground (arith, h))
parse-IsAccepted new_url (string s) p h = absurd (ground (arith, h))
parse-IsAccepted new_url (array l) p h = absurd (ground (arith, h))
