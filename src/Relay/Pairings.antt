-- ===== src/Relay/Pairings.antt =====
-- Pairing codes and mobile sessions: `createPairing`, `consumePairing`, `issueMobileSession` and
-- `resumeMobile` of apps/relay/src/state.ts.
pub mod Laws
use Prim.Native.String.{[] as empty_text, ◌∷◌ as cons_text, ◌++◌ as append_text, len}
use Prim.Native.Char.{Char, code}
use cucoudle.Prelude.{
  ℕ, zero, suc, ◌+◌, ◌-◌, ◌*◌, ◌/◌, ◌%◌, String, Bool, not, ◌||◌, Option, none, some, List, [], ◌∷◌,
  str_eq, if◌then◌else◌, ltb, ◌==◌, ◌≡◌, refl,
}
use cucoudle.Prelude.Dict.{Dict, get, set, delete, keep_if, has}
use cucoudle.Protocol.Message.{ErrorCode, pairing_not_found, pairing_expired, unauthorized}
use cucoudle.Protocol.Params.{QrPayload}
use cucoudle.Relay.State.{RelayState, Pairing, MobileSession, Verdict, granted, refused}

-- The digit, as `Number.prototype.toString` writes it.
unfoldable pub digit : ℕ → String
digit n =
    if n == 0
    then "0"
    else if n == 1
    then "1"
    else if n == 2
    then "2"
    else if n == 3
    then "3"
    else if n == 4
    then "4"
    else if n == 5
    then "5"
    else if n == 6
    then "6"
    else if n == 7
    then "7"
    else if n == 8
    then "8"
    else "9"

-- n.toString(), with more fuel than there are digits.
unfoldable pub decimal : ℕ → ℕ → String
decimal zero n = ""
decimal (suc fuel) n =
    let more = append_text (decimal fuel (n / 10)) (digit (n % 10)) in
    if ltb n 10 then digit n else more

unfoldable pub zeros : ℕ → String
zeros zero = ""
zeros (suc n) = append_text "0" (zeros n)

-- text.padStart(width, "0"), on ASCII
unfoldable pub pad_start : ℕ → String → String
unfolding zeros
pad_start width text = append_text (zeros (width - len text)) text

unfoldable pub generate_pairing_code : ℕ → String
unfolding digit decimal pad_start
generate_pairing_code draw = pad_start 6 (decimal (suc draw) draw)

-- The `do … while` loop over the results of `randomInt`; `none` where all of them are taken.
unfoldable pub fresh_code : Dict Pairing → List ℕ → Option String
fresh_code pairings [] = none
fresh_code pairings (n ∷ draws) =
    let rest = fresh_code pairings draws in
    if has (generate_pairing_code n) pairings then rest else some (generate_pairing_code n)

-- The loop at the head of `createPairing`: a desktop has one code.
unfoldable pub drop_codes_of : String → Dict Pairing → Dict Pairing
drop_codes_of id = keep_if (λ _ p. not (str_eq p.desktop_id id))

pub record CreatedPairing : Type 0 where
  pub pairing_code : String
  pub expires_at : String
  pub qr_payload : QrPayload

-- `none` where the loop does not end on the draws given.
unfoldable pub create_pairing :
    RelayState
    → String
    → ℕ
    → String
    → ℕ
    → (ℕ → String)
    → List ℕ
    → Option (CreatedPairing × RelayState)
unfolding fresh_code drop_codes_of
create_pairing s id ttl_seconds relay_mobile_url now iso draws =
    let others = drop_codes_of id s.pairings in
    let expires_at_ms = now + ttl_seconds * 1000 in
    elim (fresh_code others draws) [
      | none ↦ none
      | some pairing_code ↦ some (
        record {
          pairing_code = pairing_code;
          expires_at = iso expires_at_ms;
          qr_payload = record {
            relay_url = relay_mobile_url;
            desktop_id = id;
            pairing_code = pairing_code;
            expires_at = iso expires_at_ms;
          };
        },
        record s {
          pairings =
              set pairing_code (record { desktop_id = id; expires_at = expires_at_ms }) others;
        },
      )
    ]

unfoldable pub check_pairing :
    RelayState → String → String → ℕ → Option Pairing → Verdict ErrorCode × RelayState
check_pairing s id code now none = (refused pairing_not_found, s)
check_pairing s id code now (some pairing) =
    if not (str_eq pairing.desktop_id id)
    then (refused pairing_not_found, s)
    else if ltb pairing.expires_at now
    then (refused pairing_expired, record s { pairings = delete code s.pairings })
    else (granted, record s { pairings = delete code s.pairings })

unfoldable pub consume_pairing : RelayState → String → String → ℕ → Verdict ErrorCode × RelayState
unfolding check_pairing
consume_pairing s id code now = check_pairing s id code now (get code s.pairings)

-- text.replace(/-/g, "")
unfoldable pub drop_dashes : String → String
drop_dashes empty_text = ""
drop_dashes (cons_text c s) = if code c == b'-' then drop_dashes s else cons_text c (drop_dashes s)

unfoldable pub session_token : String → String
unfolding drop_dashes
session_token uuid = append_text "mst_" (drop_dashes uuid)

pub record IssuedSession : Type 0 where
  pub token : String
  pub expires_at : String

unfoldable pub issue_mobile_session :
    RelayState → String → String → ℕ → ℕ → (ℕ → String) → String → IssuedSession × RelayState
unfolding session_token
issue_mobile_session s id mobile_device_id ttl_ms now iso uuid =
    let token = session_token uuid in
    let expires_at_ms = now + ttl_ms in
    (
      record { token = token; expires_at = iso expires_at_ms },
      record s {
        mobile_sessions =
            set token
              (record {
                desktop_id = id;
                mobile_device_id = mobile_device_id;
                expires_at = expires_at_ms;
              })
              s.mobile_sessions;
      },
    )

unfoldable pub check_session :
    RelayState
    → String
    → String
    → String
    → ℕ
    → Option MobileSession
    → Verdict ErrorCode × RelayState
check_session s id device token now none = (refused unauthorized, s)
check_session s id device token now (some session) =
    if not (str_eq session.desktop_id id) || not (str_eq session.mobile_device_id device)
    then (refused unauthorized, s)
    else if ltb session.expires_at now
    then (refused pairing_expired, record s { mobile_sessions = delete token s.mobile_sessions })
    else (granted, s)

unfoldable pub resume_mobile :
    RelayState → String → String → String → ℕ → Verdict ErrorCode × RelayState
unfolding check_session
resume_mobile s id device token now =
    check_session s id device token now (get token s.mobile_sessions)

code_of_42 : ◌≡◌ {A = String} (generate_pairing_code 42) "000042"
unfolding generate_pairing_code
code_of_42 = refl
