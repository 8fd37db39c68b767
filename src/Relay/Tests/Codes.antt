-- ===== src/Relay/Tests/Codes.antt =====
-- Pairing codes, mobile sessions and the redaction of the log on concrete states.
use cucoudle.Prelude.{ℕ, String, ◌≡◌, ◌≢◌, refl, none, [], ◌∷◌}
use cucoudle.Prelude.Dict.{get, set, has}
use cucoudle.Protocol.Json.{Json, string, object, end, field}
use cucoudle.Protocol.Message.{pairing_not_found, pairing_expired}
use cucoudle.Relay.Desktops.{register_desktop}
use cucoudle.Relay.State.{new_state, RelayState, granted, refused}
use cucoudle.Relay.Audit.{redact_payload}
use cucoudle.Relay.Audit.Redaction.{IsRedacted, redact_payload-IsRedacted}
use cucoudle.Relay.Pairings.{
  digit, decimal, zeros, pad_start, generate_pairing_code, fresh_code, drop_codes_of,
  create_pairing, consume_pairing, issue_mobile_session, resume_mobile, session_token,
  CreatedPairing,
}
use cucoudle.Relay.Pairings.Laws.{
  consume_pairing_once, create_pairing-total, consume-create_pairing, resume-issue_mobile_session,
}
use cucoudle.Relay.Tests.{one_desktop}

abbrev iso : ℕ → String
iso t = "2026-07-11T00:00:00.000Z"

-- The code "000042" for the desktop, until 61000.
abbrev with_code : RelayState
with_code = record one_desktop {
  pairings = ("000042", record { desktop_id = "laptop"; expires_at = 61_000 }) ∷ [];
}

abbrev created_code : CreatedPairing
created_code = record {
  pairing_code = "000042";
  expires_at = "2026-07-11T00:00:00.000Z";
  qr_payload = record {
    relay_url = "wss://relay";
    desktop_id = "laptop";
    pairing_code = "000042";
    expires_at = "2026-07-11T00:00:00.000Z";
  };
}

consume_pairing_once_example :
    let s' = (consume_pairing with_code "laptop" "000042" 2000).1 in
    consume_pairing s' "laptop" "000042" 3000 ≡ (refused pairing_not_found, s')
unfolding consume_pairing get
consume_pairing_once_example =
    consume_pairing_once with_code "laptop" "000042" 2000 "laptop" 3000 (λ e. cc)

-- Another desktop holds "000042".
abbrev code_taken : RelayState
code_taken = record one_desktop {
  pairings = ("000042", record { desktop_id = "desk"; expires_at = 61_000 }) ∷ [];
}

create_pairing-total_example :
    create_pairing code_taken "laptop" 60 "wss://relay" 1000 iso (42 ∷ 7 ∷ []) ≢ none
unfolding has drop_codes_of generate_pairing_code pad_start decimal digit zeros
create_pairing-total_example =
    create_pairing-total code_taken "laptop" 60 "wss://relay" 1000 iso (42 ∷ []) [] 7 refl

consume-create_pairing_example :
    (consume_pairing with_code "laptop" "000042" 62_000).0 ≡ refused pairing_expired
unfolding create_pairing fresh_code generate_pairing_code pad_start decimal digit zeros has
    drop_codes_of set register_desktop new_state
consume-create_pairing_example =
    consume-create_pairing one_desktop "laptop" 60 "wss://relay" 1000 iso (42 ∷ 7 ∷ []) created_code
      with_code refl 62_000

resume-issue_mobile_session_example :
    (resume_mobile
      (issue_mobile_session one_desktop "laptop" "phone" 500 1000 iso "6f1e").1
      "laptop"
      "phone"
      (session_token "6f1e")
      1500).0
    ≡ granted
resume-issue_mobile_session_example =
    resume-issue_mobile_session one_desktop "laptop" "phone" 500 1000 iso "6f1e" "laptop" "phone"
      1500

abbrev with_session : RelayState
with_session = record one_desktop {
  mobile_sessions =
      ("mst_1", record { desktop_id = "laptop"; mobile_device_id = "phone"; expires_at = 1500 })
      ∷ [];
}

abbrev secret : Json
secret = object (field "pairingCode" (string "000042") end)

redact_payload-IsRedacted_example : IsRedacted (redact_payload secret)
redact_payload-IsRedacted_example = redact_payload-IsRedacted secret

abbrev hidden : Json
hidden = object (field "pairingCode" (string "<redacted>") end)
