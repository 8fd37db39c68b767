-- ===== src/Mobile/ClientTests.antt =====
-- The theorems about the phone's client on concrete states.
use cucoudle.Prelude.{◌≡◌, refl, true, none, some, [], ◌∷◌}
use cucoudle.Prelude.Dict.{get}
use cucoudle.Protocol.Json.{end}
use cucoudle.Protocol.Message.{ResponseMessage, protocol_version}
use cucoudle.Mobile.Client.{
  connected, disconnected, ClientState, create_client, handle_close, handle_response,
}
use cucoudle.Mobile.Client.Settling.{settles, handle_close-settles, handle_response_once}

-- Connected on socket 4, with one request that waits.
abbrev waiting : ClientState
waiting = record create_client {
  pending = ("a", 0) ∷ [];
  socket = some 4;
  state = connected;
  settled = 4 ∷ [];
  next_promise = 1;
}

abbrev reply : ResponseMessage
reply = record {
  version = protocol_version;
  id = "a";
  ok = true;
  result = some end;
  error = none;
  sent_at = "2026-07-11T00:00:00.000Z";
}

handle_close-settles_example :
    (settles (handle_close waiting 4).1 ≡ 0 ∷ [])
    × ((handle_close waiting 4).0.pending ≡ [])
    × ((handle_close waiting 4).0.socket ≡ none)
    × ((handle_close waiting 4).0.state ≡ disconnected)
handle_close-settles_example = handle_close-settles waiting 4 refl

handle_response_once_example :
    (settles (handle_response waiting reply).1 ≡ 0 ∷ [])
    × (handle_response (handle_response waiting reply).0 reply
        ≡ ((handle_response waiting reply).0, []))
unfolding get
handle_response_once_example = handle_response_once waiting reply reply refl
