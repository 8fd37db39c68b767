-- ===== src/Mobile/Client/Settling.antt =====
-- Which promises of requests the phone's client settles, and when.
use mathlib.Core.Option
use text.Mathlib.TextPositions.{eq_refl}
use cucoudle.Prelude.{
  append_nil, ℕ, String, ◌≡◌, ◌≢◌, refl, ap, ◌∙◌, true, none, some, List, [], ◌∷◌, ◌++◌, map, arith,
  if◌then◌else◌, Option-cases, inl, inr,
}
use cucoudle.Prelude.Dict.{Dict, get, get-set, get-delete}
use cucoudle.Protocol.Json.{Fields, end}
use cucoudle.Protocol.Message.{ResponseMessage}
use cucoudle.Mobile.Client.{
  ConnectionState, disconnected, connected, connecting, ClientState, ClientEffect, resolved,
  rejected, opened, refused, notified, delivered, sent, closed, threw, set_state, reject_pending,
  handle_response, error_of, is_socket, settle_attempt, cancel_attempt, handle_close, start_attempt,
  cancel_previous, made, attempt, connect, on_close, client_request, send_request, Reason, plain,
  protocol,
}

-- The promises of requests that are settled, in order.
unfoldable pub settles : List ClientEffect → List ℕ
settles [] = []
settles (resolved promise result ∷ es) = promise ∷ settles es
settles (rejected promise reason ∷ es) = promise ∷ settles es
settles (_ ∷ es) = settles es

settles-append : (es fs : List ClientEffect) → settles (es ++ fs) ≡ settles es ++ settles fs
unfolding settles
settles-append [] fs = refl
settles-append (resolved promise result ∷ es) fs = ap (λ l. promise ∷ l) (settles-append es fs)
settles-append (rejected promise reason ∷ es) fs = ap (λ l. promise ∷ l) (settles-append es fs)
settles-append (opened socket ∷ es) fs = settles-append es fs
settles-append (refused socket reason ∷ es) fs = settles-append es fs
settles-append (threw reason ∷ es) fs = settles-append es fs
settles-append (notified l next ∷ es) fs = settles-append es fs
settles-append (delivered l msg ∷ es) fs = settles-append es fs
settles-append (sent socket msg ∷ es) fs = settles-append es fs
settles-append (closed socket ∷ es) fs = settles-append es fs

settles-notified :
    (next : ConnectionState) (ls : List ℕ) → settles (map (λ l. notified l next) ls) ≡ []
unfolding settles
settles-notified next [] = refl
settles-notified next (l ∷ ls) = settles-notified next ls

settles-rejected :
    (reason : Reason) (pending : Dict ℕ)
    → settles (map (λ e. rejected e.1 reason) pending) ≡ map (λ e. e.1) pending
unfolding settles
settles-rejected reason [] = refl
settles-rejected reason (e ∷ pending) = ap (λ l. e.1 ∷ l) (settles-rejected reason pending)

-- When the client's socket closes, each promise of a waiting request is settled once, in order;
-- afterwards no request waits, and the client has no socket and is disconnected.
pub handle_close-settles :
    (c : ClientState) (socket : ℕ)
    → is_socket c.socket socket ≡ true
    → (settles (handle_close c socket).1 ≡ map (λ e. e.1) c.pending)
      × ((handle_close c socket).0.pending ≡ [])
      × ((handle_close c socket).0.socket ≡ none)
      × ((handle_close c socket).0.state ≡ disconnected)
unfolding handle_close reject_pending set_state
handle_close-settles c socket h = (
  rw (h, handle_close)
      (settles-append (map (λ e. rejected e.1 (plain "connection closed")) c.pending) _
        ∙ rw
            (
              settles-rejected (plain "connection closed") c.pending,
              settles-notified disconnected c.connection_listeners,
            )
            (append_nil _)),
  ground (arith, h),
  ground (arith, h),
  ground (arith, h),
)

-- A response settles the promise of the request with its id, if one waits, and no other; a second
-- response with this id settles none and changes nothing.
pub handle_response_once :
    (c : ClientState) (msg again : ResponseMessage)
    → again.id ≡ msg.id
    → (settles (handle_response c msg).1
        ≡ elim (get msg.id c.pending) [ none ↦ [] | some promise ↦ promise ∷ [] ])
      × (handle_response (handle_response c msg).0 again ≡ ((handle_response c msg).0, []))
unfolding handle_response settles
handle_response_once c msg again h = (
  ground (arith, Option-cases (get msg.id c.pending)),
  ground (
    arith,
    h,
    Option-cases (get msg.id c.pending),
    get-delete msg.id msg.id c.pending,
    eq_refl msg.id,
  ),
)

-- A request that is sent while connected waits under its new promise; a response with its id that
-- comes next settles this promise, with the result or the error that it carries, and nothing else.
pub client_request_answered :
    (c : ClientState) (socket : ℕ) (id method now : String) (params : Fields)
    (msg : ResponseMessage)
    → c.state ≡ connected
    → c.socket ≡ some socket
    → msg.id ≡ id
    → (handle_response (client_request c id method params now none).0 msg).1 ≡ (
        (if msg.ok
          then resolved c.next_promise (Option.get_or msg.result end)
          else rejected c.next_promise (protocol (error_of msg)))
        ∷ [])
unfolding handle_response client_request send_request
client_request_answered c socket id method now params msg h e same =
    ground (arith, h, e, same, get-set id id c.next_promise c.pending, eq_refl id)

-- What canceling an attempt leaves alone.
cancel_attempt-keeps :
    (c : ClientState) (socket : ℕ) (reason : String)
    → (settles (cancel_attempt c socket reason).1 ≡ [])
      × ((cancel_attempt c socket reason).0.pending ≡ c.pending)
      × ((cancel_attempt c socket reason).0.socket ≡ c.socket)
      × ((cancel_attempt c socket reason).0.connection_listeners ≡ c.connection_listeners)
unfolding cancel_attempt settle_attempt settles
cancel_attempt-keeps c socket reason = (ground arith, ground arith, ground arith, ground arith)

cancel_previous-keeps :
    (c : ClientState)
    → (settles (cancel_previous c).1 ≡ []) × ((cancel_previous c).0.pending ≡ c.pending)
unfolding cancel_previous settles
cancel_previous-keeps c = elim (Option-cases c.cancel_connect) [
  | inl e ↦ (ground (arith, e), ground (arith, e))
  | inr (a, e) ↦
      let (q, p, _, _) = cancel_attempt-keeps c a "connection superseded" in
      (ground (arith, e, q), ground (arith, e, p))
]

connect-keeps :
    (c : ClientState) (new : ℕ)
    → (settles (connect c (made new)).1 ≡ [])
      × ((connect c (made new)).0.pending ≡ c.pending)
      × ((connect c (made new)).0.socket ≡ some new)
unfolding connect attempt start_attempt set_state settles
connect-keeps c new =
    let d = (cancel_previous c).0 in
    let (q, p) = cancel_previous-keeps c in
    let calls = map (λ l. notified l connecting) d.connection_listeners in
    (
      settles-append ((cancel_previous c).1 ++ calls) []
          ∙ append_nil _
          ∙ settles-append (cancel_previous c).1 calls
          ∙ rw (q, settles-notified connecting d.connection_listeners) refl,
      p,
      refl,
    )

other_close-keeps :
    (d : ClientState) (old new : ℕ)
    → d.socket ≡ some new
    → old ≢ new
    → (settles (on_close d old).1 ≡ []) × ((on_close d old).0.pending ≡ d.pending)
unfolding on_close handle_close settles
other_close-keeps d old new h n =
    let (q, p, s, _) = cancel_attempt-keeps d old "connection closed" in
    let canceled = cancel_attempt d old "connection closed" in
    let same : handle_close canceled.0 old ≡ (canceled.0, []) = ground (arith, h, n, s) in
    (
      settles-append canceled.1 (handle_close canceled.0 old).1 ∙ rw (q, same) refl,
      ap (λ x. x.0.pending) same ∙ p,
    )

-- A connection that is superseded leaves its requests waiting: the new attempt settles none of them,
-- and the close of the old socket, when it is reported, settles none either.
pub superseded_waits :
    (c : ClientState) (old new : ℕ)
    → c.socket ≡ some old
    → old ≢ new
    → let d = (connect c (made new)).0 in
      (settles (connect c (made new)).1 ≡ [])
      × (d.pending ≡ c.pending)
      × (settles (on_close d old).1 ≡ [])
      × ((on_close d old).0.pending ≡ c.pending)
superseded_waits c old new h n =
    let (q, p, s) = connect-keeps c new in
    let (r, t) = other_close-keeps (connect c (made new)).0 old new s n in (q, p, r, t ∙ p)
