-- ===== src/Relay/Pending.antt =====
-- Requests that wait for a desktop's answer, and the host's timers: `addPending`, `takePending`,
-- `removePendingForDesktop` and `pendingKey` of apps/relay/src/state.ts.
pub mod Keys
pub mod Timing
pub mod Steps
use Prim.Native.String.{◌++◌ as append_text}
use cucoudle.Prelude.{
  ℕ, suc, String, ◌≡◌, refl, Bool, true, false, not, Option, none, some, List, [], ◌∷◌, map, ◌==◌,
  str_eq, if◌then◌else◌, filter,
}
use cucoudle.Prelude.Dict.{Dict, get, set, delete, keep_if, has}
use cucoudle.Protocol.Json.{Fields}
use cucoudle.Relay.State.{RelayState, PendingRequest, MobileConn, Timer}

unfoldable pub pending_key : String → String → String
pending_key id request_id = append_text id (append_text "\0" request_id)

-- The armed timer with the handle.
unfoldable pub armed : ℕ → List Timer → Option Timer
armed h [] = none
armed h (t ∷ ts) = if t.handle == h then some t else armed h ts

-- clearTimeout(h)
unfoldable pub clear_timeout : ℕ → List Timer → List Timer
clear_timeout h = filter (λ t. not (t.handle == h))

-- What `onTimeout` has captured of the request.
pub record Captured : Type 0 where
  pub desktop_id : String
  pub method : String
  pub request_id : String
  pub params : Option Fields

-- `addPending`: false, and nothing done, where the request is already in flight.
unfoldable pub add_pending :
    RelayState → String → String → String → MobileConn → ℕ → Captured → Bool × RelayState
unfolding pending_key
add_pending s id request_id method mobile timeout_ms on_timeout =
    let key = pending_key id request_id in
    if has key s.pending then (false, s) else (
      true,
      record s {
        pending =
            set key
              (record {
                desktop_id = id;
                request_id = request_id;
                method = method;
                mobile = mobile;
                timeout = s.next_timer;
              })
              s.pending;
        timers =
            record {
              handle = s.next_timer;
              key = key;
              delay = timeout_ms;
              desktop_id = on_timeout.desktop_id;
              request_id = on_timeout.request_id;
              method = on_timeout.method;
              params = on_timeout.params;
            }
            ∷ s.timers;
        next_timer = suc s.next_timer;
      },
    )

-- The callback of `setTimeout` in `addPending`, run by the host when the timer falls due: the
-- timer and the mobile to which `onTimeout` is applied.
unfoldable pub fire_timer : RelayState → ℕ → Option (Timer × MobileConn) × RelayState
unfolding armed clear_timeout
fire_timer s h = elim (armed h s.timers) [
  | none ↦ (none, s)
  | some t ↦ elim (get t.key s.pending) [
    | none ↦ (none, record s { timers = clear_timeout h s.timers })
    | some q ↦ (
      some (t, q.mobile),
      record s { timers = clear_timeout h s.timers; pending = delete t.key s.pending },
    )
  ]
]

unfoldable pub take_pending :
    RelayState → String → String → Option (MobileConn × String) × RelayState
unfolding pending_key clear_timeout
take_pending s id request_id = elim (get (pending_key id request_id) s.pending) [
  | none ↦ (none, s)
  | some q ↦ (
    some (q.mobile, q.method),
    record s {
      timers = clear_timeout q.timeout s.timers;
      pending = delete (pending_key id request_id) s.pending;
    },
  )
]

-- The timers of the entries, cleared one after the other.
unfoldable pub clear_timeouts : Dict PendingRequest → List Timer → List Timer
clear_timeouts [] ts = ts
clear_timeouts ((_, q) ∷ es) ts = clear_timeouts es (clear_timeout q.timeout ts)

-- A loop over the pending requests that clears the timer of each that passes the test, and
-- deletes it.
unfoldable pub drop_pending : (PendingRequest → Bool) → RelayState → RelayState
unfolding clear_timeout clear_timeouts
drop_pending p s = record s {
  timers = clear_timeouts (filter (λ e. p e.1) s.pending) s.timers;
  pending = keep_if (λ _ q. not (p q)) s.pending;
}

unfoldable pub remove_pending_for_desktop :
    RelayState → String → List (String × MobileConn) × RelayState
unfolding drop_pending
remove_pending_for_desktop s id = (
  map (λ e. (e.1.request_id, e.1.mobile)) (filter (λ e. str_eq e.1.desktop_id id) s.pending),
  drop_pending (λ q. str_eq q.desktop_id id) s,
)
