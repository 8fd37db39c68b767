-- ===== src/Mobile/Removal.antt =====
-- What `session.removed` and `session.ended` do to the phone's state (`receiveEvent` of
-- apps/mobile/src/state/sessionReducer.ts).
use Prim.Native.String.{◌++◌ as append_text}
use text.Mathlib.Text.{starts_with}
use cucoudle.Prelude.{
  ℕ, String, ◌≡◌, ◌≢◌, refl, ap, ◌∙◌, false, not, ◌&&◌, Option, none, some, str_eq, eq_iff,
  if◌then◌else◌, arith, elem, elem-filter, Option-cases,
}
use cucoudle.Prelude.Dict.{get, set, has, get-set, has-get, has-filter_keys}
use cucoudle.Protocol.Json.{string, number, field?, set_field, field?-set_field, as_number}
use cucoudle.Protocol.Message.{EventMessage}
use cucoudle.Mobile.State.{SessionObject, SessionState, ActivityFact, removed}
use cucoudle.Mobile.Events.{
  add_activity, make_activity, upsert_session, without_session, unset, named_session_id,
  ended_session, end_session, receive_removed, receive_ended, receive_event,
}
use cucoudle.Mobile.Consistency.{get-omit_key}

-- Nothing of the session is left in the state.
pub record IsGone (id : String) (s : SessionState) : Type 0 where
  pub session : get id s.sessions_by_id ≡ none
  pub listed : elem id s.session_ids ≡ false
  pub terminal : get id s.terminal_by_session_id ≡ none
  pub render : get id s.render_by_session_id ≡ none
  pub interaction : get id s.active_interactions_by_session_id ≡ none
  pub dismissed :
      (key : String)
      → (starts_with key (append_text id ":") && has key s.dismissed_attention_keys) ≡ false
  pub opened : s.open_session_id ≢ some id
  pub subscribed : s.subscribed_session_id ≢ some id

unset-ne-some : (o : Option String) (id : String) → unset o id ≢ some id
unfolding unset
unset-ne-some o id = λ e. ground (arith, e, Option-cases o, eq_iff id id)

without_session-IsGone : (s : SessionState) (id : String) → IsGone id (without_session s id)
unfolding without_session
without_session-IsGone s id = record {
  session = ground (arith, get-omit_key s.sessions_by_id id id, eq_iff id id);
  listed = ground (arith, elem-filter (λ i. not (str_eq i id)) id s.session_ids, eq_iff id id);
  terminal = ground (arith, get-omit_key s.terminal_by_session_id id id, eq_iff id id);
  render = ground (arith, get-omit_key s.render_by_session_id id id, eq_iff id id);
  interaction =
      ground (arith, get-omit_key s.active_interactions_by_session_id id id, eq_iff id id);
  dismissed = λ key. ground (
    arith,
    has-filter_keys (λ k. not (starts_with k (append_text id ":"))) key s.dismissed_attention_keys,
  );
  opened = unset-ne-some s.open_session_id id;
  subscribed = unset-ne-some s.subscribed_session_id id;
}

add_activity-IsGone :
    (s : SessionState) (id : String) (fact : ActivityFact)
    → IsGone id s
    → IsGone id (add_activity s fact)
unfolding add_activity
add_activity-IsGone s id fact g = record {
  session = g.session;
  listed = g.listed;
  terminal = g.terminal;
  render = g.render;
  interaction = g.interaction;
  dismissed = g.dismissed;
  opened = g.opened;
  subscribed = g.subscribed;
}

stopped_fields :
    (current : SessionObject) (sent_at : String) (exit_code : Option ℕ)
    → (field? "status" (ended_session current sent_at exit_code).fields ≡ some (string "stopped"))
      × (field? "lastActivityAt" (ended_session current sent_at exit_code).fields
          ≡ some (string sent_at))
unfolding ended_session
stopped_fields current sent_at none =
    let stopped = set_field "status" (string "stopped") current.fields in
    (
      ground (
        arith,
        field?-set_field "lastActivityAt" "status" (string sent_at) stopped,
        field?-set_field "status" "status" (string "stopped") current.fields,
      ),
      ground (arith, field?-set_field "lastActivityAt" "lastActivityAt" (string sent_at) stopped),
    )
stopped_fields current sent_at (some n) =
    let stopped = set_field "status" (string "stopped") current.fields in
    let dated = set_field "lastActivityAt" (string sent_at) stopped in
    (
      ground (
        arith,
        field?-set_field "exitCode" "status" (number n) dated,
        field?-set_field "lastActivityAt" "status" (string sent_at) stopped,
        field?-set_field "status" "status" (string "stopped") current.fields,
      ),
      ground (
        arith,
        field?-set_field "exitCode" "lastActivityAt" (number n) dated,
        field?-set_field "lastActivityAt" "lastActivityAt" (string sent_at) stopped,
      ),
    )

module _ (s : SessionState) (event : EventMessage) (id : String)
    (named : named_session_id event ≡ some id) where
  abbrev received : SessionState
  received = receive_event s event

  removal : ActivityFact
  removal = make_activity event id removed (get id s.sessions_by_id) none

  dispatched : event.event ≡ "session.removed" → received ≡ receive_removed s event
  unfolding receive_event
  dispatched h = rw (h, receive_event) refl

  noted : receive_removed s event ≡ add_activity (without_session s id) removal
  unfolding receive_removed removal
  noted = rw (named, receive_removed) refl

  received_removed :
      event.event ≡ "session.removed" → received ≡ add_activity (without_session s id) removal
  received_removed h = dispatched h ∙ noted

  get-without_session :
      (j : String)
      → (get j (without_session s id).sessions_by_id
          ≡ (if str_eq id j then none else get j s.sessions_by_id))
        × (get j (without_session s id).terminal_by_session_id
            ≡ (if str_eq id j then none else get j s.terminal_by_session_id))
  unfolding without_session
  get-without_session j =
      (get-omit_key s.sessions_by_id id j, get-omit_key s.terminal_by_session_id id j)

  -- After `session.removed` nothing of the session is left but the note of its removal: no session,
  -- no place in the list, no terminal, no history, no interaction, no dismissed card, and it is
  -- neither open nor subscribed to. The sessions and terminals of other ids stay as they were.
  pub session_removed :
      event.event ≡ "session.removed"
      → IsGone id received
        × ((j : String)
            → (get j received.sessions_by_id
                ≡ (if str_eq id j then none else get j s.sessions_by_id))
              × (get j received.terminal_by_session_id
                  ≡ (if str_eq id j then none else get j s.terminal_by_session_id)))
  unfolding add_activity
  session_removed h =
      rw (received_removed h)
        (add_activity-IsGone _ id removal (without_session-IsGone s id), get-without_session)

  module _ (current : SessionObject) (known : get id s.sessions_by_id ≡ some current)
      (own : current.id ≡ id) where
    dispatched_end : event.event ≡ "session.ended" → received ≡ receive_ended s event
    unfolding receive_event
    dispatched_end h = rw (h, receive_event) refl

    ended_known : receive_ended s event ≡ end_session s event id current
    unfolding receive_ended
    ended_known = ground (arith, named, known)

    abbrev stopped : SessionObject
    stopped = ended_session current event.sent_at (as_number (field? "exitCode" event.content))

    ended_sessions :
        (end_session s event id current).sessions_by_id ≡ set id stopped s.sessions_by_id
    unfolding end_session add_activity upsert_session ended_session
    ended_sessions = ap (λ i. set i stopped s.sessions_by_id) own

    ended_ids : (end_session s event id current).session_ids ≡ s.session_ids
    unfolding end_session add_activity upsert_session ended_session
    ended_ids = ground (arith, known, own, has-get id s.sessions_by_id)

    -- After `session.ended` a known session is stopped, at the time of the event, and every other
    -- session and the list stay as they were.
    pub session_ended :
        event.event ≡ "session.ended"
        → ((x : SessionObject) × (get id received.sessions_by_id ≡ some x)
            × (field? "status" x.fields ≡ some (string "stopped"))
            × (field? "lastActivityAt" x.fields ≡ some (string event.sent_at)))
          × (received.session_ids ≡ s.session_ids)
          × ((j : String)
              → get j received.sessions_by_id
                ≡ (if str_eq id j then get id received.sessions_by_id else get j s.sessions_by_id))
    session_ended h = rw (dispatched_end h ∙ ended_known) (
        rw (ended_sessions) (
          (
            stopped,
            ground (arith, get-set id id stopped s.sessions_by_id, eq_iff id id),
            (stopped_fields current event.sent_at _).0,
            (stopped_fields current event.sent_at _).1,
          ),
          ended_ids,
          λ j. ground (
            arith,
            get-set id j stopped s.sessions_by_id,
            get-set id id stopped s.sessions_by_id,
            eq_iff id id,
            eq_iff id j,
          ),
        ))
