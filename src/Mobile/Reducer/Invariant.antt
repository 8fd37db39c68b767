-- ===== src/Mobile/Reducer/Invariant.antt =====
-- Every action keeps the invariant of the phone's state.
use mathlib.Core.Option
use cucoudle.Mobile.Consistency.Events.{BringsOwn, IsOwn, receive_event-IsConsistent}
use cucoudle.Mobile.Reducer.Kept.{order_replay_events-All}
use cucoudle.Prelude.{
  All, String, ◌≡◌, refl, Bool, ◌||◌, Option, some, List, [], ◌∷◌, eq_iff, arith, elem, map,
  Option-cases, inl, inr,
}
use cucoudle.Prelude.Dict.{Dict, get, set, has, has-set, get-set}
use cucoudle.Protocol.Message.{EventMessage}
use cucoudle.Mobile.Terminal.Bounds.{replace_terminal_snapshot-IsBounded}
use cucoudle.Mobile.Render.{replace_render_snapshot-IsShort}
use cucoudle.Mobile.State.{
  SessionObject, SessionState, SessionSubscribeResult, SubscribeMode, SessionAction, list_received,
  subscribe_received, event_received, attention_dismissed, session_opened, subscription_changed,
}
use cucoudle.Mobile.Events.{receive_event}
use cucoudle.Mobile.Consistency.{
  IsConsistent, upsert_session-IsConsistent, set_terminal-IsConsistent, set_render-IsConsistent,
}
use cucoudle.Mobile.Reducer.{
  receive_all, by_id, receive_list, open_result, fill_terminal, fill_render, receive_subscribe,
  session_reducer,
}

-- The ids of a list of sessions.
abbrev ids : List SessionObject → List String
ids = map (λ x. x.id)

has-by_id :
    (d : Dict SessionObject) (xs : List SessionObject) (id : String)
    → has id (by_id d xs) ≡ (elem id (ids xs) || has id d)
unfolding by_id
has-by_id d [] id = refl
has-by_id d (x ∷ xs) id = ground (arith, has-by_id (set x.id x d) xs id, has-set x.id id x d)

by_id-own :
    (d : Dict SessionObject) (xs : List SessionObject)
    → ((id : String) (x : SessionObject) → get id d ≡ some x → x.id ≡ id)
    → (id : String) (x : SessionObject) → get id (by_id d xs) ≡ some x
    → x.id ≡ id
unfolding by_id
by_id-own d [] h id x e = h id x e
by_id-own d (y ∷ xs) h id x e =
    by_id-own (set y.id y d) xs
      (λ j z f. ground (arith, f, h j z, get-set y.id j y d, eq_iff y.id j)) id x e

receive_all-IsConsistent :
    (s : SessionState) (events : List EventMessage)
    → IsConsistent s
    → All BringsOwn events
    → IsConsistent (receive_all s events)
unfolding receive_all
receive_all-IsConsistent s [] v own = v
receive_all-IsConsistent s (event ∷ events) v own =
    receive_all-IsConsistent (receive_event s event) events
      (receive_event-IsConsistent s v event own.0) own.1

-- No id that the action brings is the name of a property of Object.prototype.
abbrev pub BringsOwnIds : SessionAction → Type 0
BringsOwnIds (list_received xs) = All (λ x. IsOwn x.id) xs
BringsOwnIds (subscribe_received result) =
    IsOwn result.session.id × All BringsOwn (Option.get_or result.events [])
BringsOwnIds (event_received event) = BringsOwn event
BringsOwnIds _ = Unit

module _ (s : SessionState) (v : IsConsistent s) where
  receive_list-IsConsistent : (xs : List SessionObject) → IsConsistent (receive_list s xs)
  unfolding receive_list has get
  receive_list-IsConsistent xs = record {
    listed = λ id. ground (arith, has-by_id [] xs id);
    own_id = by_id-own [] xs (λ id x h. absurd (ground arith));
    recent = v.recent;
    bounded = v.bounded;
    short = v.short;
  }

  open_result-IsConsistent :
      (result : SessionSubscribeResult)
      → IsOwn result.session.id
      → IsConsistent (open_result s result)
  unfolding open_result
  open_result-IsConsistent result own =
      let w = upsert_session-IsConsistent s v result.session own in
      record {
        listed = w.listed;
        own_id = w.own_id;
        recent = w.recent;
        bounded = w.bounded;
        short = w.short;
      }

  fill_terminal-IsConsistent :
      (mode : SubscribeMode) (result : SessionSubscribeResult)
      → All BringsOwn (Option.get_or result.events [])
      → IsConsistent (fill_terminal mode s result)
  unfolding fill_terminal
  fill_terminal-IsConsistent SubscribeMode.snapshot result own =
      set_terminal-IsConsistent s v _ _ (replace_terminal_snapshot-IsBounded _ _ _)
  fill_terminal-IsConsistent SubscribeMode.replay result own =
      receive_all-IsConsistent s _ v (order_replay_events-All BringsOwn _ own)
  fill_terminal-IsConsistent SubscribeMode.live result own = v

  fill_render-IsConsistent : (result : SessionSubscribeResult) → IsConsistent (fill_render s result)
  unfolding fill_render
  fill_render-IsConsistent result = elim (Option-cases result.terminal_render) [
    | inl e ↦ rw (e, fill_render) v
    | inr (shot, e) ↦
        rw (e, fill_render) (set_render-IsConsistent s v _ _ (replace_render_snapshot-IsShort shot))
  ]

module _ (s : SessionState) (v : IsConsistent s) where
  receive_subscribe-IsConsistent :
      (result : SessionSubscribeResult)
      → BringsOwnIds (subscribe_received result)
      → IsConsistent (receive_subscribe s result)
  unfolding receive_subscribe
  receive_subscribe-IsConsistent result own =
      fill_render-IsConsistent _
        (fill_terminal-IsConsistent _ (open_result-IsConsistent s v result own.0) result.mode result
          own.1)
        result

  same_parts :
      (keys : Dict Bool) (opened subscribed : Option String)
      → IsConsistent (record s {
        dismissed_attention_keys = keys;
        open_session_id = opened;
        subscribed_session_id = subscribed;
      })
  same_parts keys opened subscribed = record {
    listed = v.listed;
    own_id = v.own_id;
    recent = v.recent;
    bounded = v.bounded;
    short = v.short;
  }

  -- Whatever action comes, with whatever sessions or events whose ids are no names of properties of
  -- Object.prototype, such as "constructor", the phone lists exactly the sessions that it knows, each
  -- under its own id, and keeps at most 200000 code units of each terminal, 1000 lines of each history
  -- and 20 activities, if it did so before.
  pub session_reducer-IsConsistent :
      (action : SessionAction) → BringsOwnIds action → IsConsistent (session_reducer s action)
  unfolding session_reducer
  session_reducer-IsConsistent (list_received xs) own = receive_list-IsConsistent s v xs
  session_reducer-IsConsistent (subscribe_received result) own =
      receive_subscribe-IsConsistent result own
  session_reducer-IsConsistent (event_received event) own = receive_event-IsConsistent s v event own
  session_reducer-IsConsistent (attention_dismissed key) own =
      same_parts _ s.open_session_id s.subscribed_session_id
  session_reducer-IsConsistent (session_opened id) own =
      same_parts s.dismissed_attention_keys id s.subscribed_session_id
  session_reducer-IsConsistent (subscription_changed id) own =
      same_parts s.dismissed_attention_keys s.open_session_id id
