-- ===== src/Mobile/Consistency/Events.antt =====
-- That each event keeps the invariant of the phone's state.
use cucoudle.Prelude.{
  String, ◌≡◌, refl, Bool, false, ◌||◌, Option, none, some, str_eq, Option-cases, inl, inr, subst,
  sym, if-holds,
}
use cucoudle.Prelude.Dict.{Dict, get, is_inherited}
use cucoudle.Protocol.Json.{Fields, field?, as_string, as_number}
use cucoudle.Protocol.Message.{EventMessage}
use cucoudle.Mobile.State.{SessionObject, SessionState}
use cucoudle.Mobile.Events.{
  as_array, event_session, event_session_id, ended_session, named_session_id, receive_session,
  receive_output, receive_render, receive_interaction, receive_resolved, receive_ended, end_session,
  receive_removed, receive_event,
}
use cucoudle.Mobile.Consistency.{
  IsConsistent, if-IsConsistent, add_activity-IsConsistent, upsert_session-IsConsistent,
  output_to-IsConsistent, render_to-IsConsistent, without_session-IsConsistent,
}

-- What stands there, if anything does, has the property.
abbrev pub OnSome : {T : Type 0} → (T → Type 0) → Option T → Type 0
OnSome P none = Unit
OnSome P (some x) = P x

OnSome-equal :
    {T : Type 0} (P : T → Type 0) (o : Option T) → ((x : T) → o ≡ some x → P x) → OnSome P o
OnSome-equal P none h = tt
OnSome-equal P (some x) h = h x refl

-- The id is the name of no property of Object.prototype.
abbrev pub IsOwn : String → Type 0
IsOwn id = is_inherited id ≡ false

-- Neither the session of an event nor the session id that it names is such a name.
abbrev pub BringsOwn : EventMessage → Type 0
BringsOwn event =
    OnSome (λ (x : SessionObject). IsOwn x.id) (event_session event)
    × OnSome IsOwn (event_session_id event)

named_session_id-IsOwn :
    (event : EventMessage) → BringsOwn event → OnSome IsOwn (named_session_id event)
unfolding named_session_id
named_session_id-IsOwn event h = elim (Option-cases (event_session_id event)) [
  | inl e ↦ rw (e, named_session_id) tt
  | inr (id, e) ↦
      rw (e, named_session_id)
        (if-holds (OnSome IsOwn) (str_eq id "") tt (subst (OnSome IsOwn) e h.1))
]

some-IsConsistent :
    {T : Type 0} (o : Option T) (s : SessionState) (f : T → SessionState)
    → IsConsistent s
    → ((x : T) → IsConsistent (f x))
    → IsConsistent (elim o [ none ↦ s | some x ↦ f x ])
some-IsConsistent none s f h k = h
some-IsConsistent (some x) s f h k = k x

some_own-IsConsistent :
    {T : Type 0} (P : T → Type 0) (o : Option T) (s : SessionState) (f : T → SessionState)
    → IsConsistent s
    → OnSome P o
    → ((x : T) → P x → IsConsistent (f x))
    → IsConsistent (elim o [ none ↦ s | some x ↦ f x ])
some_own-IsConsistent P none s f h p k = h
some_own-IsConsistent P (some x) s f h p k = k x p

module _ (s : SessionState) (v : IsConsistent s) (event : EventMessage)
    (brings : BringsOwn event) where
  receive_session-IsConsistent : IsConsistent (receive_session s event)
  unfolding receive_session
  receive_session-IsConsistent =
      some_own-IsConsistent _ (event_session event) _ _ v brings.0
        (λ x own. add_activity-IsConsistent _ (upsert_session-IsConsistent s v x own) _)

  receive_output-IsConsistent : IsConsistent (receive_output s event)
  unfolding receive_output
  receive_output-IsConsistent =
      some-IsConsistent (as_string (field? "sessionId" event.content)) _ _ v (λ id.
        some-IsConsistent (as_number (field? "seq" event.content)) _ _ v (λ seq.
          some-IsConsistent (as_string (field? "data" event.content)) _ _ v
            (λ text. output_to-IsConsistent s v id _)))

  receive_render-IsConsistent : IsConsistent (receive_render s event)
  unfolding receive_render
  receive_render-IsConsistent =
      some-IsConsistent (as_string (field? "sessionId" event.content)) _ _ v (λ id.
        some-IsConsistent (as_number (field? "seq" event.content)) _ _ v (λ seq.
          some-IsConsistent (as_array (field? "historyAppend" event.content)) _ _ v (λ h.
            some-IsConsistent (as_array (field? "screen" event.content)) _ _ v
              (λ screen. render_to-IsConsistent s v id seq h screen))))

  same_sessions :
      (interactions : Dict Fields)
      → IsConsistent (record s { active_interactions_by_session_id = interactions })
  same_sessions interactions = record {
    listed = v.listed;
    own_id = v.own_id;
    recent = v.recent;
    bounded = v.bounded;
    short = v.short;
  }

  receive_interaction-IsConsistent : IsConsistent (receive_interaction s event)
  unfolding receive_interaction
  receive_interaction-IsConsistent = some-IsConsistent _ _ _ v (λ x. same_sessions _)

  receive_resolved-IsConsistent : IsConsistent (receive_resolved s event)
  unfolding receive_resolved
  receive_resolved-IsConsistent = some-IsConsistent _ _ _ v (λ id. same_sessions _)

  end_session-IsConsistent :
      (id : String) (current : SessionObject)
      → IsOwn current.id
      → IsConsistent (end_session s event id current)
  unfolding end_session ended_session
  end_session-IsConsistent id current own =
      add_activity-IsConsistent _ (upsert_session-IsConsistent s v _ own) _

  receive_ended-IsConsistent : IsConsistent (receive_ended s event)
  unfolding receive_ended
  receive_ended-IsConsistent =
      some_own-IsConsistent IsOwn (named_session_id event) _ _ v
        (named_session_id-IsOwn event brings)
        (λ id own.
          some_own-IsConsistent (λ x. x.id ≡ id) (get id s.sessions_by_id) _ _ v
            (OnSome-equal _ (get id s.sessions_by_id) (v.own_id id))
            (λ current e. end_session-IsConsistent id current (subst IsOwn (sym e) own)))

  receive_removed-IsConsistent : IsConsistent (receive_removed s event)
  unfolding receive_removed
  receive_removed-IsConsistent =
      some-IsConsistent _ _ _ v
        (λ id. add_activity-IsConsistent _ (without_session-IsConsistent s v id) _)

  pub receive_event-IsConsistent : IsConsistent (receive_event s event)
  unfolding receive_event
  receive_event-IsConsistent =
      let is : String → Bool = λ name. str_eq event.event name in
      if-IsConsistent (is "session.created" || is "session.updated") _ _
        receive_session-IsConsistent
        (if-IsConsistent (is "terminal.output") _ _ receive_output-IsConsistent (
          if-IsConsistent (is "terminal.render") _ _ receive_render-IsConsistent (
            if-IsConsistent (is "interaction.requested" || is "interaction.updated") _ _
              receive_interaction-IsConsistent
              (if-IsConsistent (is "interaction.resolved") _ _ receive_resolved-IsConsistent (
                if-IsConsistent (is "session.ended") _ _ receive_ended-IsConsistent
                  (if-IsConsistent (is "session.removed") _ _ receive_removed-IsConsistent v))))))
