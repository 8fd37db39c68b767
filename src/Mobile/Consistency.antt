-- ===== src/Mobile/Consistency.antt =====
-- The invariant of the phone's state, and that each event keeps it.
pub mod Events
use mathlib.Core.Option
use cucoudle.Prelude.{
  ℕ, ◌≤◌, String, ◌≡◌, refl, Bool, true, false, not, ◌||◌, Option, none, some, List, [], ◌∷◌, ◌++◌,
  str_eq, eq_iff, if◌then◌else◌, arith, length, elem, elem-filter, elem-append, Option-cases, inl,
  inr, subst, sym, if-holds,
}
use cucoudle.Prelude.Dict.{Dict, get, set, has, get-set, get-delete, has-get, has-set, is_inherited}
use cucoudle.Protocol.Json.{Json, Fields, field?, as_string, as_number}
use cucoudle.Protocol.Message.{EventMessage}
use cucoudle.Mobile.Terminal.{TerminalBuffer, TerminalChunk, create_terminal_buffer}
use cucoudle.Mobile.Terminal.Bounds.{IsBounded, length-slice_last, append_terminal_output-IsBounded}
use cucoudle.Mobile.Render.{RenderBuffer, IsShort, create_render_buffer, apply_render_frame-IsShort}
use cucoudle.Mobile.State.{SessionObject, SessionState, ActivityFact, create_initial_session_state}
use cucoudle.Mobile.Events.{
  as_array, event_session, event_session_id, ended_session, named_session_id, add_activity,
  upsert_session, omit_key, output_to, render_to, without_session, receive_session, receive_output,
  receive_render, receive_interaction, receive_resolved, receive_ended, end_session,
  receive_removed, receive_event,
}

-- Exactly the known sessions are listed, each stands under its own id, and the texts, the histories
-- and the activity are within their limits.
pub record IsConsistent (s : SessionState) : Type 0 where
  pub listed : (id : String) → elem id s.session_ids ≡ has id s.sessions_by_id
  pub own_id : (id : String) (x : SessionObject) → get id s.sessions_by_id ≡ some x → x.id ≡ id
  pub recent : length s.activity ≤ 20
  pub bounded :
      (id : String) (b : TerminalBuffer) → get id s.terminal_by_session_id ≡ some b → IsBounded b
  pub short : (id : String) (b : RenderBuffer) → get id s.render_by_session_id ≡ some b → IsShort b

pub initial-IsConsistent : IsConsistent create_initial_session_state
unfolding create_initial_session_state get has
initial-IsConsistent = record {
  listed = λ id. refl;
  own_id = λ id x h. ground arith;
  recent = omega arith;
  bounded = λ id b h. absurd (ground arith);
  short = λ id b h. absurd (ground arith);
}

pub if-IsConsistent :
    (b : Bool) (x y : SessionState)
    → IsConsistent x
    → IsConsistent y
    → IsConsistent (if b then x else y)
if-IsConsistent true x y h k = h
if-IsConsistent false x y h k = k

module _ {ℓ} {T : Type ℓ} (r : Dict T) (k j : String) where
  pub get-omit_key : get j (omit_key r k) ≡ (if str_eq k j then none else get j r)
  unfolding omit_key
  get-omit_key = ground (arith, get-delete k j r, has-get k r, eq_iff k j, Option-cases (get k r))

  has-omit_key : has j (omit_key r k) ≡ (if str_eq k j then false else has j r)
  has-omit_key = ground (arith, get-omit_key, has-get j (omit_key r k), has-get j r)

module _ (s : SessionState) (v : IsConsistent s) where
  pub add_activity-IsConsistent : (fact : ActivityFact) → IsConsistent (add_activity s fact)
  unfolding add_activity
  add_activity-IsConsistent fact = record {
    listed = v.listed;
    own_id = v.own_id;
    recent = length-slice_last 20 (s.activity ++ fact ∷ []);
    bounded = v.bounded;
    short = v.short;
  }

  pub upsert_session-IsConsistent :
      (x : SessionObject) → is_inherited x.id ≡ false → IsConsistent (upsert_session s x)
  unfolding upsert_session
  upsert_session-IsConsistent x own = record {
    listed = λ id. ground (
      arith,
      own,
      v.listed id,
      v.listed x.id,
      has-set x.id id x s.sessions_by_id,
      elem-append id s.session_ids (x.id ∷ []),
      eq_iff x.id id,
    );
    own_id = λ id y h.
        ground (arith, h, get-set x.id id x s.sessions_by_id, v.own_id id y, eq_iff x.id id);
    recent = v.recent;
    bounded = v.bounded;
    short = v.short;
  }

  current-IsBounded :
      (id : String)
      → IsBounded (Option.get_or (get id s.terminal_by_session_id) create_terminal_buffer)
  unfolding create_terminal_buffer
  current-IsBounded id = elim (Option-cases (get id s.terminal_by_session_id)) [
    | inl e ↦ rw e (omega arith)
    | inr (b, e) ↦ rw e (v.bounded id b e)
  ]

  current-IsShort :
      (id : String) → IsShort (Option.get_or (get id s.render_by_session_id) create_render_buffer)
  unfolding create_render_buffer
  current-IsShort id = elim (Option-cases (get id s.render_by_session_id)) [
    | inl e ↦ rw e (omega arith)
    | inr (b, e) ↦ rw e (v.short id b e)
  ]

  pub set_terminal-IsConsistent :
      (id : String) (b : TerminalBuffer)
      → IsBounded b
      → IsConsistent (record s { terminal_by_session_id = set id b s.terminal_by_session_id })
  set_terminal-IsConsistent id b h = record {
    listed = v.listed;
    own_id = v.own_id;
    recent = v.recent;
    bounded = λ j c e. ground (arith, h, e, get-set id j b s.terminal_by_session_id, v.bounded j c);
    short = v.short;
  }

  pub set_render-IsConsistent :
      (id : String) (b : RenderBuffer)
      → IsShort b
      → IsConsistent (record s { render_by_session_id = set id b s.render_by_session_id })
  set_render-IsConsistent id b h = record {
    listed = v.listed;
    own_id = v.own_id;
    recent = v.recent;
    bounded = v.bounded;
    short = λ j c e. ground (arith, h, e, get-set id j b s.render_by_session_id, v.short j c);
  }

  pub output_to-IsConsistent :
      (id : String) (chunk : TerminalChunk) → IsConsistent (output_to s id chunk)
  unfolding output_to
  output_to-IsConsistent id chunk = if-IsConsistent _ _ _ v (
      set_terminal-IsConsistent id _
        (append_terminal_output-IsBounded _ chunk (current-IsBounded id)))

  pub render_to-IsConsistent :
      (id : String) (seq : ℕ) (history_append screen : List Json)
      → IsConsistent (render_to s id seq history_append screen)
  unfolding render_to
  render_to-IsConsistent id seq history_append screen = if-IsConsistent _ _ _ v (
      set_render-IsConsistent id _
        (apply_render_frame-IsShort _ seq history_append screen (current-IsShort id)))

  pub without_session-IsConsistent : (id : String) → IsConsistent (without_session s id)
  unfolding without_session
  without_session-IsConsistent id = record {
    listed = λ j. ground (
      arith,
      v.listed j,
      has-omit_key s.sessions_by_id id j,
      elem-filter (λ i. not (str_eq i id)) j s.session_ids,
      eq_iff id j,
      eq_iff j id,
    );
    own_id = λ j x h. ground (arith, h, get-omit_key s.sessions_by_id id j, v.own_id j x);
    recent = v.recent;
    bounded = λ j b h. ground (arith, h, get-omit_key s.terminal_by_session_id id j, v.bounded j b);
    short = λ j b h. ground (arith, h, get-omit_key s.render_by_session_id id j, v.short j b);
  }
