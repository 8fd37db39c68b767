-- ===== src/Mobile/Composer/Draft.antt =====
-- That the field for a command keeps what is typed into it.
use cucoudle.Prelude.{
  ◌≡◌, ◌⊎◌, inl, inr, refl, sym, ap, ◌∙◌, String, Bool, true, false, ◌||◌, List, [], ◌∷◌, str_eq,
  if◌then◌else◌, arith, if-holds, subst,
}
use cucoudle.Protocol.Json.{Fields}
use cucoudle.Mobile.Composer.{
  Composer, new_composer, SendResult, answered, thrown, controls_disabled, send_disabled,
  input_params, send_draft, finish_send, settle_send, ComposerInput, disabled_changed, draft_typed,
  send_pressed, send_settled, composer_step, run_composer,
}

-- No command waits for its result, or one does, which is the draft.
abbrev pub IsSingle : Composer → Type 0
IsSingle c =
    ((c.unsettled ≡ []) × (c.pending ≡ false) × (c.pending_ref ≡ false))
    ⊎ ((c.unsettled ≡ c.draft ∷ []) × (c.pending ≡ true) × (c.pending_ref ≡ true))

send_draft-waiting : (c : Composer) → c.pending_ref ≡ true → send_draft c ≡ (c, [])
unfolding send_draft
send_draft-waiting c q = ground (arith, q)

send_draft-IsSingle : (c : Composer) → IsSingle c → IsSingle (send_draft c).0
unfolding send_draft
send_draft-IsSingle c (inl (e, p, q)) =
    if-holds (λ (s : Composer × List Fields). IsSingle s.0)
      (c.disabled || c.pending_ref || str_eq c.draft "") (inl (e, p, q))
      (inr (ap (λ l. c.draft ∷ l) e, refl, refl))
send_draft-IsSingle c (inr (e, p, q)) =
    subst (λ (s : Composer × List Fields). IsSingle s.0) (sym (send_draft-waiting c q))
      (inr (e, p, q))

settle_send-none :
    (result : SendResult) (c : Composer) → c.unsettled ≡ [] → settle_send result c ≡ c
unfolding settle_send
settle_send-none result c e = ground (arith, e)

settle_send-one :
    (result : SendResult) (c : Composer)
    → c.unsettled ≡ c.draft ∷ []
    → settle_send result c ≡ finish_send result [] c
unfolding settle_send
settle_send-one result c e = ground (arith, e)

finish_send-IsSingle : (result : SendResult) (c : Composer) → IsSingle (finish_send result [] c)
unfolding finish_send
finish_send-IsSingle (answered true) c = inl (refl, refl, refl)
finish_send-IsSingle (answered false) c = inl (refl, refl, refl)
finish_send-IsSingle (thrown message) c = inl (refl, refl, refl)

settle_send-IsSingle :
    (result : SendResult) (c : Composer) → IsSingle c → IsSingle (settle_send result c)
settle_send-IsSingle result c (inl h) = subst IsSingle (sym (settle_send-none result c h.0)) (inl h)
settle_send-IsSingle result c (inr h) =
    subst IsSingle (sym (settle_send-one result c h.0)) (finish_send-IsSingle result c)

typed-waiting :
    (draft : String) (c : Composer)
    → c.pending ≡ true
    → composer_step (draft_typed draft) c ≡ (c, [])
unfolding composer_step controls_disabled
typed-waiting draft c p = ground (arith, p)

composer_step-IsSingle :
    (input : ComposerInput) (c : Composer) → IsSingle c → IsSingle (composer_step input c).0
unfolding composer_step
composer_step-IsSingle (disabled_changed disabled) c h = h
composer_step-IsSingle (draft_typed draft) c (inl h) =
    if-holds (λ (s : Composer × List Fields). IsSingle s.0) (controls_disabled c) (inl h) (inl h)
composer_step-IsSingle (draft_typed draft) c (inr h) =
    subst (λ (s : Composer × List Fields). IsSingle s.0) (sym (typed-waiting draft c h.1)) (inr h)
composer_step-IsSingle send_pressed c h =
    if-holds (λ (s : Composer × List Fields). IsSingle s.0) (send_disabled c) h
      (send_draft-IsSingle c h)
composer_step-IsSingle (send_settled result) c h = settle_send-IsSingle result c h

run_composer-IsSingle :
    (inputs : List ComposerInput) (c : Composer) → IsSingle c → IsSingle (run_composer inputs c).0
unfolding run_composer
run_composer-IsSingle [] c h = h
run_composer-IsSingle (input ∷ inputs) c h =
    run_composer-IsSingle inputs (composer_step input c).0 (composer_step-IsSingle input c h)

-- A command waits for its result.
abbrev pub waits : Composer → Bool
waits c = elim c.unsettled [ [] ↦ false | _ ∷ _ ↦ true ]

-- What an input may do to the draft, to the command that waits and to what is sent: `c` is the
-- composer before, `d` the one after.
abbrev pub Keeps : String → ComposerInput → Composer → Composer × List Fields → Type 0
Keeps session_id (disabled_changed disabled) c (d, sent) =
    (d.draft ≡ c.draft) × (d.unsettled ≡ c.unsettled) × (d.disabled ≡ disabled) × (sent ≡ [])
Keeps session_id (draft_typed draft) c (d, sent) =
    (d.draft ≡ (if c.disabled || waits c then c.draft else draft))
    × (d.unsettled ≡ c.unsettled)
    × (d.disabled ≡ c.disabled)
    × (sent ≡ [])
Keeps session_id send_pressed c (d, sent) =
    (d.draft ≡ c.draft)
    × (d.disabled ≡ c.disabled)
    × (d.unsettled
        ≡ (if c.disabled || waits c || str_eq c.draft "" then c.unsettled else c.draft ∷ []))
    × (sent ≡ (
        if c.disabled || waits c || str_eq c.draft ""
        then []
        else input_params session_id c.draft ∷ []))
Keeps session_id (send_settled (answered true)) c (d, sent) =
    (d.draft ≡ (if waits c then "" else c.draft))
    × (d.unsettled ≡ [])
    × (d.disabled ≡ c.disabled)
    × (sent ≡ [])
Keeps session_id (send_settled _) c (d, sent) =
    (d.draft ≡ c.draft) × (d.unsettled ≡ []) × (d.disabled ≡ c.disabled) × (sent ≡ [])

composer_step-session_id :
    (input : ComposerInput) (c : Composer) → (composer_step input c).0.session_id ≡ c.session_id
unfolding composer_step send_draft settle_send finish_send
composer_step-session_id (disabled_changed disabled) c = refl
composer_step-session_id (draft_typed draft) c = ground arith
composer_step-session_id send_pressed c = ground arith
composer_step-session_id (send_settled (answered true)) c = ground arith
composer_step-session_id (send_settled (answered false)) c = ground arith
composer_step-session_id (send_settled (thrown message)) c = ground arith

run_composer-session_id :
    (inputs : List ComposerInput) (c : Composer)
    → (run_composer inputs c).0.session_id ≡ c.session_id
unfolding run_composer
run_composer-session_id [] c = refl
run_composer-session_id (input ∷ inputs) c =
    run_composer-session_id inputs (composer_step input c).0 ∙ composer_step-session_id input c

waits-IsSingle : (c : Composer) → IsSingle c → (c.pending ≡ waits c) × (c.pending_ref ≡ waits c)
waits-IsSingle c (inl (e, p, q)) = (ground (arith, e, p), ground (arith, e, q))
waits-IsSingle c (inr (e, p, q)) = (ground (arith, e, p), ground (arith, e, q))

composer_step-Keeps :
    (input : ComposerInput) (c : Composer)
    → IsSingle c
    → Keeps c.session_id input c (composer_step input c)
unfolding composer_step controls_disabled send_disabled send_draft settle_send finish_send
composer_step-Keeps (disabled_changed disabled) c h = (refl, refl, refl, refl)
composer_step-Keeps (draft_typed draft) c h = ground (arith, waits-IsSingle c h)
composer_step-Keeps send_pressed c h = ground (arith, h, waits-IsSingle c h)
composer_step-Keeps (send_settled (answered true)) c h = ground (arith, h)
composer_step-Keeps (send_settled (answered false)) c h = ground (arith, h)
composer_step-Keeps (send_settled (thrown message)) c h = ground (arith, h)

-- Nothing that was typed into the composer is lost: whatever was typed, pressed and settled before, at
-- most one command waits for its result, and it is the draft as it stands. From there on, typing
-- makes the draft the text that was typed, unless the composer is disabled or a command waits;
-- pressing send keeps the draft and sends it for the session, once, unless the composer is disabled, a
-- command waits or the draft is empty; the accepted result of a command that waits empties the draft,
-- and a refused or failed one, like a change of the prop `disabled`, keeps it.
pub draft_kept :
    (session_id : String) (disabled : Bool) (inputs : List ComposerInput) (input : ComposerInput)
    → let c = (run_composer inputs (new_composer session_id disabled)).0 in
      ((c.unsettled ≡ []) ⊎ (c.unsettled ≡ c.draft ∷ []))
      × Keeps session_id input c (composer_step input c)
draft_kept session_id disabled inputs input =
    let c = (run_composer inputs (new_composer session_id disabled)).0 in
    let single =
      run_composer-IsSingle inputs (new_composer session_id disabled) (inl (refl, refl, refl)) in
    (
      elim single [ inl (e, _, _) ↦ inl e | inr (e, _, _) ↦ inr e ],
      subst (λ id. Keeps id input c (composer_step input c))
          (run_composer-session_id inputs (new_composer session_id disabled))
          (composer_step-Keeps input c single),
    )
