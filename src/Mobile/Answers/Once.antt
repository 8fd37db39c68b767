-- ===== src/Mobile/Answers/Once.antt =====
-- That an interaction is answered once, with one of its options.
use cucoudle.Prelude.{
  ℕ, suc, ◌≡◌, ◌≤◌, ◌⊎◌, inl, inr, refl, sym, ◌∙◌, subst, String, true, false, not, ◌||◌, ◌&&◌,
  none, some, List, [], ◌∷◌, ◌++◌, All, elem, length, str_eq, if◌then◌else◌, arith, Bool-cases,
  Option-cases, if-holds, ◌==◌,
}
use cucoudle.Protocol.Interaction.{
  InteractionRequest, InteractionResponse, options_response, text_response,
  InteractionRespondParams,
}
use cucoudle.Mobile.Answers.{
  submitting, ZoneProps, Zone, options_of, render_kind, is_disabled, render_zone, same_interaction,
  zone_content, submit, settle_answer, Answer, accepted, thrown, ZoneInput, rendered,
  option_pressed, typed, send_pressed, settled, has_option, has_field, zone_step, run_zone,
  ZoneStep,
}
use cucoudle.Mobile.Answers.Options.{
  is_text_kind, render_kind-elem, render_kind-text, ids_of, is_choice,
}

module _ (session_id : String) (reference : ℕ) (request : InteractionRequest) where
  -- An answer to this interaction, with one of its options.
  abbrev pub IsAnswer : InteractionRespondParams → Type 0
  IsAnswer params =
      (params.session_id ≡ session_id)
      × (params.interaction_id ≡ request.id)
      × (is_choice request params.response ≡ true)

  abbrev IsFor : ZoneProps → Type 0
  IsFor props = props.interaction ≡ some (reference, request)

  -- The component keeps showing this interaction.
  abbrev pub Keeps : ZoneInput → Type 0
  Keeps (rendered props) = IsFor props
  Keeps _ = Unit

  -- A step answers at most when nothing was answered before.
  abbrev Moves : Zone → ZoneStep → Type 0
  Moves z s =
      IsFor s.0.props
      × (((s.1 ≡ []) × (s.0.pending ≡ z.pending))
          ⊎ ((z.pending ≡ false)
              × (s.0.pending ≡ true)
              × ((params : InteractionRespondParams) × (s.1 ≡ params ∷ []) × IsAnswer params)))

  stays : (z w : Zone) → IsFor w.props → w.pending ≡ z.pending → Moves z (w, [])
  stays z w h e = (h, inl (refl, e))

  -- What `submit` leaves behind and sends, where it sends.
  abbrev sending : InteractionResponse → Zone → ZoneStep
  sending response z = (
    record z { pending = true; phase = submitting; error = none; unsettled = suc z.unsettled },
    record { session_id = session_id; interaction_id = request.id; response = response } ∷ [],
  )

  submit-if :
      (response : InteractionResponse) (z : Zone)
      → IsFor z.props
      → submit session_id response z
        ≡ (if z.pending || is_disabled z then (z, []) else sending response z)
  unfolding submit
  submit-if response z h = ground (arith, h)

  submit-Moves :
      (response : InteractionResponse) (z : Zone)
      → IsFor z.props
      → is_choice request response ≡ true
      → Moves z (submit session_id response z)
  submit-Moves response z h k =
      subst (Moves z) (sym (submit-if response z h))
        (elim (Bool-cases (z.pending || is_disabled z)) [
          | inl e ↦ rw e (stays z z h refl)
          | inr e ↦ rw e (h, inr (ground (arith, e), refl, (_, refl, (refl, refl, k))))
        ])

  -- What stands in the zone comes of this interaction.
  zone_content-kind :
      (props : ZoneProps)
      → IsFor props
      → (zone_content session_id props ≡ none)
        ⊎ (zone_content session_id props ≡ render_kind request)
  unfolding zone_content
  zone_content-kind props h = elim (Option-cases props.negotiated_capabilities) [
    | inl e ↦ inl (rw (h, e, zone_content) refl)
    | inr (capabilities, e) ↦
        let test =
          elem "interaction.structured" capabilities && str_eq request.session_id session_id in
        elim (Bool-cases test) [
          | inl b ↦ inr (rw (h, e, zone_content, b) refl)
          | inr b ↦ inl (rw (h, e, zone_content, b) refl)
        ]
  ]

  content-option :
      (id : String) (props : ZoneProps)
      → IsFor props
      → has_option id (zone_content session_id props) ≡ true
      → elem id (ids_of (options_of request)) ≡ true
  content-option id props h k = elim (zone_content-kind props h) [
    | inl e ↦ absurd (ground (arith, k, e))
    | inr e ↦ render_kind-elem request id (subst (λ c. has_option id c ≡ true) e k)
  ]

  content-text :
      (props : ZoneProps)
      → IsFor props
      → has_field (zone_content session_id props) ≡ true
      → is_text_kind request.kind ≡ true
  content-text props h k = elim (zone_content-kind props h) [
    | inl e ↦ absurd (ground (arith, k, e))
    | inr e ↦ render_kind-text request (subst (λ c. has_field c ≡ true) e k)
  ]

  render_zone-Moves :
      (props : ZoneProps) (z : Zone)
      → IsFor z.props
      → IsFor props
      → Moves z (render_zone props z, [])
  unfolding render_zone same_interaction
  render_zone-Moves props z h k =
      let next : Zone = record z { props = props } in
      let same : render_zone props z ≡ next = rw (h, k, render_zone) (ground arith) in
      subst (λ w. Moves z (w, [])) (sym same) (stays z next k refl)

  settle_answer-Moves :
      (answer : Answer) (z : Zone) → IsFor z.props → Moves z (settle_answer answer z, [])
  unfolding settle_answer
  settle_answer-Moves accepted z h =
      if-holds (λ w. Moves z (w, [])) (z.unsettled == 0) (stays z z h refl) (h, inl (refl, refl))
  settle_answer-Moves (thrown (some message)) z h =
      if-holds (λ w. Moves z (w, [])) (z.unsettled == 0) (stays z z h refl) (h, inl (refl, refl))
  settle_answer-Moves (thrown none) z h =
      if-holds (λ w. Moves z (w, [])) (z.unsettled == 0) (stays z z h refl) (h, inl (refl, refl))

  zone_step-Moves :
      (input : ZoneInput) (z : Zone)
      → IsFor z.props
      → Keeps input
      → Moves z (zone_step session_id input z)
  unfolding zone_step
  zone_step-Moves (rendered props) z h k = render_zone-Moves props z h k
  zone_step-Moves (option_pressed id) z h k =
      let test = has_option id (zone_content session_id z.props) && not (is_disabled z) in
      elim (Bool-cases test) [
        | inl e ↦ rw e (
            submit-Moves (options_response (id ∷ [])) z h
              (content-option id z.props h (ground (arith, e))))
        | inr e ↦ rw e (stays z z h refl)
      ]
  zone_step-Moves (typed text) z h k =
      let test = has_field (zone_content session_id z.props) && not (is_disabled z) in
      if-holds (Moves z) test (h, inl (refl, refl)) (stays z z h refl)
  zone_step-Moves send_pressed z h k =
      let test =
        has_field (zone_content session_id z.props) && not (is_disabled z || str_eq z.text "") in
      elim (Bool-cases test) [
        | inl e ↦ rw e (
            submit-Moves (text_response z.text (some true)) z h
              (content-text z.props h (ground (arith, e))))
        | inr e ↦ rw e (stays z z h refl)
      ]
  zone_step-Moves (settled answer) z h k = settle_answer-Moves answer z h

  -- Nothing is sent where an answer was sent before, and at most one answer otherwise.
  abbrev IsBounded : Zone → List InteractionRespondParams → Type 0
  IsBounded z sent = (z.pending ≡ true → sent ≡ []) × (length sent ≤ 1) × All IsAnswer sent

  moved-IsBounded :
      (z : Zone) (s : ZoneStep) (rest : List InteractionRespondParams)
      → Moves z s
      → IsBounded s.0 rest
      → IsBounded z (s.1 ++ rest)
  moved-IsBounded z (w, sent) rest (g, inl (e, p)) (nothing, few, answers) =
      subst (λ l. IsBounded z (l ++ rest)) (sym e) (λ h. nothing (p ∙ h), few, answers)
  moved-IsBounded z (w, sent) rest (g, inr (p, q, (params, e, answer))) (nothing, few, answers) =
      subst (λ l. IsBounded z (l ++ rest)) (sym e)
        (subst (λ l. IsBounded z (params ∷ l)) (sym (nothing q))
          (λ h. absurd (ground (arith, h, p)), omega arith, (answer, tt)))

  run_zone-IsBounded :
      (inputs : List ZoneInput) (z : Zone)
      → IsFor z.props
      → All Keeps inputs
      → IsBounded z (run_zone session_id inputs z).1
  unfolding run_zone
  run_zone-IsBounded [] z h k = (λ _. refl, omega arith, tt)
  run_zone-IsBounded (input ∷ inputs) z h (k, ks) =
      let s = zone_step session_id input z in
      let moved = zone_step-Moves input z h k in
      moved-IsBounded z s (run_zone session_id inputs s.0).1 moved
        (run_zone-IsBounded inputs s.0 moved.0 ks)

  -- While an interaction is shown, be it rendered again with other props, pressed, typed into, accepted
  -- or refused in any order, it is answered at most once, and not again once an answer was sent. Every
  -- answer names the session and this interaction, and is one of its options, or a text where the
  -- interaction asks for a text.
  pub answered_at_most_once :
      (inputs : List ZoneInput) (z : Zone)
      → z.props.interaction ≡ some (reference, request)
      → All Keeps inputs
      → let sent = (run_zone session_id inputs z).1 in
        (z.pending ≡ true → sent ≡ []) × (length sent ≤ 1) × All IsAnswer sent
  answered_at_most_once = run_zone-IsBounded
