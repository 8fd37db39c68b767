-- ===== src/Mobile/Answers/Options.antt =====
-- That only the options of an interaction can be pressed.
use cucoudle.Prelude.{
  ◌≡◌, inl, inr, refl, subst, String, Bool, true, false, Option, none, some, List, [], ◌∷◌, map,
  elem, str_eq, arith, Option-cases, eq_iff, if-holds,
}
use cucoudle.Protocol.Interaction.{
  InteractionKind, approval, confirmation, single_select, multi_select, InteractionOptionIntent,
  InteractionOption, InteractionRequest, InteractionResponse, options_response, text_response,
}
use cucoudle.Mobile.Answers.{
  decision, choices, find_option, options_of, render_decision, render_kind, offered_ids, has_option,
  has_field, is_approve_intent, is_reject_intent, is_session_intent,
}

abbrev pub ids_of : List InteractionOption → List String
ids_of = map (λ o. o.id)

abbrev pub is_text_kind : InteractionKind → Bool
is_text_kind InteractionKind.text = true
is_text_kind _ = false

-- One of the request's options, or a text where it asks for one.
abbrev pub is_choice : InteractionRequest → InteractionResponse → Bool
is_choice request (options_response (id ∷ [])) = elem id (ids_of (options_of request))
is_choice request (text_response text submitted) = is_text_kind request.kind
is_choice request _ = false

abbrev Found : List InteractionOption → Option InteractionOption → Type 0
Found options none = Unit
Found options (some o) = elem o.id (ids_of options) ≡ true

Found-more :
    (p : InteractionOption) (options : List InteractionOption) (found : Option InteractionOption)
    → Found options found
    → Found (p ∷ options) found
Found-more p options none h = tt
Found-more p options (some o) h = ground (arith, h)

find_option-Found :
    (test : InteractionOptionIntent → Bool) (options : List InteractionOption)
    → Found options (find_option test options)
unfolding find_option
find_option-Found test [] = tt
find_option-Found test (p ∷ options) =
    if-holds (Found (p ∷ options)) (test p.intent) (ground (arith, eq_iff p.id p.id))
      (Found-more p options (find_option test options) (find_option-Found test options))

chosen :
    (ids : List String) (id other : String)
    → elem other ids ≡ true
    → str_eq other id ≡ true
    → elem id ids ≡ true
chosen ids id other h e = subst (λ i. elem i ids ≡ true) ((eq_iff other id).0 e) h

decision-elem :
    (options : List InteractionOption) (id : String) (a r : InteractionOption)
    (s : Option InteractionOption)
    → Found options (some a)
    → Found options (some r)
    → Found options s
    → elem id (offered_ids (decision r s a)) ≡ true
    → elem id (ids_of options) ≡ true
unfolding offered_ids
decision-elem options id a r none ha hr hs h =
    let ids = ids_of options in ground (arith, h, chosen ids id a.id ha, chosen ids id r.id hr)
decision-elem options id a r (some s) ha hr hs h =
    let ids = ids_of options in
    ground (arith, h, chosen ids id a.id ha, chosen ids id r.id hr, chosen ids id s.id hs)

render_decision-elem :
    (options : List InteractionOption) (id : String)
    → has_option id (render_decision options) ≡ true
    → elem id (ids_of options) ≡ true
unfolding render_decision
render_decision-elem options id h = elim (Option-cases (find_option is_approve_intent options)) [
  | inl e ↦ absurd (ground (arith, h, e))
  | inr (a, e) ↦ elim (Option-cases (find_option is_reject_intent options)) [
    | inl f ↦ absurd (ground (arith, h, e, f))
    | inr (r, f) ↦
        decision-elem options id a r (find_option is_session_intent options)
          (subst (Found options) e (find_option-Found is_approve_intent options))
          (subst (Found options) f (find_option-Found is_reject_intent options))
          (find_option-Found is_session_intent options) (ground (arith, h, e, f))
  ]
]

choices-elem :
    (options : List InteractionOption) (id : String)
    → has_option id (elim options [ [] ↦ none | option ∷ rest ↦ some (choices (option ∷ rest)) ])
      ≡ true
    → elem id (ids_of options) ≡ true
unfolding offered_ids
choices-elem [] id h = absurd (ground (arith, h))
choices-elem (option ∷ options) id h = h

pub render_kind-elem :
    (request : InteractionRequest) (id : String)
    → has_option id (render_kind request) ≡ true
    → elem id (ids_of (options_of request)) ≡ true
unfolding render_kind offered_ids
render_kind-elem request id h = go request.kind h
  where
    go :
        (kind : InteractionKind)
        → has_option id (render_kind (record request { kind = kind })) ≡ true
        → elem id (ids_of (options_of request)) ≡ true
    go approval k = render_decision-elem (options_of request) id k
    go confirmation k = render_decision-elem (options_of request) id k
    go single_select k = choices-elem (options_of request) id k
    go multi_select k = absurd (ground (arith, k))
    go InteractionKind.text k = absurd (ground (arith, k))

render_decision-no_field :
    (options : List InteractionOption) → has_field (render_decision options) ≡ false
unfolding render_decision
render_decision-no_field options = elim (Option-cases (find_option is_approve_intent options)) [
  | inl e ↦ ground (arith, e)
  | inr (a, e) ↦ elim (Option-cases (find_option is_reject_intent options)) [
    | inl f ↦ ground (arith, e, f)
    | inr (r, f) ↦ ground (arith, e, f)
  ]
]

choices-no_field :
    (options : List InteractionOption)
    → has_field (elim options [ [] ↦ none | option ∷ rest ↦ some (choices (option ∷ rest)) ])
      ≡ false
choices-no_field [] = refl
choices-no_field (option ∷ options) = refl

pub render_kind-text :
    (request : InteractionRequest)
    → has_field (render_kind request) ≡ true
    → is_text_kind request.kind ≡ true
unfolding render_kind
render_kind-text request h = go request.kind h
  where
    go :
        (kind : InteractionKind)
        → has_field (render_kind (record request { kind = kind })) ≡ true
        → is_text_kind kind ≡ true
    go approval k = absurd (ground (arith, k, render_decision-no_field (options_of request)))
    go confirmation k = absurd (ground (arith, k, render_decision-no_field (options_of request)))
    go single_select k = absurd (ground (arith, k, choices-no_field (options_of request)))
    go multi_select k = absurd (ground (arith, k))
    go InteractionKind.text k = refl
