-- ===== src/Mobile/PairingScreen/Attempts.antt =====
-- That the screen makes one attempt at a time.
use cucoudle.Prelude.{
  ◌≡◌, ◌≤◌, ◌⊎◌, inl, inr, refl, sym, ◌∙◌, subst, String, Bool, true, false, Option, none, some,
  List, [], ◌∷◌, ◌++◌, All, length, arith, Option-cases, if-holds, if◌then◌else◌,
}
use cucoudle.Mobile.Pairing.{PairingRequest, Platform, parse_qr_pairing_request}
use cucoudle.Mobile.Pairing.Laws.{Parsed-cases}
use cucoudle.Mobile.PairingScreen.{
  ManualForm, PairingScreen, Attempt, saved, thrown, ScreenEffect, attempted, ScreenStep,
  submit_form, submit_request, finish_attempt, scan, submit_manual, handle_input, ScreenInput,
  scanned, manual_pressed, back_pressed, submit_pressed, form_typed, finished, screen_step,
  run_screen,
}

-- No attempt ends.
abbrev pub IsPending : ScreenInput → Type 0
IsPending (finished attempt) = ⊥
IsPending _ = Unit

-- A step starts an attempt at most where none is in progress.
abbrev Moves : PairingScreen → ScreenStep → Type 0
Moves s (t, effects) =
    ((effects ≡ []) × (t.pairing_in_progress ≡ s.pairing_in_progress))
    ⊎ ((s.pairing_in_progress ≡ false)
        × (t.pairing_in_progress ≡ true)
        × ((request : PairingRequest) × (effects ≡ attempted request ∷ [])))

stays : (s t : PairingScreen) → t.pairing_in_progress ≡ s.pairing_in_progress → Moves s (t, [])
stays s t e = inl (refl, e)

submit_request-Moves :
    (request : PairingRequest) (s : PairingScreen) → Moves s (submit_request request s)
unfolding submit_request
submit_request-Moves request s = go s.pairing_in_progress refl
  where
    go :
        (b : Bool)
        → s.pairing_in_progress ≡ b
        → Moves s (
            if b then (s, []) else (
              record s { pairing_in_progress = true; loading = true; error = none },
              attempted request ∷ [],
            ))
    go true e = stays s s refl
    go false e = inr (e, refl, (request, refl))

module _ (z : Platform) where
  scan-Moves : (text : String) (s : PairingScreen) → Moves s (scan z text s)
  unfolding scan
  scan-Moves text s = elim (Parsed-cases (parse_qr_pairing_request z text)) [
    | inl (m, e) ↦ rw (e, scan) (inl (refl, refl))
    | inr (request, e) ↦ rw (e, scan) (submit_request-Moves request s)
  ]

  submit_manual-Moves : (form : ManualForm) (s : PairingScreen) → Moves s (submit_manual z form s)
  unfolding submit_manual
  submit_manual-Moves form s =
      let shown : PairingScreen = record s { manual = some (submit_form z form).0 } in
      elim (Option-cases (submit_form z form).1) [
        | inl e ↦ rw (e, submit_manual) (inl (refl, refl))
        | inr (value, e) ↦ rw (e, submit_manual) (submit_request-Moves value shown)
      ]

  handle_input-Moves :
      (manual : Option ManualForm) (input : ScreenInput) (s : PairingScreen)
      → IsPending input
      → Moves s (handle_input z manual input s)
  unfolding handle_input
  handle_input-Moves none (scanned text) s h =
      if-holds (Moves s) s.loading (stays s s refl) (scan-Moves text s)
  handle_input-Moves none manual_pressed s h = inl (refl, refl)
  handle_input-Moves none back_pressed s h = inl (refl, refl)
  handle_input-Moves none submit_pressed s h = inl (refl, refl)
  handle_input-Moves none (form_typed key value) s h = inl (refl, refl)
  handle_input-Moves none (finished attempt) s h = absurd h
  handle_input-Moves (some form) (scanned text) s h = inl (refl, refl)
  handle_input-Moves (some form) manual_pressed s h = inl (refl, refl)
  handle_input-Moves (some form) back_pressed s h =
      if-holds (Moves s) s.loading (stays s s refl)
        (stays s (record s { error = none; manual = none }) refl)
  handle_input-Moves (some form) submit_pressed s h =
      if-holds (Moves s) s.loading (stays s s refl) (submit_manual-Moves form s)
  handle_input-Moves (some form) (form_typed key value) s h = inl (refl, refl)
  handle_input-Moves (some form) (finished attempt) s h = absurd h

  abbrev IsBounded : PairingScreen → List ScreenEffect → Type 0
  IsBounded s effects = (s.pairing_in_progress ≡ true → effects ≡ []) × (length effects ≤ 1)

  moved-IsBounded :
      (s : PairingScreen) (step : ScreenStep) (rest : List ScreenEffect)
      → Moves s step
      → IsBounded step.0 rest
      → IsBounded s (step.1 ++ rest)
  moved-IsBounded s (t, effects) rest (inl (e, p)) (nothing, few) =
      subst (λ l. IsBounded s (l ++ rest)) (sym e) (λ h. nothing (p ∙ h), few)
  moved-IsBounded s (t, effects) rest (inr (p, q, (request, e))) (nothing, few) =
      subst (λ l. IsBounded s (l ++ rest)) (sym e)
        (subst (λ l. IsBounded s (attempted request ∷ l)) (sym (nothing q))
          (λ h. absurd (ground (arith, h, p)), omega arith))

  run_screen-IsBounded :
      (inputs : List ScreenInput) (s : PairingScreen)
      → All IsPending inputs
      → IsBounded s (run_screen z inputs s).1
  unfolding run_screen screen_step
  run_screen-IsBounded [] s h = (λ _. refl, omega arith)
  run_screen-IsBounded (input ∷ inputs) s (h, hs) =
      let step = screen_step z input s in
      moved-IsBounded s step (run_screen z inputs step.0).1 (handle_input-Moves s.manual input s h)
        (run_screen-IsBounded inputs step.0 hs)

  -- The screen makes one attempt to pair at a time: until it ends, whatever is scanned, typed and
  -- pressed starts at most one, and none where one is in progress already. When an attempt ends, with a
  -- profile or with an error, the next request starts another.
  pub one_attempt :
      (inputs : List ScreenInput) (s : PairingScreen) (attempt : Attempt) (next : PairingRequest)
      → All IsPending inputs
      → let effects = (run_screen z inputs s).1 in
        (s.pairing_in_progress ≡ true → effects ≡ [])
        × (length effects ≤ 1)
        × ((submit_request next (finish_attempt attempt s).0).1 ≡ attempted next ∷ [])
  unfolding finish_attempt submit_request
  one_attempt inputs s (saved profile) next h =
      let (nothing, few) = run_screen-IsBounded inputs s h in (nothing, few, ground arith)
  one_attempt inputs s (thrown code) next h =
      let (nothing, few) = run_screen-IsBounded inputs s h in (nothing, few, ground arith)
