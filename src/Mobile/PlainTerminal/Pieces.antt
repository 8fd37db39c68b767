-- ===== src/Mobile/PlainTerminal/Pieces.antt =====
-- What the plain terminal shows of such a text: the control sequences, and the whole.
use cucoudle.Prelude.{
  ℕ, suc, ◌+◌, ◌≡◌, refl, sym, ap, ◌∙◌, Bool, true, false, not, List, [], ◌∷◌, ◌++◌, length,
  length-append, append_assoc, filter, all, All, arith,
}
use cucoudle.Prelude.Texts.{within}
use cucoudle.Mobile.PlainTerminal.{
  run_length, behind, starts_in, sequence_end, sequence_length, erase, unify_newlines, is_control,
  plain_terminal_text,
}
use cucoudle.Mobile.PlainTerminal.Sent.{
  Piece, printed, line_break, sequence, command, erase_kept, erase_match, uncommanded, unsequenced,
  sequence_length-other, plain-other, erase-sent, IsWellFormed, sent, shown,
}

run_length-run :
    (p : ℕ → Bool) (run text : List ℕ)
    → all p run ≡ true
    → starts_in p text ≡ false
    → (run_length p (run ++ text) ≡ length run) × (behind p (run ++ text) ≡ text)
unfolding run_length behind starts_in
run_length-run p [] [] h k = (refl, refl)
run_length-run p [] (c ∷ text) h k = rw k (refl, refl)
run_length-run p (c ∷ run) text h k =
    ground (arith, h, run_length-run p run text (ground (arith, h)) k)

-- What follows the parameters is no parameter, and what follows the intermediates is no intermediate.
starts_in-last :
    (intermediates text : List ℕ) (last : ℕ)
    → all (within 32 47) intermediates ≡ true
    → within 64 126 last ≡ true
    → starts_in (within 48 63) (intermediates ++ last ∷ text) ≡ false
unfolding starts_in
starts_in-last [] text last h k = ground (arith, k)
starts_in-last (c ∷ intermediates) text last h k = ground (arith, h)

sequence_length-sequence :
    (parameters intermediates text : List ℕ) (last : ℕ)
    → IsWellFormed (sequence parameters intermediates last)
    → sequence_length (27 ∷ 91 ∷ parameters ++ (intermediates ++ last ∷ text))
      ≡ suc (suc (suc (length parameters + length intermediates)))
unfolding sequence_length sequence_end starts_in
sequence_length-sequence parameters intermediates text last (hp, hi, hl) =
    let a =
      run_length-run (within 48 63) parameters (intermediates ++ last ∷ text) hp
        (starts_in-last intermediates text last hi hl) in
    let b = run_length-run (within 32 47) intermediates (last ∷ text) hi (ground (arith, hl)) in
    rw (a.0, a.1, b.0, b.1) (ground (arith, hl))

sequence_length-taken :
    (parameters intermediates text : List ℕ) (last : ℕ)
    → IsWellFormed (sequence parameters intermediates last)
    → let taken = parameters ++ (intermediates ++ last ∷ []) in
      sequence_length (27 ∷ 91 ∷ taken ++ text) ≡ suc (length (91 ∷ taken))
sequence_length-taken parameters intermediates text last w =
    rw
      (
        append_assoc parameters (intermediates ++ last ∷ []) text,
        append_assoc intermediates (last ∷ []) text,
        sequence_length-sequence parameters intermediates text last w,
      )
      (omega (
        arith,
        length-append parameters (intermediates ++ last ∷ []),
        length-append intermediates (last ∷ []),
      ))

erase-uncommanded :
    (ps : List Piece)
    → All IsWellFormed ps
    → erase sequence_length 0 (uncommanded ps) ≡ unsequenced ps
unfolding erase
erase-uncommanded [] h = refl
erase-uncommanded (printed c ∷ ps) h =
    erase_kept sequence_length c (sequence_length-other c (uncommanded ps) (plain-other c h.0))
      (erase-uncommanded ps h.1)
erase-uncommanded (line_break ∷ ps) h =
    erase_kept sequence_length 13 (sequence_length-other 13 (10 ∷ uncommanded ps) refl) (
      erase_kept sequence_length 10 (sequence_length-other 10 (uncommanded ps) refl)
        (erase-uncommanded ps h.1))
erase-uncommanded (sequence parameters intermediates last ∷ ps) (w, h) =
    let taken = 91 ∷ parameters ++ (intermediates ++ last ∷ []) in
    ap (λ l. erase sequence_length 0 (27 ∷ 91 ∷ l))
      (ap (λ l. parameters ++ l) (sym (append_assoc intermediates (last ∷ []) (uncommanded ps)))
        ∙ sym (append_assoc parameters (intermediates ++ last ∷ []) (uncommanded ps)))
    ∙ erase_match sequence_length 27 taken (uncommanded ps)
        (sequence_length-taken parameters intermediates (uncommanded ps) last w)
    ∙ erase-uncommanded ps h
erase-uncommanded (command body ∷ ps) h = erase-uncommanded ps h.1

unify_newlines-unsequenced :
    (ps : List Piece) → All IsWellFormed ps → unify_newlines false (unsequenced ps) ≡ shown ps
unfolding unify_newlines is_control
unify_newlines-unsequenced [] h = refl
unify_newlines-unsequenced (printed c ∷ ps) h =
    ground (arith, h.0, unify_newlines-unsequenced ps h.1)
unify_newlines-unsequenced (line_break ∷ ps) h =
    ap (λ l. 10 ∷ l) (unify_newlines-unsequenced ps h.1)
unify_newlines-unsequenced (sequence _ _ _ ∷ ps) h = unify_newlines-unsequenced ps h.1
unify_newlines-unsequenced (command _ ∷ ps) h = unify_newlines-unsequenced ps h.1

filter-shown :
    (ps : List Piece) → All IsWellFormed ps → filter (λ c. not (is_control c)) (shown ps) ≡ shown ps
unfolding is_control
filter-shown [] h = refl
filter-shown (printed c ∷ ps) h = ground (arith, h.0, filter-shown ps h.1)
filter-shown (line_break ∷ ps) h = ap (λ l. 10 ∷ l) (filter-shown ps h.1)
filter-shown (sequence _ _ _ ∷ ps) h = filter-shown ps h.1
filter-shown (command _ ∷ ps) h = filter-shown ps h.1

-- Of a text of plain characters, line breaks, control sequences with parameters and intermediates, and
-- commands that \u0007 ends, in any order, the plain terminal shows the characters and the line breaks,
-- in their order, and nothing else.
pub plain_terminal_text-sent :
    (ps : List Piece) → All IsWellFormed ps → plain_terminal_text (sent ps) ≡ shown ps
unfolding plain_terminal_text
plain_terminal_text-sent ps h =
    rw (erase-sent ps h, erase-uncommanded ps h, unify_newlines-unsequenced ps h)
      (filter-shown ps h)
