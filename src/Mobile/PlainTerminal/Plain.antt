-- ===== src/Mobile/PlainTerminal/Plain.antt =====
-- What the plain terminal shows of any text, and what it leaves out of one with hyperlinks.
use cucoudle.Prelude.{
  ℕ, suc, ◌≡◌, refl, sym, ap, ◌∙◌, subst, Bool, true, false, not, none, some, List, [], ◌∷◌, ◌++◌,
  length, length-append, append_assoc, filter, all, All, ◌==◌, map, arith,
}
use cucoudle.Mobile.PlainTerminal.{
  bell_length, is_terminator, terminator_length, command_end, command_length, sequence_length,
  erase, unify_newlines, is_control, plain_terminal_text,
}
use cucoudle.Mobile.PlainTerminal.Pieces.{plain_terminal_text-sent}
use cucoudle.Mobile.PlainTerminal.Sent.{is_plain, printed, IsWellFormed, sent, shown, erase_match}

unify_newlines-no_return :
    (after : Bool) (text : List ℕ) → all (λ c. not (c == 13)) (unify_newlines after text) ≡ true
unfolding unify_newlines
unify_newlines-no_return after [] = refl
unify_newlines-no_return after (c ∷ text) = ground (arith, unify_newlines-no_return (c == 13) text)

filter-is_plain :
    (text : List ℕ)
    → all (λ c. not (c == 13)) text ≡ true
    → all is_plain (filter (λ c. not (is_control c)) text) ≡ true
unfolding is_control
filter-is_plain [] h = refl
filter-is_plain (c ∷ text) h = ground (arith, h, filter-is_plain text (ground (arith, h)))

printed-IsWellFormed :
    (text : List ℕ) → all is_plain text ≡ true → All IsWellFormed (map printed text)
unfolding is_control
printed-IsWellFormed [] h = tt
printed-IsWellFormed (c ∷ text) h =
    (ground (arith, h), printed-IsWellFormed text (ground (arith, h)))

sent-printed : (text : List ℕ) → sent (map printed text) ≡ text
sent-printed [] = refl
sent-printed (c ∷ text) = ap (λ l. c ∷ l) (sent-printed text)

shown-printed : (text : List ℕ) → shown (map printed text) ≡ text
shown-printed [] = refl
shown-printed (c ∷ text) = ap (λ l. c ∷ l) (shown-printed text)

plain_kept : (text : List ℕ) → all is_plain text ≡ true → plain_terminal_text text ≡ text
plain_kept text h =
    ap plain_terminal_text (sym (sent-printed text))
    ∙ plain_terminal_text-sent (map printed text) (printed-IsWellFormed text h)
    ∙ shown-printed text

-- Whatever a terminal is sent, the plain terminal shows tabs, line feeds and characters from U+0020 on
-- other than U+007F only, and showing what is shown once more changes nothing.
pub plain_terminal_text_again :
    (value : List ℕ)
    → (all is_plain (plain_terminal_text value) ≡ true)
      × (plain_terminal_text (plain_terminal_text value) ≡ plain_terminal_text value)
unfolding plain_terminal_text
plain_terminal_text_again value =
    let text = unify_newlines false (erase sequence_length 0 (erase command_length 0 value)) in
    let plain =
      filter-is_plain text
        (unify_newlines-no_return false (erase sequence_length 0 (erase command_length 0 value))) in
    (plain, plain_kept (filter (λ c. not (is_control c)) text) plain)

terminator_length-last :
    (body text : List ℕ)
    → terminator_length text ≡ none
    → terminator_length (body ++ 27 ∷ 92 ∷ text) ≡ some (suc (suc (length body)))
unfolding terminator_length is_terminator
terminator_length-last [] [] h = refl
terminator_length-last [] (c ∷ text) h = rw h refl
terminator_length-last (c ∷ body) text h = rw (terminator_length-last body text h) refl

-- A command that no \u0007 ends, in a text without \u0007 from there on, takes with it all that
-- stands before the last \u001b\\ of the text, be it shown text and other commands.
pub plain_terminal_text-terminated :
    (body text : List ℕ)
    → bell_length (body ++ 27 ∷ 92 ∷ text) ≡ none
    → terminator_length text ≡ none
    → plain_terminal_text (27 ∷ 93 ∷ body ++ 27 ∷ 92 ∷ text) ≡ plain_terminal_text text
unfolding plain_terminal_text command_length command_end
plain_terminal_text-terminated body text h k =
    let taken = 93 ∷ body ++ 27 ∷ 92 ∷ [] in
    let e = append_assoc body (27 ∷ 92 ∷ []) text in
    let m : command_length (27 ∷ taken ++ text) ≡ suc (length taken) =
      subst (λ l. command_length (27 ∷ 93 ∷ l) ≡ suc (length taken)) (sym e)
        (rw (h, terminator_length-last body text k)
          (omega (arith, length-append body (27 ∷ 92 ∷ [])))) in
    ap (λ l. filter (λ c. not (is_control c)) (unify_newlines false (erase sequence_length 0 l)))
      (ap (λ l. erase command_length 0 (27 ∷ 93 ∷ l)) (sym e)
        ∙ erase_match command_length 27 taken text m)
