-- ===== src/Mobile/PlainTerminal/Sent.antt =====
-- Texts that are put together of what terminals are sent, and the commands in them.
use cucoudle.Prelude.{
  ℕ, suc, ◌≡◌, refl, sym, ap, ◌∙◌, Bool, true, false, not, ◌&&◌, ◌||◌, leb, some, List, [], ◌∷◌,
  ◌++◌, length, length-append, append_assoc, all, All, ◌==◌, arith,
}
use cucoudle.Prelude.Texts.{within}
use cucoudle.Mobile.PlainTerminal.{bell_length, command_end, command_length, sequence_length, erase}

-- A tab, a line feed, or a character from U+0020 on other than U+007F.
abbrev pub is_plain : ℕ → Bool
is_plain c = c == 9 || c == 10 || leb 32 c && not (c == 127)

-- A character, a line break, a control sequence, or a command that \u0007 ends.
pub data Piece : Type 0 where
  printed : ℕ → Piece
  line_break : Piece
  sequence : List ℕ → List ℕ → ℕ → Piece
  command : List ℕ → Piece

abbrev pub IsWellFormed : Piece → Type 0
IsWellFormed (printed c) = is_plain c ≡ true
IsWellFormed line_break = Unit
IsWellFormed (sequence parameters intermediates last) =
    (all (within 48 63) parameters ≡ true)
    × (all (within 32 47) intermediates ≡ true)
    × (within 64 126 last ≡ true)
IsWellFormed (command body) = all (λ c. not (c == 7)) body ≡ true

abbrev pub sent : List Piece → List ℕ
sent [] = []
sent (printed c ∷ ps) = c ∷ sent ps
sent (line_break ∷ ps) = 13 ∷ 10 ∷ sent ps
sent (sequence parameters intermediates last ∷ ps) =
    27 ∷ 91 ∷ parameters ++ (intermediates ++ last ∷ sent ps)
sent (command body ∷ ps) = 27 ∷ 93 ∷ body ++ 7 ∷ sent ps

-- The characters and the line breaks.
abbrev pub shown : List Piece → List ℕ
shown [] = []
shown (printed c ∷ ps) = c ∷ shown ps
shown (line_break ∷ ps) = 10 ∷ shown ps
shown (sequence _ _ _ ∷ ps) = shown ps
shown (command _ ∷ ps) = shown ps

-- What is left without the commands, and then without the control sequences.
abbrev pub uncommanded : List Piece → List ℕ
uncommanded [] = []
uncommanded (printed c ∷ ps) = c ∷ uncommanded ps
uncommanded (line_break ∷ ps) = 13 ∷ 10 ∷ uncommanded ps
uncommanded (sequence parameters intermediates last ∷ ps) =
    27 ∷ 91 ∷ parameters ++ (intermediates ++ last ∷ uncommanded ps)
uncommanded (command body ∷ ps) = uncommanded ps

abbrev pub unsequenced : List Piece → List ℕ
unsequenced [] = []
unsequenced (printed c ∷ ps) = c ∷ unsequenced ps
unsequenced (line_break ∷ ps) = 13 ∷ 10 ∷ unsequenced ps
unsequenced (sequence _ _ _ ∷ ps) = unsequenced ps
unsequenced (command _ ∷ ps) = unsequenced ps

module _ (pattern_length : List ℕ → ℕ) where
  pub erase_kept :
      (c : ℕ) {text rest : List ℕ}
      → pattern_length (c ∷ text) ≡ 0
      → erase pattern_length 0 text ≡ rest
      → erase pattern_length 0 (c ∷ text) ≡ c ∷ rest
  unfolding erase
  erase_kept c h e = rw (h, erase, e) refl

  erase_skipped :
      (taken text : List ℕ)
      → erase pattern_length (length taken) (taken ++ text) ≡ erase pattern_length 0 text
  unfolding erase
  erase_skipped [] text = refl
  erase_skipped (c ∷ taken) text = erase_skipped taken text

  pub erase_match :
      (c : ℕ) (taken text : List ℕ)
      → pattern_length (c ∷ taken ++ text) ≡ suc (length taken)
      → erase pattern_length 0 (c ∷ taken ++ text) ≡ erase pattern_length 0 text
  unfolding erase
  erase_match c taken text h = rw (h, erase) (erase_skipped taken text)

bell_length-first :
    (body text : List ℕ)
    → all (λ c. not (c == 7)) body ≡ true
    → bell_length (body ++ 7 ∷ text) ≡ some (suc (length body))
unfolding bell_length
bell_length-first [] text h = refl
bell_length-first (c ∷ body) text h = ground (arith, h, bell_length-first body text)

command_length-none :
    (c d : ℕ) (text : List ℕ) → (c == 27 && d == 93) ≡ false → command_length (c ∷ d ∷ text) ≡ 0
unfolding command_length
command_length-none c d text h = rw h refl

command_length-other : (c : ℕ) (text : List ℕ) → (c == 27) ≡ false → command_length (c ∷ text) ≡ 0
unfolding command_length
command_length-other c [] h = refl
command_length-other c (d ∷ text) h = rw h refl

pub sequence_length-other :
    (c : ℕ) (text : List ℕ) → (c == 27) ≡ false → sequence_length (c ∷ text) ≡ 0
unfolding sequence_length
sequence_length-other c [] h = refl
sequence_length-other c (d ∷ text) h = rw h refl

command_length-command :
    (body text : List ℕ)
    → all (λ c. not (c == 7)) body ≡ true
    → command_length (27 ∷ 93 ∷ (body ++ 7 ∷ []) ++ text) ≡ suc (length (93 ∷ body ++ 7 ∷ []))
unfolding command_length command_end
command_length-command body text h =
    rw (append_assoc body (7 ∷ []) text, bell_length-first body text h)
      (omega (arith, length-append body (7 ∷ [])))

-- A run of characters that no match starts at.
erase-run :
    (pattern_length : List ℕ → ℕ) (p : ℕ → Bool) (run text rest : List ℕ)
    → ((c : ℕ) (t : List ℕ) → p c ≡ true → pattern_length (c ∷ t) ≡ 0)
    → all p run ≡ true
    → erase pattern_length 0 text ≡ rest
    → erase pattern_length 0 (run ++ text) ≡ run ++ rest
erase-run pattern_length p [] text rest no_start h e = e
erase-run pattern_length p (c ∷ run) text rest no_start h e =
    erase_kept pattern_length c (no_start c (run ++ text) (ground (arith, h)))
      (erase-run pattern_length p run text rest no_start (ground (arith, h)) e)

pub plain-other : (c : ℕ) → is_plain c ≡ true → (c == 27) ≡ false
plain-other c h = ground (arith, h)

parameter-other : (c : ℕ) → within 48 63 c ≡ true → (c == 27) ≡ false
parameter-other c h = ground (arith, h)

intermediate-other : (c : ℕ) → within 32 47 c ≡ true → (c == 27) ≡ false
intermediate-other c h = ground (arith, h)

last-other : (c : ℕ) → within 64 126 c ≡ true → (c == 27) ≡ false
last-other c h = ground (arith, h)

-- The commands go first.
pub erase-sent :
    (ps : List Piece) → All IsWellFormed ps → erase command_length 0 (sent ps) ≡ uncommanded ps
unfolding erase
erase-sent [] h = refl
erase-sent (printed c ∷ ps) h =
    erase_kept command_length c (command_length-other c (sent ps) (plain-other c h.0))
      (erase-sent ps h.1)
erase-sent (line_break ∷ ps) h =
    erase_kept command_length 13 (command_length-other 13 (10 ∷ sent ps) refl)
      (erase_kept command_length 10 (command_length-other 10 (sent ps) refl) (erase-sent ps h.1))
erase-sent (sequence parameters intermediates last ∷ ps) ((hp, hi, hl), h) =
    let rest = intermediates ++ last ∷ sent ps in
    erase_kept command_length 27 (command_length-none 27 91 (parameters ++ rest) refl) (
      erase_kept command_length 91 (command_length-other 91 (parameters ++ rest) refl) (
        erase-run command_length (within 48 63) parameters _ _
          (λ c r k. command_length-other c r (parameter-other c k)) hp
          (erase-run command_length (within 32 47) intermediates _ _
            (λ c r k. command_length-other c r (intermediate-other c k)) hi
            (erase_kept command_length last
              (command_length-other last (sent ps) (last-other last hl)) (erase-sent ps h)))))
erase-sent (command body ∷ ps) h =
    ap (λ l. erase command_length 0 (27 ∷ 93 ∷ l)) (sym (append_assoc body (7 ∷ []) (sent ps)))
    ∙ erase_match command_length 27 (93 ∷ body ++ 7 ∷ []) (sent ps)
        (command_length-command body (sent ps) h.0)
    ∙ erase-sent ps h.1
