-- ===== src/Mobile/PlainTerminal.antt =====
-- apps/mobile/src/features/session/PlainTerminal.tsx. A text is the list of its UTF-16 code units; each
-- pattern gives the length of its match at the start of a text, 0 where there is none.
pub mod Sent
pub mod Pieces
pub mod Plain
use cucoudle.Prelude.{
  ℕ, zero, suc, ◌+◌, ◌-◌, Bool, true, false, not, ◌||◌, ◌&&◌, Option, none, some, List, [], ◌∷◌,
  filter, leb, ◌==◌, if◌then◌else◌,
}
use cucoudle.Prelude.Texts.{within}

abbrev pub end_threshold : ℕ
end_threshold = 80

-- contentHeight - viewportHeight - offsetY <= END_THRESHOLD; the difference may be negative.
unfoldable pub is_near_terminal_end : ℕ → ℕ → ℕ → Bool
is_near_terminal_end content_height viewport_height offset_y =
    leb content_height (end_threshold + viewport_height + offset_y)

-- The length of a text up to its first \u0007, with it.
unfoldable pub bell_length : List ℕ → Option ℕ
bell_length [] = none
bell_length (c ∷ text) =
    let rest = bell_length text in
    if c == 7 then some 1 else elim rest [ none ↦ none | some n ↦ some (suc n) ]

-- The text starts with \u001b\\.
unfoldable pub is_terminator : List ℕ → Bool
is_terminator (a ∷ b ∷ text) = a == 27 && b == 92
is_terminator _ = false

-- The length of a text up to its last \u001b\\, with it.
unfoldable pub terminator_length : List ℕ → Option ℕ
unfolding is_terminator
terminator_length [] = none
terminator_length (c ∷ text) = elim (terminator_length text) [
  | some n ↦ some (suc n)
  | none ↦ if is_terminator (c ∷ text) then some 2 else none
]

-- [^\u0007]*(?:\u0007|\u001b\\): the run is as long as it can be, so it ends before the first
-- \u0007; where there is none it goes back to the last \u001b\\.
unfoldable pub command_end : List ℕ → Option ℕ
unfolding bell_length terminator_length
command_end text = elim (bell_length text) [ some n ↦ some n | none ↦ terminator_length text ]

-- \u001b\][^\u0007]*(?:\u0007|\u001b\\)
unfoldable pub command_length : List ℕ → ℕ
unfolding command_end
command_length (a ∷ b ∷ text) =
    if a == 27 && b == 93 then elim (command_end text) [ none ↦ 0 | some n ↦ 2 + n ] else 0
command_length _ = 0

-- The length of the longest run of characters of a class, and the text behind it.
unfoldable pub run_length : (ℕ → Bool) → List ℕ → ℕ
run_length p [] = 0
run_length p (c ∷ text) = let rest = run_length p text in if p c then suc rest else 0

unfoldable pub behind : (ℕ → Bool) → List ℕ → List ℕ
behind p [] = []
behind p (c ∷ text) = let rest = behind p text in if p c then rest else c ∷ text

unfoldable pub starts_in : (ℕ → Bool) → List ℕ → Bool
starts_in p [] = false
starts_in p (c ∷ text) = p c

-- \[[0-?]*[ -/]*[@-~], behind its bracket. The classes have no character in common, so that a shorter
-- run is followed by none of the next class.
unfoldable pub sequence_end : List ℕ → Option ℕ
unfolding run_length behind starts_in
sequence_end text =
    let parameters = run_length (within 48 63) text in
    let text2 = behind (within 48 63) text in
    let intermediates = run_length (within 32 47) text2 in
    if starts_in (within 64 126) (behind (within 32 47) text2)
    then some (suc (parameters + intermediates))
    else none

-- \u001b(?:\[[0-?]*[ -/]*[@-~]|[@-_])
unfoldable pub sequence_length : List ℕ → ℕ
unfolding sequence_end
sequence_length (a ∷ b ∷ text) =
    if not (a == 27) then 0 else elim (if b == 91 then sequence_end text else none) [
      | some n ↦ 2 + n
      | none ↦ if within 64 95 b then 2 else 0
    ]
sequence_length _ = 0

-- text.replace(pattern, ""), with this many characters left of the match that is being taken out.
unfoldable pub erase : (List ℕ → ℕ) → ℕ → List ℕ → List ℕ
erase pattern skipped [] = []
erase pattern (suc n) (c ∷ text) = erase pattern n text
erase pattern zero (c ∷ text) = elim (pattern (c ∷ text)) [
  | zero ↦ c ∷ erase pattern 0 text
  | suc n ↦ erase pattern n text
]

-- text.replace(/\r\n?/g, "\n"); `after` tells that a \r stood before.
unfoldable pub unify_newlines : Bool → List ℕ → List ℕ
unify_newlines after [] = []
unify_newlines after (c ∷ text) =
    let rest = unify_newlines (c == 13) text in
    if c == 13 then 10 ∷ rest else if after && c == 10 then rest else c ∷ rest

-- [\u0000-\u0008\u000b\u000c\u000e-\u001f\u007f]
unfoldable pub is_control : ℕ → Bool
is_control c = within 0 8 c || within 11 12 c || within 14 31 c || c == 127

unfoldable pub plain_terminal_text : List ℕ → List ℕ
unfolding command_length sequence_length erase unify_newlines is_control
plain_terminal_text value =
    filter (λ c. not (is_control c))
      (unify_newlines false (erase sequence_length 0 (erase command_length 0 value)))
