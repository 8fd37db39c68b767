-- ===== src/Mobile/TerminalTests.antt =====
-- Runs of the two terminal views and of the palette.
use cucoudle.Prelude.{ℕ, ◌≡◌, refl, true, none, some, List, [], ◌∷◌, ◌++◌, all}
use cucoudle.Prelude.Dict.{get, is_inherited}
use cucoudle.Mobile.PlainTerminal.{
  plain_terminal_text, bell_length, is_terminator, terminator_length, is_control, command_length,
  command_end, sequence_length, sequence_end, run_length, behind, starts_in, erase, unify_newlines,
}
use cucoudle.Mobile.PlainTerminal.Sent.{
  is_plain, Piece, printed, line_break, sequence, command, sent,
}
use cucoudle.Mobile.PlainTerminal.Pieces.{plain_terminal_text-sent}
use cucoudle.Mobile.PlainTerminal.Plain.{plain_terminal_text_again}
use cucoudle.Mobile.Palette.{color_text, inherited, ansi_color, is_hex, is_hex_text, is_hex_color}

-- The title of a window, a red "ok", and a new line.
abbrev prompt : List Piece
prompt =
    command (48 ∷ 59 ∷ 116 ∷ [])
    ∷ sequence (51 ∷ 49 ∷ []) [] 109
    ∷ printed 111
    ∷ printed 107
    ∷ sequence [] (32 ∷ []) 113
    ∷ line_break
    ∷ []

plain_terminal_text-sent_example : plain_terminal_text (sent prompt) ≡ 111 ∷ 107 ∷ 10 ∷ []
unfolding is_control
plain_terminal_text-sent_example =
    plain_terminal_text-sent prompt
      (refl, ((refl, refl, refl), (refl, (refl, ((refl, refl, refl), (tt, tt))))))

abbrev mixed : List ℕ
mixed = 27 ∷ 91 ∷ 51 ∷ 109 ∷ 97 ∷ 7 ∷ 13 ∷ 98 ∷ 27 ∷ 99 ∷ []

plain_terminal_text_again_example :
    (all is_plain (plain_terminal_text mixed) ≡ true)
    × (plain_terminal_text (plain_terminal_text mixed) ≡ plain_terminal_text mixed)
plain_terminal_text_again_example = plain_terminal_text_again mixed

-- A hyperlink: its address, the "ab" that it shows, and its end.
abbrev hyperlink : List ℕ
hyperlink = 56 ∷ 59 ∷ 59 ∷ 117 ∷ 27 ∷ 92 ∷ 97 ∷ 98 ∷ 27 ∷ 93 ∷ 56 ∷ 59 ∷ 59 ∷ []

shown_mixed : plain_terminal_text mixed ≡ 97 ∷ 10 ∷ 98 ∷ 99 ∷ []
unfolding plain_terminal_text command_length command_end bell_length terminator_length is_terminator
    sequence_length sequence_end run_length behind starts_in erase unify_newlines is_control
shown_mixed = refl

hex_color : ansi_color (λ s. s) (some "39c5CF") none ≡ some (color_text "#39c5CF")
unfolding ansi_color is_inherited is_hex is_hex_text is_hex_color get
hex_color = refl

-- NAMED answers the function Object for the name "constructor".
inherited_color : ansi_color (λ s. s) (some "constructor") none ≡ some (inherited "constructor")
unfolding ansi_color is_inherited get
inherited_color = refl

-- The text of a hyperlink is lost: of the link and a "c" behind it, the "c" is shown.
hyperlink_run : plain_terminal_text (27 ∷ 93 ∷ hyperlink ++ 27 ∷ 92 ∷ 99 ∷ []) ≡ 99 ∷ []
unfolding plain_terminal_text command_length command_end bell_length terminator_length is_terminator
    sequence_length sequence_end run_length behind starts_in erase unify_newlines is_control
hyperlink_run = refl
