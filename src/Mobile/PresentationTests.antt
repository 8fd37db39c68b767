-- ===== src/Mobile/PresentationTests.antt =====
-- Runs of the terminal's presentation.
use cucoudle.Prelude.{ℕ, ◌≡◌, refl, true, false, none, some, List, [], ◌∷◌, if◌then◌else◌, ◌==◌}
use cucoudle.Mobile.Presentation.{
  StyledRun, RunStyle, Cell, compact_cells, pop_spaces, cut_indent, clean_text,
}
use cucoudle.Mobile.Presentation.Rows.{
  text, blank, RowKey, history_key, screen_key, PresentedTerminalRow, LineBuffer, cells_to_runs,
  terminal_rows, row_source, present, exact_terminal_rows,
}
use cucoudle.Mobile.Presentation.Laws.{
  cells_of, IsMerged, cells_of-cells_to_runs, IsSpaced, IsFaithful, uncached_rows,
  terminal_rows-uncached, terminal_rows-IsSpaced,
}
use cucoudle.Mobile.Presentation.Compact.{compact_cells-narrow}
use cucoudle.Mobile.Presentation.Gaps.{narrow}

abbrev plain : RunStyle
plain = record { fg = none; bg = none; b = false; i = false; u = false; d = false }

abbrev bold : RunStyle
bold = record { fg = some "red"; bg = none; b = true; i = false; u = false; d = false }

abbrev cell : RunStyle → ℕ → Cell
cell style v = record { value = v; style = style }

abbrev run : List ℕ → StyledRun
run t = record { t = t; fg = none; bg = none; b = false; i = false; u = false; d = false }

-- "a", six spaces, "b" and a space
abbrev gapped : List Cell
gapped =
    cell plain 97
    ∷ cell plain 32
    ∷ cell plain 32
    ∷ cell plain 32
    ∷ cell plain 32
    ∷ cell plain 32
    ∷ cell plain 32
    ∷ cell bold 98
    ∷ cell plain 32
    ∷ []

compact_run : compact_cells gapped ≡ cell plain 97 ∷ cell plain 32 ∷ cell bold 98 ∷ []
unfolding compact_cells
compact_run = refl

clean_run : clean_text (97 ∷ 160 ∷ 9 ∷ 8203 ∷ 98 ∷ []) ≡ 97 ∷ 32 ∷ 32 ∷ 32 ∷ 98 ∷ []
unfolding clean_text
clean_run = refl

compact_cells-narrow_example :
    compact_cells gapped ≡ narrow false [] (cut_indent (pop_spaces gapped))
compact_cells-narrow_example = compact_cells-narrow gapped

cells_of-cells_to_runs_example :
    (cells_of (cells_to_runs gapped) ≡ gapped) × IsMerged (cells_to_runs gapped)
cells_of-cells_to_runs_example = cells_of-cells_to_runs gapped

-- The line 0 says "hi"; all others are empty.
abbrev text_of : ℕ → List StyledRun
text_of line = if line == 0 then run (104 ∷ 105 ∷ []) ∷ [] else []

abbrev buffer : LineBuffer
buffer = record { history = 1 ∷ 2 ∷ 0 ∷ []; screen = 0 ∷ 3 ∷ [] }

abbrev hi : RowKey → PresentedTerminalRow
hi key = record { key = key; kind = text; line = text_of 0 }

rows_run :
    (terminal_rows text_of [] buffer).0
    ≡ record { key = history_key 0; kind = blank; line = [] }
      ∷ hi (history_key 2)
      ∷ hi (screen_key 0)
      ∷ []
unfolding terminal_rows
rows_run = refl

exact_run :
    exact_terminal_rows text_of (record { history = 1 ∷ []; screen = 0 ∷ 3 ∷ [] })
    ≡ record { key = history_key 0; kind = blank; line = [] } ∷ hi (screen_key 0) ∷ []
unfolding exact_terminal_rows
exact_run = refl

terminal_rows-uncached_example :
    ((terminal_rows text_of ((0, present (text_of 0)) ∷ []) buffer).0
      ≡ uncached_rows text_of [] (row_source text_of buffer))
    × IsFaithful text_of (terminal_rows text_of ((0, present (text_of 0)) ∷ []) buffer).1
terminal_rows-uncached_example =
    terminal_rows-uncached text_of ((0, present (text_of 0)) ∷ []) buffer (refl, tt)

terminal_rows-IsSpaced_example : IsSpaced (terminal_rows text_of [] buffer).0
terminal_rows-IsSpaced_example = terminal_rows-IsSpaced text_of [] buffer
