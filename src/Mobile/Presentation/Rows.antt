-- ===== src/Mobile/Presentation/Rows.antt =====
-- The rows of terminalPresentation.ts, and hasRenderContent of renderBuffer.ts. A line is an object
-- that nothing changes: a number, its identity, for which the cache looks; `text_of` is what it holds.
use cucoudle.Prelude.{
  ℕ, zero, suc, ◌+◌, ◌*◌, Bool, true, false, ◌||◌, ◌&&◌, Option, none, some, List, [], ◌∷◌, ◌++◌,
  any, take, length, ltb, ◌==◌, if◌then◌else◌,
}
use cucoudle.Prelude.Sorting.{at}
use cucoudle.Prelude.Texts.{is_white}
use cucoudle.Mobile.Presentation.{
  StyledRun, Cell, is_rule, run_style, same_style, line_cells, compact_cells,
}

-- { t: cell.value, ...cell.style }
unfoldable pub new_run : Cell → StyledRun
new_run cell = record {
  t = cell.value ∷ [];
  fg = cell.style.fg;
  bg = cell.style.bg;
  b = cell.style.b;
  i = cell.style.i;
  u = cell.style.u;
  d = cell.style.d;
}

-- A turn of the loop of cellsToRuns, after which `runs` is this.
unfoldable pub push_cell : List StyledRun → Cell → List StyledRun
unfolding new_run same_style run_style
push_cell [] cell = new_run cell ∷ []
push_cell (previous ∷ []) cell =
    if same_style (run_style previous) cell.style
    then record previous { t = previous.t ++ cell.value ∷ [] } ∷ []
    else previous ∷ new_run cell ∷ []
push_cell (run ∷ next ∷ runs) cell = run ∷ push_cell (next ∷ runs) cell

unfoldable pub push_cells : List StyledRun → List Cell → List StyledRun
unfolding push_cell
push_cells runs [] = runs
push_cells runs (cell ∷ cells) = push_cells (push_cell runs cell) cells

unfoldable pub cells_to_runs : List Cell → List StyledRun
unfolding push_cells
cells_to_runs cells = push_cells [] cells

pub data RowKind : Type 0 where
  text blank rule : RowKind

-- A PresentedTerminalRow without its key.
pub record Presented : Type 0 where
  pub kind : RowKind
  pub line : List StyledRun

-- The key of the source is "h" or "s" with the index behind it.
pub data RowKey : Type 0 where
  history_key screen_key : ℕ → RowKey

pub record PresentedTerminalRow : Type 0 where
  pub key : RowKey
  pub kind : RowKind
  pub line : List StyledRun

-- normalized.map((run) => run.t).join("")
unfoldable pub joined : List StyledRun → List ℕ
joined [] = []
joined (run ∷ runs) = run.t ++ joined runs

abbrev pub drop_white : List ℕ → List ℕ
drop_white [] = []
drop_white (c ∷ value) = if is_white c then drop_white value else c ∷ value

abbrev pub drop_white_end : List ℕ → List ℕ
drop_white_end [] = []
drop_white_end (c ∷ value) = elim (drop_white_end value) [
  | [] ↦ if is_white c then [] else c ∷ []
  | d ∷ rest ↦ c ∷ d ∷ rest
]

-- text.trim()
abbrev pub trim : List ℕ → List ℕ
trim value = drop_white_end (drop_white value)

-- The body of presentLine behind its cache.
unfoldable pub present : List StyledRun → Presented
unfolding line_cells compact_cells cells_to_runs joined is_rule is_white
present line =
    let normalized = cells_to_runs (compact_cells (line_cells line)) in
    let plain = trim (joined normalized) in
    if length plain == 0
    then record { kind = blank; line = [] }
    else if is_rule plain
    then record { kind = rule; line = normalized }
    else record { kind = text; line = normalized }

abbrev pub is_blank : RowKind → Bool
is_blank blank = true
is_blank _ = false

-- rows.at(-1)?.kind === "blank"
abbrev pub ends_blank : List PresentedTerminalRow → Bool
ends_blank [] = false
ends_blank (row ∷ []) = is_blank row.kind
ends_blank (row ∷ next ∷ rows) = ends_blank (next ∷ rows)

abbrev pub LineCache : Type 0
LineCache = List (ℕ × Presented)

-- lineCache.get(line)
unfoldable pub cached : LineCache → ℕ → Option Presented
cached [] line = none
cached ((key, row) ∷ cache) line =
    let rest = cached cache line in if key == line then some row else rest

pub record LineBuffer : Type 0 where
  pub history : List ℕ
  pub screen : List ℕ

-- A turn of the loop of terminalRows.
unfoldable pub push_row : List PresentedTerminalRow → RowKey → Presented → List PresentedTerminalRow
push_row rows key presented =
    if is_blank presented.kind && ends_blank rows
    then rows
    else rows ++ record { key = key; kind = presented.kind; line = presented.line } ∷ []

module _ (text_of : ℕ → List StyledRun) where
  unfoldable pub present_line : LineCache → ℕ → Presented × LineCache
  unfolding cached present
  present_line cache line = elim (cached cache line) [
    | some row ↦ (row, cache)
    | none ↦ let presented = present (text_of line) in (presented, (line, presented) ∷ cache)
  ]

  -- buffer.screen[index]?.length === 0
  abbrev pub is_empty_at : ℕ → List ℕ → Bool
  is_empty_at index screen = elim (at index screen) [
    | none ↦ false
    | some line ↦ length (text_of line) == 0
  ]

  -- The loop on `lastUsed`, which is one less than the result.
  unfoldable pub used : ℕ → List ℕ → ℕ
  unfolding at
  used zero screen = 0
  used (suc last) screen =
      let rest = used last screen in if is_empty_at last screen then rest else suc last

  -- lines.map((line, index) => ({ key: …, line }))
  unfoldable pub keyed : (ℕ → RowKey) → ℕ → List ℕ → List (RowKey × ℕ)
  keyed key index [] = []
  keyed key index (line ∷ lines) = (key index, line) ∷ keyed key (suc index) lines

  unfoldable pub row_source : LineBuffer → List (RowKey × ℕ)
  unfolding used keyed
  row_source buffer =
      keyed history_key 0 buffer.history
      ++ keyed screen_key 0 (take (used (length buffer.screen) buffer.screen) buffer.screen)

  unfoldable pub push_rows :
      LineCache
      → List PresentedTerminalRow
      → List (RowKey × ℕ)
      → List PresentedTerminalRow × LineCache
  unfolding present_line push_row
  push_rows cache rows [] = (rows, cache)
  push_rows cache rows ((key, line) ∷ items) =
      let (presented, next) = present_line cache line in
      push_rows next (push_row rows key presented) items

  unfoldable pub terminal_rows : LineCache → LineBuffer → List PresentedTerminalRow × LineCache
  unfolding row_source push_rows
  terminal_rows cache buffer = push_rows cache [] (row_source buffer)

  unfoldable pub exact_rows : List (RowKey × ℕ) → List PresentedTerminalRow
  exact_rows [] = []
  exact_rows ((key, line) ∷ items) =
      record {
        key = key;
        kind = if length (text_of line) == 0 then blank else text;
        line = text_of line;
      }
      ∷ exact_rows items

  unfoldable pub exact_terminal_rows : LineBuffer → List PresentedTerminalRow
  unfolding row_source exact_rows
  exact_terminal_rows buffer = exact_rows (row_source buffer)

  unfoldable pub has_render_content : Option LineBuffer → Bool
  has_render_content none = false
  has_render_content (some buffer) =
      ltb 0 (length buffer.history) || any (λ line. ltb 0 (length (text_of line))) buffer.screen

unfoldable pub line_width : List StyledRun → ℕ
line_width [] = 0
line_width (run ∷ line) = length run.t + line_width line

abbrev pub larger : ℕ → ℕ → ℕ
larger m n = if ltb m n then n else m

unfoldable pub widest : ℕ → List PresentedTerminalRow → ℕ
unfolding line_width
widest maximum [] = maximum
widest maximum (row ∷ rows) = widest (larger maximum (line_width row.line)) rows

unfoldable pub terminal_grid_width : List PresentedTerminalRow → ℕ
unfolding widest
terminal_grid_width rows = larger 720 (widest 0 rows * 8 + 2 * 16)
