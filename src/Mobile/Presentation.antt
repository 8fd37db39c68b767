-- ===== src/Mobile/Presentation.antt =====
-- apps/mobile/src/features/session/terminalPresentation.ts. A text is the list of its code points,
-- which `Array.from` and a pattern with the flag `u` run over.
pub mod Rows
pub mod Laws
pub mod Gaps
pub mod Compact
pub mod Width
use cucoudle.Prelude.{
  ℕ, zero, suc, ◌+◌, ◌-◌, ◌*◌, String, Bool, true, false, not, ◌||◌, ◌&&◌, Option, none, some, List,
  [], ◌∷◌, ◌++◌, map, filter, any, all, take, drop, length, ltb, leb, ◌==◌, str_eq, if◌then◌else◌,
}
use cucoudle.Prelude.Sorting.{at}
use cucoudle.Prelude.Texts.{within}

-- StyledRun of packages/protocol/src/terminalRender.ts; a style that is `true` or missing is a Bool.
pub record StyledRun : Type 0 where
  pub t : List ℕ
  pub fg : Option String
  pub bg : Option String
  pub b : Bool
  pub i : Bool
  pub u : Bool
  pub d : Bool

pub record RunStyle : Type 0 where
  pub fg : Option String
  pub bg : Option String
  pub b : Bool
  pub i : Bool
  pub u : Bool
  pub d : Bool

pub record Cell : Type 0 where
  pub value : ℕ
  pub style : RunStyle

abbrev pub max_reading_indent : ℕ
max_reading_indent = 4

abbrev pub positional_gap : ℕ
positional_gap = 4

-- RULE_PATTERN
unfoldable pub is_rule : List ℕ → Bool
is_rule text =
    leb 6 (length text)
    && all
        (λ c.
          any (λ r. r == c)
            (9472 ∷ 9473 ∷ 9552 ∷ 9548 ∷ 9549 ∷ 9476 ∷ 9477 ∷ 8212 ∷ 95 ∷ 61 ∷ 45 ∷ []))
        text

-- A character of INVISIBLE_PATTERN.
unfoldable pub is_invisible : ℕ → Bool
is_invisible c =
    within 0 8 c
    || within 11 12 c
    || within 14 31 c
    || c == 127
    || within 8203 8205 c
    || c == 8288
    || c == 65_279

unfoldable pub run_style : StyledRun → RunStyle
run_style run = record { fg = run.fg; bg = run.bg; b = run.b; i = run.i; u = run.u; d = run.d }

-- left === right
unfoldable pub same_text : Option String → Option String → Bool
same_text none none = true
same_text (some s) (some t) = str_eq s t
same_text _ _ = false

unfoldable pub same_flag : Bool → Bool → Bool
same_flag true b = b
same_flag false b = not b

unfoldable pub same_style : RunStyle → RunStyle → Bool
unfolding same_text same_flag
same_style left right =
    same_text left.fg right.fg
    && same_text left.bg right.bg
    && same_flag left.b right.b
    && same_flag left.i right.i
    && same_flag left.u right.u
    && same_flag left.d right.d

-- value.replace(/\t/gu, "  ")
unfoldable pub replace_tabs : List ℕ → List ℕ
replace_tabs [] = []
replace_tabs (c ∷ text) = (if c == 9 then 32 ∷ 32 ∷ [] else c ∷ []) ++ replace_tabs text

unfoldable pub clean_text : List ℕ → List ℕ
unfolding replace_tabs is_invisible
clean_text value =
    filter (λ c. not (is_invisible c)) (replace_tabs (map (λ c. if c == 160 then 32 else c) value))

unfoldable pub line_cells : List StyledRun → List Cell
unfolding run_style clean_text
line_cells [] = []
line_cells (run ∷ line) =
    map (λ (v : ℕ). record { value = v; style = run_style run }) (clean_text run.t)
    ++ line_cells line

-- cell?.value === " "
abbrev pub is_space : Option Cell → Bool
is_space none = false
is_space (some cell) = cell.value == 32

-- while (cells.at(-1)?.value === " ") cells.pop();
unfoldable pub pop_spaces : List Cell → List Cell
pop_spaces [] = []
pop_spaces (cell ∷ cells) = elim (pop_spaces cells) [
  | [] ↦ if is_space (some cell) then [] else cell ∷ []
  | c ∷ cs ↦ cell ∷ c ∷ cs
]

-- while (cells[end]?.value === " ") end += 1;
unfoldable pub end_of_spaces : ℕ → List Cell → ℕ → ℕ
unfolding at
end_of_spaces zero cells end = end
end_of_spaces (suc fuel) cells end =
    let rest = end_of_spaces fuel cells (suc end) in if is_space (at end cells) then rest else end

-- cells.slice(index, end)
abbrev pub slice : ℕ → ℕ → List Cell → List Cell
slice index end cells = take (end - index) (drop index cells)

-- One turn of the loop at `cell`, which is cells[index]: the next index, and what is pushed.
unfoldable pub turn : List Cell → ℕ → Cell → ℕ × List Cell
unfolding end_of_spaces
turn cells index cell =
    let end = end_of_spaces (length cells) cells index in
    let positional = ltb 0 index && ltb end (length cells) && leb positional_gap (end - index) in
    if is_space (some cell)
    then (end, if positional then cell ∷ [] else slice index end cells)
    else (suc index, cell ∷ [])

unfoldable pub compact_loop : ℕ → List Cell → ℕ → List Cell → List Cell
unfolding at turn
compact_loop zero cells index compacted = compacted
compact_loop (suc fuel) cells index compacted = elim (at index cells) [
  | none ↦ compacted
  | some cell ↦
      let (next, pushed) = turn cells index cell in
      compact_loop fuel cells next (compacted ++ pushed)
]

-- The indent cut to what is kept: cells.splice(0, leading - MAX_READING_INDENT)
unfoldable pub cut_indent : List Cell → List Cell
unfolding end_of_spaces
cut_indent cells =
    let leading = end_of_spaces (length cells) cells 0 in
    if ltb max_reading_indent leading then drop (leading - max_reading_indent) cells else cells

unfoldable pub compact_cells : List Cell → List Cell
unfolding pop_spaces cut_indent compact_loop
compact_cells cells =
    let kept = cut_indent (pop_spaces cells) in compact_loop (length kept) kept 0 []
