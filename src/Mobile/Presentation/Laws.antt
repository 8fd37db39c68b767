-- ===== src/Mobile/Presentation/Laws.antt =====
-- That the rows lose no cell, repeat no blank row, and do not depend on the cache.
use cucoudle.Prelude.{
  append_nil, append_assoc, ℕ, ◌≡◌, refl, sym, ap, ◌∙◌, String, Bool, true, false, ◌&&◌, Option,
  none, some, List, [], ◌∷◌, ◌++◌, map, All, arith, eq_iff, Bool-cases, Option-cases, inl, inr,
}
use cucoudle.Mobile.Presentation.{
  StyledRun, RunStyle, Cell, run_style, same_text, same_flag, same_style,
}
use cucoudle.Mobile.Presentation.Rows.{
  new_run, push_cell, push_cells, cells_to_runs, RowKey, Presented, PresentedTerminalRow, present,
  is_blank, ends_blank, LineCache, cached, LineBuffer, present_line, row_source, push_row,
  push_rows, terminal_rows,
}

-- The cells of runs, as they stand.
unfoldable pub cells_of : List StyledRun → List Cell
unfolding run_style
cells_of [] = []
cells_of (run ∷ runs) =
    map (λ (v : ℕ). record { value = v; style = run_style run }) run.t ++ cells_of runs

same_text-equal : (s t : Option String) → same_text s t ≡ true → s ≡ t
unfolding same_text
same_text-equal none none h = refl
same_text-equal (some s) (some t) h = ground (arith, h, eq_iff s t)
same_text-equal none (some t) h = absurd (ground arith)
same_text-equal (some s) none h = absurd (ground arith)

same_flag-equal : (a b : Bool) → same_flag a b ≡ true → a ≡ b
unfolding same_flag
same_flag-equal true b h = sym h
same_flag-equal false true h = absurd (ground arith)
same_flag-equal false false h = refl

and_all :
    (a b c d e f : Bool)
    → (a && b && c && d && e && f) ≡ true
    → (a ≡ true) × (b ≡ true) × (c ≡ true) × (d ≡ true) × (e ≡ true) × (f ≡ true)
and_all a b c d e f h = (
  ground (arith, h),
  ground (arith, h),
  ground (arith, h),
  ground (arith, h),
  ground (arith, h),
  ground (arith, h),
)

same_style-equal : (l r : RunStyle) → same_style l r ≡ true → l ≡ r
unfolding same_style
same_style-equal l r h =
    let (fg, bg, b, i, u, d) =
      and_all (same_text l.fg r.fg) (same_text l.bg r.bg) (same_flag l.b r.b) (same_flag l.i r.i)
        (same_flag l.u r.u) (same_flag l.d r.d) h in
    ground (
      arith,
      same_text-equal l.fg r.fg fg,
      same_text-equal l.bg r.bg bg,
      same_flag-equal l.b r.b b,
      same_flag-equal l.i r.i i,
      same_flag-equal l.u r.u u,
      same_flag-equal l.d r.d d,
    )

abbrev styled : RunStyle → ℕ → Cell
styled style v = record { value = v; style = style }

map-styled_last :
    (style : RunStyle) (values : List ℕ) (cell : Cell)
    → style ≡ cell.style
    → map (styled style) (values ++ cell.value ∷ []) ≡ map (styled style) values ++ cell ∷ []
map-styled_last style [] cell h = ground (arith, h)
map-styled_last style (v ∷ values) cell h =
    ap (λ l. styled style v ∷ l) (map-styled_last style values cell h)

push_cell-cells_of :
    (runs : List StyledRun) (cell : Cell)
    → cells_of (push_cell runs cell) ≡ cells_of runs ++ cell ∷ []
unfolding cells_of push_cell new_run
push_cell-cells_of [] cell = refl
push_cell-cells_of (previous ∷ []) cell =
    elim (Bool-cases (same_style (run_style previous) cell.style)) [
      | inl e ↦
          rw (e, push_cell)
            (append_nil _
              ∙ map-styled_last (run_style previous) previous.t cell
                  (same_style-equal (run_style previous) cell.style e)
              ∙ ap (λ l. l ++ cell ∷ []) (sym (append_nil _)))
      | inr e ↦ rw (e, push_cell) (ap (λ l. l ++ cell ∷ []) (sym (append_nil _)))
    ]
push_cell-cells_of (run ∷ next ∷ runs) cell =
    ap (λ l. map (styled (run_style run)) run.t ++ l) (push_cell-cells_of (next ∷ runs) cell)
    ∙ sym (append_assoc (map (styled (run_style run)) run.t) _ (cell ∷ []))

push_cells-cells_of :
    (runs : List StyledRun) (cells : List Cell)
    → cells_of (push_cells runs cells) ≡ cells_of runs ++ cells
unfolding push_cells
push_cells-cells_of runs [] = sym (append_nil _)
push_cells-cells_of runs (cell ∷ cells) =
    push_cells-cells_of (push_cell runs cell) cells
    ∙ ap (λ l. l ++ cells) (push_cell-cells_of runs cell)
    ∙ append_assoc (cells_of runs) (cell ∷ []) cells

-- Two runs that stand side by side differ in their style.
unfoldable pub IsMerged : List StyledRun → Type 0
unfolding same_style run_style
IsMerged [] = Unit
IsMerged (run ∷ []) = Unit
IsMerged (run ∷ next ∷ runs) =
    (same_style (run_style run) (run_style next) ≡ false) × IsMerged (next ∷ runs)

push_cell-IsMerged :
    (runs : List StyledRun) (cell : Cell) → IsMerged runs → IsMerged (push_cell runs cell)
unfolding IsMerged push_cell new_run
push_cell-IsMerged [] cell h = tt
push_cell-IsMerged (previous ∷ []) cell h =
    elim (Bool-cases (same_style (run_style previous) cell.style)) [
      | inl e ↦ rw (e, push_cell) tt
      | inr e ↦ rw (e, push_cell) (e, tt)
    ]
push_cell-IsMerged (run ∷ previous ∷ []) cell h =
    elim (Bool-cases (same_style (run_style previous) cell.style)) [
      | inl e ↦ rw (e, push_cell) (h.0, tt)
      | inr e ↦ rw (e, push_cell) (h.0, (e, tt))
    ]
push_cell-IsMerged (run ∷ next ∷ more ∷ runs) cell h =
    (h.0, push_cell-IsMerged (next ∷ more ∷ runs) cell h.1)

push_cells-IsMerged :
    (runs : List StyledRun) (cells : List Cell) → IsMerged runs → IsMerged (push_cells runs cells)
unfolding push_cells
push_cells-IsMerged runs [] h = h
push_cells-IsMerged runs (cell ∷ cells) h =
    push_cells-IsMerged (push_cell runs cell) cells (push_cell-IsMerged runs cell h)

-- The runs that are made of cells hold these cells, in their order and each with its style, and no
-- run stands beside one of the same style.
pub cells_of-cells_to_runs :
    (cells : List Cell) → (cells_of (cells_to_runs cells) ≡ cells) × IsMerged (cells_to_runs cells)
unfolding cells_to_runs cells_of IsMerged
cells_of-cells_to_runs cells = (push_cells-cells_of [] cells, push_cells-IsMerged [] cells tt)

-- No blank row stands behind a blank row.
abbrev pub IsSpaced : List PresentedTerminalRow → Type 0
IsSpaced [] = Unit
IsSpaced (row ∷ []) = Unit
IsSpaced (row ∷ next ∷ rows) =
    ((is_blank row.kind && is_blank next.kind) ≡ false) × IsSpaced (next ∷ rows)

append-IsSpaced :
    (rows : List PresentedTerminalRow) (row : PresentedTerminalRow)
    → IsSpaced rows
    → (is_blank row.kind && ends_blank rows) ≡ false
    → IsSpaced (rows ++ row ∷ [])
append-IsSpaced [] row s h = tt
append-IsSpaced (last ∷ []) row s h = (ground (arith, h), tt)
append-IsSpaced (first ∷ next ∷ rows) row s h = (s.0, append-IsSpaced (next ∷ rows) row s.1 h)

push_row-IsSpaced :
    (rows : List PresentedTerminalRow) (key : RowKey) (presented : Presented)
    → IsSpaced rows
    → IsSpaced (push_row rows key presented)
unfolding push_row
push_row-IsSpaced rows key presented s =
    elim (Bool-cases (is_blank presented.kind && ends_blank rows)) [
      | inl e ↦ rw (e, push_row) s
      | inr e ↦ rw (e, push_row) (append-IsSpaced rows _ s e)
    ]

module _ (text_of : ℕ → List StyledRun) where
  push_rows-IsSpaced :
      (cache : LineCache) (rows : List PresentedTerminalRow) (items : List (RowKey × ℕ))
      → IsSpaced rows
      → IsSpaced (push_rows text_of cache rows items).0
  unfolding push_rows
  push_rows-IsSpaced cache rows [] s = s
  push_rows-IsSpaced cache rows ((key, line) ∷ items) s =
      let (presented, next) = present_line text_of cache line in
      push_rows-IsSpaced next (push_row rows key presented) items
        (push_row-IsSpaced rows key presented s)

  -- What the cache holds for a line is what is shown of it.
  abbrev pub IsFaithful : LineCache → Type 0
  IsFaithful = All (λ e. e.1 ≡ present (text_of e.0))

  cached-IsFaithful :
      (cache : LineCache) (line : ℕ) (row : Presented)
      → IsFaithful cache
      → cached cache line ≡ some row
      → row ≡ present (text_of line)
  unfolding cached
  cached-IsFaithful [] line row f h = absurd (ground arith)
  cached-IsFaithful ((key, shown) ∷ cache) line row f h =
      ground (arith, f.0, h, f.1, cached-IsFaithful cache line row)

  present_line-present :
      (cache : LineCache) (line : ℕ)
      → IsFaithful cache
      → ((present_line text_of cache line).0 ≡ present (text_of line))
        × IsFaithful (present_line text_of cache line).1
  unfolding present_line
  present_line-present cache line f = elim (Option-cases (cached cache line)) [
    | inl e ↦ rw (e, present_line) (refl, (refl, f))
    | inr (row, e) ↦ rw (e, present_line) (cached-IsFaithful cache line row f e, f)
  ]

  -- The rows without a cache.
  unfoldable pub uncached_rows :
      List PresentedTerminalRow → List (RowKey × ℕ) → List PresentedTerminalRow
  uncached_rows rows [] = rows
  uncached_rows rows ((key, line) ∷ items) =
      uncached_rows (push_row rows key (present (text_of line))) items

  push_rows-uncached :
      (cache : LineCache) (rows : List PresentedTerminalRow) (items : List (RowKey × ℕ))
      → IsFaithful cache
      → ((push_rows text_of cache rows items).0 ≡ uncached_rows rows items)
        × IsFaithful (push_rows text_of cache rows items).1
  unfolding push_rows uncached_rows
  push_rows-uncached cache rows [] f = (refl, f)
  push_rows-uncached cache rows ((key, line) ∷ items) f =
      let (e, g) = present_line-present cache line f in
      let (s, k) =
        push_rows-uncached (present_line text_of cache line).1
          (push_row rows key (present_line text_of cache line).0) items g in
      (s ∙ ap (λ p. uncached_rows (push_row rows key p) items) e, k)

-- Where the cache holds for each line what is shown of this line, the rows of a buffer are those that
-- are computed without a cache, and the cache afterwards is again of this kind.
pub terminal_rows-uncached :
    (text_of : ℕ → List StyledRun) (cache : LineCache) (buffer : LineBuffer)
    → IsFaithful text_of cache
    → ((terminal_rows text_of cache buffer).0
        ≡ uncached_rows text_of [] (row_source text_of buffer))
      × IsFaithful text_of (terminal_rows text_of cache buffer).1
unfolding terminal_rows
terminal_rows-uncached text_of cache buffer f =
    push_rows-uncached text_of cache [] (row_source text_of buffer) f

-- Of the rows of a buffer no two that stand side by side are blank.
pub terminal_rows-IsSpaced :
    (text_of : ℕ → List StyledRun) (cache : LineCache) (buffer : LineBuffer)
    → IsSpaced (terminal_rows text_of cache buffer).0
unfolding terminal_rows
terminal_rows-IsSpaced text_of cache buffer =
    push_rows-IsSpaced text_of cache [] (row_source text_of buffer) tt
