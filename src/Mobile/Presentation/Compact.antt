-- ===== src/Mobile/Presentation/Compact.antt =====
-- The loop of compactCells over an index against a recursion over the cells.
use cucoudle.Prelude.{
  append_assoc, ℕ, zero, suc, ◌+◌, ◌≤◌, ◌≡◌, refl, sym, ap, ◌∙◌, true, false, some, List, [], ◌∷◌,
  ◌++◌, drop, length, length-drop, arith, ltb, Bool-cases, Option-cases, inl, inr,
}
use cucoudle.Prelude.Sorting.{at}
use cucoudle.Mobile.Presentation.{
  Cell, is_space, pop_spaces, turn, compact_loop, cut_indent, compact_cells,
}
use cucoudle.Mobile.Presentation.Gaps.{
  leading, following, drop-leading, drop_more, drop-at, drop-at_none, leading-space, pushed,
  turn-space, empty_of, at_end, narrow-turn, narrow-other, narrow,
}

compact_loop-turn :
    (fuel : ℕ) (cells : List Cell) (i : ℕ) (compacted : List Cell) (cell : Cell)
    → at i cells ≡ some cell
    → compact_loop (suc fuel) cells i compacted
      ≡ compact_loop fuel cells (turn cells i cell).0 (compacted ++ (turn cells i cell).1)
unfolding compact_loop
compact_loop-turn fuel cells i compacted cell e = rw (e, compact_loop) refl

turn-other :
    (cells : List Cell) (i : ℕ) (cell : Cell)
    → is_space (some cell) ≡ false
    → turn cells i cell ≡ (suc i, cell ∷ [])
unfolding turn
turn-other cells i cell s = rw (s, turn) refl

-- What is left after a turn that goes on at `next`, by the loop's law at `next`.
after_turn :
    (fuel : ℕ) (cells : List Cell) (i next : ℕ) (compacted added : List Cell) (cell : Cell)
    → turn cells i cell ≡ (next, added)
    → ltb 0 next ≡ true
    → compact_loop fuel cells next (compacted ++ added)
      ≡ (compacted ++ added) ++ narrow (ltb 0 next) [] (drop next cells)
    → compact_loop fuel cells (turn cells i cell).0 (compacted ++ (turn cells i cell).1)
      ≡ compacted ++ (added ++ narrow true [] (drop next cells))
after_turn fuel cells i next compacted added cell t l law =
    ap (λ (p : ℕ × List Cell). compact_loop fuel cells p.0 (compacted ++ p.1)) t
    ∙ law
    ∙ ap (λ b. (compacted ++ added) ++ narrow b [] (drop next cells)) l
    ∙ append_assoc compacted added (narrow true [] (drop next cells))

-- The loop from an index on, on enough fuel.
compact_loop-narrow :
    (fuel : ℕ) (cells : List Cell) (i : ℕ) (compacted : List Cell)
    → length (drop i cells) ≤ fuel
    → compact_loop fuel cells i compacted ≡ compacted ++ narrow (ltb 0 i) [] (drop i cells)
unfolding compact_loop
compact_loop-narrow zero cells i compacted h =
    at_end (ltb 0 i) compacted (drop i cells) (empty_of (drop i cells) h)
compact_loop-narrow (suc fuel) cells i compacted h = elim (Option-cases (at i cells)) [
  | inl e ↦
      rw (e, compact_loop) (at_end (ltb 0 i) compacted (drop i cells) (drop-at_none i cells e))
  | inr (cell, e) ↦
      compact_loop-turn fuel cells i compacted cell e ∙ elim (Bool-cases (is_space (some cell))) [
        | inl s ↦
            let run = leading (drop i cells) in
            let next = i + length run in
            let added = pushed (ltb 0 i) run (following (drop i cells)) in
            let wide : suc (length (leading (drop (suc i) cells))) ≡ length run = sym (
              ap (λ (l : List Cell). length (leading l)) (drop-at i cells cell e)
              ∙ ap length (leading-space cell (drop (suc i) cells) s).0) in
            let law =
              compact_loop-narrow fuel cells next (compacted ++ added)
                (omega (arith, h, wide, length-drop i cells, length-drop next cells)) in
            after_turn fuel cells i next compacted added cell (turn-space cells i cell e s)
              (ground (arith, wide)) law
            ∙ ap (λ (l : List Cell). compacted ++ (added ++ narrow true [] l))
                (drop_more i (length run) cells ∙ drop-leading (drop i cells))
            ∙ ap (λ (l : List Cell). compacted ++ l) (narrow-turn (ltb 0 i) (drop i cells))
        | inr s ↦
            let law =
              compact_loop-narrow fuel cells (suc i) (compacted ++ cell ∷ [])
                (omega (arith, h, length-drop i cells, length-drop (suc i) cells)) in
            after_turn fuel cells i (suc i) compacted (cell ∷ []) cell (turn-other cells i cell s)
              (ground arith) law
            ∙ ap (λ (l : List Cell). compacted ++ l)
                (sym (
                  ap (narrow (ltb 0 i) []) (drop-at i cells cell e)
                  ∙ narrow-other (ltb 0 i) cell (drop (suc i) cells) s))
      ]
]

-- The loop over an index gives the kept cells with each wide gap narrowed to one space: those that
-- are left when the spaces at the end are dropped and the indent is cut. Its fuel, one unit for each
-- cell, is enough.
pub compact_cells-narrow :
    (cells : List Cell) → compact_cells cells ≡ narrow false [] (cut_indent (pop_spaces cells))
unfolding compact_cells
compact_cells-narrow cells =
    let kept = cut_indent (pop_spaces cells) in
    compact_loop-narrow (length kept) kept 0 [] (omega arith)
