-- ===== src/Mobile/Presentation/Gaps.antt =====
-- Runs of spaces: what compactCells makes of one, by recursion over the cells.
use cucoudle.Prelude.{
  append_nil, append_assoc, ℕ, zero, suc, ◌+◌, ◌-◌, ◌≤◌, ◌≡◌, refl, sym, ap, ◌∙◌, Bool, true, false,
  ◌&&◌, none, some, List, [], ◌∷◌, ◌++◌, take, drop, length, length-drop, arith, ltb, leb,
  if◌then◌else◌, Bool-cases, Option-cases, inl, inr,
}
use cucoudle.Prelude.Sorting.{at}
use cucoudle.Mobile.Presentation.{Cell, positional_gap, is_space, end_of_spaces, turn}

-- A run of spaces between other cells: a gap that is wide stands for a position, and is one space.
unfoldable pub gap : Bool → List Cell → List Cell
gap started run = if started && leb positional_gap (length run) then take 1 run else run

-- The cells with each wide gap narrowed; `started` says whether a cell came before the run of spaces
-- `run`. Spaces at the start or at the end are no gap.
unfoldable pub narrow : Bool → List Cell → List Cell → List Cell
unfolding gap
narrow started run [] = run
narrow started run (cell ∷ cells) =
    let longer = narrow started (run ++ cell ∷ []) cells in
    let closed = gap started run ++ cell ∷ narrow true [] cells in
    if is_space (some cell) then longer else closed

-- The spaces at the start, and what follows them.
abbrev pub leading : List Cell → List Cell
leading [] = []
leading (cell ∷ cells) = if is_space (some cell) then cell ∷ leading cells else []

abbrev pub following : List Cell → List Cell
following [] = []
following (cell ∷ cells) = if is_space (some cell) then following cells else cell ∷ cells

take-leading : (xs : List Cell) → take (length (leading xs)) xs ≡ leading xs
take-leading [] = refl
take-leading (x ∷ xs) = elim (Bool-cases (is_space (some x))) [
  | inl e ↦ rw e (ap (λ l. x ∷ l) (take-leading xs))
  | inr e ↦ rw e refl
]

pub drop-leading : (xs : List Cell) → drop (length (leading xs)) xs ≡ following xs
drop-leading [] = refl
drop-leading (x ∷ xs) = elim (Bool-cases (is_space (some x))) [
  | inl e ↦ rw e (drop-leading xs)
  | inr e ↦ rw e refl
]

drop_empty : (n : ℕ) → drop {A = Cell} n [] ≡ []
drop_empty zero = refl
drop_empty (suc n) = refl

length-leading_empty : (xs : List Cell) → length xs ≤ 0 → length (leading xs) ≡ 0
length-leading_empty [] h = refl
length-leading_empty (x ∷ xs) h = absurd (omega (arith, h))

pub drop_more : (i n : ℕ) (xs : List Cell) → drop (i + n) xs ≡ drop n (drop i xs)
drop_more zero n xs = (let e : 0 + n ≡ n = omega arith in ap (λ (k : ℕ). drop k xs) e)
drop_more (suc i) n [] = drop_empty (suc i + n) ∙ sym (drop_empty n)
drop_more (suc i) n (x ∷ xs) =
    (let e : suc i + n ≡ suc (i + n) = omega arith in
      ap (λ (k : ℕ). drop k (x ∷ xs)) e ∙ drop_more i n xs)

pub drop-at :
    (i : ℕ) (xs : List Cell) (x : Cell) → at i xs ≡ some x → drop i xs ≡ x ∷ drop (suc i) xs
unfolding at
drop-at i [] x h = absurd (ground arith)
drop-at zero (y ∷ xs) x h = ground (arith, h)
drop-at (suc i) (y ∷ xs) x h = drop-at i xs x h

pub drop-at_none : (i : ℕ) (xs : List Cell) → at i xs ≡ none → drop i xs ≡ []
unfolding at
drop-at_none zero [] h = refl
drop-at_none (suc i) [] h = refl
drop-at_none zero (y ∷ xs) h = absurd (ground arith)
drop-at_none (suc i) (y ∷ xs) h = drop-at_none i xs h

end_of_spaces-leading :
    (fuel : ℕ) (cells : List Cell) (end : ℕ)
    → length (drop end cells) ≤ fuel
    → end_of_spaces fuel cells end ≡ end + length (leading (drop end cells))
unfolding end_of_spaces
end_of_spaces-leading zero cells end h = omega (arith, length-leading_empty (drop end cells) h)
end_of_spaces-leading (suc fuel) cells end h = elim (Option-cases (at end cells)) [
  | inl e ↦ rw (e, drop-at_none end cells e) (omega arith)
  | inr (cell, e) ↦ elim (Bool-cases (is_space (some cell))) [
    | inl s ↦
        let later =
          end_of_spaces-leading fuel cells (suc end)
            (omega (arith, h, length-drop end cells, length-drop (suc end) cells)) in
        rw (e, drop-at end cells cell e, s) (omega (arith, later))
    | inr s ↦ rw (e, drop-at end cells cell e, s) (omega arith)
  ]
]

pub leading-space :
    (x : Cell) (xs : List Cell)
    → is_space (some x) ≡ true
    → (leading (x ∷ xs) ≡ x ∷ leading xs) × (following (x ∷ xs) ≡ following xs)
leading-space x xs e = (rw e refl, rw e refl)

leading-other :
    (x : Cell) (xs : List Cell)
    → is_space (some x) ≡ false
    → (leading (x ∷ xs) ≡ []) × (following (x ∷ xs) ≡ x ∷ xs)
leading-other x xs e = (rw e refl, rw e refl)

-- What `narrow` gives for a run of spaces and the cells behind it.
abbrev narrowed : Bool → List Cell → List Cell → List Cell
narrowed started run [] = run
narrowed started run (cell ∷ cells) = gap started run ++ cell ∷ narrow true [] cells

narrow-leading :
    (started : Bool) (run xs : List Cell)
    → narrow started run xs ≡ narrowed started (run ++ leading xs) (following xs)
unfolding narrow
narrow-leading started run [] = sym (append_nil run)
narrow-leading started run (x ∷ xs) = elim (Bool-cases (is_space (some x))) [
  | inl e ↦
      let (l, f) = leading-space x xs e in
      rw e refl
      ∙ narrow-leading started (run ++ x ∷ []) xs
      ∙ ap (λ (r : List Cell). narrowed started r (following xs))
          (append_assoc run (x ∷ []) (leading xs))
      ∙ ap (λ (r : List Cell). narrowed started (run ++ r) (following xs)) (sym l)
      ∙ ap (narrowed started (run ++ leading (x ∷ xs))) (sym f)
  | inr e ↦
      let (l, f) = leading-other x xs e in
      rw e refl
      ∙ ap (λ (r : List Cell). narrowed started r (x ∷ xs)) (sym (append_nil run))
      ∙ ap (λ (r : List Cell). narrowed started (run ++ r) (x ∷ xs)) (sym l)
      ∙ ap (narrowed started (run ++ leading (x ∷ xs))) (sym f)
]

gap_nil : (started : Bool) → gap started [] ≡ []
unfolding gap
gap_nil true = refl
gap_nil false = refl

-- What a turn pushes for a run of spaces.
abbrev pub pushed : Bool → List Cell → List Cell → List Cell
pushed started run [] = run
pushed started run (cell ∷ cells) = gap started run

abbrev has_more : List Cell → Bool
has_more [] = false
has_more (cell ∷ cells) = true

pushed_lem :
    (started room : Bool) (cell : Cell) (run rest : List Cell)
    → room ≡ has_more rest
    → take 1 run ≡ cell ∷ []
    → (if started && room && leb positional_gap (length run) then cell ∷ [] else run)
      ≡ pushed started run rest
unfolding gap
pushed_lem started room cell run [] h k = ground (arith, h)
pushed_lem started room cell run (c ∷ cs) h k = ground (arith, h, k)

room-has_more :
    (cells : List Cell) (i : ℕ)
    → ltb (i + length (leading (drop i cells))) (length cells) ≡ has_more (following (drop i cells))
room-has_more cells i =
    let n = length (leading (drop i cells)) in
    let rest : drop (i + n) cells ≡ following (drop i cells) =
      drop_more i n cells ∙ drop-leading (drop i cells) in
    more_lem (i + n) cells (following (drop i cells)) rest
  where
    more_lem :
        (k : ℕ) (cells rest : List Cell)
        → drop k cells ≡ rest
        → ltb k (length cells) ≡ has_more rest
    more_lem k cells [] h = ground (arith, length-drop k cells, ap length h)
    more_lem k cells (c ∷ cs) h = ground (arith, length-drop k cells, ap length h)

pub turn-space :
    (cells : List Cell) (i : ℕ) (cell : Cell)
    → at i cells ≡ some cell
    → is_space (some cell) ≡ true
    → let run = leading (drop i cells) in
      turn cells i cell ≡ (i + length run, pushed (ltb 0 i) run (following (drop i cells)))
unfolding turn
turn-space cells i cell e s =
    let run = leading (drop i cells) in
    let end = end_of_spaces-leading (length cells) cells i (omega (arith, length-drop i cells)) in
    let width : (i + length run) - i ≡ length run = omega arith in
    let tail = leading (drop (suc i) cells) in
    let head : run ≡ cell ∷ tail =
      ap leading (drop-at i cells cell e) ∙ (leading-space cell (drop (suc i) cells) s).0 in
    rw (s, end, turn)
      (rw (width, take-leading (drop i cells))
        (ap (λ (r : List Cell). (i + length run, r))
          (pushed_lem (ltb 0 i) (ltb (i + length run) (length cells)) cell run
            (following (drop i cells)) (room-has_more cells i) (ap (take 1) head))))

narrow_none : (started : Bool) → narrow started [] [] ≡ []
unfolding narrow
narrow_none started = refl

pub empty_of : (xs : List Cell) → length xs ≤ 0 → xs ≡ []
empty_of [] h = refl
empty_of (x ∷ xs) h = absurd (omega (arith, h))

-- Nothing is left behind the loop's end.
pub at_end :
    (started : Bool) (compacted xs : List Cell)
    → xs ≡ []
    → compacted ≡ compacted ++ narrow started [] xs
at_end started compacted xs h = sym (
    ap (λ (r : List Cell). compacted ++ r) (ap (narrow started []) h ∙ narrow_none started)
    ∙ append_nil compacted)

following_twice :
    (xs : List Cell) → (leading (following xs) ≡ []) × (following (following xs) ≡ following xs)
following_twice [] = (refl, refl)
following_twice (x ∷ xs) = elim (Bool-cases (is_space (some x))) [
  | inl e ↦ rw (e) (following_twice xs)
  | inr e ↦ rw (e) (leading-other x xs e)
]

seam :
    (started : Bool) (run rest : List Cell)
    → pushed started run rest ++ narrowed true [] rest ≡ narrowed started run rest
unfolding gap
seam started run [] = append_nil run
seam started run (c ∷ cs) = refl

-- A turn over spaces, and the rest.
pub narrow-turn :
    (started : Bool) (xs : List Cell)
    → pushed started (leading xs) (following xs) ++ narrow true [] (following xs)
      ≡ narrow started [] xs
narrow-turn started xs =
    let (l, f) = following_twice xs in
    ap (λ (r : List Cell). pushed started (leading xs) (following xs) ++ r)
      (narrow-leading true [] (following xs)
        ∙ ap (λ (r : List Cell). narrowed true r (following (following xs))) l
        ∙ ap (narrowed true []) f)
    ∙ seam started (leading xs) (following xs)
    ∙ sym (narrow-leading started [] xs)

pub narrow-other :
    (started : Bool) (x : Cell) (xs : List Cell)
    → is_space (some x) ≡ false
    → narrow started [] (x ∷ xs) ≡ x ∷ narrow true [] xs
unfolding narrow
narrow-other started x xs s =
    rw s (ap (λ (r : List Cell). r ++ x ∷ narrow true [] xs) (gap_nil started))
