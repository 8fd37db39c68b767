-- ===== src/Mobile/StyledTerminal.antt =====
-- apps/mobile/src/features/session/StyledTerminal.tsx: the styles of a row, and the state of the view.
use cucoudle.Prelude.{
  ℕ, ◌≡◌, refl, String, Bool, true, false, not, Option, none, some, List, [], ◌∷◌, map, str_eq,
  if◌then◌else◌, arith, if-holds,
}
use cucoudle.Prelude.Steps.{and_then}
use cucoudle.Mobile.Palette.{AnsiColor, color_text, inherited, ansi_color}
use cucoudle.Mobile.PlainTerminal.{is_near_terminal_end}
use cucoudle.Mobile.Presentation.{StyledRun}
use cucoudle.Mobile.Presentation.Rows.{text, blank, rule, PresentedTerminalRow, terminal_grid_width}

abbrev pub terminal_default_fg : String
terminal_default_fg = "#E6EDF3"

-- A property that is not set is `none`, or false.
pub record TextStyle : Type 0 where
  pub color : Option AnsiColor
  pub background_color : Option AnsiColor
  pub is_bold : Bool
  pub is_italic : Bool
  pub is_underlined : Bool
  pub is_faint : Bool

-- if (bg) style.backgroundColor = bg
abbrev pub background : Option AnsiColor → Option AnsiColor
background none = none
background (some (color_text bg)) = if str_eq bg "" then none else some (color_text bg)
background (some (inherited name)) = some (inherited name)

unfoldable pub run_text_style : (String → String) → StyledRun → TextStyle
unfolding ansi_color
run_text_style lower run = record {
  color = ansi_color lower run.fg (some terminal_default_fg);
  background_color = background (ansi_color lower run.bg none);
  is_bold = run.b;
  is_italic = run.i;
  is_underlined = run.u;
  is_faint = run.d;
}

-- What a row is drawn as; `one_line` is numberOfLines.
pub data RowView : Type 0 where
  blank_line rule_line : RowView
  text_line : Bool → List (List ℕ × TextStyle) → RowView

unfoldable pub terminal_row : (String → String) → Bool → PresentedTerminalRow → RowView
unfolding run_text_style
terminal_row lower exact row =
    let line = text_line exact (map (λ run. (run.t, run_text_style lower run)) row.line) in
    elim row.kind [ blank ↦ blank_line | rule ↦ if exact then line else rule_line | text ↦ line ]

pub data TerminalMode : Type 0 where
  readable grid : TerminalMode

unfoldable pub shown_rows :
    TerminalMode → List PresentedTerminalRow → List PresentedTerminalRow → List PresentedTerminalRow
shown_rows readable readable_rows grid_rows = readable_rows
shown_rows grid readable_rows grid_rows = grid_rows

unfoldable pub grid_width : TerminalMode → List PresentedTerminalRow → ℕ
unfolding terminal_grid_width
grid_width readable grid_rows = 720
grid_width grid grid_rows = terminal_grid_width grid_rows

-- The state and the refs of the component.
pub record TerminalView : Type 0 where
  pub mode : TerminalMode
  pub follows_output : Bool
  pub show_live_tail : Bool

abbrev pub new_view : TerminalView
new_view = record { mode = readable; follows_output = true; show_live_tail = false }

-- scrollToEnd, animated or not
pub data ViewEffect : Type 0 where
  scrolled_to_end : Bool → ViewEffect

abbrev pub ViewStep : Type 0
ViewStep = TerminalView × List ViewEffect

unfoldable pub handle_scroll : ℕ → ℕ → ℕ → TerminalView → ViewStep
unfolding is_near_terminal_end
handle_scroll content_height viewport_height offset_y v =
    let follows = is_near_terminal_end content_height viewport_height offset_y in
    (record v { follows_output = follows; show_live_tail = not follows }, [])

unfoldable pub handle_content_size_change : TerminalView → ViewStep
handle_content_size_change v = (v, if v.follows_output then scrolled_to_end false ∷ [] else [])

unfoldable pub scroll_to_live_tail : TerminalView → ViewStep
scroll_to_live_tail v =
    (record v { follows_output = true; show_live_tail = false }, scrolled_to_end true ∷ [])

unfoldable pub select_mode : TerminalMode → TerminalView → ViewStep
select_mode next_mode v =
    (record v { mode = next_mode; follows_output = true; show_live_tail = false }, [])

-- What happens to the view. The button is there while `show_live_tail` holds.
pub data ViewInput : Type 0 where
  scrolled : ℕ → ℕ → ℕ → ViewInput
  content_changed live_tail_pressed : ViewInput
  mode_pressed : TerminalMode → ViewInput

unfoldable pub view_step : ViewInput → TerminalView → ViewStep
unfolding handle_scroll handle_content_size_change scroll_to_live_tail select_mode
view_step (scrolled content viewport offset) v = handle_scroll content viewport offset v
view_step content_changed v = handle_content_size_change v
view_step live_tail_pressed v = if v.show_live_tail then scroll_to_live_tail v else (v, [])
view_step (mode_pressed mode) v = select_mode mode v

unfoldable pub run_view : List ViewInput → TerminalView → ViewStep
unfolding view_step
run_view [] v = (v, [])
run_view (input ∷ inputs) v = and_then (view_step input v) (run_view inputs)

-- The button to the end of the output stands there exactly while the view does not follow the output.
abbrev pub IsTracking : TerminalView → Type 0
IsTracking v = v.show_live_tail ≡ not v.follows_output

view_step-IsTracking :
    (input : ViewInput) (v : TerminalView) → IsTracking v → IsTracking (view_step input v).0
unfolding view_step handle_scroll handle_content_size_change scroll_to_live_tail select_mode
view_step-IsTracking (scrolled content viewport offset) v h = refl
view_step-IsTracking content_changed v h = h
view_step-IsTracking live_tail_pressed v h =
    if-holds (λ (s : ViewStep). IsTracking s.0) v.show_live_tail refl h
view_step-IsTracking (mode_pressed mode) v h = refl

run_view-IsTracking :
    (inputs : List ViewInput) (v : TerminalView) → IsTracking v → IsTracking (run_view inputs v).0
unfolding run_view
run_view-IsTracking [] v h = h
run_view-IsTracking (input ∷ inputs) v h =
    run_view-IsTracking inputs (view_step input v).0 (view_step-IsTracking input v h)

-- Whatever the reader scrolled and pressed before, a view of the styled terminal is scrolled to its end
-- when new output changes its size, or it shows the button that leads there; never both and never
-- neither. Pressing the button, where it is shown, makes the view follow again.
pub view_follows :
    (inputs : List ViewInput)
    → let v = (run_view inputs new_view).0 in
      (v.show_live_tail ≡ not v.follows_output)
      × ((view_step content_changed v).1
          ≡ (if v.show_live_tail then [] else scrolled_to_end false ∷ []))
      × ((view_step content_changed (view_step live_tail_pressed v).0).1
          ≡ scrolled_to_end false ∷ [])
unfolding view_step handle_content_size_change scroll_to_live_tail
view_follows inputs =
    let h = run_view-IsTracking inputs new_view refl in (h, ground (arith, h), ground (arith, h))
