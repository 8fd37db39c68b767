-- ===== src/Mobile/Render.antt =====
-- apps/mobile/src/state/renderBuffer.ts. The lines come from events that nothing has checked, so
-- they are JSON values.
use cucoudle.Prelude.{ℕ, List, [], ◌++◌, length, if◌then◌else◌, leb, ◌==◌, ◌≤◌, arith}
use cucoudle.Protocol.Json.{Json}
use cucoudle.Mobile.Terminal.{slice_last}
use cucoudle.Mobile.Terminal.Bounds.{length-slice_last}

abbrev pub max_render_history : ℕ
max_render_history = 1000

pub record RenderBuffer : Type 0 where
  pub history : List Json
  pub screen : List Json
  pub last_seq : ℕ

-- TerminalRenderSnapshot
pub record RenderSnapshot : Type 0 where
  pub history : List Json
  pub screen : List Json
  pub last_seq : ℕ

unfoldable pub create_render_buffer : RenderBuffer
create_render_buffer = record { history = []; screen = []; last_seq = 0 }

unfoldable pub apply_render_frame : RenderBuffer → ℕ → List Json → List Json → RenderBuffer
unfolding slice_last
apply_render_frame buffer seq history_append screen =
    if leb seq buffer.last_seq then buffer else record {
      history =
          if length history_append == 0
          then buffer.history
          else slice_last max_render_history (buffer.history ++ history_append);
      screen = screen;
      last_seq = seq;
    }

unfoldable pub replace_render_snapshot : RenderSnapshot → RenderBuffer
unfolding slice_last
replace_render_snapshot snapshot = record {
  history = slice_last max_render_history snapshot.history;
  screen = snapshot.screen;
  last_seq = snapshot.last_seq;
}

-- The history is not longer than the limit.
abbrev pub IsShort : RenderBuffer → Type 0
IsShort buffer = length buffer.history ≤ max_render_history

pub create_render_buffer-IsShort : IsShort create_render_buffer
unfolding create_render_buffer
create_render_buffer-IsShort = omega arith

pub apply_render_frame-IsShort :
    (buffer : RenderBuffer) (seq : ℕ) (history_append screen : List Json)
    → IsShort buffer
    → IsShort (apply_render_frame buffer seq history_append screen)
unfolding apply_render_frame
apply_render_frame-IsShort buffer seq history_append screen h =
    ground (arith, h, length-slice_last max_render_history (buffer.history ++ history_append))

pub replace_render_snapshot-IsShort :
    (snapshot : RenderSnapshot) → IsShort (replace_render_snapshot snapshot)
unfolding replace_render_snapshot
replace_render_snapshot-IsShort snapshot = length-slice_last max_render_history snapshot.history
