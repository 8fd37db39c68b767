-- ===== src/Mobile/Terminal/Bounds.antt =====
-- What is kept of a terminal's text, and when.
use cucoudle.Prelude.{ℕ, ◌-◌, ◌≤◌, List, [], ◌∷◌, ◌++◌, arith, length, length-drop}
use cucoudle.Mobile.Terminal.{
  TerminalBuffer, TerminalChunk, max_terminal_buffer_length, slice_last, trim_terminal_text,
  append_terminal_output, append_all, replay_terminal_output, sort_chunks,
  replace_terminal_snapshot,
}

-- The text is not longer than the limit.
abbrev pub IsBounded : TerminalBuffer → Type 0
IsBounded buffer = length buffer.text ≤ max_terminal_buffer_length

pub length-slice_last {ℓ} : {A : Type ℓ} (n : ℕ) (xs : List A) → length (slice_last n xs) ≤ n
unfolding slice_last
length-slice_last n xs = omega (arith, length-drop (length xs - n) xs)

length-trim_terminal_text :
    (text : List ℕ) → length (trim_terminal_text text) ≤ max_terminal_buffer_length
unfolding trim_terminal_text
length-trim_terminal_text text = ground (arith, length-slice_last max_terminal_buffer_length text)

pub append_terminal_output-IsBounded :
    (buffer : TerminalBuffer) (chunk : TerminalChunk)
    → IsBounded buffer
    → IsBounded (append_terminal_output buffer chunk)
unfolding append_terminal_output
append_terminal_output-IsBounded buffer chunk h =
    ground (arith, h, length-trim_terminal_text (buffer.text ++ chunk.content))

pub replace_terminal_snapshot-IsBounded :
    (buffer : TerminalBuffer) (text : List ℕ) (last_seq : ℕ)
    → IsBounded (replace_terminal_snapshot buffer text last_seq)
unfolding replace_terminal_snapshot
replace_terminal_snapshot-IsBounded buffer text last_seq = length-trim_terminal_text text

append_all-IsBounded :
    (buffer : TerminalBuffer) (chunks : List TerminalChunk)
    → IsBounded buffer
    → IsBounded (append_all buffer chunks) × (buffer.last_seq ≤ (append_all buffer chunks).last_seq)
unfolding append_all append_terminal_output
append_all-IsBounded buffer [] h = (h, omega arith)
append_all-IsBounded buffer (c ∷ cs) h =
    let (b, m) =
      append_all-IsBounded (append_terminal_output buffer c) cs
        (append_terminal_output-IsBounded buffer c h) in
    (b, ground (arith, m))

-- A replay keeps a buffer within the limit, and never takes its sequence number back.
pub replay_terminal_output-IsBounded :
    (buffer : TerminalBuffer) (chunks : List TerminalChunk)
    → IsBounded buffer
    → IsBounded (replay_terminal_output buffer chunks)
      × (buffer.last_seq ≤ (replay_terminal_output buffer chunks).last_seq)
unfolding replay_terminal_output
replay_terminal_output-IsBounded buffer chunks h =
    append_all-IsBounded buffer (sort_chunks chunks) h
