-- ===== src/Mobile/Terminal.antt =====
-- apps/mobile/src/state/terminalBuffer.ts: the text of a terminal, as UTF-16 code units.
pub mod Bounds
pub mod Replay
use Prim.Native.Char.{code}
use Prim.Native.String.{[] as empty_text, ◌∷◌ as cons_text}
use cucoudle.Prelude.Sorting.{sort_by}
use cucoudle.Prelude.{
  ℕ, ◌+◌, ◌-◌, ◌/◌, ◌%◌, String, Bool, List, [], ◌∷◌, ◌++◌, length, drop, if◌then◌else◌, leb, ltb,
}

-- The code units of a character.
unfoldable pub units_of : ℕ → List ℕ
units_of c =
    if ltb c 65_536
    then c ∷ []
    else (55_296 + (c - 65_536) / 1024) ∷ (56_320 + (c - 65_536) % 1024) ∷ []

-- The code units of a text, which `length` counts and `slice` cuts between.
unfoldable pub units : String → List ℕ
unfolding units_of
units empty_text = []
units (cons_text c s) = units_of (code c) ++ units s

abbrev pub max_terminal_buffer_length : ℕ
max_terminal_buffer_length = 200_000

pub record TerminalBuffer : Type 0 where
  pub text : List ℕ
  pub last_seq : ℕ

pub record TerminalChunk : Type 0 where
  pub seq : ℕ
  pub content : List ℕ

-- xs.slice(-n), for a positive n
unfoldable pub slice_last {ℓ} : {A : Type ℓ} → ℕ → List A → List A
slice_last n xs = drop (length xs - n) xs

unfoldable pub trim_terminal_text : List ℕ → List ℕ
unfolding slice_last
trim_terminal_text text =
    if leb (length text) max_terminal_buffer_length
    then text
    else slice_last max_terminal_buffer_length text

unfoldable pub create_terminal_buffer : TerminalBuffer
create_terminal_buffer = record { text = []; last_seq = 0 }

unfoldable pub append_terminal_output : TerminalBuffer → TerminalChunk → TerminalBuffer
unfolding trim_terminal_text
append_terminal_output buffer chunk =
    if leb chunk.seq buffer.last_seq
    then buffer
    else record { text = trim_terminal_text (buffer.text ++ chunk.content); last_seq = chunk.seq }

unfoldable pub replace_terminal_snapshot : TerminalBuffer → List ℕ → ℕ → TerminalBuffer
unfolding trim_terminal_text
replace_terminal_snapshot buffer text last_seq = record {
  text = trim_terminal_text text;
  last_seq = last_seq;
}

-- left.seq - right.seq < 0
abbrev pub earlier : TerminalChunk → TerminalChunk → Bool
earlier left right = ltb left.seq right.seq

-- [...chunks].sort((left, right) => left.seq - right.seq)
unfoldable pub sort_chunks : List TerminalChunk → List TerminalChunk
sort_chunks chunks = sort_by earlier chunks

-- chunks.reduce(appendTerminalOutput, buffer)
unfoldable pub append_all : TerminalBuffer → List TerminalChunk → TerminalBuffer
unfolding append_terminal_output
append_all buffer [] = buffer
append_all buffer (c ∷ cs) = append_all (append_terminal_output buffer c) cs

unfoldable pub replay_terminal_output : TerminalBuffer → List TerminalChunk → TerminalBuffer
unfolding sort_chunks append_all
replay_terminal_output buffer chunks = append_all buffer (sort_chunks chunks)
