-- ===== src/Mobile/Terminal/Replay.antt =====
-- The order in which the chunks of a replay arrive does not matter.
use cucoudle.Prelude.{◌≤◌, ◌≡◌, ◌≢◌, refl, sym, ap, List, [], ◌∷◌, ◌++◌, arith}
use cucoudle.Prelude.Sorting.{insert_by, sort_onto, sort_by}
use cucoudle.Mobile.Terminal.{
  TerminalBuffer, TerminalChunk, append_terminal_output, replay_terminal_output, sort_chunks,
  earlier,
}

insert-insert_by :
    (c d : TerminalChunk) (xs : List TerminalChunk)
    → c.seq ≢ d.seq
    → insert_by earlier c (insert_by earlier d xs) ≡ insert_by earlier d (insert_by earlier c xs)
unfolding insert_by
insert-insert_by c d [] n = ground (arith, n)
insert-insert_by c d (x ∷ xs) n = ground (arith, n, insert-insert_by c d xs n)

swapped :
    (c d : TerminalChunk) (sorted xs ys : List TerminalChunk)
    → c.seq ≢ d.seq
    → sort_onto earlier sorted (xs ++ c ∷ d ∷ ys) ≡ sort_onto earlier sorted (xs ++ d ∷ c ∷ ys)
unfolding sort_onto
swapped c d sorted [] ys n =
    ap (λ l. sort_onto earlier l ys) (insert-insert_by d c sorted (λ e. n (sym e)))
swapped c d sorted (x ∷ xs) ys n = swapped c d (insert_by earlier x sorted) xs ys n

-- Two chunks that arrive one after the other with different numbers can arrive the other way round:
-- the replay gives the same buffer.
pub replay_terminal_output-swap :
    (buffer : TerminalBuffer) (c d : TerminalChunk) (xs ys : List TerminalChunk)
    → c.seq ≢ d.seq
    → replay_terminal_output buffer (xs ++ c ∷ d ∷ ys)
      ≡ replay_terminal_output buffer (xs ++ d ∷ c ∷ ys)
unfolding replay_terminal_output sort_chunks sort_by
replay_terminal_output-swap buffer c d xs ys n = rw (swapped c d [] xs ys n) refl

-- A chunk that was appended once is not appended again, nor is one with a smaller number.
pub append_terminal_output_once :
    (buffer : TerminalBuffer) (c d : TerminalChunk)
    → d.seq ≤ c.seq
    → let after = append_terminal_output buffer c in append_terminal_output after d ≡ after
unfolding append_terminal_output
append_terminal_output_once buffer c d h = ground (arith, h)
