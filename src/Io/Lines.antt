-- ===== src/Io/Lines.antt =====
-- `mlib_read_line`.
use mathlib.Core.List.{append_assoc, append-nil}
use mlib.Prelude.{
  ℕ, zero, suc, ◌+◌, ◌≤◌, ◌<◌, ◌≡◌, Bool, true, some, List, [], ◌∷◌, ◌++◌, map, replicate, length,
  length-append, leb, if◌then◌else◌, arith,
}
use mlib.Memory.{ok}
use mlib.Text.{Text}
use mlib.Lists.{ListHead}
use mlib.Io.{Streams, Lex, eol, string, Line, empty_line, room_for_one, read_args, read_line}

-- If the arguments fit their array before, then when `realloc` gives memory the array has a place
-- for the next argument, and the arguments are the same.
pub room_for_one-fits :
    (realloc : ℕ → Bool) (line roomy : Line)
    → length line.argv ≤ line.len
    → room_for_one realloc line ≡ some roomy
    → (length roomy.argv < roomy.len) × (roomy.argv ≡ line.argv)
unfolding room_for_one
room_for_one-fits realloc line roomy fits e = ground arith

abbrev roomy : Line → Line
roomy line = record line {
  len = if leb line.len (length line.argv + 1) then line.len + 8 else line.len;
}

module _ (h : ListHead) (realloc : ℕ → Bool) (grant : (n : ℕ) → realloc n ≡ true) where
  room_for_one-roomy : (line : Line) → room_for_one realloc line ≡ some (roomy line)
  unfolding room_for_one
  room_for_one-roomy line = ground (arith, grant (line.len + 8))

  read_args-words :
      (line : Line) (ws : List Text) (rest : List Lex) (s : Streams)
      → 1 ≤ length line.argv + length ws
      → read_args h realloc line (map string ws ++ eol ∷ rest) s
        ≡ some (record { status = ok; argv = some (line.argv ++ ws); rest = rest; streams = s })
  unfolding read_args
  read_args-words line [] rest s some_there = ground (arith, append-nil line.argv)
  read_args-words line (w ∷ ws) rest s some_there =
      let longer = record (roomy line) { argv = line.argv ++ w ∷ [] } in
      ground (
        arith,
        room_for_one-roomy line,
        append_assoc line.argv (w ∷ []) ws,
        read_args-words longer ws rest s (omega (arith, length-append line.argv (w ∷ []))),
      )

  -- If `realloc` gives memory, mlib_read_line passes over lines without a word, and returns 0 with
  -- the words of the next line as its arguments, in their order; it leaves what follows that line
  -- for the next call, and the streams as they were.
  pub read_line-words :
      (blank : ℕ) (w : Text) (ws : List Text) (rest : List Lex) (s : Streams)
      → read_line h realloc (replicate blank eol ++ map string (w ∷ ws) ++ eol ∷ rest) s
        ≡ some (record { status = ok; argv = some (w ∷ ws); rest = rest; streams = s })
  unfolding read_line read_args
  read_line-words zero w ws rest s = read_args-words empty_line (w ∷ ws) rest s (omega arith)
  read_line-words (suc blank) w ws rest s = read_line-words blank w ws rest s
