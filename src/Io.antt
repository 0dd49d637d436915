-- ===== src/Io.antt =====
-- src/mlib_io.c: the stack of input streams, and the lines that are read from the current one. libc,
-- readline and the lexer are parameters.
pub mod Stack
pub mod Lines
pub mod Chunks
pub mod Buffer
use mlib.Prelude.{
  ℕ, zero, suc, ◌+◌, ◌-◌, Bool, true, false, not, ◌&&◌, Option, none, some, List, [], ◌∷◌, ◌++◌,
  ltb, leb, ◌==◌, if◌then◌else◌, length, take,
}
use mlib.Memory.{Status, ok, failed}
use mlib.Text.{Text}
use mlib.Lists.{ListHead}

-- A `FILE *`.
abbrev pub File : Type 0
File = ℕ

abbrev pub stdin : File
stdin = 0

-- `input_streams` and `current_stream`.
pub record Streams : Type 0 where
  pub input_streams : List File
  pub current_stream : File

-- `mlib_init_io`
unfoldable pub init_io : Streams → Streams
init_io s = record s { current_stream = stdin }

module _ (h : ListHead) where
  -- `mlib_push_stream`, where `fopen` gives the file; `none` too where there is no memory.
  unfoldable pub push_stream : (Text → Option File) → Option Text → Streams → Status × Streams
  push_stream fopen none s = (failed, s)
  push_stream fopen (some stream) s = elim (fopen stream) [
    | none ↦ (failed, s)
    | some file ↦
        (ok, record { input_streams = h.list_add file s.input_streams; current_stream = file })
  ]

  -- `mlib_pop_stream`: `current_stream` is set only where the last stream went.
  unfoldable pub pop_stream : Streams → Status × Streams
  pop_stream s = elim s.input_streams [
    | [] ↦ (failed, s)
    | top ∷ below ↦
        let left = h.list_del [] top below in
        (
          failed,
          record {
            input_streams = left;
            current_stream = elim left [ [] ↦ stdin | f ∷ fs ↦ s.current_stream ];
          },
        )
  ]

-- What `yylex` returns.
pub data Lex : Type 0 where
  done : Lex
  eol : Lex
  error : Lex
  string : Text → Lex

-- How far a line is read: the arguments, and the size of the array that holds them.
pub record Line : Type 0 where
  pub argv : List Text
  pub len : ℕ

abbrev pub empty_line : Line
empty_line = record { argv = []; len = 0 }

-- `argv` before the next argument is stored, of `len` pointers; `none` where `realloc` gives NULL.
unfoldable pub room_for_one : (ℕ → Bool) → Line → Option Line
room_for_one realloc line =
    if leb line.len (length line.argv + 1)
    then (if realloc (line.len + 8) then some (record line { len = line.len + 8 }) else none)
    else some line

-- What `mlib_read_line` leaves: its result, `argv`, and what is still to be lexed.
pub record ReadLine : Type 0 where
  pub status : Status
  pub argv : Option (List Text)
  pub rest : List Lex
  pub streams : Streams

-- `mlib_read_line`, on what the lexer will return; `none` where it waits for more.
module _ (h : ListHead) (realloc : ℕ → Bool) where
  unfoldable pub read_args : Line → List Lex → Streams → Option ReadLine
  read_args line [] s = none
  read_args line (done ∷ rest) s =
      let popped = (pop_stream h s).1 in
      let again = read_args line rest popped in
      if length line.argv == 0
      then again
      else some (record {
        status = if not (popped.current_stream == stdin) then failed else ok;
        argv = some line.argv;
        rest = rest;
        streams = popped;
      })
  read_args line (eol ∷ rest) s =
      let again = read_args line rest s in
      if length line.argv == 0
      then again
      else some (record { status = ok; argv = some line.argv; rest = rest; streams = s })
  read_args line (error ∷ rest) s =
      some (record { status = failed; argv = none; rest = rest; streams = s })
  read_args line (string text ∷ rest) s = elim (room_for_one realloc line) [
    | none ↦ some (record { status = failed; argv = none; rest = rest; streams = s })
    | some roomy ↦ read_args (record roomy { argv = roomy.argv ++ text ∷ [] }) rest s
  ]

  -- `mlib_read_line`
  unfoldable pub read_line : List Lex → Streams → Option ReadLine
  read_line tokens s = read_args empty_line tokens s

-- The static variables of `__mlib_readbuf_term`, and the lines that `readline` will return.
pub record Terminal : Type 0 where
  pub readline_buff : Option Text
  pub read_bytes : ℕ
  pub typed : List Text

-- The loop around `readline`: empty lines are passed over, and NULL comes at the end of the input.
unfoldable pub next_line : List Text → Option Text × List Text
next_line [] = (none, [])
next_line ([] ∷ typed) = next_line typed
next_line ((c ∷ s) ∷ typed) = (some (c ∷ s), typed)

abbrev pub drop : {A : Type 0} → ℕ → List A → List A
drop zero s = s
drop (suc n) [] = []
drop (suc n) (c ∷ s) = drop n s

-- The part of `__mlib_readbuf_term` behind `readline`.
unfoldable pub read_chunk : ℕ → Text → Terminal → Option Text × Terminal
read_chunk most line t =
    if leb (length line) t.read_bytes
    then (none, record t { readline_buff = none; read_bytes = 0 })
    else (let left = length line - t.read_bytes in
        let max_bytes = if ltb most left then most else left in
        (
          some (take max_bytes (drop t.read_bytes line)),
          record t { read_bytes = t.read_bytes + max_bytes },
        ))

-- `__mlib_readbuf_term`
unfoldable pub readbuf_term : ℕ → Terminal → Option Text × Terminal
readbuf_term most t = elim t.readline_buff [
  | some line ↦ read_chunk most line t
  | none ↦
      let next = next_line t.typed in
      elim next.0 [
        | none ↦ (none, record t { readline_buff = none; typed = next.1 })
        | some line ↦
            read_chunk most line
              (record { readline_buff = some line; read_bytes = 0; typed = next.1 })
      ]
]

-- `strlen` in a buffer of `most` bytes that has been set to zero in front of it; `none` where no zero
-- is left.
unfoldable pub strlen_in : ℕ → Text → Option ℕ
strlen_in most piece = if ltb (length piece) most then some (length piece) else none

-- What `mlib_readbuf` leaves: its result, the buffer, and what was read and remembered. `none` is a
-- read past the buffer.
pub record ReadBuf : Type 0 where
  pub count : ℕ
  pub buffer : Text
  pub terminal : Terminal
  pub history : List Text

-- `mlib_readbuf` behind `__mlib_readbuf_term`. A line that is not empty is added to the history.
unfoldable pub remember : ℕ → List Text → Option Text × Terminal → Option ReadBuf
remember most history (none, t) =
    some (record { count = 0; buffer = []; terminal = t; history = history })
remember most history (some piece, t) = elim (strlen_in most piece) [
  | none ↦ none
  | some count ↦ some (record {
    count = count;
    buffer = piece;
    terminal = t;
    history = if ltb 0 count then history ++ piece ∷ [] else history;
  })
]

-- `mlib_readbuf`, where `fgets` gives what it reads of a file, which it ends with a zero.
unfoldable pub readbuf :
    (File → ℕ → Option Text) → ℕ → Option File → Terminal → List Text → Option ReadBuf
readbuf fgets most none t history =
    some (record { count = 0; buffer = []; terminal = t; history = history })
readbuf fgets most (some current) t history =
    if not (current == stdin)
    then elim (fgets current most) as (λ _. Option ReadBuf) [
      | none ↦ some (record { count = 0; buffer = []; terminal = t; history = history })
      | some piece ↦
          some (record { count = length piece; buffer = piece; terminal = t; history = history })
    ]
    else remember most history (readbuf_term most t)
