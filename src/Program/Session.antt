-- ===== src/Program/Session.antt =====
-- The commands on playlists, as they are typed, against what a store answers.
use mathlib.Core.List.{append_assoc, append-nil}
use mlib.Prelude.{
  ℕ, ◌+◌, ◌<◌, ◌^◌, ◌≡◌, refl, ◌∙◌, ap, inr, Bool, true, false, some, List, [], ◌∷◌, ◌++◌, All,
  length, arith,
}
use mlib.Memory.{Library, Status, M, pure, ◌>>=◌}
use mlib.Text.{Text, codes, strncmp, is_eq}
use mlib.Text.Stored.{IsText, IsText-copy, load_text-IsText}
use mlib.Lists.{ListHead, IsListHead}
use mlib.Space.{Os}
use mlib.Bucket.{Libc}
use mlib.Bucket.Standard.{IsLibc}
use mlib.Playlist.{start_playlist, delete_playlist, add_path}
use mlib.Playlist.Holds.{Playlist}
use mlib.Catalog.{Disk, lib_name, find_library, find_behind}
use mlib.Shell.{make_playlist, rm_playlist, playlist_add, on_library, inverted}
use mlib.Command.{find_command}
use mlib.Io.{Streams}
use mlib.Modules.{Linker}
use mlib.Store.{Request, answer, answers}
use mlib.Store.View.{view}
use mlib.Store.Steps.{Good, Obliges}
use mlib.Store.Refines.{serve, Fits, costs, serve-Answers}
use mlib.Program.Start.{Main, Callee, command_of, mlib_init}
use mlib.Program.Commands.{mlib_init-finds}
use mlib.Program.Loop.{Ran, then_run, run_line}
use mlib.Program.Scripts.{
  tokens_of, run_lines, Ending, ending_tokens, ending_run, mlib_loop-run_lines,
}
use mlib.Program.World.{Threads, World, on_open, execute, call, run_command, shell}

-- A request as a line of the shell.
abbrev pub line_of : Text → Request → List Text
line_of lib (Request.start_playlist name) = codes "mkpls" ∷ lib ∷ name ∷ []
line_of lib (Request.delete_playlist name) = codes "rmpls" ∷ lib ∷ name ∷ []
line_of lib (Request.add_path name path) = codes "plsadd" ∷ lib ∷ name ∷ path ∷ []

-- The library has a name that can be read.
abbrev pub IsNamed : Text → Library → Type 0
IsNamed name l = lib_name l ≡ some (name, l)

-- A name that is looked for is not found in front of the library, and found there.
abbrev pub Passes : Text → Library → Type 0
Passes lib l = (name : Text) × IsNamed name l × (is_eq (strncmp lib name (length name)) ≡ false)

find_behind-Passes :
    (lib name : Text) (passed before : List Library) (l : Library) (after : List Library)
    → All (Passes lib) before
    → IsNamed name l
    → is_eq (strncmp lib name (length name)) ≡ true
    → find_behind lib passed (before ++ l ∷ after)
      ≡ some (some (record { before = passed ++ before; lib = l; after = after }))
unfolding find_behind
find_behind-Passes lib name passed [] l after p n hit = ground (arith, n, append-nil passed)
find_behind-Passes lib name passed (x ∷ before) l after ((other, named, miss), p) n hit = ground (
  arith,
  named,
  miss,
  append_assoc passed (x ∷ []) before,
  find_behind-Passes lib name (passed ++ x ∷ []) before l after p n hit,
)

IsNamed-text :
    {l : Library} {pls : List Playlist} (g : Good l pls) (name : Text)
    → IsText l.bytes 12 name
    → length name < 1012
    → IsNamed name l
unfolding lib_name
IsNamed-text {l} g name is short =
    load_text-IsText l _ name refl is (omega (arith, g.lib.library.has_header)) g.lib.library.in_map

module _ {h : ListHead} (k : IsListHead h) {os : Os} (o : Obliges os) (disk : Disk) {c : Libc}
    (std : IsLibc c) (linker : Linker) (opened : List Text → Bool) (created : Threads)
    (lib name : Text) (short : length name < 1012)
    (hit : is_eq (strncmp lib name (length name)) ≡ true) (before after : List Library)
    (passes : All (Passes lib) before) where
  found :
      (l : Library)
      → IsNamed name l
      → find_library lib (before ++ l ∷ after)
        ≡ some (some (record { before = before; lib = l; after = after }))
  unfolding find_library
  found l n = find_behind-Passes lib name [] before l after passes n hit

  -- The state with the library in its place.
  abbrev pub at_place : World → Library → World
  at_place w l = record w { open_libraries = before ++ l ∷ after }

  on_library_ok :
      (work : M Status) (w : World) (l left : Library) (s : Status)
      → w.open_libraries ≡ before ++ l ∷ after
      → IsNamed name l
      → work l ≡ some (s, left)
      → on_library lib work w.open_libraries ≡ some (s, before ++ left ∷ after)
  unfolding on_library
  on_library_ok work w l left s libs n run =
      let there = ap (find_library lib) libs ∙ found l n in ground (arith, there, run)

  typed :
      (m : Main) (argv : List Text) (w : World)
      → w.known ≡ (mlib_init h []).1
      → (command_of m).main ≡ Callee.builtin m
      → run_command h os disk c linker opened created ((command_of m).name ∷ argv) w
        ≡ execute h os disk c linker opened created m ((command_of m).name ∷ argv) w
  unfolding run_command run_line call
  typed m argv w e own =
      let there = ap (find_command (command_of m).name) e ∙ (mlib_init-finds k m).0 in
      ground (arith, there, own)

  line_runs :
      (r : Request) (w : World) (l left : Library) (s : Status)
      → w.known ≡ (mlib_init h []).1
      → w.open_libraries ≡ before ++ l ∷ after
      → IsNamed name l
      → serve os c r l ≡ some (s, left)
      → run_command h os disk c linker opened created (line_of lib r) w
        ≡ Ran.returns (at_place w left)
  unfolding execute on_open make_playlist rm_playlist playlist_add serve command_of
  line_runs (Request.start_playlist list) w l left s e libs n run =
      typed Main.make_playlist (lib ∷ list ∷ []) w e refl
      ∙ ap (on_open w) (on_library_ok (start_playlist os list) w l left s libs n run)
  line_runs (Request.delete_playlist list) w l left s e libs n run =
      typed Main.rm_playlist (lib ∷ list ∷ []) w e refl
      ∙ ap (on_open w) (
          on_library_ok (do ret ← delete_playlist os list; pure (inverted ret)) w l left
            (inverted s) libs n (rw run refl))
  line_runs (Request.add_path list path) w l left s e libs n run =
      typed Main.playlist_add (lib ∷ list ∷ path ∷ []) w e refl
      ∙ ap (on_open w) (on_library_ok (add_path os c list path) w l left s libs n run)

  -- The lines one after the other.
  abbrev pub lines_of : List Request → List (List Text)
  lines_of [] = []
  lines_of (r ∷ rs) = line_of lib r ∷ lines_of rs

  run_lines-line_of :
      (body : List Text → World → Ran World) (last : World → Ran World) (r : Request)
      (lines : List (List Text)) (w : World)
      → run_lines body last (line_of lib r ∷ lines) w
        ≡ then_run (body (line_of lib r) w) (run_lines body last lines)
  unfolding run_lines
  run_lines-line_of body last (Request.start_playlist list) lines w = refl
  run_lines-line_of body last (Request.delete_playlist list) lines w = refl
  run_lines-line_of body last (Request.add_path list path) lines w = refl

  session_runs :
      (ending : Ending) (rs : List Request) (w : World) (l : Library) (pls : List Playlist)
      → w.known ≡ (mlib_init h []).1
      → w.open_libraries ≡ before ++ l ∷ after
      → IsText l.bytes 12 name
      → Good l pls
      → All Fits rs
      → l.size + costs rs < 2 ^ 32
      → (l' : Library) × (pls' : List Playlist) × (run_lines
            (run_command h os disk c linker opened created)
            (ending_run ending)
            (lines_of rs)
            w
          ≡ ending_run ending (at_place w l'))
        × Good l' pls'
        × (view pls' ≡ (answers rs (view pls)).1)
  unfolding run_lines then_run answers
  session_runs ending [] w l pls e libs is g fits small =
      (l, pls, ap (λ x. ending_run ending (record w { open_libraries = x })) libs, g, refl)
  session_runs ending (r ∷ rs) w l pls e libs is g fits small =
      let a = serve-Answers o std g r fits.0 (omega arith) in
      let step =
        line_runs r w l a.left (answer r (view pls)).0 e libs (IsNamed-text g name is short)
          a.run in
      let is' : IsText a.left.bytes 12 name =
        IsText-copy l.bytes a.left.bytes 12 12 name
          (λ i le. a.header (12 + i) (inr (omega arith)) (omega arith)) is in
      let (l', pls', runs, good, shows) =
        session_runs ending rs (at_place w a.left) a.left a.playlists e refl is' a.good fits.1
          (omega (arith, a.grown)) in
      (
        l',
        pls',
        run_lines-line_of (run_command h os disk c linker opened created) (ending_run ending) r
              (lines_of rs) w
            ∙ ap
                (λ x. then_run x (
                  run_lines (run_command h os disk c linker opened created) (ending_run ending)
                    (lines_of rs)))
                step
            ∙ runs,
        good,
        shows ∙ ap (λ s. (answers rs s).1) a.shows,
      )

  -- Lines `mkpls`, `rmpls` and `plsadd` typed into the shell, for one of the open libraries, which
  -- is found under the name that is typed and not one in front of it, run without a fault in their
  -- order and leave that library as an abstract store would be after the same requests, in its
  -- place between the other open libraries, which are as they were, as is all other state. The
  -- program's commands are registered by mlib_init; the library is its header and a row of
  -- playlists which count their paths, is not mapped at NULL, and its name has less than 1012
  -- bytes. The strings are C strings, a name that is started has at most 115 bytes, the file stays
  -- below 2^32 by the bytes that the requests may need, the kernel grants every request and maps
  -- the file again where it was, `realloc` gives memory, `qsort` and `bsearch` keep the C standard,
  -- and the list inserts as include/mlib/list.h documents. An error of the lexer behind the lines
  -- ends the loop, and without one it waits for more.
  pub shell-answers :
      (realloc : ℕ → Bool) (grant : (n : ℕ) → realloc n ≡ true) (ending : Ending)
      (rs : List Request) (streams : Streams) (w : World) (l : Library) (pls : List Playlist)
      → w.known ≡ (mlib_init h []).1
      → w.open_libraries ≡ before ++ l ∷ after
      → IsText l.bytes 12 name
      → Good l pls
      → All Fits rs
      → l.size + costs rs < 2 ^ 32
      → (l' : Library) × (pls' : List Playlist) × (shell h os disk c linker opened created realloc
            (tokens_of (lines_of rs) ++ ending_tokens ending)
            streams
            w
          ≡ ending_run ending (at_place w l'))
        × Good l' pls'
        × (view pls' ≡ (answers rs (view pls)).1)
  unfolding shell
  shell-answers realloc grant ending rs streams w l pls e libs is g fits small =
      let (l', pls', runs, good, shows) = session_runs ending rs w l pls e libs is g fits small in
      (
        l',
        pls',
        mlib_loop-run_lines h realloc grant (run_command h os disk c linker opened created) ending
              (lines_of rs) streams w
            ∙ runs,
        good,
        shows,
      )
