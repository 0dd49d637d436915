-- ===== src/Tests/Sessions.antt =====
-- The theorems on the program's commands and its loop, at small scripts and the stored library.
use mlib.Prelude.{◌≡◌, refl, true, none, some, List, [], ◌∷◌, ◌++◌, arith}
use mlib.Memory.{ok}
use mlib.Text.{Text, codes, strncmp}
use mlib.Text.Stored.{load_text-IsText}
use mlib.Bytes.{writel}
use mlib.Samples.{lists, lists-IsListHead}
use mlib.Samples.Stored.{stored, stored-IsLib, path_a}
use mlib.Catalog.{Place, lib_name, find_library, find_behind}
use mlib.Playlist.{global_name}
use mlib.Shell.{Printed, ls_playlist}
use mlib.Shell.Lines.{ls_playlist-shown}
use mlib.Command.{find_command}
use mlib.Command.Register.{Ascending}
use mlib.Io.{error, eol, string, stdin}
use mlib.Mplayer.{mplayer_engine}
use mlib.Modules.{Linker}
use mlib.Program.Start.{Main, command_of, mlib_init}
use mlib.Program.Commands.{mlib_init-finds}
use mlib.Program.Loop.{Ran, mlib_loop, then_run}
use mlib.Program.Scripts.{run_lines, with_error, mlib_loop-run_lines}
use mlib.Program.Entry.{main}

-- The stored library has an empty name.
nameless : lib_name stored ≡ some ([], stored)
unfolding lib_name writel
nameless =
    load_text-IsText stored (record { base = 7; off = 12 }) [] refl refl (omega arith) (omega arith)

abbrev alone : Place
alone = record { before = []; lib = stored; after = [] }

found_alone : find_library path_a (stored ∷ []) ≡ some (some alone)
unfolding find_library find_behind strncmp
found_alone = ground (arith, nameless)

ls_playlist-shown_example :
    ls_playlist (path_a ∷ global_name ∷ path_a ∷ []) (stored ∷ [])
    ≡ some (ok, Printed.paths (path_a ∷ []), stored ∷ [])
unfolding strncmp
ls_playlist-shown_example =
    ls_playlist-shown path_a global_name (path_a ∷ []) (stored ∷ []) alone (omega arith) found_alone
      stored-IsLib

mlib_init-finds_example :
    (find_command (codes "rmpls") (mlib_init lists []).1 ≡ some (command_of Main.rm_playlist))
    × Ascending (mlib_init lists []).1
unfolding command_of
mlib_init-finds_example = mlib_init-finds lists-IsListHead Main.rm_playlist

-- A program that keeps the lines it is given.
abbrev keep : List Text → List (List Text) → Ran (List (List Text))
keep argv w = Ran.returns (w ++ argv ∷ [])

abbrev script : List (List Text)
script = (path_a ∷ global_name ∷ []) ∷ [] ∷ (global_name ∷ []) ∷ []

mlib_loop-run_lines_example :
    mlib_loop lists
      (λ n. true)
      keep
      (string path_a
        ∷ string global_name
        ∷ eol
        ∷ eol
        ∷ string global_name
        ∷ eol
        ∷ error
        ∷ string path_a
        ∷ [])
      (record { input_streams = []; current_stream = stdin })
      []
    ≡ Ran.returns ((path_a ∷ global_name ∷ []) ∷ (global_name ∷ []) ∷ [])
unfolding run_lines then_run
mlib_loop-run_lines_example =
    mlib_loop-run_lines lists (λ n. true) (λ n. refl) keep (with_error (string path_a ∷ [])) script
      (record { input_streams = []; current_stream = stdin }) []

abbrev nothing_to_load : Linker
nothing_to_load = record { dlopen = λ path. none; dlsym = λ handle. none }

-- A module whose `init` registers an engine and a command.
abbrev one_engine : Linker
one_engine = record {
  dlopen = λ path. some 3;
  dlsym = λ handle. some (record {
    address = 64;
    name = some (codes "mplayer");
    desc = none;
    init = some ok;
    registers = record {
      engines = mplayer_engine (λ uri. ok) ok ok ∷ [];
      commands = record { name = codes "next"; desc = []; main = 96 } ∷ [];
    };
    syms = 3;
  });
}
