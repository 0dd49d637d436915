-- ===== src/Tests/Shells.antt =====
-- The theorem on the shell's commands, at the stored library.
use mlib.Prelude.{◌≡◌, refl, true, none, List, [], ◌∷◌, arith}
use mlib.Bytes.{writel}
use mlib.Memory.{Library}
use mlib.Text.{codes, strncmp}
use mlib.Samples.{lists, lists-IsListHead, kernel}
use mlib.Samples.Standard.{libc, libc-IsLibc}
use mlib.Samples.Stored.{stored, global}
use mlib.Playlist.Holds.{Playlist}
use mlib.Io.{stdin, Lex, eol, string}
use mlib.Modules.{Linker}
use mlib.Store.{Request, answers}
use mlib.Store.View.{view}
use mlib.Store.Steps.{Good}
use mlib.Tests.Stores.{kernel-Obliges, stored-Good}
use mlib.Program.Start.{mlib_init}
use mlib.Program.Loop.{Ran}
use mlib.Program.Scripts.{open_end}
use mlib.Program.World.{World, shell}
use mlib.Program.Entry.{first_world}
use mlib.Program.Session.{shell-answers}

abbrev started : World
started = record first_world { known = (mlib_init lists []).1; open_libraries = stored ∷ [] }

abbrev nothing_to_load : Linker
nothing_to_load = record { dlopen = λ path. none; dlsym = λ handle. none }

-- mkpls f mix, plsadd f mix song, rmpls f mix
abbrev requests : List Request
requests =
    Request.start_playlist (codes "mix")
    ∷ Request.add_path (codes "mix") (codes "song")
    ∷ Request.delete_playlist (codes "mix")
    ∷ []

abbrev typed : List Lex
typed =
    string (codes "mkpls")
    ∷ string (codes "f")
    ∷ string (codes "mix")
    ∷ eol
    ∷ string (codes "plsadd")
    ∷ string (codes "f")
    ∷ string (codes "mix")
    ∷ string (codes "song")
    ∷ eol
    ∷ string (codes "rmpls")
    ∷ string (codes "f")
    ∷ string (codes "mix")
    ∷ eol
    ∷ []

shell-answers_example :
    (l' : Library) × (pls' : List Playlist) × (shell lists kernel
        (λ path. none)
        libc
        nothing_to_load
        (λ args. true)
        (true, true)
        (λ n. true)
        typed
        (record { input_streams = []; current_stream = stdin })
        started
      ≡ Ran.waits (record started { open_libraries = l' ∷ [] }))
    × Good l' pls'
    × (view pls' ≡ (answers requests (view (global ∷ []))).1)
unfolding writel strncmp
shell-answers_example =
    shell-answers lists-IsListHead kernel-Obliges (λ path. none) libc-IsLibc nothing_to_load
      (λ args. true) (true, true) (codes "f") [] (omega arith) refl [] [] tt (λ n. true) (λ n. refl)
      open_end requests (record { input_streams = []; current_stream = stdin }) started stored
      (global ∷ []) refl refl refl stored-Good (ground arith) (omega arith)
