-- ===== src/Program/Entry.antt =====
-- src/mlib.c: the program from its start.
use mlib.Prelude.{ℕ, Bool, Option, none, some, List, []}
use mlib.Text.{Text}
use mlib.Lists.{ListHead}
use mlib.Space.{Os}
use mlib.Bucket.{Libc}
use mlib.Catalog.{Disk}
use mlib.Io.{File, Streams, Lex, stdin, init_io, push_stream}
use mlib.Engine.Player.{idle}
use mlib.Modules.{Linker}
use mlib.Program.Start.{mlib_init}
use mlib.Program.Loop.{Ran}
use mlib.Program.World.{Threads, World, shell}

-- The static variables before `main`.
abbrev pub first_world : World
first_world = record {
  known = [];
  open_libraries = [];
  made = [];
  loaded = record { modules = []; handles = [] };
  media = record { engines = []; current = none };
  playing = idle;
  printed = [];
}

-- `main`, where `script` is `argv[1]`. What `mlib_init` and `mlib_push_stream` return is not looked
-- at, but for a message.
module _ (h : ListHead) (os : Os) (disk : Disk) (c : Libc) (linker : Linker)
    (opened : List Text → Bool) (created : Threads) (fopen : Text → Option File) where
  unfoldable pub main : (ℕ → Bool) → Option Text → List Lex → Ran World
  main realloc script tokens =
      let initialised = mlib_init h first_world.known in
      let terminal = init_io (record { input_streams = []; current_stream = stdin }) in
      let streams = elim script as (λ _. Streams) [
        | none ↦ terminal
        | some path ↦ (push_stream h fopen (some path) terminal).1
      ] in
      shell h os disk c linker opened created realloc tokens streams
        (record first_world { known = initialised.1 })
