-- ===== src/Program/Start.antt =====
-- How the parts register their commands: `mlib_init` of src/core.c and the initialisers that it
-- calls.
use Prim.Native.String.{String}
use mlib.Prelude.{ℕ, List, [], ◌∷◌}
use mlib.Memory.{Status, ok, failed}
use mlib.Text.{codes}
use mlib.Lists.{ListHead}
use mlib.Command.{Command, command_register, register_builtins}

-- The functions that the commands call, by the source's names without `__mlib_`. (`bucket_dump` is
-- compiled only for debugging.)
pub data Main : Type 0 where
  echo run help exit : Main
  open_library close_library create_library list_libraries : Main
  make_playlist rm_playlist ls_playlist playlist_add : Main
  load_module lsmod : Main
  play pause stop engines : Main

-- What a command calls: a function of the program, or one of a module, at its address.
pub data Callee : Type 0 where
  builtin : Main → Callee
  foreign : ℕ → Callee

-- `struct mlib_command` of each.
abbrev pub command : String → String → Main → Command Callee
command name desc main = record { name = codes name; desc = codes desc; main = Callee.builtin main }

abbrev pub command_echo : Command Callee
command_echo = command "echo" "Echo passed arguments." Main.echo

abbrev pub command_run : Command Callee
command_run = command "run" "Run an MLib script." Main.run

abbrev pub command_help : Command Callee
command_help = command "help" "Print available commands and their descriptions." Main.help

abbrev pub command_exit : Command Callee
command_exit = command "exit" "Exit MLib." Main.exit

abbrev pub command_open : Command Callee
command_open = command "open" "Open a library." Main.open_library

abbrev pub command_close : Command Callee
command_close = command "close" "Close a library." Main.close_library

abbrev pub command_lslib : Command Callee
command_lslib = command "lslib" "List loaded libraries." Main.list_libraries

abbrev pub command_create : Command Callee
command_create = command "create" "Create a library." Main.create_library

abbrev pub command_mkpls : Command Callee
command_mkpls = command "mkpls" "Create an empty playlist." Main.make_playlist

abbrev pub command_lspls : Command Callee
command_lspls = command "lspls" "List playlists in a library." Main.ls_playlist

abbrev pub command_plsadd : Command Callee
command_plsadd = command "plsadd" "Add a path to a playlist." Main.playlist_add

abbrev pub command_rmpls : Command Callee
command_rmpls = command "rmpls" "Remove a playlist." Main.rm_playlist

abbrev pub command_load : Command Callee
command_load = command "load" "Load a module." Main.load_module

abbrev pub command_lsmod : Command Callee
command_lsmod = command "lsmod" "Display loaded modules." Main.lsmod

abbrev pub command_play : Command Callee
command_play = command "play" "Play media." Main.play

abbrev pub command_pause : Command Callee
command_pause = command "pause" "Pause the currently playing media." Main.pause

abbrev pub command_stop : Command Callee
command_stop = command "stop" "Stop the currently playing media." Main.stop

abbrev pub command_engines : Command Callee
command_engines = command "engines" "Display loaded engines." Main.engines

unfoldable pub command_of : Main → Command Callee
command_of Main.echo = command_echo
command_of Main.run = command_run
command_of Main.help = command_help
command_of Main.exit = command_exit
command_of Main.open_library = command_open
command_of Main.close_library = command_close
command_of Main.list_libraries = command_lslib
command_of Main.create_library = command_create
command_of Main.make_playlist = command_mkpls
command_of Main.ls_playlist = command_lspls
command_of Main.playlist_add = command_plsadd
command_of Main.rm_playlist = command_rmpls
command_of Main.load_module = command_load
command_of Main.lsmod = command_lsmod
command_of Main.play = command_play
command_of Main.pause = command_pause
command_of Main.stop = command_stop
command_of Main.engines = command_engines

module _ (h : ListHead) where
  -- Registrations one after the other, whose results are not looked at.
  unfoldable pub register_all : List Main → List (Command Callee) → List (Command Callee)
  register_all [] cmds = cmds
  register_all (m ∷ ms) cmds = register_all ms (command_register h (command_of m) cmds).1

  unfoldable pub library_init : List (Command Callee) → List (Command Callee)
  library_init cmds =
      register_all
        (Main.open_library ∷ Main.close_library ∷ Main.create_library ∷ Main.list_libraries ∷ [])
        cmds

  unfoldable pub playlist_init : List (Command Callee) → List (Command Callee)
  playlist_init cmds =
      register_all
        (Main.make_playlist ∷ Main.rm_playlist ∷ Main.ls_playlist ∷ Main.playlist_add ∷ []) cmds

  unfoldable pub module_init : List (Command Callee) → List (Command Callee)
  module_init cmds = register_all (Main.load_module ∷ Main.lsmod ∷ []) cmds

  -- `mlib_bucket_init`, without the debugging command.
  unfoldable pub bucket_init : List (Command Callee) → List (Command Callee)
  bucket_init cmds = cmds

  unfoldable pub engine_init : List (Command Callee) → List (Command Callee)
  engine_init cmds = register_all (Main.play ∷ Main.pause ∷ Main.stop ∷ Main.engines ∷ []) cmds

  -- `mlib_init`, without libcurl and the history file: a history that cannot be read is no error.
  unfoldable pub mlib_init : List (Command Callee) → Status × List (Command Callee)
  mlib_init cmds =
      let builtins =
        register_builtins h (command_of Main.echo) (command_of Main.run) (command_of Main.help)
          (command_of Main.exit) cmds in
      elim builtins.0 [
        | failed ↦ builtins
        | ok ↦
            (ok, engine_init (bucket_init (module_init (playlist_init (library_init builtins.1)))))
      ]
