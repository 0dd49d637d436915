-- ===== src/Program/World.antt =====
-- The program's state, and what each command does to it. What lies outside the program is a
-- parameter: the kernel, the files, libc, the dynamic linker and the threads.
use mlib.Prelude.{ℕ, Bool, true, false, Option, none, some, List, [], ◌∷◌, ◌++◌}
use mlib.Memory.{Library, Status, ok, failed}
use mlib.Text.{Text}
use mlib.Lists.{ListHead}
use mlib.Space.{Os}
use mlib.Bucket.{Libc}
use mlib.Playlist.{find_playlist}
use mlib.Catalog.{Disk, Place, find_library, library_lines}
use mlib.Shell.{
  Printed, open_command, close_command, create_command, make_playlist, playlist_add, rm_playlist,
  ls_playlist,
}
use mlib.Command.{Command, command_register, echo}
use mlib.Io.{Streams, Lex}
use mlib.Engine.{Engine, Engines, engine_lines, engine_register}
use mlib.Engine.Player.{Player, play_elem, play_playlist, control}
use mlib.Modules.{Linker, Loaded, load_command, registered, lsmod}
use mlib.Program.Start.{Main, Callee}
use mlib.Program.Loop.{Ran, run_line, mlib_loop}

-- What the commands print, but for their complaints, and the calls of the engine's functions.
pub data Output : Type 0 where
  not_found : Text → Output
  echoed : Text → Output
  commands : List (Text × Text) → Output
  libraries : List (Text × Text) → Output
  listed : Printed → Output
  modules : List (Option Text × Option Text) → Output
  engines : List (Option Text × Bool × Bool) → Output
  play_status : Status → Output
  toggles stops : Output
  called : ℕ → List Text → Output

-- The static variables of the parts. `made` are the files that were created, and `printed` comes in
-- the order in which it is printed.
pub record World : Type 0 where
  pub known : List (Command Callee)
  pub open_libraries : List Library
  pub made : List Library
  pub loaded : Loaded
  pub media : Engines
  pub playing : Player
  pub printed : List Output

unfoldable pub print : Output → World → World
print o w = record w { printed = w.printed ++ o ∷ [] }

-- The loop of `__mlib_help`.
unfoldable pub help_lines : List (Command Callee) → List (Text × Text)
help_lines [] = []
help_lines (cmd ∷ cmds) = (cmd.name, cmd.desc) ∷ help_lines cmds

-- A command that works on the open libraries, where `none` is a fault.
unfoldable pub on_open : World → Option (Status × List Library) → Ran World
on_open w none = Ran.faults
on_open w (some r) = Ran.returns (record w { open_libraries = r.1 })

-- `argv` behind the command's name.
abbrev pub behind_name : List Text → List Text
behind_name [] = []
behind_name (name ∷ args) = args

-- Registrations one after the other, as the `init` of a module makes them.
unfoldable pub register_each : ListHead → List Engine → Engines → Engines
register_each h [] es = es
register_each h (engine ∷ others) es = register_each h others (engine_register h engine es).2

-- A command of a module.
abbrev pub foreign_command : Command ℕ → Command Callee
foreign_command cmd = record { name = cmd.name; desc = cmd.desc; main = Callee.foreign cmd.main }

-- The same for commands.
unfoldable pub register_commands :
    ListHead → List (Command ℕ) → List (Command Callee) → List (Command Callee)
register_commands h [] known = known
register_commands h (cmd ∷ cmds) known =
    register_commands h cmds (command_register h (foreign_command cmd) known).1

-- Whether `strdup` has memory for a path, and whether a thread is made.
abbrev pub Threads : Type 0
Threads = Bool × Bool

-- `__mlib_play`, in the library that was found: a playlist of the name, or else a path.
unfoldable pub play_in : Threads → Place → Text → World → Ran World
play_in created place name w = elim (find_playlist name place.lib) [
  | none ↦ Ran.faults
  | some r ↦
      let played = elim r.0 as (λ _. Status × Player) [
        | none ↦ play_elem created.0 created.1 place.lib.base name w.playing
        | some p ↦ play_playlist created.1 place.lib.base name w.playing
      ] in
      Ran.returns (print (Output.play_status played.0) (record w { playing = played.1 }))
]

-- `__mlib_play`
unfoldable pub play_command : Threads → List Text → World → Ran World
play_command created (lib ∷ name ∷ []) w = elim (find_library lib w.open_libraries) [
  | none ↦ Ran.faults
  | some none ↦ Ran.returns w
  | some (some place) ↦ play_in created place name w
]
play_command created args w = Ran.returns w

-- `__mlib_pause` and `__mlib_stop`, on the function of the current engine.
unfoldable pub control_command : (Engine → Option Status) → Output → World → World
control_command interface o w =
    let control_it =
      control (elim w.media.current [ none ↦ none | some e ↦ interface e ]) w.playing in
    elim control_it.1 [ true ↦ print o w | false ↦ w ]

unfoldable pub pause_command : World → World
pause_command w = control_command (λ e. e.toggle) Output.toggles w

unfoldable pub stop_command : World → World
stop_command w = control_command (λ e. e.stop) Output.stops w

-- `__mlib_engines`, with at most one argument.
unfoldable pub engines_command : List Text → World → World
engines_command [] w = print (Output.engines (engine_lines w.media.engines)) w
engines_command (kind ∷ []) w = print (Output.engines (engine_lines w.media.engines)) w
engines_command (kind ∷ more ∷ args) w = w

module _ (h : ListHead) (os : Os) (disk : Disk) (c : Libc) (linker : Linker)
    (opened : List Text → Bool) (created : Threads) where
  -- The function of a command. What it returns is not looked at by the loop. `opened` says whether
  -- `create` with these arguments can make its file.
  unfoldable pub execute : Main → List Text → World → Ran World
  execute Main.echo argv w = Ran.returns (print (Output.echoed (echo argv).1) w)
  execute Main.run argv w = Ran.returns w
  execute Main.help argv w = Ran.returns (print (Output.commands (help_lines w.known)) w)
  execute Main.exit argv w = Ran.exits w
  execute Main.open_library argv w =
      on_open w (open_command h os disk c (behind_name argv) w.open_libraries)
  execute Main.close_library argv w =
      on_open w (close_command h os disk c (behind_name argv) w.open_libraries)
  execute Main.create_library argv w =
      elim (create_command h os disk c (opened argv) (behind_name argv)) [
        | none ↦ Ran.faults
        | some r ↦
            Ran.returns (elim r.1 [ none ↦ w | some file ↦ record w { made = file ∷ w.made } ])
      ]
  execute Main.list_libraries argv w = elim (library_lines w.open_libraries) [
    | none ↦ Ran.faults
    | some lines ↦ Ran.returns (print (Output.libraries lines) w)
  ]
  execute Main.make_playlist argv w =
      on_open w (make_playlist h os disk c (behind_name argv) w.open_libraries)
  execute Main.rm_playlist argv w =
      on_open w (rm_playlist h os disk c (behind_name argv) w.open_libraries)
  execute Main.playlist_add argv w =
      on_open w (playlist_add h os disk c (behind_name argv) w.open_libraries)
  execute Main.ls_playlist argv w = elim (ls_playlist (behind_name argv) w.open_libraries) [
    | none ↦ Ran.faults
    | some r ↦ Ran.returns (print (Output.listed r.1) (record w { open_libraries = r.2 }))
  ]
  execute Main.load_module argv w = Ran.returns (record w {
    loaded = (load_command h linker (behind_name argv) w.loaded).1;
    media = register_each h (registered linker (behind_name argv) w.loaded).engines w.media;
    known = register_commands h (registered linker (behind_name argv) w.loaded).commands w.known;
  })
  execute Main.lsmod argv w =
      let listed = lsmod (behind_name argv) w.loaded in
      Ran.returns (elim listed.0 [ failed ↦ w | ok ↦ print (Output.modules listed.1) w ])
  execute Main.play argv w = play_command created (behind_name argv) w
  execute Main.pause argv w = Ran.returns (pause_command w)
  execute Main.stop argv w = Ran.returns (stop_command w)
  execute Main.engines argv w = Ran.returns (engines_command (behind_name argv) w)

  -- `cmd->main`. Of a module's function only the call is kept: what it does in the module is outside
  -- the program.
  unfoldable pub call : Callee → List Text → World → Ran World
  call (Callee.builtin m) argv w = execute m argv w
  call (Callee.foreign address) argv w = Ran.returns (print (Output.called address argv) w)

  -- The body of `mlib_loop`.
  unfoldable pub run_command : List Text → World → Ran World
  run_command argv w =
      run_line (λ (w : World). w.known) call (λ name. print (Output.not_found name)) argv w

  -- The loop of the program, on what the lexer will return.
  unfoldable pub shell : (ℕ → Bool) → List Lex → Streams → World → Ran World
  shell realloc tokens s w = mlib_loop h realloc run_command tokens s w
