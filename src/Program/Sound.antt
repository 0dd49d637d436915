-- ===== src/Program/Sound.antt =====
-- What holds of the program's state whatever is typed.
use mlib.Prelude.{
  true, ℕ, suc, ◌≡◌, refl, Bool, inl, inr, Option, none, some, List, [], ◌∷◌, Option-cases,
  Bool-cases, ◌⊎◌, ◌≤◌, length, arith,
}
use mlib.Memory.{Library, Status, ok, failed}
use mlib.Text.{Text}
use mlib.Lists.{ListHead, IsListHead}
use mlib.Space.{Os}
use mlib.Bucket.{Libc}
use mlib.Playlist.{find_playlist}
use mlib.Catalog.{Disk, Place, find_library, library_lines}
use mlib.Shell.{create_command, ls_playlist}
use mlib.Command.{Command, command_register, find_command}
use mlib.Command.Register.{Ascending, command_register-Ascending}
use mlib.Io.{Streams, Lex}
use mlib.Engine.{Engine, Engines, engine_register}
use mlib.Engine.Register.{IsEngines, engine_register-IsEngines}
use mlib.Engine.Player.{
  play_elem, play_playlist, Player, Media, elem, plist, claim, control, Reachable, after, claims,
  creates_media, creates_playlist,
}
use mlib.Modules.{Linker, Loaded, load_command, registered, lsmod}
use mlib.Modules.Load.{Distinct, load_module-Distinct}
use mlib.Program.Runs.{Leaves, loop_rounds-Leaves}
use mlib.Program.Start.{Main, Callee}
use mlib.Program.Loop.{run_line, mlib_loop}
use mlib.Program.World.{
  pause_command, stop_command, register_each, Threads, Output, World, print, on_open, behind_name,
  play_in, play_command, control_command, engines_command, execute, call, foreign_command,
  register_commands, run_command, shell,
}

-- The commands ascend, no module is loaded twice, and the engines and the stream are as their
-- modules promise.
pub record IsWorld (w : World) : Type 0 where
  pub ascending : Ascending w.known
  pub distinct : Distinct w.loaded.modules
  pub engines : IsEngines w.media
  pub reachable : Reachable w.playing

-- A call that was refused, or one that has taken the stream.
claim-cases :
    (copied : Bool) (m : Media) (p : Player)
    → ((claim copied m p).0 ≡ failed)
      ⊎ (((claim copied m p).0 ≡ ok) × elim m as (λ _. Type 0) [
        | elem lib entry ↦ 1 ≤ (claim copied m p).1.starting.elems
        | plist lib name ↦ 1 ≤ (claim copied m p).1.starting.plists
      ])
unfolding claim
claim-cases copied (Media.elem lib entry) p = elim (Bool-cases p.in_use) [
  | inl used ↦ inl (rw used refl)
  | inr free ↦ inr (rw free refl, rw free (omega arith))
]
claim-cases copied (Media.plist lib name) p = elim (Bool-cases p.in_use) [
  | inl used ↦ inl (rw used refl)
  | inr free ↦ inr (rw free refl, rw free (omega arith))
]

play_elem-Reachable :
    (copied created : Bool) (lib : ℕ) (entry : Text) (p : Player)
    → Reachable p
    → Reachable (play_elem copied created lib entry p).1
unfolding play_elem
play_elem-Reachable copied created lib entry p r =
    elim (claim-cases copied (Media.elem lib entry) p) [
      | inl refused ↦ rw (refused, play_elem) (after r (claims copied (Media.elem lib entry) p))
      | inr (taken, one) ↦
          rw (taken, play_elem)
            (after (after r (claims copied (Media.elem lib entry) p))
              (creates_media created (claim copied (Media.elem lib entry) p).1 one))
    ]

play_playlist-Reachable :
    (created : Bool) (lib : ℕ) (name : Text) (p : Player)
    → Reachable p
    → Reachable (play_playlist created lib name p).1
unfolding play_playlist
play_playlist-Reachable created lib name p r = elim (claim-cases true (Media.plist lib name) p) [
  | inl refused ↦ rw (refused, play_playlist) (after r (claims true (Media.plist lib name) p))
  | inr (taken, one) ↦
      rw (taken, play_playlist)
        (after (after r (claims true (Media.plist lib name) p))
          (creates_playlist created (claim true (Media.plist lib name) p).1 one))
]

register_each-IsEngines :
    {h : ListHead} (k : IsListHead h) (engines : List Engine) (es : Engines)
    → IsEngines es
    → IsEngines (register_each h engines es)
unfolding register_each
register_each-IsEngines k [] es v = v
register_each-IsEngines {h} k (e ∷ engines) es v =
    register_each-IsEngines k engines (engine_register h e es).2
      (engine_register-IsEngines k e es v)

register_commands-Ascending :
    {h : ListHead} (k : IsListHead h) (cmds : List (Command ℕ)) (known : List (Command Callee))
    → Ascending known
    → Ascending (register_commands h cmds known)
unfolding register_commands
register_commands-Ascending k [] known a = a
register_commands-Ascending {h} k (cmd ∷ cmds) known a =
    register_commands-Ascending k cmds (command_register h (foreign_command cmd) known).1
      (command_register-Ascending k (foreign_command cmd) known a)

-- A state with the same commands and engines, and with modules and a stream that keep their word.
moved :
    {w : World} (v : IsWorld w) (libs made : List Library) (loaded : Loaded) (p : Player)
    (out : List Output)
    → Distinct loaded.modules
    → Reachable p
    → IsWorld (record w {
      open_libraries = libs;
      made = made;
      loaded = loaded;
      playing = p;
      printed = out;
    })
moved v libs made loaded p out d r = record {
  ascending = v.ascending;
  distinct = d;
  engines = v.engines;
  reachable = r;
}

print-IsWorld : (o : Output) (w : World) → IsWorld w → IsWorld (print o w)
unfolding print
print-IsWorld o w v = moved v _ _ _ _ _ v.distinct v.reachable

on_open-IsWorld :
    (w : World) (r : Option (Status × List Library)) → IsWorld w → Leaves IsWorld (on_open w r)
unfolding on_open
on_open-IsWorld w none v = tt
on_open-IsWorld w (some r) v = moved v _ _ _ _ _ v.distinct v.reachable

play_in-IsWorld :
    (created : Threads) (place : Place) (name : Text) (w : World)
    → IsWorld w
    → Leaves IsWorld (play_in created place name w)
unfolding play_in
play_in-IsWorld created place name w v = elim (Option-cases (find_playlist name place.lib)) [
  | inl e ↦ rw (e, Leaves) tt
  | inr ((none, lib), e) ↦
      rw (e, Leaves)
        (plays (play_elem created.0 created.1 place.lib.base name w.playing)
          (play_elem-Reachable created.0 created.1 place.lib.base name w.playing v.reachable))
  | inr ((some p, lib), e) ↦
      rw (e, Leaves)
        (plays (play_playlist created.1 place.lib.base name w.playing)
          (play_playlist-Reachable created.1 place.lib.base name w.playing v.reachable))
]
  where
    plays :
        (r : Status × Player)
        → Reachable r.1
        → IsWorld (print (Output.play_status r.0) (record w { playing = r.1 }))
    plays r reached = print-IsWorld _ _ (moved v _ _ _ _ _ v.distinct reached)

play_command-IsWorld :
    (created : Threads) (args : List Text) (w : World)
    → IsWorld w
    → Leaves IsWorld (play_command created args w)
unfolding play_command
play_command-IsWorld created [] w v = v
play_command-IsWorld created (lib ∷ []) w v = v
play_command-IsWorld created (lib ∷ name ∷ []) w v =
    elim (Option-cases (find_library lib w.open_libraries)) [
      | inl e ↦ rw (e, Leaves) tt
      | inr (none, e) ↦ rw (e, Leaves) v
      | inr (some place, e) ↦ rw (e, Leaves) (play_in-IsWorld created place name w v)
    ]
play_command-IsWorld created (lib ∷ name ∷ more ∷ args) w v = v

control_command-IsWorld :
    (interface : Engine → Option Status) (o : Output) (w : World)
    → IsWorld w
    → IsWorld (control_command interface o w)
unfolding control_command
control_command-IsWorld interface o w v =
    elim (Bool-cases
      (control (elim w.media.current [ none ↦ none | some e ↦ interface e ]) w.playing).1) [
        | inl e ↦ rw (e, control_command) (print-IsWorld o w v)
        | inr e ↦ rw (e, control_command) v
      ]

engines_command-IsWorld :
    (args : List Text) (w : World) → IsWorld w → IsWorld (engines_command args w)
unfolding engines_command
engines_command-IsWorld [] w v = print-IsWorld _ w v
engines_command-IsWorld (kind ∷ []) w v = print-IsWorld _ w v
engines_command-IsWorld (kind ∷ more ∷ args) w v = v

module _ {h : ListHead} (k : IsListHead h) (os : Os) (disk : Disk) (c : Libc) (linker : Linker)
    (opened : List Text → Bool) (created : Threads) where
  load-Distinct :
      (args : List Text) (s : Loaded)
      → Distinct s.modules
      → Distinct (load_command h linker args s).1.modules
  unfolding load_command
  load-Distinct [] s d = d
  load-Distinct (path ∷ []) s d = load_module-Distinct k linker path s d
  load-Distinct (path ∷ more ∷ args) s d = d

  execute-IsWorld :
      (m : Main) (argv : List Text) (w : World)
      → IsWorld w
      → Leaves IsWorld (execute h os disk c linker opened created m argv w)
  unfolding execute pause_command stop_command
  execute-IsWorld Main.echo argv w v = print-IsWorld _ w v
  execute-IsWorld Main.run argv w v = v
  execute-IsWorld Main.help argv w v = print-IsWorld _ w v
  execute-IsWorld Main.exit argv w v = v
  execute-IsWorld Main.open_library argv w v = on_open-IsWorld w _ v
  execute-IsWorld Main.close_library argv w v = on_open-IsWorld w _ v
  execute-IsWorld Main.create_library argv w v =
      elim (Option-cases (create_command h os disk c (opened argv) (behind_name argv))) [
        | inl e ↦ rw (e, Leaves) tt
        | inr ((status, none), e) ↦ rw (e, Leaves) v
        | inr ((status, some file), e) ↦ rw (e, Leaves) (moved v _ _ _ _ _ v.distinct v.reachable)
      ]
  execute-IsWorld Main.list_libraries argv w v =
      elim (Option-cases (library_lines w.open_libraries)) [
        | inl e ↦ rw (e, Leaves) tt
        | inr (lines, e) ↦ rw (e, Leaves) (print-IsWorld _ w v)
      ]
  execute-IsWorld Main.make_playlist argv w v = on_open-IsWorld w _ v
  execute-IsWorld Main.rm_playlist argv w v = on_open-IsWorld w _ v
  execute-IsWorld Main.playlist_add argv w v = on_open-IsWorld w _ v
  execute-IsWorld Main.ls_playlist argv w v =
      elim (Option-cases (ls_playlist (behind_name argv) w.open_libraries)) [
        | inl e ↦ rw (e, Leaves) tt
        | inr (r, e) ↦ rw (e, Leaves) (print-IsWorld _ _ (moved v _ _ _ _ _ v.distinct v.reachable))
      ]
  execute-IsWorld Main.load_module argv w v = record {
    ascending =
        register_commands-Ascending k (registered linker (behind_name argv) w.loaded).commands
          w.known v.ascending;
    distinct = load-Distinct (behind_name argv) w.loaded v.distinct;
    engines =
        register_each-IsEngines k (registered linker (behind_name argv) w.loaded).engines w.media
          v.engines;
    reachable = v.reachable;
  }
  execute-IsWorld Main.lsmod argv w v = listed (lsmod (behind_name argv) w.loaded)
    where
      listed :
          (r : Status × List (Option Text × Option Text))
          → IsWorld (elim r.0 [ failed ↦ w | ok ↦ print (Output.modules r.1) w ])
      listed (failed, lines) = v
      listed (ok, lines) = print-IsWorld _ w v
  execute-IsWorld Main.play argv w v = play_command-IsWorld created (behind_name argv) w v
  execute-IsWorld Main.pause argv w v = control_command-IsWorld (λ e. e.toggle) Output.toggles w v
  execute-IsWorld Main.stop argv w v = control_command-IsWorld (λ e. e.stop) Output.stops w v
  execute-IsWorld Main.engines argv w v = engines_command-IsWorld (behind_name argv) w v

  call-IsWorld :
      (callee : Callee) (argv : List Text) (w : World)
      → IsWorld w
      → Leaves IsWorld (call h os disk c linker opened created callee argv w)
  unfolding call
  call-IsWorld (Callee.builtin m) argv w v = execute-IsWorld m argv w v
  call-IsWorld (Callee.foreign address) argv w v = print-IsWorld _ w v

  run_command-IsWorld :
      (argv : List Text) (w : World)
      → IsWorld w
      → Leaves IsWorld (run_command h os disk c linker opened created argv w)
  unfolding run_command run_line
  run_command-IsWorld [] w v = tt
  run_command-IsWorld (name ∷ args) w v = elim (Option-cases (find_command name w.known)) [
    | inl e ↦ rw (e, Leaves) (print-IsWorld (Output.not_found name) w v)
    | inr (cmd, e) ↦ rw (e, Leaves) (call-IsWorld cmd.main (name ∷ args) w v)
  ]

  -- Whatever is typed, whatever the kernel, the dynamic linker, libc and the files give, and
  -- wherever the loop stops without a fault: if the commands ascended, no loaded module stood in
  -- the list twice, the engines kept to what is registered of them, and the stream's state was one
  -- that its callers and threads can reach, then all this still holds. So two threads never play
  -- at once. The list inserts and deletes as include/mlib/list.h documents.
  pub shell-IsWorld :
      (realloc : ℕ → Bool) (tokens : List Lex) (s : Streams) (w : World)
      → IsWorld w
      → Leaves IsWorld (shell h os disk c linker opened created realloc tokens s w)
  unfolding shell mlib_loop
  shell-IsWorld realloc tokens s w v =
      loop_rounds-Leaves IsWorld h realloc (run_command h os disk c linker opened created)
        run_command-IsWorld (suc (length tokens)) tokens s w v
