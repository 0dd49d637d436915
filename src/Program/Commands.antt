-- ===== src/Program/Commands.antt =====
-- Which command a name runs, after the parts have registered theirs.
use mlib.Prelude.{◌≡◌, refl, sym, ◌∙◌, ap, some, List, [], ◌∷◌, map}
use mlib.Memory.{ok}
use mlib.Text.{Text, strcmp}
use mlib.Lists.{ListHead, IsListHead}
use mlib.Command.{Command, command_register, register_builtins, find_command}
use mlib.Command.Register.{Ascending, command_register-Ascending}
use mlib.Command.Lookup.{first_of, first_of_assoc, first_of-none, find-cons, find-registered}
use mlib.Program.Start.{
  Main, Callee, command_of, register_all, library_init, playlist_init, module_init, bucket_init,
  engine_init, mlib_init,
}

module _ {h : ListHead} (k : IsListHead h) where
  pub register_all-Ascending :
      (ms : List Main) (cmds : List (Command Callee))
      → Ascending cmds
      → Ascending (register_all h ms cmds)
  unfolding register_all
  register_all-Ascending [] cmds a = a
  register_all-Ascending (m ∷ ms) cmds a =
      register_all-Ascending ms (command_register h (command_of m) cmds).1
        (command_register-Ascending k (command_of m) cmds a)

  -- Where the commands ascend, what a name finds after further registrations is what it found
  -- before, or else the first that was registered with that name.
  pub find-register_all :
      (ms : List Main) (cmds : List (Command Callee)) (name : Text)
      → Ascending cmds
      → find_command name (register_all h ms cmds)
        ≡ first_of (find_command name cmds) (find_command name (map command_of ms))
  unfolding register_all find_command
  find-register_all [] cmds name a = sym (first_of-none (find_command name cmds))
  find-register_all (m ∷ ms) cmds name a =
      let after = command_register h (command_of m) cmds in
      find-register_all ms after.1 name (command_register-Ascending k (command_of m) cmds a)
      ∙ ap (λ o. first_of o (find_command name (map command_of ms)))
          (find-registered k (command_of m) cmds name a)
      ∙ first_of_assoc (find_command name cmds) (find_command name (command_of m ∷ []))
          (find_command name (map command_of ms))
      ∙ ap (first_of (find_command name cmds))
          (sym (find-cons (command_of m) (map command_of ms) name))

  abbrev pub all_commands : List Main
  all_commands =
      Main.echo ∷ Main.run ∷ Main.help ∷ Main.exit ∷ Main.open_library ∷ Main.close_library
      ∷ Main.create_library ∷ Main.list_libraries ∷ Main.make_playlist ∷ Main.rm_playlist
      ∷ Main.ls_playlist ∷ Main.playlist_add ∷ Main.load_module ∷ Main.lsmod ∷ Main.play
      ∷ Main.pause ∷ Main.stop ∷ Main.engines ∷ []

  mlib_init-register_all :
      (cmds : List (Command Callee)) → mlib_init h cmds ≡ (ok, register_all h all_commands cmds)
  unfolding mlib_init register_builtins library_init playlist_init module_init bucket_init
      engine_init register_all
  mlib_init-register_all cmds = refl

  own :
      (m : Main)
      → find_command (command_of m).name (map command_of all_commands) ≡ some (command_of m)
  unfolding find_command command_of strcmp
  own Main.echo = refl
  own Main.run = refl
  own Main.help = refl
  own Main.exit = refl
  own Main.open_library = refl
  own Main.close_library = refl
  own Main.create_library = refl
  own Main.list_libraries = refl
  own Main.make_playlist = refl
  own Main.rm_playlist = refl
  own Main.ls_playlist = refl
  own Main.playlist_add = refl
  own Main.load_module = refl
  own Main.lsmod = refl
  own Main.play = refl
  own Main.pause = refl
  own Main.stop = refl
  own Main.engines = refl

  -- After mlib_init, every command of the program is found under its own name, and the commands are
  -- in strictly ascending order of their names. The list inserts as include/mlib/list.h documents.
  pub mlib_init-finds :
      (m : Main)
      → (find_command (command_of m).name (mlib_init h []).1 ≡ some (command_of m))
        × Ascending (mlib_init h []).1
  unfolding find_command
  mlib_init-finds m = rw (mlib_init-register_all []) (
    find-register_all all_commands [] (command_of m).name tt ∙ own m,
    register_all-Ascending all_commands [] tt,
  )
