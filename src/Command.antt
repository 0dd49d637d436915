-- ===== src/Command.antt =====
-- src/command.c: the list of known commands, and the commands that every program has.
pub mod Register
pub mod Lookup
use Prim.Native.Nat.{Ordering}
use mlib.Prelude.{ℕ, suc, ◌+◌, ◌-◌, Bool, Option, none, some, List, [], ◌∷◌, ◌++◌, if◌then◌else◌}
use mlib.Memory.{Status, ok, failed}
use mlib.Text.{Text, strcmp, is_eq}
use mlib.Lists.{ListHead}

-- `struct mlib_command`; what runs it is of any type.
pub record Command (Main : Type 0) : Type 0 where
  pub name : Text
  pub desc : Text
  pub main : Main

module _ {Main : Type 0} where
  module _ (h : ListHead) where
    -- The loop of `mlib_command_register`, behind the commands that it has passed.
    unfoldable pub register_behind :
        List (Command Main) → List (Command Main) → Command Main → Status × List (Command Main)
    register_behind before [] command = (ok, h.list_add_tail before command [])
    register_behind before (cmd ∷ cmds) command =
        let further = register_behind (before ++ cmd ∷ []) cmds command in
        elim (strcmp command.name cmd.name) [
          | Ordering.eq ↦ (failed, before ++ cmd ∷ cmds)
          | Ordering.lt ↦ (ok, h.list_add_tail before command (cmd ∷ cmds))
          | Ordering.gt ↦ further
        ]

    -- `mlib_command_register`
    unfoldable pub command_register :
        Command Main → List (Command Main) → Status × List (Command Main)
    command_register command cmds = register_behind [] cmds command

    -- `mlib_register_builtins`: what the registrations return is not looked at.
    unfoldable pub register_builtins :
        (echo run help exit : Command Main) → List (Command Main) → Status × List (Command Main)
    register_builtins echo run help exit cmds =
        let with_echo = command_register echo cmds in
        let with_run = command_register run with_echo.1 in
        let with_help = command_register help with_run.1 in
        let with_exit = command_register exit with_help.1 in (ok, with_exit.1)

  -- `mlib_find_command`
  unfoldable pub find_command : Text → List (Command Main) → Option (Command Main)
  find_command name [] = none
  find_command name (cmd ∷ cmds) =
      let further = find_command name cmds in
      if is_eq (strcmp cmd.name name) then some cmd else further

-- `__mlib_run`
unfoldable pub run : List Text → Status
run argv = failed

-- What `__mlib_echo` prints of the arguments behind its own name: a blank behind each, a new line
-- behind the last.
unfoldable pub echo_args : List Text → Text
echo_args [] = []
echo_args (arg ∷ []) = arg ++ b'\n' ∷ []
echo_args (arg ∷ more ∷ args) = arg ++ b' ' ∷ echo_args (more ∷ args)

-- `__mlib_echo`
unfoldable pub echo : List Text → Status × Text
echo [] = (ok, [])
echo (name ∷ args) = (ok, echo_args args)
