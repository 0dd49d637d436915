-- ===== src/Program/Loop.antt =====
-- src/mlib_shell.c: the loop that reads lines and runs their commands.
use mlib.Prelude.{ℕ, zero, suc, Bool, Option, none, some, List, [], ◌∷◌, length}
use mlib.Memory.{ok, failed}
use mlib.Text.{Text}
use mlib.Lists.{ListHead}
use mlib.Command.{Command, find_command}
use mlib.Io.{Streams, Lex, ReadLine, read_line}

-- How running a command or the loop ends, with the program's state: it returns, it ends the
-- process, it makes a fault, or it waits for input.
pub data Ran (W : Type 0) : Type 0 where
  returns : W → Ran W
  exits : W → Ran W
  faults : Ran W
  waits : W → Ran W

module _ {W : Type 0} where
  unfoldable pub then_run : Ran W → (W → Ran W) → Ran W
  then_run (Ran.returns w) k = k w
  then_run (Ran.exits w) k = Ran.exits w
  then_run Ran.faults k = Ran.faults
  then_run (Ran.waits w) k = Ran.waits w

  -- The body of the loop: `argv[0]` names the command. The registered commands are part of the
  -- state, `execute` calls a command's function, and `not_found` prints.
  unfoldable pub run_line :
      {Main : Type 0}
      → (W → List (Command Main))
      → (Main → List Text → W → Ran W)
      → (Text → W → W)
      → List Text
      → W
      → Ran W
  run_line commands execute not_found [] w = Ran.faults
  run_line commands execute not_found (name ∷ args) w = elim (find_command name (commands w)) [
    | none ↦ Ran.returns (not_found name w)
    | some cmd ↦ execute cmd.main (name ∷ args) w
  ]

  -- A round of `mlib_loop`: the line that was read, what its words do, and what comes behind it.
  unfoldable pub one_round :
      Option ReadLine → (List Text → W → Ran W) → (ReadLine → W → Ran W) → W → Ran W
  one_round none body behind w = Ran.waits w
  one_round (some r) body behind w = elim r.status [
    | failed ↦ Ran.returns w
    | ok ↦ elim r.argv [ none ↦ Ran.faults | some argv ↦ then_run (body argv w) (behind r) ]
  ]

  -- `mlib_loop`, on what the lexer will return, with `body` for each line. Each round takes a token
  -- at least.
  module _ (h : ListHead) (realloc : ℕ → Bool) (body : List Text → W → Ran W) where
    unfoldable pub loop_rounds : ℕ → List Lex → Streams → W → Ran W
    loop_rounds zero tokens s w = Ran.faults
    loop_rounds (suc rounds) tokens s w =
        one_round (read_line h realloc tokens s) body (λ r. loop_rounds rounds r.rest r.streams) w

    unfoldable pub mlib_loop : List Lex → Streams → W → Ran W
    mlib_loop tokens s w = loop_rounds (suc (length tokens)) tokens s w
