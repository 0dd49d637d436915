-- ===== src/Program/Runs.antt =====
-- What holds at the end of a run of the loop, if each line keeps it.
use mlib.Prelude.{ℕ, zero, suc, Bool, inl, inr, Option, none, some, List, Option-cases}
use mlib.Memory.{ok, failed}
use mlib.Text.{Text}
use mlib.Lists.{ListHead}
use mlib.Io.{Streams, Lex, ReadLine, read_line}
use mlib.Program.Loop.{Ran, then_run, one_round, loop_rounds}

-- The state that a run leaves, where it does not fault, has `P`.
abbrev pub Leaves : {W : Type 0} → (W → Type 0) → Ran W → Type 0
Leaves P (Ran.returns w) = P w
Leaves P (Ran.exits w) = P w
Leaves P Ran.faults = Unit
Leaves P (Ran.waits w) = P w

module _ {W : Type 0} (P : W → Type 0) where
  then_run-Leaves :
      (r : Ran W) (k : W → Ran W)
      → Leaves P r
      → ((w : W) → P w → Leaves P (k w))
      → Leaves P (then_run r k)
  unfolding then_run
  then_run-Leaves (Ran.returns w) k p q = q w p
  then_run-Leaves (Ran.exits w) k p q = p
  then_run-Leaves Ran.faults k p q = tt
  then_run-Leaves (Ran.waits w) k p q = p

  module _ (h : ListHead) (realloc : ℕ → Bool) (body : List Text → W → Ran W)
      (keeps : (argv : List Text) (w : W) → P w → Leaves P (body argv w)) where
    one_round-Leaves :
        (read : Option ReadLine) (behind : ReadLine → W → Ran W) (w : W)
        → P w
        → ((r : ReadLine) (w : W) → P w → Leaves P (behind r w))
        → Leaves P (one_round read body behind w)
    unfolding one_round
    one_round-Leaves none behind w p q = p
    one_round-Leaves (some r) behind w p q =
        elim r.status
          as (λ s. Leaves P (elim s [
            | failed ↦ Ran.returns w
            | ok ↦ elim r.argv [ none ↦ Ran.faults | some argv ↦ then_run (body argv w) (behind r) ]
          ])) [
            | failed ↦ p
            | ok ↦ elim (Option-cases r.argv) [
              | inl e ↦ rw e tt
              | inr (argv, e) ↦
                  rw e (then_run-Leaves (body argv w) (behind r) (keeps argv w p) (q r))
            ]
          ]

    pub loop_rounds-Leaves :
        (rounds : ℕ) (tokens : List Lex) (s : Streams) (w : W)
        → P w
        → Leaves P (loop_rounds h realloc body rounds tokens s w)
    unfolding loop_rounds
    loop_rounds-Leaves zero tokens s w p = tt
    loop_rounds-Leaves (suc rounds) tokens s w p =
        one_round-Leaves (read_line h realloc tokens s)
          (λ r. loop_rounds h realloc body rounds r.rest r.streams) w p
          (λ r w p. loop_rounds-Leaves rounds r.rest r.streams w p)
