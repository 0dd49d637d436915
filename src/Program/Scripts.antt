-- ===== src/Program/Scripts.antt =====
-- What the loop does with the lines of a script.
use mathlib.Core.List.{append_assoc}
use mlib.Prelude.{
  ℕ, zero, suc, ◌≤◌, ◌<◌, ◌≡◌, refl, sym, ◌∙◌, ap, inl, inr, Bool, true, some, List, [], ◌∷◌, ◌++◌,
  map, replicate, length, length-append, Option-cases, arith,
}
use mlib.Text.{Text}
use mlib.Lists.{ListHead}
use mlib.Io.{
  Streams, Lex, eol, error, done, string, Line, empty_line, ReadLine, pop_stream, room_for_one,
  read_args, read_line,
}
use mlib.Io.Lines.{read_line-words}
use mlib.Program.Loop.{Ran, then_run, one_round, loop_rounds, mlib_loop}

module _ (h : ListHead) (realloc : ℕ → Bool) where
  -- A line that is read takes a token at least.
  read_args-shorter :
      (line : Line) (tokens : List Lex) (s : Streams) (r : ReadLine)
      → read_args h realloc line tokens s ≡ some r
      → length r.rest < length tokens
  unfolding read_args
  read_args-shorter line [] s r e = cc
  read_args-shorter line (done ∷ tokens) s r e =
      ground (arith, read_args-shorter line tokens (pop_stream h s).1 r)
  read_args-shorter line (eol ∷ tokens) s r e = ground (arith, read_args-shorter line tokens s r)
  read_args-shorter line (error ∷ tokens) s r e = ground arith
  read_args-shorter line (string text ∷ tokens) s r e =
      elim (Option-cases (room_for_one realloc line)) [
        | inl full ↦ ground (arith, full)
        | inr (roomy, room) ↦ ground (
          arith,
          room,
          read_args-shorter (record roomy { argv = roomy.argv ++ text ∷ [] }) tokens s r,
        )
      ]

module _ {W : Type 0} (h : ListHead) (realloc : ℕ → Bool) (body : List Text → W → Ran W) where
  then_run-ext :
      (r : Ran W) (k k' : W → Ran W) → ((w : W) → k w ≡ k' w) → then_run r k ≡ then_run r k'
  unfolding then_run
  then_run-ext (Ran.returns w) k k' same = same w
  then_run-ext (Ran.exits w) k k' same = refl
  then_run-ext Ran.faults k k' same = refl
  then_run-ext (Ran.waits w) k k' same = refl

  one_round-ext :
      (r : ReadLine) (k k' : ReadLine → W → Ran W) (w : W)
      → ((w : W) → k r w ≡ k' r w)
      → one_round (some r) body k w ≡ one_round (some r) body k' w
  unfolding one_round
  one_round-ext r k k' w same = elim (Option-cases r.argv) [
    | inl empty ↦ ground (arith, empty)
    | inr (argv, words) ↦ ground (arith, words, then_run-ext (body argv w) (k r) (k' r) same)
  ]

  -- Any number of rounds that is greater than the number of tokens is enough.
  loop_rounds-more :
      (rounds more : ℕ) (tokens : List Lex) (s : Streams) (w : W)
      → length tokens < rounds
      → length tokens < more
      → loop_rounds h realloc body rounds tokens s w ≡ loop_rounds h realloc body more tokens s w
  unfolding loop_rounds read_line one_round
  loop_rounds-more zero more tokens s w a b = absurd (omega arith)
  loop_rounds-more (suc rounds) zero tokens s w a b = absurd (omega arith)
  loop_rounds-more (suc rounds) (suc more) tokens s w a b =
      elim (Option-cases (read_args h realloc empty_line tokens s)) [
        | inl waits ↦ rw waits refl
        | inr (r, read) ↦
            let fewer = read_args-shorter h realloc empty_line tokens s r read in
            rw read (
              one_round-ext r (λ r. loop_rounds h realloc body rounds r.rest r.streams)
                (λ r. loop_rounds h realloc body more r.rest r.streams) w
                (λ w. loop_rounds-more rounds more r.rest r.streams w (omega arith) (omega arith)))
      ]

-- The tokens of a script, and what the loop should do with its lines: each that has a word is run,
-- in their order, and `last` is what the script ends with.
abbrev pub tokens_of : List (List Text) → List Lex
tokens_of [] = []
tokens_of (line ∷ lines) = map string line ++ eol ∷ tokens_of lines

module _ {W : Type 0} (body : List Text → W → Ran W) (last : W → Ran W) where
  unfoldable pub run_lines : List (List Text) → W → Ran W
  run_lines [] w = last w
  run_lines ([] ∷ lines) w = run_lines lines w
  run_lines ((name ∷ args) ∷ lines) w = then_run (body (name ∷ args) w) (run_lines lines)

-- How a script ends: with an error of the lexer, which ends the loop, or where no more is typed.
pub data Ending : Type 0 where
  with_error : List Lex → Ending
  open_end : Ending

abbrev pub ending_tokens : Ending → List Lex
ending_tokens (with_error rest) = error ∷ rest
ending_tokens open_end = []

abbrev pub ending_run : {W : Type 0} → Ending → W → Ran W
ending_run (with_error rest) w = Ran.returns w
ending_run open_end w = Ran.waits w

replicate-snoc :
    {A : Type 0} (n : ℕ) (a : A) (others : List A)
    → replicate n a ++ (a ∷ others) ≡ a ∷ (replicate n a ++ others)
replicate-snoc zero a others = refl
replicate-snoc (suc n) a others = ap (λ l. a ∷ l) (replicate-snoc n a others)

module _ {W : Type 0} (h : ListHead) (realloc : ℕ → Bool) (grant : (n : ℕ) → realloc n ≡ true)
    (body : List Text → W → Ran W) (ending : Ending) where
  blank_end :
      (blank : ℕ) (s : Streams) (k : ReadLine → W → Ran W) (w : W)
      → one_round (read_line h realloc (replicate blank eol ++ ending_tokens ending) s) body k w
        ≡ ending_run ending w
  unfolding read_line read_args one_round
  blank_end blank s k w = go blank ending
    where
      go :
          (blank : ℕ) (ending : Ending)
          → one_round (read_line h realloc (replicate blank eol ++ ending_tokens ending) s) body k w
            ≡ ending_run ending w
      go zero (with_error rest) = refl
      go zero open_end = refl
      go (suc blank) ending = go blank ending

  loop_rounds-run_lines :
      (lines : List (List Text)) (rounds blank : ℕ) (s : Streams) (w : W)
      → length lines < rounds
      → loop_rounds h realloc body rounds
          (replicate blank eol ++ (tokens_of lines ++ ending_tokens ending))
          s
          w
        ≡ run_lines body (ending_run ending) lines w
  unfolding loop_rounds run_lines one_round
  loop_rounds-run_lines lines zero blank s w fuel = absurd (omega arith)
  loop_rounds-run_lines [] (suc rounds) blank s w fuel =
      blank_end blank s (λ r. loop_rounds h realloc body rounds r.rest r.streams) w
  loop_rounds-run_lines ([] ∷ lines) (suc rounds) blank s w fuel =
      rw (replicate-snoc blank eol (tokens_of lines ++ ending_tokens ending))
        (loop_rounds-run_lines lines (suc rounds) (suc blank) s w (omega arith))
  loop_rounds-run_lines ((name ∷ args) ∷ lines) (suc rounds) blank s w fuel =
      let rest = tokens_of lines ++ ending_tokens ending in
      let tokens =
        ap (λ x. replicate blank eol ++ (string name ∷ x))
          (append_assoc (map string args) (eol ∷ tokens_of lines) (ending_tokens ending))
        ∙ sym (append_assoc (replicate blank eol) (map string (name ∷ args)) (eol ∷ rest)) in
      ap
        (λ x.
          one_round (read_line h realloc x s) body
            (λ r. loop_rounds h realloc body rounds r.rest r.streams) w)
        tokens
      ∙ ap (λ r. one_round r body (λ r. loop_rounds h realloc body rounds r.rest r.streams) w)
          (read_line-words h realloc grant blank name args rest s)
      ∙ then_run-ext h realloc body (body (name ∷ args) w)
          (loop_rounds h realloc body rounds rest s) (run_lines body (ending_run ending) lines)
          (λ w. loop_rounds-run_lines lines rounds 0 s w (omega arith))

  tokens_of-length : (lines : List (List Text)) → length lines ≤ length (tokens_of lines)
  tokens_of-length [] = omega arith
  tokens_of-length (line ∷ lines) =
      omega (arith, tokens_of-length lines, length-append (map string line) (eol ∷ tokens_of lines))

  -- If `realloc` gives memory, then on the lines of a script, whatever they do, mlib_loop runs
  -- every line that has a word, with its words, in the order of the lines, and nothing else. An
  -- error of the lexer behind them ends the loop, and without one the loop waits for more.
  pub mlib_loop-run_lines :
      (lines : List (List Text)) (s : Streams) (w : W)
      → mlib_loop h realloc body (tokens_of lines ++ ending_tokens ending) s w
        ≡ run_lines body (ending_run ending) lines w
  unfolding mlib_loop
  mlib_loop-run_lines lines s w =
      loop_rounds-run_lines lines (suc (length (tokens_of lines ++ ending_tokens ending))) 0 s w (
        omega
          (arith, tokens_of-length lines, length-append (tokens_of lines) (ending_tokens ending)))
