-- ===== src/Regress/Count.antt =====
-- What `do_regressions` counts.
use mlib.Prelude.{
  ℕ, ◌+◌, ◌-◌, ◌≤◌, ◌≡◌, refl, Bool, true, false, ◌⊎◌, inl, inr, Option-cases, if◌then◌else◌,
  Option, none, some, List, [], ◌∷◌, length, arith,
}
use mlib.Memory.{Library, Status, ok, failed}
use mlib.Regress.{RegressionTest, Ran, returns, exits, faults}
use mlib.Regress.Run.{Stats, regress_loop, do_regressions, Opt, Parsed, Settings, parse_args, main}

-- The tests that fail, each run behind the one before; no result where one exits or faults.
unfoldable pub failures :
    (RegressionTest → Option Library → Ran) → List RegressionTest → Option Library → Option ℕ
failures run [] tlib = some 0
failures run (test ∷ tests) tlib = elim (run test tlib) [
  | exits ↦ none
  | faults ↦ none
  | returns ok tlib' ↦ failures run tests tlib'
  | returns failed tlib' ↦ elim (failures run tests tlib') [ none ↦ none | some n ↦ some (n + 1) ]
]

-- A test stops the run, or returns.
Ran-cases :
    (r : Ran)
    → ((stop : Bool) × (r ≡ (if stop then Ran.exits else Ran.faults)))
      ⊎ ((s : Status) × (t : Option Library) × (r ≡ returns s t))
Ran-cases (returns s t) = inr (s, t, refl)
Ran-cases exits = inl (true, refl)
Ran-cases faults = inl (false, refl)

loop_counts :
    (run : RegressionTest → Option Library → Ran) (tests : List RegressionTest)
    (tlib : Option Library) (stats : Stats) (n : ℕ)
    → stats.passed ≤ stats.total
    → failures run tests tlib ≡ some n
    → (after : Stats) × (regress_loop run false tests tlib stats ≡ some after)
      × (after.total ≡ stats.total + length tests)
      × (after.total ≡ after.passed + (stats.total - stats.passed) + n)
unfolding failures regress_loop
loop_counts run [] tlib stats n le e = (stats, refl, omega arith, ground arith)
loop_counts run (test ∷ tests) tlib stats n le e = elim (Ran-cases (run test tlib)) [
  | inl (none_ran, stopped) ↦ absurd (ground (arith, stopped))
  | inr (ok, tlib', ran) ↦
      let counted : Stats = record { passed = stats.passed + 1; total = stats.total + 1 } in
      let (after, runs, all, sum) =
        loop_counts run tests tlib' counted n (omega arith) (ground (arith, ran)) in
      (after, rw (regress_loop, ran) runs, omega arith, omega arith)
  | inr (failed, tlib', ran) ↦ elim (Option-cases (failures run tests tlib')) [
    | inl missed ↦ absurd (ground (arith, ran, missed))
    | inr (m, rest) ↦
        let counted : Stats = record { passed = stats.passed; total = stats.total + 1 } in
        let one_more : n ≡ m + 1 = ground (arith, ran, rest) in
        let (after, runs, all, sum) = loop_counts run tests tlib' counted m (omega arith) rest in
        (after, rw (regress_loop, ran) runs, omega arith, omega arith)
  ]
]

-- Where no test exits or faults and a failure does not abort, do_regressions runs every test behind
-- the one before and returns how many of them fail.
do_regressions-failures :
    (run : RegressionTest → Option Library → Ran) (tests : List RegressionTest) (n : ℕ)
    → failures run tests none ≡ some n
    → do_regressions run false tests ≡ some n
unfolding do_regressions
do_regressions-failures run tests n e =
    let (after, runs, all, sum) =
      loop_counts run tests none (record { passed = 0; total = 0 }) n (omega arith) e in
    rw (do_regressions, runs) (ground (arith, sum))

-- Whether no option is among them that ends `parse_args`, or that aborts on a failure.
unfoldable pub goes_on : List Opt → Bool
goes_on [] = true
goes_on (Opt.help ∷ opts) = false
goes_on (Opt.abort ∷ opts) = false
goes_on (Opt.out_file name ∷ opts) = goes_on opts
goes_on (Opt.verbose ∷ opts) = goes_on opts
goes_on (Opt.other ∷ opts) = false

parse_args-goes_on :
    (opts : List Opt) (s : Settings)
    → goes_on opts ≡ true
    → s.abort_on_fail ≡ false
    → (s' : Settings) × (parse_args opts s ≡ Parsed.set s') × (s'.abort_on_fail ≡ false)
unfolding goes_on parse_args
parse_args-goes_on [] s h f = (s, refl, f)
parse_args-goes_on (Opt.help ∷ opts) s h f = absurd (ground arith)
parse_args-goes_on (Opt.abort ∷ opts) s h f = absurd (ground arith)
parse_args-goes_on (Opt.out_file name ∷ opts) s h f =
    parse_args-goes_on opts (record s { output_file = some name }) h f
parse_args-goes_on (Opt.verbose ∷ opts) s h f =
    parse_args-goes_on opts (record s { is_verbose = true }) h f
parse_args-goes_on (Opt.other ∷ opts) s h f = absurd (ground arith)

-- Where no option asks for help, is refused or aborts on a failure, and no test exits or faults,
-- do_regressions runs every test behind the one before and returns how many of them fail; but the
-- program ends with 0, however many those are.
pub main-ignores_failures :
    (run : RegressionTest → Option Library → Ran) (tests : List RegressionTest) (opts : List Opt)
    (n : ℕ)
    → goes_on opts ≡ true
    → failures run tests none ≡ some n
    → (do_regressions run false tests ≡ some n) × (main run tests opts ≡ some 0)
unfolding main
main-ignores_failures run tests opts n h e =
    let counted = do_regressions-failures run tests n e in
    let (s, parsed, goes) =
      parse_args-goes_on opts
        (record { abort_on_fail = false; is_verbose = false; output_file = none }) h refl in
    (counted, rw (main, parsed, goes, counted) refl)
