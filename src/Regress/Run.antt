-- ===== src/Regress/Run.antt =====
-- How the tests are run: the options of regress/regress.c, its loop and its `main`.
use mlib.Prelude.{ℕ, ◌+◌, ◌-◌, Bool, true, false, Option, none, some, List, [], ◌∷◌}
use mlib.Memory.{Library, ok, failed}
use mlib.Text.{Text}
use mlib.Regress.{RegressionTest, Ran, returns, exits, faults}

-- How many tests have passed, and how many were run.
pub record Stats : Type 0 where
  pub passed : ℕ
  pub total : ℕ

-- The loop of `do_regressions`, where `run` is `do_single_regression`. No result is an exit or a fault.
unfoldable pub regress_loop :
    (RegressionTest → Option Library → Ran)
    → Bool
    → List RegressionTest
    → Option Library
    → Stats
    → Option Stats
regress_loop run abort_on_fail [] tlib stats = some stats
regress_loop run abort_on_fail (test ∷ tests) tlib stats =
    let total = stats.total + 1 in
    elim (run test tlib) [
      | exits ↦ none
      | faults ↦ none
      | returns ok tlib' ↦
          regress_loop run abort_on_fail tests tlib'
            (record { passed = stats.passed + 1; total = total })
      | returns failed tlib' ↦ elim abort_on_fail [
        | true ↦ some (record stats { total = total })
        | false ↦
            regress_loop run abort_on_fail tests tlib'
              (record { passed = stats.passed; total = total })
      ]
    ]

-- `do_regressions`: the number of failures.
unfoldable pub do_regressions :
    (RegressionTest → Option Library → Ran) → Bool → List RegressionTest → Option ℕ
do_regressions run abort_on_fail tests =
    elim (regress_loop run abort_on_fail tests none (record { passed = 0; total = 0 })) [
      | none ↦ none
      | some stats ↦ some (stats.total - stats.passed)
    ]

-- What `getopt_long` returns, with `optarg`; `other` is '?' and ':'.
pub data Opt : Type 0 where
  help : Opt
  abort : Opt
  out_file : Text → Opt
  verbose : Opt
  other : Opt

-- The static variables that modify the behaviour. The last two are read nowhere.
pub record Settings : Type 0 where
  pub abort_on_fail : Bool
  pub is_verbose : Bool
  pub output_file : Option Text

-- How `parse_args` ends: with 0, with -1, or in `die_print_help`.
pub data Parsed : Type 0 where
  set : Settings → Parsed
  refused : Parsed
  helped : Parsed

-- `parse_args`
unfoldable pub parse_args : List Opt → Settings → Parsed
parse_args [] s = Parsed.set s
parse_args (Opt.help ∷ opts) s = Parsed.helped
parse_args (Opt.abort ∷ opts) s = parse_args opts (record s { abort_on_fail = true })
parse_args (Opt.out_file name ∷ opts) s = parse_args opts (record s { output_file = some name })
parse_args (Opt.verbose ∷ opts) s = parse_args opts (record s { is_verbose = true })
parse_args (Opt.other ∷ opts) s = Parsed.refused

-- `main` with `run` as in `regress_loop`: what it exits with where no test exits or faults. It does not
-- look at what `do_regressions` returns. The commands that it registers are not used.
unfoldable pub main :
    (RegressionTest → Option Library → Ran) → List RegressionTest → List Opt → Option ℕ
main run tests opts =
    elim (parse_args opts
      (record { abort_on_fail = false; is_verbose = false; output_file = none })) [
        | helped ↦ some 1
        | refused ↦ some 1
        | set s ↦ elim (do_regressions run s.abort_on_fail tests) [ none ↦ none | some n ↦ some 0 ]
      ]
