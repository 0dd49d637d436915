-- ===== src/Genlib/Options.antt =====
-- The options of the generator, and how it makes its library ready: `parse_args` and `main`.
use mlib.Prelude.{
  Bool, true, false, ◌≡◌, ◌⊎◌, refl, sym, ap, ◌∙◌, inl, inr, Bool-cases, Option-cases, Option, none,
  some, List, [], ◌∷◌, ◌==◌, if◌then◌else◌, arith,
}
use mlib.Memory.{Library, Status, ok, failed}
use mlib.Text.{Text}
use mlib.Space.{Os}
use mlib.Catalog.{create_library, new_file}
use mlib.Util.{parse_list, strings_of, store_len, count_delimiters}

-- What `getopt_long` returns, with `optarg`; `other` is '?' and every character that the switch has
-- no case for.
pub data Opt : Type 0 where
  filters : Text → Opt
  media_prefix : Text → Opt
  overwrite : Opt
  lib_name : Text → Opt
  verbose : Opt
  help : Opt
  other : Opt

-- The static variables of the program that the options set.
pub record Settings : Type 0 where
  pub custom_list : Option (List Text)
  pub given_prefix : Option Text
  pub name : Option Text
  pub overwrites : Bool
  pub is_verbose : Bool
  pub dir : Option Text
  pub output : Option Text

abbrev pub unset : Settings
unset = record {
  custom_list = none;
  given_prefix = none;
  name = none;
  overwrites = false;
  is_verbose = false;
  dir = none;
  output = none;
}

-- How `parse_args` ends: with 0, with -1, in `die_help`, or with a fault.
pub data Parsed : Type 0 where
  set : Settings → Parsed
  refused : Parsed
  helped : Parsed
  faulted : Parsed

-- `mlib_parse_list(optarg, ',', NULL)`
unfoldable pub set_filters : Text → Settings → Option Settings
set_filters list s = elim (parse_list b',' list none) [
  | none ↦ none
  | some r ↦ some (record s { custom_list = r.0 })
]

-- `parse_args`: the arguments behind the options are `dir` and `output`.
unfoldable pub parse_args : List Opt → List Text → Settings → Parsed
parse_args [] [] s = Parsed.helped
parse_args [] (dir ∷ []) s = Parsed.helped
parse_args [] (dir ∷ output ∷ args) s =
    Parsed.set (record s { dir = some dir; output = some output })
parse_args (Opt.filters list ∷ opts) args s = elim (set_filters list s) [
  | none ↦ Parsed.faulted
  | some s' ↦ parse_args opts args s'
]
parse_args (Opt.media_prefix p ∷ opts) args s =
    parse_args opts args (record s { given_prefix = some p })
parse_args (Opt.overwrite ∷ opts) args s = parse_args opts args (record s { overwrites = true })
parse_args (Opt.lib_name n ∷ opts) args s = parse_args opts args (record s { name = some n })
parse_args (Opt.verbose ∷ opts) args s = parse_args opts args (record s { is_verbose = true })
parse_args (Opt.help ∷ opts) args s = Parsed.helped
parse_args (Opt.other ∷ opts) args s = Parsed.refused

-- The file that `main` has before it opens it: none where it exits, the one that was there, or a
-- new one with what `mlib_create_library` returned.
pub data Ready : Type 0 where
  dead : Ready
  kept : Ready
  made : Status → Library → Ready
  crashed : Ready

-- `main`, from `stat` to `mlib_open_library`: whether the file exists, whether `unlink` deletes it,
-- and whether `open` makes a new one. The result of the second `mlib_create_library` is not
-- looked at.
unfoldable pub prepare : Os → (exists unlinked opened : Bool) → Text → Text → Settings → Ready
prepare os exists unlinked opened name given s =
    let new = elim (create_library os opened name given new_file) as (λ _. Ready) [
      | none ↦ Ready.crashed
      | some r ↦ Ready.made r.0 r.1
    ] in
    let again = elim (create_library os opened name given new_file) as (λ _. Ready) [
      | none ↦ Ready.crashed
      | some (ok, lib) ↦ Ready.made ok lib
      | some (failed, lib) ↦ Ready.dead
    ] in
    if exists
    then (if s.overwrites then (if unlinked then again else Ready.dead) else Ready.kept)
    else new

-- The option has no word for `mlib_parse_list` or it is a fault.
pub set_filters-fails :
    (list : Text) (s : Settings)
    → (set_filters list s ≡ none) ⊎ (set_filters list s ≡ some (record s { custom_list = none }))
unfolding set_filters parse_list store_len
set_filters-fails list s = elim (Bool-cases (count_delimiters b',' list == 0)) [
  | inl zero ↦ inr (ground (arith, zero))
  | inr some_there ↦
      elim (Option-cases (strings_of b',' (count_delimiters b',' list) (some list))) [
        | inl e ↦ inl (ground (arith, some_there, e))
        | inr (strings, e) ↦ inl (ground (arith, some_there, e))
      ]
]

abbrev filters_of : Parsed → Option (List Text)
filters_of (Parsed.set s) = s.custom_list
filters_of Parsed.refused = none
filters_of Parsed.helped = none
filters_of Parsed.faulted = none

-- Where no list of filters was set, none is after parse_args has returned 0, whichever options were
-- given: `-f` leaves the list empty or makes a fault.
pub parse_args-unfiltered :
    (opts : List Opt) (args : List Text) (s s' : Settings)
    → s.custom_list ≡ none
    → parse_args opts args s ≡ Parsed.set s'
    → s'.custom_list ≡ none
unfolding parse_args
parse_args-unfiltered [] [] s s' e p = cc
parse_args-unfiltered [] (dir ∷ []) s s' e p = cc
parse_args-unfiltered [] (dir ∷ output ∷ args) s s' e p = sym (ap filters_of p) ∙ e
parse_args-unfiltered (Opt.filters list ∷ opts) args s s' e p = elim (set_filters-fails list s) [
  | inl fault ↦ ground (arith, fault)
  | inr unset_list ↦
      parse_args-unfiltered opts args (record s { custom_list = none }) s' refl
        (ground (arith, unset_list))
]
parse_args-unfiltered (Opt.media_prefix q ∷ opts) args s s' e p =
    parse_args-unfiltered opts args (record s { given_prefix = some q }) s' e p
parse_args-unfiltered (Opt.overwrite ∷ opts) args s s' e p =
    parse_args-unfiltered opts args (record s { overwrites = true }) s' e p
parse_args-unfiltered (Opt.lib_name n ∷ opts) args s s' e p =
    parse_args-unfiltered opts args (record s { name = some n }) s' e p
parse_args-unfiltered (Opt.verbose ∷ opts) args s s' e p =
    parse_args-unfiltered opts args (record s { is_verbose = true }) s' e p
parse_args-unfiltered (Opt.help ∷ opts) args s s' e p = cc
parse_args-unfiltered (Opt.other ∷ opts) args s s' e p = cc
