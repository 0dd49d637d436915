-- ===== src/Genlib/Main.antt =====
-- `main` of src/mlib_genlib.c.
use mlib.Prelude.{Bool, Option, none, some, List, []}
use mlib.Memory.{Library, Status}
use mlib.Text.{Text, codes}
use mlib.Lists.{ListHead}
use mlib.Space.{Os}
use mlib.Bucket.{Libc}
use mlib.Catalog.{Disk, open_library}
use mlib.Genlib.{Entries, Shown, do_search}
use mlib.Genlib.Options.{Opt, Settings, unset, Parsed, parse_args, prepare}
use mlib.Genlib.Options

-- What the program finds: whether `stat` finds the output, whether `unlink` deletes it, whether
-- `open` makes a new file, what `open` reads of the old file, what `realpath` returns for a
-- directory, what is in a directory that `opendir` opens, and what stands in `ret` before it is set.
pub record Files : Type 0 where
  pub exists : Bool
  pub unlinked : Bool
  pub opened : Bool
  pub old : Disk
  pub realpath : Text → Option Text
  pub opendir : Text → Option Entries
  pub junk : Text → Status

-- How the program ends: in `die` with status 1, with 0 and what it has shown of the library, or
-- with a fault.
pub data Exit : Type 0 where
  one : Exit
  zero_with : Shown → Library → Exit
  crash : Exit

-- What `open` reads of a file that was made.
abbrev pub made_file : Library → Disk
made_file lib path = some (lib.size, lib.bytes)

abbrev pub name_or : Option Text → Text
name_or none = codes "genlib library"
name_or (some name) = name

module _ (os : Os) (c : Libc) (files : Files) where
  -- The search in the library that was opened.
  unfoldable pub search_in : Settings → Text → Library → Exit
  search_in s dir lib = elim (do_search os c s.custom_list files.junk dir (files.opendir dir) lib) [
    | none ↦ Exit.crash
    | some r ↦ elim r.0 as (λ _. Exit) [ none ↦ Exit.one | some shown ↦ Exit.zero_with shown r.1 ]
  ]

module _ (h : ListHead) (os : Os) (c : Libc) (files : Files) where
  -- `mlib_open_library` and the search, where no library is open before.
  unfoldable pub open_and_search : Disk → Settings → Text → Text → Exit
  open_and_search disk s dir output = elim (open_library h os disk output Bool.false []) [
    | none ↦ Exit.crash
    | some r ↦ elim r.0 as (λ _. Exit) [
      | none ↦ Exit.one
      | some lib ↦ search_in os c files s dir lib
    ]
  ]

  -- Behind the choice of the prefix.
  unfoldable pub run_with : Settings → Text → Text → Text → Exit
  run_with s dir output prefix =
      elim (prepare os files.exists files.unlinked files.opened (name_or s.name) prefix s) [
        | Options.Ready.dead ↦ Exit.one
        | Options.Ready.crashed ↦ Exit.crash
        | Options.Ready.kept ↦ open_and_search files.old s dir output
        | Options.Ready.made status lib ↦ open_and_search (made_file lib) s dir output
      ]

  -- Behind `parse_args`, which has set `dir` and `output`.
  unfoldable pub with_settings : Settings → Text → Text → Exit
  with_settings s dir output = elim s.given_prefix [
    | some prefix ↦ run_with s dir output prefix
    | none ↦ elim (files.realpath dir) [
      | none ↦ Exit.one
      | some prefix ↦ run_with s dir output prefix
    ]
  ]

  -- `main`. That `parse_args` returns 0 without `dir` and `output` does not happen.
  unfoldable pub main : List Opt → List Text → Exit
  main opts args = elim (parse_args opts args unset) [
    | Parsed.refused ↦ Exit.one
    | Parsed.helped ↦ Exit.one
    | Parsed.faulted ↦ Exit.crash
    | Parsed.set s ↦ elim s.dir [
      | none ↦ Exit.crash
      | some dir ↦ elim s.output [ none ↦ Exit.crash | some output ↦ with_settings s dir output ]
    ]
  ]
