-- ===== src/Regress.antt =====
-- regress/regress.c and regress/basic.c: the program's own tests of the library, and how they are run.
pub mod Playlists
pub mod Paths
pub mod All
pub mod Run
pub mod Count
use mlib.Prelude.{
  ℕ, ◌+◌, ◌-◌, Bool, true, false, ◌&&◌, not, Option, none, some, List, [], ◌∷◌, if◌then◌else◌,
}
use mlib.Memory.{Library, Ptr, M, pure, and_then, ◌>>=◌, ◌>>◌, Status, ok, failed, if_ok}
use mlib.Text.{Text, codes}
use mlib.Lists.{ListHead}
use mlib.Space.{Os}
use mlib.Bucket.{Libc}
use mlib.Playlist.{global_name, find_playlist, start_playlist, delete_playlist, add_path, find_path}
use mlib.Catalog.{Disk, Place, new_file, create_library, open_library, close_library}

-- The functions of the tests.
pub data Verify : Type 0 where
  create : Verify
  open_it : Verify
  mk_rm_pls : Verify
  add_to_plist : Verify

-- `struct regression_test`: `creates` is the flag CREATE_LIBRARY, and `priv` a file's name.
pub record RegressionTest : Type 0 where
  pub name : Text
  pub creates : Bool
  pub func : Verify
  pub priv : Option Text

abbrev pub create_test : RegressionTest
create_test = record {
  name = codes "Verify create";
  creates = false;
  func = Verify.create;
  priv = some (codes ".tlib");
}

abbrev pub open_test : RegressionTest
open_test = record {
  name = codes "Verify open";
  creates = false;
  func = Verify.open_it;
  priv = some (codes ".tlib");
}

abbrev pub lists_test : RegressionTest
lists_test = record {
  name = codes "Verify mk/rm of plists";
  creates = true;
  func = Verify.mk_rm_pls;
  priv = none;
}

abbrev pub paths_test : RegressionTest
paths_test = record {
  name = codes "Add element to playlist";
  creates = true;
  func = Verify.add_to_plist;
  priv = none;
}

-- `regressions`
abbrev pub regressions : List RegressionTest
regressions = create_test ∷ open_test ∷ lists_test ∷ paths_test ∷ []

abbrev pub test_pls : Text
test_pls = codes "test-pls"

abbrev pub test_path : Text
test_path = codes "a/test/path"

-- `regress_verify_mk_rm_pls`
module _ (os : Os) where
  unfoldable pub verify_mk_rm_pls : M Status
  verify_mk_rm_pls = do
    started ← start_playlist os test_pls
    if_ok started do
      there ← find_playlist test_pls
      let remove = do
        deleted ← delete_playlist os test_pls
        if_ok deleted do
          left ← find_playlist test_pls
          pure (elim left as (λ _. Status) [ none ↦ ok | some p ↦ failed ])
      elim there as (λ _. M Status) [ none ↦ pure failed | some p ↦ remove ]

-- `regress_verify_add_to_plist`
module _ (os : Os) (c : Libc) where
  unfoldable pub verify_add_to_plist : M Status
  verify_add_to_plist = do
    added ← add_path os c global_name test_path
    if_ok added do
      there ← find_playlist global_name
      let look = λ (p : Ptr). do
        found ← find_path c p test_path
        pure (elim found as (λ _. Status) [ none ↦ failed | some q ↦ ok ])
      elim there as (λ _. M Status) [ none ↦ pure failed | some p ↦ look p ]

-- What a test leaves: whether it passed, and the file ".tlib"; or the exit of the program, or a fault.
pub data Ran : Type 0 where
  returns : Status → Option Library → Ran
  exits : Ran
  faults : Ran

-- What `open` reads of a file.
abbrev pub disk_of : Option Library → Disk
disk_of none path = none
disk_of (some lib) path = some (lib.size, lib.bytes)

-- What a test does with its library and with ".tlib"; no result is a fault.
abbrev pub OnLibrary : Type 0
OnLibrary = Library → Option Library → Option (Status × Library × Option Library)

abbrev pub keeps_library : (Library → Option Library → Ran) → OnLibrary
keeps_library run lib tlib = elim (run lib tlib) [
  | returns ret tlib' ↦ some (ret, lib, tlib')
  | exits ↦ none
  | faults ↦ none
]

abbrev pub keeps_file : M Status → OnLibrary
keeps_file work lib tlib = elim (work lib) [ none ↦ none | some r ↦ some (r.0, r.1, tlib) ]

module _ (h : ListHead) (os : Os) (c : Libc) (opened : Bool) where
  -- `regress_verify_create`: `open` with O_EXCL fails where the file is there, and on NULL.
  unfoldable pub verify_create : Option Text → Option Library → Ran
  verify_create priv (some lib) = Ran.returns failed (some lib)
  verify_create none none = Ran.returns failed none
  verify_create (some name) none =
      elim (create_library os opened (codes "test-lib") (codes "./") new_file) [
        | none ↦ Ran.faults
        | some r ↦ Ran.returns r.0 (if opened then some r.1 else none)
      ]

  -- `regress_verify_open`, which deletes the file in the end, with these libraries open.
  unfoldable pub verify_open : List Library → Option Text → Option Library → Ran
  verify_open libs none tlib = Ran.faults
  verify_open libs (some name) tlib = elim (open_library h os (disk_of tlib) name false libs) [
    | none ↦ Ran.faults
    | some r ↦ elim r.0 as (λ _. Ran) [
      | none ↦ Ran.returns failed none
      | some lib ↦ elim (close_library h os (record { before = libs; lib = lib; after = [] })) [
        | none ↦ Ran.faults
        | some closed ↦ Ran.returns closed.0 none
      ]
    ]
  ]

  -- A test on a library that `do_single_regression` has made and closes again. No file of its name is
  -- there before.
  unfoldable pub on_new_library : OnLibrary → Option Library → Ran
  on_new_library work tlib = elim (create_library os opened (codes "tl") (codes "./") new_file) [
    | none ↦ Ran.faults
    | some (failed, made) ↦ Ran.exits
    | some (ok, made) ↦
        elim (open_library h os (disk_of (some made)) (codes ".test-mlib.lib") false []) [
          | none ↦ Ran.faults
          | some r ↦ elim r.0 as (λ _. Ran) [
            | none ↦ Ran.exits
            | some lib ↦ elim (work lib tlib) [
              | none ↦ Ran.faults
              | some (pass, left, tlib') ↦
                  elim (close_library h os (record { before = []; lib = left; after = [] })) [
                    | none ↦ Ran.faults
                    | some closed ↦ Ran.returns pass tlib'
                  ]
            ]
          ]
        ]
  ]

  -- The function of a test that has a library; the first two do not look at it.
  unfoldable pub with_library : Verify → Option Text → OnLibrary
  with_library Verify.create priv = keeps_library (λ lib tlib. verify_create priv tlib)
  with_library Verify.open_it priv = keeps_library (λ lib tlib. verify_open (lib ∷ []) priv tlib)
  with_library Verify.mk_rm_pls priv = keeps_file (verify_mk_rm_pls os)
  with_library Verify.add_to_plist priv = keeps_file (verify_add_to_plist os c)

  -- The function of a test whose library is NULL, which the last two read.
  unfoldable pub without_library : Verify → Option Text → Option Library → Ran
  without_library Verify.create priv tlib = verify_create priv tlib
  without_library Verify.open_it priv tlib = verify_open [] priv tlib
  without_library Verify.mk_rm_pls priv tlib = Ran.faults
  without_library Verify.add_to_plist priv tlib = Ran.faults

  -- `do_single_regression`
  unfoldable pub do_single_regression : RegressionTest → Option Library → Ran
  do_single_regression test tlib =
      if test.creates
      then on_new_library (with_library test.func test.priv) tlib
      else without_library test.func test.priv tlib
