-- ===== src/Regress/All.antt =====
-- All tests of the program, one behind the other.
use mlib.Prelude.{
  ◌≤◌, ◌+◌, ◌≡◌, refl, ◌∙◌, Bool, true, false, Option, none, some, List, [], ◌∷◌, arith,
}
use mlib.Memory.{Library, M, Status, ok}
use mlib.Text.{Text, strcmp, codes}
use mlib.Lists.{ListHead, IsListHead}
use mlib.Space.{Os}
use mlib.Space.Grow.{lib_len_ok}
use mlib.Bucket.{Libc}
use mlib.Bucket.Standard.{IsLibc}
use mlib.Playlist.{global_name}
use mlib.Playlist.Add.{Places}
use mlib.Playlist.Holds.{Playlist}
use mlib.Playlist.Begin.{empty_playlist}
use mlib.Catalog.{new_file, create_library, open_library, close_library}
use mlib.Catalog.Create.{file_at, IsNew, open-create_library}
use mlib.Catalog.Find.{close_library-append}
use mlib.Store.{exists, put}
use mlib.Store.Bag.{has}
use mlib.Store.View.{view}
use mlib.Store.Steps.{Good, Obliges}
use mlib.Regress.{
  keeps_file, RegressionTest, Ran, regressions, create_test, open_test, lists_test, paths_test,
  test_pls, test_path, verify_mk_rm_pls, verify_add_to_plist, verify_create, verify_open,
  on_new_library, with_library, without_library, do_single_regression,
}
use mlib.Regress.Run.{Stats, regress_loop, do_regressions}
use mlib.Regress.Playlists.{verify_mk_rm_pls-passes}
use mlib.Regress.Paths.{verify_add_to_plist-passes}

abbrev new_lists : List Playlist
new_lists = empty_playlist global_name ∷ []

IsNew-Good : {l : Library} {name given : Text} → IsNew l name given → 1 ≤ l.base → Good l new_lists
IsNew-Good new placed = record { lib = new.lib; counted = (refl, tt); placed = placed }

-- What a store is that shows a new library.
has_global : exists global_name (view new_lists) ≡ true
unfolding exists view strcmp
has_global = refl

lacks_pls : exists test_pls (view new_lists) ≡ false
unfolding exists view strcmp
lacks_pls = refl

takes_path : (put global_name test_path (view new_lists)).0 ≡ ok
unfolding put view strcmp has
takes_path = refl

module _ (run : RegressionTest → Option Library → Ran) (abort_on_fail : Bool) where
  regress_loop_end :
      (tlib : Option Library) (stats : Stats)
      → regress_loop run abort_on_fail [] tlib stats ≡ some stats
  unfolding regress_loop
  regress_loop_end tlib stats = refl

  regress_loop-pass :
      (test : RegressionTest) (tests : List RegressionTest) (tlib tlib' : Option Library)
      (stats : Stats)
      → run test tlib ≡ Ran.returns ok tlib'
      → regress_loop run abort_on_fail (test ∷ tests) tlib stats
        ≡ regress_loop run abort_on_fail tests tlib'
            (record { passed = stats.passed + 1; total = stats.total + 1 })
  unfolding regress_loop
  regress_loop-pass test tests tlib tlib' stats e = rw (regress_loop, e) refl

module _ {os : Os} (places : Places os) (o : Obliges os) {c : Libc} (std : IsLibc c) {h : ListHead}
    (k : IsListHead h) where
  closes :
      {l : Library} {pls : List Playlist}
      → Good l pls
      → close_library h os (record { before = []; lib = l; after = [] }) ≡ some (ok, [])
  closes {l} g = close_library-append k os _ l.size (lib_len_ok g.lib.library) ∙ rw o.syncs refl

  -- A test on a new library passes if it does whatever the library's bytes are.
  on_new_library-passes :
      (work : M Status) (tlib : Option Library)
      → ((l : Library) (g : Good l new_lists)
          → l.size ≡ 1296
          → (l' : Library) × (pls : List Playlist) × (work l ≡ some (ok, l')) × Good l' pls)
      → on_new_library h os c true (keeps_file work) tlib ≡ Ran.returns ok tlib
  unfolding on_new_library
  on_new_library-passes work tlib works =
      let (made, b, created, opens, new, placed) =
        open-create_library os (λ len. o.grants.extends len) places o.stays o.syncs (codes "tl")
          (codes "./") (ground arith) (ground arith) (omega arith) (omega arith) k
          (codes ".test-mlib.lib") in
      let (l', pls, run, good) = works (file_at b made) (IsNew-Good new placed) new.size in
      rw (on_new_library, created, opens, run, closes good) refl

  -- The file that the first test leaves can be opened and closed by the second.
  create_runs :
      (name : Text) (made : Library)
      → create_library os true (codes "test-lib") (codes "./") new_file ≡ some (ok, made)
      → verify_create h os c true (some name) none ≡ Ran.returns ok (some made)
  unfolding verify_create
  create_runs name made created = rw (verify_create, created) refl

  open_runs :
      (name : Text) (made lib : Library)
      → Good lib new_lists
      → open_library h os (λ path. some (made.size, made.bytes)) name false []
        ≡ some (some lib, lib ∷ [])
      → verify_open h os c true [] (some name) (some made) ≡ Ran.returns ok none
  unfolding verify_open
  open_runs name made lib g opens = rw (verify_open, opens, closes g) refl

  verify_create-passes :
      (name : Text)
      → (made : Library) × (verify_create h os c true (some name) none ≡ Ran.returns ok (some made))
        × (verify_open h os c true [] (some name) (some made) ≡ Ran.returns ok none)
  verify_create-passes name =
      let (made, b, created, opens, new, placed) =
        open-create_library os (λ len. o.grants.extends len) places o.stays o.syncs
          (codes "test-lib") (codes "./") (ground arith) (ground arith) (omega arith) (omega arith)
          k name in
      (
        made,
        create_runs name made created,
        open_runs name made (file_at b made) (IsNew-Good new placed) opens,
      )

  lists_pass :
      (tlib : Option Library)
      → on_new_library h os c true (keeps_file (verify_mk_rm_pls os)) tlib ≡ Ran.returns ok tlib
  lists_pass tlib = on_new_library-passes (verify_mk_rm_pls os) tlib (λ l g size.
      let (l', pls, run, good, shown) = verify_mk_rm_pls-passes o std g lacks_pls (omega arith) in
      (l', pls, run, good))

  paths_pass :
      (tlib : Option Library)
      → on_new_library h os c true (keeps_file (verify_add_to_plist os c)) tlib
        ≡ Ran.returns ok tlib
  paths_pass tlib = on_new_library-passes (verify_add_to_plist os c) tlib (λ l g size.
      let (l', pls, run, good, shown) =
        verify_add_to_plist-passes o std g has_global takes_path (omega arith) in
      (l', pls, run, good))

  all_pass :
      (abort_on_fail : Bool) (made : Library)
      → verify_create h os c true (some (codes ".tlib")) none ≡ Ran.returns ok (some made)
      → verify_open h os c true [] (some (codes ".tlib")) (some made) ≡ Ran.returns ok none
      → do_regressions (do_single_regression h os c true) abort_on_fail regressions ≡ some 0
  unfolding do_regressions do_single_regression without_library with_library
  all_pass abort_on_fail made creates opens =
      let run = do_single_regression h os c true in
      let counted =
        regress_loop-pass run abort_on_fail create_test (open_test ∷ lists_test ∷ paths_test ∷ [])
          none (some made) (record { passed = 0; total = 0 }) creates
        ∙ regress_loop-pass run abort_on_fail open_test (lists_test ∷ paths_test ∷ []) (some made)
            none (record { passed = 1; total = 1 }) opens
        ∙ regress_loop-pass run abort_on_fail lists_test (paths_test ∷ []) none none
            (record { passed = 2; total = 2 }) (lists_pass none)
        ∙ regress_loop-pass run abort_on_fail paths_test [] none none
            (record { passed = 3; total = 3 }) (paths_pass none)
        ∙ regress_loop_end run abort_on_fail none (record { passed = 4; total = 4 }) in
      rw (do_regressions, counted) refl

  -- With a kernel that grants every request and maps a file again where it was, and, where no
  -- address is asked for, anywhere but at NULL, where `open` makes the files, with `qsort` and
  -- `bsearch` as in the C standard and a list as include/mlib/list.h documents, all regression
  -- tests of the program pass, one behind the other, whether a failure aborts or not: none exits or
  -- faults, and do_regressions returns 0.
  pub do_regressions-pass :
      (abort_on_fail : Bool)
      → do_regressions (do_single_regression h os c true) abort_on_fail regressions ≡ some 0
  do_regressions-pass abort_on_fail =
      let (made, creates, opens) = verify_create-passes (codes ".tlib") in
      all_pass abort_on_fail made creates opens
