-- ===== src/Tests/Regressions.antt =====
-- The theorem on the program's own tests, with the kernel and the C library of `Samples`.
use mlib.Prelude.{◌≡◌, true, some}
use mlib.Samples.{kernel, kernel-Places, lists, lists-IsListHead}
use mlib.Samples.Standard.{libc, libc-IsLibc}
use mlib.Tests.Stores.{kernel-Obliges}
use mlib.Regress.{regressions, do_single_regression}
use mlib.Regress.Run.{do_regressions}
use mlib.Regress.All.{do_regressions-pass}

do_regressions-pass_example :
    do_regressions (do_single_regression lists kernel libc true) true regressions ≡ some 0
do_regressions-pass_example =
    do_regressions-pass kernel-Places kernel-Obliges libc-IsLibc lists-IsListHead true
