-- ===== src/Samples.antt =====
-- Instances of what the other modules take as parameters, and a small library.
pub mod Standard
pub mod Stored
use mlib.Prelude.{
  ℕ, zero, suc, ◌==◌, if◌then◌else◌, ◌≤◌, arith, ◌+◌, Bool, true, false, Option, none, some, List,
  [], ◌∷◌, ◌++◌, refl,
}
use mlib.Bytes.{Bytes, writel}
use mlib.Memory.{Library, Status, ok, failed}
use mlib.Lists.{ListHead, IsListHead}
use mlib.Space.{Os}
use mlib.Bucket.Room.{Grants}
use mlib.Playlist.Add.{Stays, Places}

-- A list head that is a plain sequence.
abbrev pub lists : ListHead
lists = record {
  list_add_tail = λ before a after. before ++ a ∷ after;
  list_add = λ a others. a ∷ others;
  list_del = λ before a after. before ++ after;
}

pub lists-IsListHead : IsListHead lists
lists-IsListHead = record {
  adds_before = λ before a after. refl;
  adds_first = λ a others. refl;
  deletes = λ before a after. refl;
}

-- A kernel that grants everything and follows the hint, where there is one.
abbrev pub kernel : Os
kernel = record {
  extends = λ len. true;
  mmap = λ hint len. some (if hint == 0 then 4096 else hint);
  ftruncate = λ len. true;
  msync = true;
}

pub kernel-Grants : Grants kernel
kernel-Grants = record {
  extends = λ len. refl;
  mmap = λ hint len. (if hint == 0 then 4096 else hint, refl);
}

pub kernel-Stays : Stays kernel
kernel-Stays hint len placed = ground arith

pub kernel-Places : Places kernel
kernel-Places len = (4096, refl, omega arith)
