-- ===== src/Shell/Results.antt =====
-- What the commands return.
use mlib.Prelude.{◌≡◌, some, List, [], ◌∷◌, ◌++◌, arith}
use mlib.Memory.{Library, Status}
use mlib.Text.{Text}
use mlib.Lists.{ListHead}
use mlib.Space.{Os}
use mlib.Bucket.{Libc}
use mlib.Playlist.{delete_playlist}
use mlib.Catalog.{Disk, Place, find_library}
use mlib.Shell.{inverted, on_library, rm_playlist}

-- The command rmpls, on a library that is open, changes that library as mlib_delete_playlist does
-- and no other; it returns 1 where that returns 0, and 0 where that returns -1.
pub rm_playlist_inverts :
    (h : ListHead) (os : Os) (disk : Disk) (c : Libc) (name plist : Text) (libs : List Library)
    (place : Place) (status : Status) (lib : Library)
    → find_library name libs ≡ some (some place)
    → delete_playlist os plist place.lib ≡ some (status, lib)
    → rm_playlist h os disk c (name ∷ plist ∷ []) libs
      ≡ some (inverted status, place.before ++ lib ∷ place.after)
unfolding rm_playlist on_library
rm_playlist_inverts h os disk c name plist libs place status lib found deleted =
    ground (arith, found, deleted)
