-- ===== src/Tests/Generator.antt =====
-- The theorems on the generator, at a small directory tree and the stored library.
use mlib.Prelude.{ℕ, ◌≤◌, false, true, ◌≡◌, refl, none, some, List, [], ◌∷◌, arith}
use mlib.Memory.{Library, ok, failed}
use mlib.Text.{Text, codes, strcmp}
use mlib.Samples.{kernel, kernel-Stays, kernel-Places, lists, lists-IsListHead}
use mlib.Catalog.{new_file, create_library, open_library}
use mlib.Catalog.Create.{file_at, IsNew, open-create_library}
use mlib.Samples.Standard.{libc, libc-IsLibc}
use mlib.Samples.Stored.{stored, global}
use mlib.Bytes.{writel}
use mlib.Playlist.Holds.{Playlist}
use mlib.Store.{exists}
use mlib.Store.View.{view}
use mlib.Tests.Stores.{kernel-Obliges, stored-Good}
use mlib.Util.{parse_list, count_delimiters}
use mlib.Genlib.{Entries, nil, file, dir, locked, fails, search}
use mlib.Genlib.Options.{Opt, Parsed, Settings, unset, parse_args, set_filters}
use mlib.Genlib.Gather.{
  files_in, files_below, gather, put_all, unshared, shared, no_slash, ends_in, types_of, same, dots,
}
use mlib.Genlib.Ready.{Ready}
use mlib.Genlib.Whole.{search-put_all}
use mlib.Genlib.Main.{Files}

-- A song, the entry "..", a directory with a film, a text, and a directory that cannot be opened.
abbrev tree : Entries
tree = file (codes "song.mp3") (
    dir (codes "..") nil (
      dir (codes "sub") (file (codes "film.mkv") nil)
        (file (codes "read.txt") (locked (codes "other") nil))))

abbrev elems : List Text
elems = codes "song.mp3" ∷ codes "sub/film.mkv" ∷ []

gathered : gather none [] (codes "d") tree ≡ some (elems, failed)
unfolding gather files_in files_below unshared shared no_slash ends_in types_of same dots
gathered = refl

stored-Ready : Ready [] stored (global ∷ [])
unfolding exists view strcmp writel
stored-Ready = record { good = stored-Good; global = refl; named = refl; fits = omega arith }

search-put_all_example :
    (l' : Library) × (pls' : List Playlist) × (search kernel libc none
        (λ cwd. ok)
        (codes "d")
        tree
        stored
      ≡ some (fails, l'))
    × Ready [] l' pls'
    × (view pls' ≡ put_all elems (view (global ∷ [])))
search-put_all_example =
    search-put_all kernel-Obliges libc-IsLibc none (λ cwd. ok) (λ cwd. refl) [] stored-Ready
      (codes "d") tree elems failed gathered (ground arith) (omega arith)

abbrev parsed : Settings
parsed = record unset { is_verbose = true; dir = some (codes "d"); output = some (codes "f") }

parses :
    parse_args (Opt.verbose ∷ Opt.filters (codes "mp3") ∷ []) (codes "d" ∷ codes "f" ∷ []) unset
    ≡ Parsed.set parsed
unfolding parse_args set_filters parse_list count_delimiters
parses = refl

-- A directory "d" with the tree, and no library yet.
abbrev files : Files
files = record {
  exists = false;
  unlinked = false;
  opened = true;
  old = λ name. none;
  realpath = λ name. some (codes "d");
  opendir = λ name. some tree;
  junk = λ cwd. ok;
}

open-create_library_example :
    (made : Library) × (b : ℕ) × (create_library kernel true
        (codes "songs")
        (codes "/music")
        new_file
      ≡ some (ok, made))
    × (open_library lists kernel (λ path. some (made.size, made.bytes)) (codes "f") false []
        ≡ some (some (file_at b made), file_at b made ∷ []))
    × IsNew (file_at b made) (codes "songs") (codes "/music")
    × (1 ≤ b)
open-create_library_example =
    open-create_library kernel (λ len. refl) kernel-Places kernel-Stays refl (codes "songs")
      (codes "/music") (ground arith) (ground arith) (omega arith) (omega arith) lists-IsListHead
      (codes "f")
