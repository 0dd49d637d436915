-- ===== src/Genlib.antt =====
-- src/mlib_genlib.c: the program that adds the media files below a directory to a library. The
-- directory tree, libc's `getopt_long`, `stat`, `realpath` and `unlink`, and what stands in a
-- variable before it is set are parameters.
pub mod Options
pub mod Prefix
pub mod Gather
pub mod Agrees
pub mod Ready
pub mod File
pub mod Walk
pub mod Whole
pub mod Main
pub mod Entire
use mlib.Prelude.{
  Bool, true, false, ◌||◌, Option, none, some, List, [], ◌∷◌, ◌++◌, ◌==◌, if◌then◌else◌,
}
use mlib.Memory.{Ptr, Library, M, pure, and_then, ◌>>=◌, Status, ok, failed}
use mlib.Text.{Text, codes, strcmp, is_eq}
use mlib.Space.{Os}
use mlib.Bucket.{Libc}
use mlib.Playlist.{global_name, find_playlist, find_path, add_path}
use mlib.Catalog.{lib_name, lib_prefix}
use mlib.Util.{filter}

-- `path_combine`
unfoldable pub path_combine : Text → Text → Text
path_combine path file = path ++ b'/' ∷ file

-- `if (*str == '/') str++;`
unfoldable pub skip_slash : Text → Text
skip_slash [] = []
skip_slash (c ∷ s) = if c == b'/' then s else c ∷ s

-- `drop_prefix`: both pointers go past the first characters that differ. `none` where `str` goes
-- past the zero of the path.
unfoldable pub drop_prefix : Text → Text → Option Text
drop_prefix [] prefix = none
drop_prefix (c ∷ path) [] = some (skip_slash path)
drop_prefix (c ∷ path) (d ∷ prefix) =
    let further = drop_prefix path prefix in if c == d then further else some (skip_slash path)

-- What `readdir` gives of a directory, in its order, "." and ".." among it, with what `stat` says
-- of each name: a file, nothing, a directory and what is in it, or a directory that `opendir`
-- refuses.
pub data Entries : Type 0 where
  nil : Entries
  file : Text → Entries → Entries
  missing : Text → Entries → Entries
  dir : Text → Entries → Entries → Entries
  locked : Text → Entries → Entries

-- How `__do_search` ends: with 0, with -1, or in `die`.
pub data Search : Type 0 where
  done fails dies : Search

-- What stands in `mlib_audio_ext` and `mlib_video_ext` of src/engine.c.
abbrev pub audio_ext : List Text
audio_ext =
    codes "mp3"
    ∷ codes "aac"
    ∷ codes "ac3"
    ∷ codes "wav"
    ∷ codes "wave"
    ∷ codes "flac"
    ∷ codes "wma"
    ∷ []

abbrev pub video_ext : List Text
video_ext = codes "mkv" ∷ codes "mpeg" ∷ codes "avi" ∷ codes "wmv" ∷ []

-- Whether the filters let a name pass; `none` where a filter reads in front of the name.
unfoldable pub is_wanted : Option (List Text) → Text → Option Bool
is_wanted (some custom_list) elem = filter elem custom_list
is_wanted none elem = elim (filter elem audio_ext) [
  | none ↦ none
  | some true ↦ some true
  | some false ↦ filter elem video_ext
]

-- A result that may be a fault.
abbrev pub lift : {A : Type 0} → Option A → M A
lift none l = none
lift (some a) l = some (a, l)

-- What comes behind a part of the search that ended with 0.
unfoldable pub if_done : Search → M Search → M Search
if_done done next = next
if_done fails next = pure fails
if_done dies next = pure dies

-- What `do_search` prints of the library.
pub record Shown : Type 0 where
  pub name : Text
  pub media_prefix : Text

-- The test of a directory's name.
unfoldable pub is_dots : Text → Bool
is_dots name = is_eq (strcmp name (codes ".")) || is_eq (strcmp name (codes ".."))

module _ (os : Os) (c : Libc) (custom_list : Option (List Text)) where
  -- A file in the first pass of `__do_search`, behind `stat`.
  unfoldable pub add_file : Ptr → Text → M Search
  add_file plist new_name = do
    prefix ← lib_prefix
    elem ← lift (drop_prefix new_name prefix)
    found ← find_path c plist elem
    let add = do
      added ← add_path os c global_name elem
      pure (elim added as (λ _. Search) [ ok ↦ done | failed ↦ dies ])
    let try = do wanted ← lift (is_wanted custom_list elem); if wanted then add else pure done
    elim found as (λ _. M Search) [ some _ ↦ pure done | none ↦ try ]

  -- Every name of the first pass begins with the search for ".global".
  unfoldable pub with_global : (Ptr → M Search) → M Search
  with_global work = do
    plist ← find_playlist global_name
    elim plist as (λ _. M Search) [ none ↦ pure dies | some p ↦ work p ]

  -- The first pass of `__do_search`.
  unfoldable pub add_files : Text → Entries → M Search
  add_files cwd nil = pure done
  add_files cwd (file name rest) = do
    added ← with_global (λ p. add_file p (path_combine cwd name))
    if_done added (add_files cwd rest)
  add_files cwd (missing name rest) = with_global (λ p. pure fails)
  add_files cwd (dir name sub rest) = with_global (λ p. add_files cwd rest)
  add_files cwd (locked name rest) = with_global (λ p. add_files cwd rest)

  -- The second pass, with `ret`, which is `junk` until the first directory has been searched.
  module _ (junk : Text → Status) where
    unfoldable pub search_dirs : Text → Status → Entries → M Search
    search_dirs cwd ret nil = pure done
    search_dirs cwd ret (file name rest) =
        let next = search_dirs cwd ret rest in elim ret [ ok ↦ next | failed ↦ pure fails ]
    search_dirs cwd ret (missing name rest) = pure fails
    search_dirs cwd ret (dir name sub rest) =
        let here = path_combine cwd name in
        let skip = search_dirs cwd ret rest in
        let next = search_dirs cwd ok rest in
        let below = search_dirs here (junk here) sub in
        let search_here = (do files ← add_files here sub; if_done files below) in
        let go_on = (do result ← search_here; if_done result next) in
        if is_dots name then (elim ret [ ok ↦ skip | failed ↦ pure fails ]) else go_on
    search_dirs cwd ret (locked name rest) =
        let skip = search_dirs cwd ret rest in
        if is_dots name then (elim ret [ ok ↦ skip | failed ↦ pure fails ]) else pure fails

    -- `__do_search`, where `opendir` opens the directory.
    unfoldable pub search : Text → Entries → M Search
    search cwd entries = do
      files ← add_files cwd entries
      if_done files (search_dirs cwd (junk cwd) entries)

    -- `do_search`: the library's name and prefix, which it prints, and 0, whatever `__do_search`
    -- returns; `none` is the exit in `die`. A directory that `opendir` refuses is `none`.
    unfoldable pub do_search : Text → Option Entries → M (Option Shown)
    do_search dir_name entries = do
      name ← lib_name
      prefix ← lib_prefix
      let walk : M Search = elim entries [ none ↦ pure fails | some es ↦ search dir_name es ]
      found ← walk
      let shown : Shown = record { name = name; media_prefix = prefix }
      pure (elim found as (λ _. Option Shown) [
        | done ↦ some shown
        | fails ↦ some shown
        | dies ↦ none
      ])
