-- ===== src/Shell.antt =====
-- The commands that work on open libraries: `open`, `close` and `create` of src/library.c, and
-- `mkpls`, `lspls`, `plsadd` and `rmpls` of src/playlist.c, and `bucket_dump` of src/bucket.c. The arguments are those behind the
-- command's name, `ok` is the result 0, and `failed` every other. What they print of failures is
-- left out.
pub mod Results
pub mod Lines
pub mod Dump
use mlib.Prelude.{ℕ, zero, suc, ◌+◌, Bool, true, false, Option, none, some, List, [], ◌∷◌, ◌++◌}
use mlib.Memory.{Ptr, plus, Library, M, pure, and_then, ◌>>=◌, ◌>>◌, Status, ok, failed}
use mlib.Text.{Text}
use mlib.Lists.{ListHead}
use mlib.Space.{Os}
use mlib.Bucket.{Libc, data_offset}
use mlib.Bucket.Dump.{Info, print_bucket_info}
use mlib.Playlist.{
  plist_name, plist_mcount, next_playlist, find_playlist, get_path_at, start_playlist,
  delete_playlist, add_path,
}
use mlib.Catalog.{Disk, Place, create_library, new_file, open_library, find_library, close_library}

-- The loop `mlib_for_each_pls` of `__mlib_ls_playlist`: counts and names.
unfoldable pub playlist_lines : ℕ → Option Ptr → M (List (ℕ × Text))
playlist_lines rounds none = pure []
playlist_lines zero (some p) = λ l. none
playlist_lines (suc rounds) (some p) = do
  mcount ← plist_mcount p
  name ← plist_name p
  next ← next_playlist (some p)
  lines ← playlist_lines rounds next
  pure ((mcount, name) ∷ lines)

-- The loop `mlib_for_each_path`, at the index `ind`.
unfoldable pub path_lines : ℕ → Ptr → ℕ → M (List Text)
path_lines zero p ind = λ l. none
path_lines (suc rounds) p ind = do
  path ← get_path_at p ind
  let after = λ (text : Text). do lines ← path_lines rounds p (ind + 1); pure (text ∷ lines)
  elim path as (λ _. M (List Text)) [ none ↦ pure [] | some text ↦ after text ]

-- What a command does to the library of a name, in the list; no result is a fault.
unfoldable pub on_library : Text → M Status → List Library → Option (Status × List Library)
on_library name work libs = elim (find_library name libs) [
  | none ↦ none
  | some none ↦ some (failed, libs)
  | some (some place) ↦ elim (work place.lib) [
    | none ↦ none
    | some r ↦ some (r.0, place.before ++ r.1 ∷ place.after)
  ]
]

-- What lspls and bucket_dump print.
pub data Printed : Type 0 where
  nothing : Printed
  playlists : List (ℕ × Text) → Printed
  paths : List Text → Printed
  bucket : Info → Printed

-- `__mlib_ls_playlist`, behind `mlib_find_library`. There are fewer playlists in a library, and
-- fewer paths in a playlist, than the library has bytes.
unfoldable pub print_playlists : M (Status × Printed)
print_playlists = do
  rounds ← (λ l. some (l.size, l))
  plist ← next_playlist none
  lines ← playlist_lines rounds plist
  pure (ok, Printed.playlists lines)

unfoldable pub print_paths : Text → M (Status × Printed)
print_paths name = do
  rounds ← (λ l. some (l.size, l))
  plist ← find_playlist name
  let found = λ (p : Ptr). do lines ← path_lines rounds p 0; pure (ok, Printed.paths lines)
  elim plist as (λ _. M (Status × Printed)) [
    | none ↦ pure (failed, Printed.nothing)
    | some p ↦ found p
  ]

unfoldable pub print_library :
    Text → M (Status × Printed) → List Library → Option (Status × Printed × List Library)
print_library name work libs = elim (find_library name libs) [
  | none ↦ none
  | some none ↦ some (failed, Printed.nothing, libs)
  | some (some place) ↦ elim (work place.lib) [
    | none ↦ none
    | some r ↦ some (r.0.0, r.0.1, place.before ++ r.1 ∷ place.after)
  ]
]

-- `__mlib_ls_playlist`. A third argument is allowed, and not looked at.
unfoldable pub ls_playlist : List Text → List Library → Option (Status × Printed × List Library)
ls_playlist (lib ∷ []) libs = print_library lib print_playlists libs
ls_playlist (lib ∷ plist ∷ []) libs = print_library lib (print_paths plist) libs
ls_playlist (lib ∷ plist ∷ more ∷ []) libs = print_library lib (print_paths plist) libs
ls_playlist _ libs = some (failed, Printed.nothing, libs)

-- `__mlib_bucket_dump`, behind `mlib_find_library`. It is compiled only for debugging.
unfoldable pub print_bucket : Text → M (Status × Printed)
print_bucket name = do
  plist ← find_playlist name
  let found =
      λ (p : Ptr). do info ← print_bucket_info (plus p data_offset); pure (ok, Printed.bucket info)
  elim plist as (λ _. M (Status × Printed)) [
    | none ↦ pure (failed, Printed.nothing)
    | some p ↦ found p
  ]

-- `__mlib_bucket_dump`
unfoldable pub bucket_dump : List Text → List Library → Option (Status × Printed × List Library)
bucket_dump (lib ∷ plist ∷ []) libs = print_library lib (print_bucket plist) libs
bucket_dump _ libs = some (failed, Printed.nothing, libs)

-- `__mlib_rm_playlist` returns 1 where `mlib_delete_playlist` returns 0.
abbrev pub inverted : Status → Status
inverted ok = failed
inverted failed = ok

module _ (h : ListHead) (os : Os) (disk : Disk) (c : Libc) where
  -- `__mlib_open_library`
  unfoldable pub open_command : List Text → List Library → Option (Status × List Library)
  open_command [] libs = some (failed, libs)
  open_command (path ∷ []) libs = elim (open_library h os disk path false libs) [
    | none ↦ none
    | some (none, left) ↦ some (failed, left)
    | some (some lib, left) ↦ some (ok, left)
  ]
  open_command (path ∷ more ∷ args) libs = some (failed, libs)

  -- `__mlib_close_library`
  unfoldable pub close_command : List Text → List Library → Option (Status × List Library)
  close_command [] libs = some (failed, libs)
  close_command (name ∷ []) libs = elim (find_library name libs) [
    | none ↦ none
    | some none ↦ some (failed, libs)
    | some (some place) ↦ close_library h os place
  ]
  close_command (name ∷ more ∷ args) libs = some (failed, libs)

  -- `__mlib_create_library`: the status and the file that is left.
  unfoldable pub create_command : Bool → List Text → Option (Status × Option Library)
  create_command opened (path ∷ name ∷ media_prefix ∷ []) =
      elim (create_library os opened name media_prefix new_file) [
        | none ↦ none
        | some r ↦ some (r.0, some r.1)
      ]
  create_command opened _ = some (failed, none)

  -- `__mlib_make_playlist`
  unfoldable pub make_playlist : List Text → List Library → Option (Status × List Library)
  make_playlist (lib ∷ name ∷ []) libs = on_library lib (start_playlist os name) libs
  make_playlist _ libs = some (failed, libs)

  -- `__mlib_playlist_add`
  unfoldable pub playlist_add : List Text → List Library → Option (Status × List Library)
  playlist_add (lib ∷ plist ∷ path ∷ []) libs = on_library lib (add_path os c plist path) libs
  playlist_add _ libs = some (failed, libs)

  -- `__mlib_rm_playlist`
  unfoldable pub rm_playlist : List Text → List Library → Option (Status × List Library)
  rm_playlist (lib ∷ plist ∷ []) libs =
      on_library lib (do ret ← delete_playlist os plist; pure (inverted ret)) libs
  rm_playlist _ libs = some (failed, libs)
