-- ===== src/Catalog.antt =====
-- The open libraries (`library_list` of src/library.c): how a library is created, opened, found by
-- its name and closed. The file system and the kernel are parameters.
pub mod Find
pub mod Header
pub mod Create
use mlib.Prelude.{
  ℕ, ◌+◌, Bool, true, false, not, Option, none, some, List, [], ◌∷◌, ◌++◌, ltb, ◌==◌, if◌then◌else◌,
  length,
}
use mlib.Bytes.{Bytes}
use mlib.Memory.{
  Ptr, Library, M, pure, and_then, ◌>>=◌, ◌>>◌, Status, ok, failed, plus, header, load32, store32,
  memset, memcpy,
}
use mlib.Text.{Text, strncmp, is_eq, load_text}
use mlib.Lists.{ListHead}
use mlib.Space.{Os, lib_len, munmap, library_expand_fd, remap, sync_library}
use mlib.Playlist.{read_name, global_name, start_playlist}

abbrev pub mlib_magic : ℕ
mlib_magic = 0x4d4c4942

abbrev pub header_size : ℕ
header_size = 1024

-- `MLIB_LIBRARY_LIB_NAME_LEN` and `MLIB_LIBRARY_MEDIA_PREFIX_LEN`
abbrev pub lib_name_len : ℕ
lib_name_len = 116

abbrev pub media_prefix_len : ℕ
media_prefix_len = 896

-- `MLIB_LIB_NAME(lib)` and `MLIB_LIB_PREFIX(lib)`, as the strings they point to.
unfoldable pub lib_name : M Text
lib_name = do h ← header; load_text (plus h 12)

unfoldable pub lib_prefix : M Text
lib_prefix = do h ← header; load_text (plus h 128)

-- A file that has just been created, and is not mapped.
abbrev pub new_file : Library
new_file = record { base = 0; mapped = 0; size = 0; bytes = λ x. 0 }

-- `mlib_create_library`, from `mmap` on. The value and the length of `memset` are swapped, so that it
-- sets nothing, and what `mlib_start_playlist` returns is not looked at.
module _ (os : Os) where
  unfoldable pub write_header : Text → Text → M Status
  write_header name media_prefix = do
    h ← header
    memset h header_size 0
    store32 h mlib_magic
    store32 (plus h 4) 0
    store32 (plus h 8) 1024
    memcpy (plus h 12) (name ++ 0 ∷ [])
    memcpy (plus h 128) (media_prefix ++ 0 ∷ [])
    start_playlist os global_name
    len ← lib_len
    munmap
    pure ok

  -- `mlib_create_library`, where `opened` says whether `open` has made the file. What `mmap` returns
  -- is compared with NULL, which MAP_FAILED is not: its failure is a fault.
  unfoldable pub create_library : Bool → Text → Text → M Status
  create_library opened name media_prefix =
      if ltb lib_name_len (length name + 1)
      then pure failed
      else (if ltb media_prefix_len (length media_prefix + 1)
          then pure failed
          else (if not opened then pure failed else (do
            expanded ← library_expand_fd os header_size
            mapped ← remap os header_size
            elim mapped as (λ _. M Status) [
              | failed ↦ λ l. none
              | ok ↦ do
                address ← (λ l. some (l.base, l))
                if address == 0 then pure failed else write_header name media_prefix
            ])))

-- `__mlib_library_already_open`; no result is a read of a header that is not mapped.
unfoldable pub already_open : Library → List Library → Option Bool
already_open lib [] = some false
already_open lib (cur_lib ∷ libs) =
    let further = already_open lib libs in
    if ltb cur_lib.mapped (12 + lib_name_len)
    then none
    else (if is_eq (
          strncmp (read_name lib_name_len lib.bytes 12) (read_name lib_name_len cur_lib.bytes 12)
            lib_name_len)
        then some true
        else further)

-- `open` with the `fstat` behind it gives a file's size and bytes.
abbrev pub Disk : Type 0
Disk = Text → Option (ℕ × Bytes)

module _ (h : ListHead) (os : Os) (disk : Disk) where
  -- `__mlib_open_local_lib`, behind `mmap`.
  unfoldable pub add_library : Library → List Library → Option (Option Library × List Library)
  add_library lib libs = elim (load32 (record { base = lib.base; off = 0 }) lib) [
    | none ↦ none
    | some r ↦
        if not (r.0 == mlib_magic)
        then some (none, libs)
        else (elim (already_open lib libs) as (λ _. Option (Option Library × List Library)) [
          | none ↦ none
          | some true ↦ some (none, libs)
          | some false ↦ some (some lib, h.list_add_tail libs lib [])
        ])
  ]

  -- `__mlib_open_local_lib`: the library, `none` for NULL, and the list. No result is a fault.
  unfoldable pub open_local_lib : Text → List Library → Option (Option Library × List Library)
  open_local_lib name libs = elim (disk name) [
    | none ↦ some (none, libs)
    | some file ↦ if ltb file.0 header_size then some (none, libs) else (elim (os.mmap 0 file.0) [
      | none ↦ some (none, libs)
      | some base ↦
          add_library (record { base = base; mapped = file.0; size = file.0; bytes = file.1 }) libs
    ])
  ]

  -- `mlib_open_library`
  unfoldable pub open_library : Text → Bool → List Library → Option (Option Library × List Library)
  open_library location remote libs =
      if remote then some (none, libs) else open_local_lib location libs

-- A library in the list, with those in front of it and those behind it.
pub record Place : Type 0 where
  pub before : List Library
  pub lib : Library
  pub after : List Library

-- The loop of `mlib_find_library`, behind the libraries that it has passed; no result is a fault.
unfoldable pub find_behind : Text → List Library → List Library → Option (Option Place)
find_behind name before [] = some none
find_behind name before (lib ∷ libs) =
    let further = find_behind name (before ++ lib ∷ []) libs in
    elim (lib_name lib) [
      | none ↦ none
      | some n ↦
          if is_eq (strncmp name n.0 (length n.0))
          then some (some (record { before = before; lib = lib; after = libs }))
          else further
    ]

-- `mlib_find_library`
unfoldable pub find_library : Text → List Library → Option (Option Place)
find_library name libs = find_behind name [] libs

-- What `mlib_close_library` does to the library; `munmap` is given the length that it reads.
unfoldable pub shut_down : Os → M Status
shut_down os = do ret ← sync_library os; len ← lib_len; munmap; pure ret

-- `mlib_close_library`
module _ (h : ListHead) (os : Os) where
  unfoldable pub close_library : Place → Option (Status × List Library)
  close_library place = elim (shut_down os place.lib) [
    | none ↦ none
    | some r ↦ some (r.0, h.list_del place.before place.lib place.after)
  ]

-- The lines of `__mlib_list_libraries` behind the heading.
unfoldable pub library_lines : List Library → Option (List (Text × Text))
library_lines [] = some []
library_lines (lib ∷ libs) =
    let further = library_lines libs in
    elim (lib_name lib) [
      | none ↦ none
      | some n ↦ elim (lib_prefix lib) [
        | none ↦ none
        | some p ↦ elim further [ none ↦ none | some lines ↦ some ((n.0, p.0) ∷ lines) ]
      ]
    ]
