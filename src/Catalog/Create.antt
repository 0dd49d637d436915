-- ===== src/Catalog/Create.antt =====
-- `mlib_create_library`, and opening what it made.
use mlib.Prelude.{
  ℕ, ◌+◌, ◌≤◌, ◌≡◌, refl, ◌∙◌, inl, inr, true, false, none, some, [], ◌∷◌, ◌++◌, length, ltb, ◌==◌,
  arith,
}
use mlib.Bytes.{readl, put}
use mlib.Bytes.Laws.{readl-agree}
use mlib.Memory.{Library, ok}
use mlib.Text.{Text}
use mlib.Text.Stored.{IsText, IsText-copy, IsCString}
use mlib.Lists.{ListHead, IsListHead}
use mlib.Space.{Os, library_expand_fd, remap}
use mlib.Space.Invariant.{IsLibrary}
use mlib.Space.Write.{load32_is}
use mlib.Playlist.{global_name, start_playlist}
use mlib.Playlist.Holds.{SameHeader, Run-copy, IsLib}
use mlib.Playlist.Find.{locate}
use mlib.Playlist.Begin.{empty_playlist, start_playlist-empty_playlist}
use mlib.Catalog.{
  Disk, mlib_magic, new_file, create_library, open_library, open_local_lib, add_library,
  already_open,
}
use mlib.Playlist.Add.{Stays, Places}
use mlib.Catalog.Header.{m5-IsLib, m5-name, m5-prefix, m5-magic, header_runs, m5, filled}

-- A file that is mapped.
abbrev pub file_at : ℕ → Library → Library
file_at base made = record { base = base; mapped = made.size; size = made.size; bytes = made.bytes }

-- What a library is when it has been made: its header, with magic, name and prefix, and an empty
-- playlist ".global".
pub record IsNew (l : Library) (name given : Text) : Type 0 where
  pub lib : IsLib l (empty_playlist global_name ∷ [])
  pub magic : readl l.bytes 0 ≡ mlib_magic
  pub named : IsText l.bytes 12 name
  pub prefixed : IsText l.bytes 128 given
  pub size : l.size ≡ 1296

no_playlist : locate global_name [] 1024 ≡ none
unfolding locate
no_playlist = refl

module _ (name given : Text) (cs : IsCString name) (ps : IsCString given)
    (short : length name ≤ 115) (short_prefix : length given ≤ 895) where
  file_at-IsNew :
      {l : Library} (base b : ℕ)
      → IsLib l ([] ++ empty_playlist global_name ∷ [])
      → l.size ≡ 1296
      → SameHeader (filled name given b (m5 name given)) l
      → IsNew (file_at base l) name given
  unfolding filled
  file_at-IsNew {l} base b v size same =
      let lib : IsLibrary (file_at base l) = record {
        length_field = v.library.length_field;
        in_map = omega arith;
        has_header = v.library.has_header;
        small = v.library.small;
        zero_past = v.library.zero_past;
        are_bytes = v.library.are_bytes;
      } in
      record {
        lib = record {
          library = lib;
          chain =
              Run-copy l (file_at base l) 1024 1024 l.size l.size (empty_playlist global_name ∷ [])
                v.chain (λ i lt. refl) lib (omega arith) (omega arith) (omega arith);
        };
        magic =
            readl-agree l.bytes (m5 name given) 0
              (λ x lo hi. same x (inl (omega arith)) (omega arith))
            ∙ m5-magic name given cs ps short short_prefix;
        named =
            IsText-copy (m5 name given) l.bytes 12 12 name
              (λ i le. same (12 + i) (inr (omega arith)) (omega arith))
              (m5-name name given cs ps short short_prefix);
        prefixed =
            IsText-copy (m5 name given) l.bytes 128 128 given
              (λ i le. same (128 + i) (inr (omega arith)) (omega arith))
              (m5-prefix name given cs ps short short_prefix);
        size = size;
      }

module _ (os : Os) (extends : (len : ℕ) → os.extends len ≡ true) (places : Places os)
    (stays : Stays os) (syncs : os.msync ≡ true) (name given : Text) (cs : IsCString name)
    (ps : IsCString given) (short : length name ≤ 115) (short_prefix : length given ≤ 895) where
  expand_new :
      library_expand_fd os 1024 new_file
      ≡ some (ok, record { base = 0; mapped = 0; size = 1024; bytes = put (λ x. 0) 1023 (0 ∷ []) })
  unfolding library_expand_fd
  expand_new = rw (extends 1024) refl

  remap_new :
      (b : ℕ)
      → os.mmap 0 1024 ≡ some b
      → remap os 1024
          (record { base = 0; mapped = 0; size = 1024; bytes = put (λ x. 0) 1023 (0 ∷ []) })
        ≡ some (
          ok,
          record { base = b; mapped = 1024; size = 1024; bytes = put (λ x. 0) 1023 (0 ∷ []) },
        )
  unfolding remap
  remap_new b new = ground (arith, new)

  create_runs :
      {l : Library} (b : ℕ)
      → os.mmap 0 1024 ≡ some b
      → 1 ≤ b
      → IsLibrary l
      → start_playlist os global_name (filled name given b (m5 name given)) ≡ some (ok, l)
      → create_library os true name given new_file ≡ some (ok, record l { mapped = 0 })
  unfolding create_library filled
  create_runs b new placed v started =
      let fits_name : ltb 116 (length name + 1) ≡ false = ground arith in
      let fits_prefix : ltb 896 (length given + 1) ≡ false = ground arith in
      let not_null : (b == 0) ≡ false = ground arith in
      rw (fits_name, fits_prefix, expand_new, remap_new b new, not_null)
        (header_runs name given cs ps short short_prefix os b v started)

  add_ok :
      {h : ListHead} (k : IsListHead h) (disk : Disk) (lib : Library)
      → readl lib.bytes 0 ≡ mlib_magic
      → 4 ≤ lib.size
      → 4 ≤ lib.mapped
      → add_library h os disk lib [] ≡ some (some lib, lib ∷ [])
  unfolding add_library already_open
  add_ok k disk lib magic large map = ground (
    arith,
    load32_is lib (record { base = lib.base; off = 0 }) (omega arith) magic,
    k.adds_before [] lib [],
  )

  opens :
      {h : ListHead} (k : IsListHead h) (location : Text) (l : Library) (b : ℕ)
      → os.mmap 0 l.size ≡ some b
      → readl (file_at b l).bytes 0 ≡ mlib_magic
      → 1024 ≤ l.size
      → open_library h os (λ path. some (l.size, l.bytes)) location false []
        ≡ some (some (file_at b l), file_at b l ∷ [])
  unfolding open_library open_local_lib
  opens k location l b new magic large =
      let fits : ltb l.size 1024 ≡ false = ground arith in
      rw (fits, new)
        (add_ok k (λ path. some (l.size, l.bytes)) (file_at b l) magic (omega arith) (omega arith))

  -- With a name of at most 115 bytes and a prefix of at most 895, both C strings, and a kernel that
  -- grants every request and maps a file again where it was, and, where no address is asked for,
  -- anywhere but at NULL, mlib_create_library on a new file returns 0 without a fault, and opening
  -- what it has made, with no library open, gives a library that is a header with the magic, the
  -- name and the prefix, and one playlist, ".global", which is empty and well formed; the file has
  -- 1296 bytes. The list inserts as include/mlib/list.h documents.
  pub open-create_library :
      {h : ListHead} (k : IsListHead h) (location : Text)
      → (made : Library) × (b : ℕ) × (create_library os true name given new_file ≡ some (ok, made))
        × (open_library h os (λ path. some (made.size, made.bytes)) location false []
            ≡ some (some (file_at b made), file_at b made ∷ []))
        × IsNew (file_at b made) name given
        × (1 ≤ b)
  unfolding filled
  open-create_library k location =
      let (b, at, placed) = places 1024 in
      let (l, (run, lib, size, same, base)) =
        start_playlist-empty_playlist os (m5-IsLib name given cs ps short short_prefix b)
          global_name no_playlist (ground arith) (ground arith) (omega arith) (extends 1296)
          (stays b 1296 placed) syncs in
      let (opened_at, found, placed') = places l.size in
      let new = file_at-IsNew name given cs ps short short_prefix opened_at b lib size same in
      (
        record l { mapped = 0 },
        opened_at,
        create_runs b at placed lib.library run,
        opens k location (record l { mapped = 0 }) opened_at found new.magic lib.library.has_header,
        new,
        placed',
      )
