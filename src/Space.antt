-- ===== src/Space.antt =====
-- How a library file grows and shrinks: `__mlib_library_expand_fd`, `__mlib_library_expand`,
-- `__mlib_library_insert_space`, `__mlib_library_trunc`, `__mlib_library_excise` and
-- `mlib_sync_library` of src/library.c. The system calls are a parameter.
pub mod Invariant
pub mod Grow
pub mod Shrink
pub mod Write
use mlib.Prelude.{
  ℕ, ◌+◌, ◌-◌, ◌^◌, ◌<◌, Bool, ◌&&◌, ◌||◌, Option, none, some, [], ◌∷◌, ltb, leb, if◌then◌else◌,
  max,
}
use mlib.Bytes.{put}
use mlib.Memory.{
  Ptr, Library, M, pure, and_then, ◌>>=◌, ◌>>◌, Status, ok, failed, if_ok, u32, sub32, sub64, plus,
  header, ptr_diff, load32, store32, memmove, memset,
}

-- The kernel's answers. `extends len`: `lseek` to `len - 1` and the `write` of one byte there
-- succeed. `mmap hint len` is the address of the new mapping, `none` is MAP_FAILED; the kernel may
-- follow the hint or not.
pub record Os : Type 0 where
  pub extends : ℕ → Bool
  pub mmap : ℕ → ℕ → Option ℕ
  pub ftruncate : ℕ → Bool
  pub msync : Bool

-- `MLIB_LIB_LEN(lib)` and `MLIB_LIB_SET_LEN(lib, val)`
unfoldable pub lib_len : M ℕ
lib_len = do h ← header; load32 (plus h 8)

unfoldable pub lib_set_len : ℕ → M (Unit {0})
lib_set_len v = do h ← header; store32 (plus h 8) v

-- `munmap(lib->header, …)`: no pointer is good afterwards.
abbrev pub munmap : M (Unit {0})
munmap l = some (tt, record l { mapped = 0 })

module _ (os : Os) where
  -- `__mlib_library_expand_fd`: a zero byte at `len - 1`. (At 0 the offset is no offset.)
  unfoldable pub library_expand_fd : ℕ → M Status
  library_expand_fd len l =
      if ltb 0 len && os.extends len
      then some (ok, record l { bytes = put l.bytes (len - 1) (0 ∷ []); size = max l.size len })
      else some (failed, l)

  -- `lib->header = mmap(lib->header, len, …)`
  unfoldable pub remap : ℕ → M Status
  remap len l = elim (os.mmap l.base len) [
    | none ↦ some (failed, l)
    | some base ↦ some (ok, record l { base = base; mapped = len })
  ]

  -- `__mlib_library_expand`
  unfoldable pub library_expand : ℕ → M Status
  library_expand len = do
    old ← lib_len
    if leb len old then pure failed else do
      munmap
      extended ← library_expand_fd len
      if_ok extended do mapped ← remap len; if_ok mapped do lib_set_len len; pure ok

  -- `__mlib_library_insert_space`
  unfoldable pub library_insert_space : ℕ → ℕ → M Status
  library_insert_space offset length = do
    old ← lib_len
    let move_len = sub32 old offset
    expanded ← library_expand (u32 (old + length))
    if_ok expanded do
      lib_start ← header
      memmove (plus (plus lib_start offset) length) (plus lib_start offset) move_len
      memset (plus lib_start offset) 0 length
      pure ok

  -- `__mlib_library_trunc`: what the file held past `len` is gone.
  unfoldable pub library_trunc : ℕ → M Status
  library_trunc len = do
    old ← lib_len
    if ltb len 1024 || ltb old len
        then pure failed
        else if os.ftruncate len
        then (do
          λ l. some (tt, record l { bytes = λ x. if ltb x len then l.bytes x else 0; size = len })
          lib_set_len len
          pure ok)
        else pure failed

  -- `__mlib_library_excise`
  unfoldable pub library_excise : Ptr → Ptr → M Status
  library_excise start end = do
    old ← lib_len
    lib_start ← header
    bytes ← ptr_diff (plus lib_start old) end
    memmove start end (u32 bytes)
    left ← lib_len
    excised ← ptr_diff end start
    library_trunc (sub64 left excised)

  -- `mlib_sync_library`
  unfoldable pub sync_library : M Status
  sync_library l = some (if os.msync then ok else failed, l)
