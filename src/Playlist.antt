-- ===== src/Playlist.antt =====
-- src/playlist.c: the playlists of a library stand one behind the other, from the end of its header
-- to the end of the file.
pub mod Holds
pub mod Find
pub mod Split
pub mod Delete
pub mod Counted
pub mod Add
pub mod Stale
pub mod Start
pub mod NameField
pub mod Started
pub mod Begin
use Prim.Native.Nat.{Ordering}
use mathlib.Core.Option
use mlib.Prelude.{
  ℕ, zero, suc, ◌+◌, ◌-◌, ◌*◌, Bool, true, false, not, Option, none, some, List, [], ◌∷◌, ◌++◌, ltb,
  leb, ◌==◌, if◌then◌else◌, length, take, replicate,
}
use mlib.Bytes.{Bytes}
use mlib.Memory.{
  Ptr, Library, M, pure, and_then, ◌>>=◌, ◌>>◌, Status, ok, failed, if_ok, u32, plus, header, valid,
  load32, store32, memcpy,
}
use mlib.Text.{Text, strcmp, strncmp, is_eq}
use mlib.Space.{Os, lib_len, library_expand, library_excise, sync_library}
use mlib.Bucket.{
  Libc, data_offset, bucket_growth_rate, init_bucket, bucket_nr_indexes, bucket_string,
  bucket_contains, bucket_add,
}

abbrev pub header_size : ℕ
header_size = 1024

abbrev pub plist_hdr_magic : ℕ
plist_hdr_magic = 0x10202010

-- `MLIB_PLIST_NAME_LEN`
abbrev pub plist_name_len : ℕ
plist_name_len = 116

-- `sizeof(struct mlib_playlist)`: the header of the bucket is part of it.
abbrev pub sizeof_playlist : ℕ
sizeof_playlist = 144

-- ".global"
abbrev pub global_name : Text
global_name = b'.' ∷ b'g' ∷ b'l' ∷ b'o' ∷ b'b' ∷ b'a' ∷ b'l' ∷ []

-- The fields of `struct mlib_playlist`.
abbrev pub plist_magic : Ptr → M ℕ
plist_magic p = load32 p

abbrev pub plist_len : Ptr → M ℕ
plist_len p = load32 (plus p 4)

abbrev pub plist_mcount : Ptr → M ℕ
plist_mcount p = load32 (plus p 8)

abbrev pub plist_data : Ptr → Ptr
plist_data p = plus p data_offset

-- At most `n` bytes from `a`, up to a zero: what `strncmp` reads.
unfoldable pub read_name : ℕ → Bytes → ℕ → Text
read_name zero m a = []
read_name (suc n) m a = let rest = read_name n m (a + 1) in if m a == 0 then [] else m a ∷ rest

-- `MLIB_PLIST_NAME(plist)`
unfoldable pub plist_name : Ptr → M Text
plist_name p l =
    if valid l (plus p 12) plist_name_len
    then some (read_name plist_name_len l.bytes (p.off + 12), l)
    else none

-- `__mlib_new_playlist_addr`
unfoldable pub new_playlist_addr : M Ptr
new_playlist_addr = do h ← header; len ← lib_len; pure (plus h len)

-- `__mlib_plist_check_len`: the pointer is at the end of the library or past it.
unfoldable pub plist_check_len : Ptr → M Bool
plist_check_len p = do h ← header; len ← lib_len; pure (leb (h.off + len) p.off)

-- The playlist at `p`, NULL at the end of the library and where there is none.
unfoldable pub checked_playlist : Ptr → M (Option Ptr)
checked_playlist p = do
  past ← plist_check_len p
  if past
      then pure none
      else do magic ← plist_magic p; if magic == plist_hdr_magic then pure (some p) else pure none

-- `mlib_next_playlist`, NULL for the first.
unfoldable pub next_playlist : Option Ptr → M (Option Ptr)
next_playlist none = do h ← header; checked_playlist (plus h header_size)
next_playlist (some p) = do len ← plist_len p; checked_playlist (plus p len)

-- The loop `mlib_for_each_pls` of `mlib_find_playlist`, at the playlist `cur`. Playlists are not
-- empty, so there are fewer of them than the library has bytes.
unfoldable pub find_loop : ℕ → Text → Option Ptr → M (Option Ptr)
find_loop rounds name none = pure none
find_loop zero name (some p) = λ l. none
find_loop (suc rounds) name (some p) = do
  plist ← plist_name p
  let after = do next ← next_playlist (some p); find_loop rounds name next
  if is_eq (strncmp plist name plist_name_len) then pure (some p) else after

-- `mlib_find_playlist`
unfoldable pub find_playlist : Text → M (Option Ptr)
find_playlist name = do
  rounds ← (λ l. some (l.size, l))
  first ← next_playlist none
  find_loop rounds name first

-- `mlib_get_path_at`
unfoldable pub get_path_at : Ptr → ℕ → M (Option Text)
get_path_at p index = do
  n ← bucket_nr_indexes (plist_data p)
  if leb n index then pure none else do path ← bucket_string (plist_data p) index; pure (some path)

-- The name field as `memset` and `strncpy` leave it: the first 115 bytes, then zeros.
unfoldable pub name_field : Text → List ℕ
name_field name = take 115 name ++ replicate (plist_name_len - length (take 115 name)) 0

-- The stores of `mlib_start_playlist` into the new playlist.
unfoldable pub set_up_playlist : Ptr → Text → M Status
set_up_playlist p name = do
  memcpy (plus p 12) (name_field name)
  store32 p plist_hdr_magic
  store32 (plus p 4) (sizeof_playlist + bucket_growth_rate)
  store32 (plus p 8) 0
  init_bucket (plist_data p) bucket_growth_rate

module _ (os : Os) where
  -- `mlib_start_playlist`. The address of the playlist is taken before the library is expanded.
  unfoldable pub start_playlist : Text → M Status
  start_playlist name = do
    found ← find_playlist name
    elim found as (λ _. M Status) [
      | some _ ↦ pure failed
      | none ↦ do
        plist ← new_playlist_addr
        len ← lib_len
        expanded ← library_expand os (u32 (len + sizeof_playlist + bucket_growth_rate))
        if_ok expanded do set_up_playlist plist name; sync_library os
    ]

  -- `mlib_delete_playlist`
  unfoldable pub delete_playlist : Text → M Status
  delete_playlist name = do
    found ← find_playlist name
    elim found as (λ _. M Status) [
      | none ↦ pure failed
      | some plist ↦ do len ← plist_len plist; library_excise os plist (plus plist len)
    ]

module _ (os : Os) (c : Libc) where
  -- `mlib_add_path_to_plist`. The playlist's pointer is used again after the bucket has grown.
  unfoldable pub add_path_to_plist : Ptr → Text → M Status
  add_path_to_plist p path = do
    magic ← plist_magic p
    if not (magic == plist_hdr_magic) then pure failed else do
      added ← bucket_add os c (plist_data p) path
      if_ok added do mcount ← plist_mcount p; store32 (plus p 8) (mcount + 1); pure ok

  -- The last part of `mlib_add_path`.
  unfoldable pub add_to_named : Text → Text → M Status
  add_to_named plist path = do
    real_plist ← find_playlist plist
    elim real_plist as (λ _. M Status) [ none ↦ pure failed | some p ↦ add_path_to_plist p path ]

  -- `mlib_add_path`. What adding to ".global" returns is not looked at.
  unfoldable pub add_path : Text → Text → M Status
  add_path plist path = if is_eq (strcmp plist global_name) then add_to_named plist path else do
    global_plist ← find_playlist global_name
    elim global_plist as (λ _. M Status) [
      | none ↦ pure failed
      | some p ↦ do add_path_to_plist p path; add_to_named plist path
    ]

-- `mlib_find_path`, and `__mlib_find_path` that it calls.
module _ (c : Libc) where
  unfoldable pub find_path : Ptr → Text → M (Option Ptr)
  find_path p path = do
    magic ← plist_magic p
    if not (magic == plist_hdr_magic) then pure none else bucket_contains c (plist_data p) path
