-- ===== src/Bucket.antt =====
-- src/bucket.c: an array of strings in a block of bytes. The strings grow from the front, an array
-- of 32-bit indexes, sorted by the strings that they point to, grows from the back. The block
-- stands in a playlist, 128 bytes behind its start (struct mlib_playlist of
-- include/mlib/library.h).
pub mod Holds
pub mod Room
pub mod Wide
pub mod Expand
pub mod Loop
pub mod Standard
pub mod Search
pub mod Sort
pub mod Written
pub mod Append
pub mod Add
pub mod Dump
use Prim.Native.Nat.{Ordering}
use mlib.Prelude.{
  ℕ, zero, suc, ◌+◌, ◌-◌, ◌*◌, ◌/◌, ◌<◌, Bool, true, false, Option, none, some, List, [], ◌∷◌, ◌++◌,
  ltb, leb, if◌then◌else◌, length, ◌==◌, not,
}
use mlib.Memory.{
  Ptr, Library, M, pure, and_then, ◌>>=◌, ◌>>◌, Status, ok, failed, u32, sub32, sub64, plus, header,
  ptr_diff, load32, store32, memcpy,
}
use mlib.Text.{Text, strcmp, load_text}
use mlib.Space.{Os, library_insert_space}

-- An element of the index array, with the string that it points to.
pub record Entry : Type 0 where
  pub index : ℕ
  pub text : Text

-- libc's `qsort` and `bsearch` over such arrays. The comparison of `bsearch` is that of the key
-- with an element; its result is a position.
pub record Libc : Type 0 where
  pub qsort : (Entry → Entry → Ordering) → List Entry → List Entry
  pub bsearch : (Entry → Ordering) → List Entry → Option ℕ

abbrev pub bucket_magic_val : ℕ
bucket_magic_val = 0x12344321

abbrev pub bucket_growth_rate : ℕ
bucket_growth_rate = 128

-- `sizeof(struct mlib_bucket)`, which is also the offset of `strings`.
abbrev pub sizeof_bucket : ℕ
sizeof_bucket = 16

-- The offset of `data` in `struct mlib_playlist`.
abbrev pub data_offset : ℕ
data_offset = 128

-- The fields of `struct mlib_bucket` and their setters.
abbrev pub bucket_magic : Ptr → M ℕ
bucket_magic b = load32 b

abbrev pub bucket_length : Ptr → M ℕ
bucket_length b = load32 (plus b 4)

abbrev pub bucket_index_offs : Ptr → M ℕ
bucket_index_offs b = load32 (plus b 8)

abbrev pub bucket_str_bytes : Ptr → M ℕ
bucket_str_bytes b = load32 (plus b 12)

-- A pointer moved back.
abbrev pub back : Ptr → ℕ → Ptr
back p n = record p { off = sub64 p.off n }

-- `mlib_init_bucket`
unfoldable pub init_bucket : Ptr → ℕ → M Status
init_bucket b size = if ltb size sizeof_bucket then pure failed else do
  store32 b bucket_magic_val
  store32 (plus b 4) size
  store32 (plus b 8) size
  store32 (plus b 12) 0
  pure ok

-- `mlib_bucket_indexes`
unfoldable pub bucket_indexes : Ptr → M Ptr
bucket_indexes b = do offs ← bucket_index_offs b; pure (plus b offs)

-- `mlib_bucket_nr_indexes`
unfoldable pub bucket_nr_indexes : Ptr → M ℕ
bucket_nr_indexes b = do
  len ← bucket_length b
  offs ← bucket_index_offs b
  pure (sub32 len offs / 4)

-- `mlib_bucket_index`
unfoldable pub bucket_index : Ptr → ℕ → M ℕ
bucket_index b i = do indexes ← bucket_indexes b; load32 (plus indexes (4 * i))

-- `mlib_bucket_string_at`: the offset counts from `strings`.
unfoldable pub bucket_string_at : Ptr → ℕ → M Text
bucket_string_at b offset = load_text (plus (plus b sizeof_bucket) offset)

-- `mlib_bucket_string`
unfoldable pub bucket_string : Ptr → ℕ → M Text
bucket_string b n = do offset ← bucket_index b n; bucket_string_at b offset

-- The `n` elements of the index array from `p` on, and their strings, which the comparisons below
-- read. (They are read once, before the sort or the search; neither changes them.)
unfoldable pub load_entries : Ptr → ℕ → Ptr → M (List Entry)
load_entries b zero p = pure []
load_entries b (suc n) p = do
  index ← load32 p
  text ← bucket_string_at b index
  rest ← load_entries b n (plus p 4)
  pure (record { index = index; text = text } ∷ rest)

unfoldable pub store_entries : Ptr → List Entry → M (Unit {0})
store_entries p [] = pure tt
store_entries p (e ∷ es) = do store32 p e.index; store_entries (plus p 4) es

-- `__mlib_bucket_cmp_indexes`
unfoldable pub cmp_indexes : Entry → Entry → Ordering
cmp_indexes a b = strcmp a.text b.text

-- `__mlib_bucket_cmp_str_to_ind`
unfoldable pub cmp_str_to_ind : Text → Entry → Ordering
cmp_str_to_ind str a = strcmp str a.text

module _ (c : Libc) where
  -- `mlib_bucket_sort`
  unfoldable pub bucket_sort : Ptr → M (Unit {0})
  bucket_sort b = do
    indexes ← bucket_indexes b
    n ← bucket_nr_indexes b
    entries ← load_entries b n indexes
    store_entries indexes (c.qsort cmp_indexes entries)

  -- `mlib_bucket_contains`: a pointer to the element of the index array, `none` for NULL.
  unfoldable pub bucket_contains : Ptr → Text → M (Option Ptr)
  bucket_contains b str = do
    magic ← bucket_magic b
    if not (magic == bucket_magic_val) then pure none else do
      indexes ← bucket_indexes b
      n ← bucket_nr_indexes b
      entries ← load_entries b n indexes
      pure (elim (c.bsearch (cmp_str_to_ind str) entries) [
        | none ↦ none
        | some i ↦ some (plus indexes (4 * i))
      ])

-- The length fields that grow with a bucket: its own, the offset of its indexes, and that of the
-- playlist that it stands in (the second half of `mlib_bucket_expand`).
unfoldable pub add_length : Ptr → ℕ → M (Unit {0})
add_length bucket length = do
  len ← bucket_length bucket
  store32 (plus bucket 4) (len + length)
  index_offs ← bucket_index_offs bucket
  store32 (plus bucket 8) (index_offs + length)
  let plist = back bucket data_offset
  plist_len ← load32 (plus plist 4)
  store32 (plus plist 4) (plist_len + length)

module _ (os : Os) where
  -- `mlib_bucket_expand`. `none` for NULL.
  unfoldable pub bucket_expand : Ptr → ℕ → M (Option Ptr)
  bucket_expand b length = do
    lib_header ← header
    offs ← bucket_index_offs b
    offset ← ptr_diff (plus b offs) lib_header
    bucket_offset ← ptr_diff b lib_header
    inserted ← library_insert_space os (u32 offset) length
    elim inserted as (λ _. M (Option Ptr)) [
      | failed ↦ pure none
      | ok ↦ do
        new_header ← header
        let bucket = plus new_header (u32 bucket_offset)
        add_length bucket length
        pure (some bucket)
    ]

  -- The loop at `restart:` of `mlib_bucket_add`, which ends with enough space for a string of `len`
  -- bytes and one index. A round adds 128 bytes, so `len + 2` rounds are enough.
  unfoldable pub make_room : ℕ → Ptr → ℕ → M (Option Ptr)
  make_room zero b len = λ l. none
  make_room (suc rounds) b len = do
    str_bytes ← bucket_str_bytes b
    offs ← bucket_index_offs b
    let end_of_strs = plus (plus b sizeof_bucket) str_bytes
    let start_of_indexes = plus b offs
    let again = λ (b' : Ptr). make_room rounds b' len
    if leb (back start_of_indexes 4).off (end_of_strs.off + len)
        then (do
          grown ← bucket_expand b bucket_growth_rate
          elim grown as (λ _. M (Option Ptr)) [ none ↦ pure none | some b' ↦ again b' ])
        else pure (some b)

module _ (c : Libc) where
  -- The rest of `mlib_bucket_add`.
  unfoldable pub append_text : Ptr → Text → M Status
  append_text b str = do
    let len = length str + 1
    str_bytes ← bucket_str_bytes b
    offs ← bucket_index_offs b
    let strings = plus b sizeof_bucket
    let end_of_strs = plus strings str_bytes
    memcpy end_of_strs (str ++ 0 ∷ [])
    index ← ptr_diff end_of_strs strings
    store32 (back (plus b offs) 4) (u32 index)
    old_offs ← bucket_index_offs b
    store32 (plus b 8) (sub32 old_offs 4)
    old_bytes ← bucket_str_bytes b
    store32 (plus b 12) (old_bytes + len)
    bucket_sort c b
    pure ok

module _ (os : Os) (c : Libc) where
  -- `mlib_bucket_add`
  unfoldable pub bucket_add : Ptr → Text → M Status
  bucket_add b str = do
    let len = u32 (length str + 1)
    found ← bucket_contains c b str
    elim found as (λ _. M Status) [
      | some _ ↦ pure failed
      | none ↦ do
        room ← make_room os (len + 2) b len
        elim room as (λ _. M Status) [ none ↦ pure failed | some b' ↦ append_text c b' str ]
    ]
