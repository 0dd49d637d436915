-- ===== src/Space/Grow.antt =====
-- `__mlib_library_expand` and `__mlib_library_insert_space`.
use mlib.Prelude.{
  ℕ, ◌+◌, ◌-◌, ◌^◌, ◌≤◌, ◌<◌, ◌≡◌, ◌∙◌, fun_ext, ◌∷◌, [], true, false, some, ltb, inr,
  if◌then◌else◌, arith, lt→leb_false,
}
use mlib.Bytes.{Bytes, readl, writel, put, move, fill}
use mlib.Bytes.Laws.{readl-ext, readl-writel, writel-IsBytes, writel-out}
use mlib.Memory.{Library, ok, failed, u32, sub32}
use mlib.Memory.Laws.{load32_ok, store32_ok, memmove_ok, memset_ok}
use native.Mathlib.Nat.{mod-eq_of_lt, zero-add}
use mlib.Space.{
  Os, lib_len, lib_set_len, library_expand_fd, remap, library_expand, library_insert_space,
}
use mlib.Space.Invariant.{IsLibrary}

-- The file at `len` bytes, mapped at `base`.
abbrev pub grown : ℕ → ℕ → Library → Library
grown base len l = record l { base = base; mapped = len; size = len; bytes = writel l.bytes 8 len }

-- `n` zero bytes at `o`, and what was there behind them.
unfoldable pub spread : Bytes → ℕ → ℕ → Bytes
spread m o n x = if ltb x o then m x else if ltb x (o + n) then 0 else m (x - n)

pub lib_len_read :
    (l : Library)
    → readl l.bytes 8 ≡ l.size
    → l.size ≤ l.mapped
    → 1024 ≤ l.size
    → lib_len l ≡ some (l.size, l)
unfolding lib_len
lib_len_read l field map large =
    ground (arith, load32_ok l (record { base = l.base; off = 8 }), field)

module _ {l : Library} (v : IsLibrary l) where
  pub lib_len_ok : lib_len l ≡ some (l.size, l)
  lib_len_ok = lib_len_read l v.length_field v.in_map v.has_header

  pub lib_set_len_ok :
      (len : ℕ) → lib_set_len len l ≡ some (tt, record l { bytes = writel l.bytes 8 (u32 len) })
  unfolding lib_set_len
  lib_set_len_ok len =
      ground (arith, store32_ok l (record { base = l.base; off = 8 }) len, v.in_map, v.has_header)

  -- The zero byte that is written past the end of the file is there already.
  put_past : (n : ℕ) → l.size ≤ n → put l.bytes n (0 ∷ []) ≡ l.bytes
  unfolding put
  put_past n h = fun_ext λ x. ground (arith, v.zero_past x)

module _ (os : Os) {l : Library} (v : IsLibrary l) (len : ℕ) where
  -- A size that is not larger is refused, and nothing changes.
  pub library_expand_refused : len ≤ l.size → library_expand os len l ≡ some (failed, l)
  unfolding library_expand
  library_expand_refused h = rw (lib_len_ok v) (ground arith)

  extend_ok :
      l.size < len
      → os.extends len ≡ true
      → library_expand_fd os len (record l { mapped = 0 })
        ≡ some (ok, record l { mapped = 0; size = len })
  unfolding library_expand_fd
  extend_ok more ext = ground (arith, put_past v (len - 1))

  remap_ok :
      {base : ℕ} (m : Library)
      → os.mmap m.base len ≡ some base
      → remap os len m ≡ some (ok, record m { base = base; mapped = len })
  unfolding remap
  remap_ok m e = rw (e, remap)

  header_field_ok :
      (base : ℕ)
      → l.size < len
      → len < 2 ^ 32
      → lib_set_len len (record l { base = base; mapped = len; size = len })
        ≡ some (tt, grown base len l)
  unfolding lib_set_len
  header_field_ok base more small = ground (
    arith,
    store32_ok (record l { base = base; mapped = len; size = len })
        (record { base = base; off = 8 }) len,
    v.has_header,
  )

  -- A well-formed library is expanded to a larger size below 4 GiB if the kernel extends the file
  -- and maps it again: 0 is returned, the library is mapped where `mmap` put it, its length field
  -- is the new size, and no other byte of it changes.
  pub library_expand-grown :
      {base : ℕ}
      → l.size < len
      → len < 2 ^ 32
      → os.extends len ≡ true
      → os.mmap l.base len ≡ some base
      → library_expand os len l ≡ some (ok, grown base len l)
  unfolding library_expand
  library_expand-grown {base} more small ext map =
      rw
        (
          lib_len_ok v,
          lt→leb_false len l.size more,
          extend_ok more ext,
          remap_ok (record l { mapped = 0; size = len }) map,
        )
        (rw (header_field_ok base more small))

  -- Where the kernel refuses to extend the file of a well-formed library to a larger size,
  -- expanding fails and the file is as it was, but the library is no longer mapped.
  pub library_expand-unmapped :
      l.size < len
      → os.extends len ≡ false
      → library_expand os len l ≡ some (failed, record l { mapped = 0 })
  unfolding library_expand library_expand_fd
  library_expand-unmapped more ext = rw (lib_len_ok v, lt→leb_false len l.size more) (ground arith)

  pub grown-IsLibrary : (base : ℕ) → l.size < len → len < 2 ^ 32 → IsLibrary (grown base len l)
  grown-IsLibrary base more small = record {
    length_field = readl-writel l.bytes 8 len ∙ mod-eq_of_lt small;
    in_map = omega arith;
    has_header = omega (arith, v.has_header);
    small = small;
    zero_past = λ x h.
        writel-out l.bytes 8 len x (inr (omega (arith, v.has_header)))
        ∙ v.zero_past x (omega arith);
    are_bytes = writel-IsBytes l.bytes 8 len v.are_bytes;
  }

-- The library after `n` bytes were inserted at `o`.
abbrev pub spaced : ℕ → ℕ → ℕ → Library → Library
spaced base o n l = record l {
  base = base;
  mapped = l.size + n;
  size = l.size + n;
  bytes = spread (writel l.bytes 8 (l.size + n)) o n;
}

module _ (os : Os) {l : Library} (v : IsLibrary l) (o n : ℕ) where
  opened :
      (m : Bytes)
      → ((x : ℕ) → l.size ≤ x → m x ≡ 0)
      → o ≤ l.size
      → fill (move m (o + n) o (l.size - o)) o 0 n ≡ spread m o n
  unfolding fill move spread
  opened m zero_past h = fun_ext λ x. ground (arith, zero_past x, zero_past (x - n))

  -- In a well-formed library, if the kernel extends the file and maps it again, inserting a
  -- positive number of bytes behind the header, with the file below 4 GiB, returns 0: the new bytes
  -- are zero, what stood behind their place has moved up, the length field counts them, and the
  -- library is mapped where `mmap` put it.
  pub library_insert_space_lem :
      {base : ℕ}
      → 1024 ≤ o
      → o ≤ l.size
      → 0 < n
      → l.size + n < 2 ^ 32
      → os.extends (l.size + n) ≡ true
      → os.mmap l.base (l.size + n) ≡ some base
      → library_insert_space os o n l ≡ some (ok, spaced base o n l)
  unfolding library_insert_space
  library_insert_space_lem {base} lo hi pos small ext map =
      let fits : u32 (l.size + n) ≡ l.size + n = mod-eq_of_lt small in
      let moved : sub32 l.size o ≡ l.size - o = omega (arith, v.small) in
      rw
        (
          lib_len_ok v,
          fits,
          library_expand-grown os v (l.size + n) (omega arith) small ext map,
          moved,
        )
        (rw
          (
            zero-add,
            memmove_ok (grown base (l.size + n) l) (record { base = base; off = o + n })
                (record { base = base; off = o }) (l.size - o) (omega arith) (omega arith),
          )
          (rw (
            memset_ok
                (record (grown base (l.size + n) l) {
                  bytes = move (writel l.bytes 8 (l.size + n)) (o + n) o (l.size - o);
                })
                (record { base = base; off = o }) 0 n (omega arith),
            opened (writel l.bytes 8 (l.size + n))
                (λ x h.
                  writel-out l.bytes 8 (l.size + n) x (inr (omega (arith, v.has_header)))
                  ∙ v.zero_past x h)
                hi,
          )))

module _ {l : Library} (v : IsLibrary l) (o n : ℕ) where
  pub spaced-IsLibrary :
      (base : ℕ) → 1024 ≤ o → o ≤ l.size → l.size + n < 2 ^ 32 → IsLibrary (spaced base o n l)
  unfolding spread
  spaced-IsLibrary base lo hi small = record {
    length_field =
        readl-ext (spread m o n) m 8 8 (ground arith) (ground arith) (ground arith) (ground arith)
        ∙ (readl-writel l.bytes 8 (l.size + n) ∙ mod-eq_of_lt small);
    in_map = omega arith;
    has_header = omega (arith, v.has_header);
    small = small;
    zero_past = λ x h.
        ground
          (arith, writel-out l.bytes 8 (l.size + n) (x - n), v.zero_past (x - n), v.has_header);
    are_bytes = λ x. ground (
      arith,
      writel-IsBytes l.bytes 8 (l.size + n) v.are_bytes x,
      writel-IsBytes l.bytes 8 (l.size + n) v.are_bytes (x - n),
    );
  }
    where
      m : Bytes
      m = writel l.bytes 8 (l.size + n)
