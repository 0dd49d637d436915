-- ===== src/Space/Shrink.antt =====
-- `__mlib_library_trunc` and `__mlib_library_excise`.
use native.Mathlib.Nat.{mod-eq_of_lt, zero-add}
use mlib.Prelude.{
  ℕ, ◌+◌, ◌-◌, ◌^◌, ◌≤◌, ◌<◌, ◌≡◌, ◌⊎◌, refl, ◌∙◌, fun_ext, true, some, ltb, if◌then◌else◌, arith,
  le→ltb_false,
}
use mlib.Bytes.{Bytes, readl, writel, move}
use mlib.Bytes.Laws.{
  IsBytes, readl-ext, readl-writel, writel-IsBytes, writel-out, writel-readl, writel-writel,
}
use mlib.Memory.{Library, Ptr, ok, failed, u32, sub64}
use mlib.Memory.Laws.{store32_ok, memmove_ok, ptr_diff_ok}
use mlib.Space.{Os, lib_set_len, library_trunc, library_excise, library_insert_space}
use mlib.Space.Invariant.{IsLibrary}
use mlib.Space.Grow.{
  lib_len_read, lib_len_ok, spread, spaced, spaced-IsLibrary, library_insert_space_lem,
}

-- The bytes below `n`, and zero from there on.
unfoldable pub cut : Bytes → ℕ → Bytes
cut m n x = if ltb x n then m x else 0

abbrev pub cut_off : ℕ → Library → Library
cut_off len l = record l { size = len; bytes = writel (cut l.bytes len) 8 len }

-- The bytes without the `n` from `o` on.
unfoldable pub close : Bytes → ℕ → ℕ → Bytes
close m o n x = if ltb x o then m x else m (x + n)

abbrev pub closed : ℕ → ℕ → Library → Library
closed o n l = record l { size = l.size - n; bytes = writel (close l.bytes o n) 8 (l.size - n) }

module _ (os : Os) {l : Library} (v : IsLibrary l) where
  -- A size below the header's or above the present one is refused, and nothing changes.
  pub library_trunc_refused :
      (len : ℕ) → (len < 1024) ⊎ (l.size < len) → library_trunc os len l ≡ some (failed, l)
  unfolding library_trunc
  library_trunc_refused len h = rw (lib_len_ok v) (ground arith)

module _ (os : Os) (l : Library) where
  -- The state between `memmove` and `ftruncate` has the old length field.
  pub library_trunc-cut_off :
      (len : ℕ)
      → readl l.bytes 8 ≡ l.size
      → l.size ≤ l.mapped
      → l.size < 2 ^ 32
      → 1024 ≤ len
      → len ≤ l.size
      → os.ftruncate len ≡ true
      → library_trunc os len l ≡ some (ok, cut_off len l)
  unfolding library_trunc lib_set_len cut
  library_trunc-cut_off len field map small lo hi grant =
      rw
        (
          lib_len_read l field map (omega arith),
          le→ltb_false len 1024 lo,
          le→ltb_false l.size len hi,
          grant,
        )
        (ground (
          arith,
          store32_ok (record l { size = len; bytes = cut l.bytes len })
              (record { base = l.base; off = 8 }) len,
        ))

module _ (os : Os) {l : Library} (v : IsLibrary l) where
  cut_off-IsLibrary : (len : ℕ) → 1024 ≤ len → len ≤ l.size → IsLibrary (cut_off len l)
  unfolding cut
  cut_off-IsLibrary len lo hi = record {
    length_field = readl-writel (cut l.bytes len) 8 len ∙ mod-eq_of_lt (omega (arith, v.small));
    in_map = omega (arith, v.in_map);
    has_header = lo;
    small = omega (arith, v.small);
    zero_past = λ x h. ground (arith, writel-out (cut l.bytes len) 8 len x);
    are_bytes = writel-IsBytes (cut l.bytes len) 8 len (λ x. ground (arith, v.are_bytes x));
  }

  closing :
      (o n : ℕ)
      → 1024 ≤ o
      → o + n ≤ l.size
      → cut (move l.bytes o (o + n) (l.size - (o + n))) (l.size - n) ≡ close l.bytes o n
  unfolding cut move close
  closing o n lo hi = fun_ext λ x. ground (arith, v.zero_past (x + n))

  -- In a well-formed library, if `ftruncate` succeeds, excising the bytes between two pointers
  -- behind the header and in the file returns 0: the bytes are gone, what stood behind them has
  -- moved down, and the length field and the file's size are less by their number.
  pub library_excise-closed :
      (o n : ℕ)
      → 1024 ≤ o
      → o + n ≤ l.size
      → os.ftruncate (l.size - n) ≡ true
      → library_excise os
          (record { base = l.base; off = o })
          (record { base = l.base; off = o + n })
          l
        ≡ some (ok, closed o n l)
  unfolding library_excise move
  library_excise-closed o n lo hi grant =
      let count : u32 (sub64 l.size (o + n)) ≡ l.size - (o + n) = omega (arith, v.small) in
      let left : sub64 l.size (sub64 (o + n) o) ≡ l.size - n = omega (arith, v.small) in
      rw
        (
          lib_len_ok v,
          zero-add,
          ptr_diff_ok l (at l.size) (at (o + n)) refl,
          count,
          memmove_ok l (at o) (at (o + n)) (l.size - (o + n)) (omega (arith, v.in_map))
              (omega (arith, v.in_map)),
        )
        (rw
          (
            lib_len_read moved field v.in_map v.has_header,
            ptr_diff_ok moved (at (o + n)) (at o) refl,
            left,
          )
          (rw
            (library_trunc-cut_off os moved (l.size - n) field v.in_map v.small (omega arith)
              (omega arith) grant)
            (rw (closing o n lo hi))))
    where
      at : ℕ → Ptr
      at off = record { base = l.base; off = off }

      moved : Library
      moved = record l { bytes = move l.bytes o (o + n) (l.size - (o + n)) }

      field : readl moved.bytes 8 ≡ moved.size
      field =
          readl-ext moved.bytes l.bytes 8 8 (ground arith) (ground arith) (ground arith)
            (ground arith)
          ∙ v.length_field

  close-IsBytes : (o n : ℕ) → IsBytes (close l.bytes o n)
  unfolding close
  close-IsBytes o n x = ground (arith, v.are_bytes x, v.are_bytes (x + n))

  -- An excised library is again one.
  pub closed-IsLibrary : (o n : ℕ) → 1024 ≤ o → o + n ≤ l.size → IsLibrary (closed o n l)
  unfolding close
  closed-IsLibrary o n lo hi = record {
    length_field =
        readl-writel (close l.bytes o n) 8 (l.size - n) ∙ mod-eq_of_lt (omega (arith, v.small));
    in_map = omega (arith, v.in_map);
    has_header = omega arith;
    small = omega (arith, v.small);
    zero_past =
        λ x h. ground (arith, writel-out (close l.bytes o n) 8 (l.size - n) x, v.zero_past (x + n));
    are_bytes = writel-IsBytes (close l.bytes o n) 8 (l.size - n) (close-IsBytes o n);
  }

close-spread : (m : Bytes) (o n : ℕ) → close (spread m o n) o n ≡ m
unfolding close spread
close-spread m o n = fun_ext λ x. ground arith

module _ (os : Os) {l : Library} (v : IsLibrary l) (o n : ℕ) where
  restored : writel (close (spread (writel l.bytes 8 (l.size + n)) o n) o n) 8 l.size ≡ l.bytes
  restored = rw (close-spread, writel-writel, ← v.length_field) (writel-readl l.bytes 8 v.are_bytes)

  -- In a well-formed library, where the kernel extends the file, maps it anywhere, and `ftruncate`
  -- succeeds, library_insert_space of a positive number of bytes behind the header returns 0, with
  -- the file then below 4 GiB; and library_excise of those bytes returns 0 and leaves every byte
  -- and the size of the file as they were before both: only the mapping differs.
  pub excise-insert_space :
      {base : ℕ}
      → 1024 ≤ o
      → o ≤ l.size
      → 1 ≤ n
      → l.size + n < 2 ^ 32
      → os.extends (l.size + n) ≡ true
      → os.mmap l.base (l.size + n) ≡ some base
      → os.ftruncate l.size ≡ true
      → (m : Library) × (library_insert_space os o n l ≡ some (ok, m))
        × (m.base ≡ base)
        × (library_excise os
              (record { base = base; off = o })
              (record { base = base; off = o + n })
              m
            ≡ some (ok, record l { base = base; mapped = l.size + n }))
  excise-insert_space {base} lo hi pos small ext map grant =
      let size : l.size + n - n ≡ l.size = omega arith in
      (
        spaced base o n l,
        library_insert_space_lem os v o n lo hi pos small ext map,
        refl,
        rw
            (library_excise-closed os (spaced-IsLibrary v o n base lo hi small) o n lo (omega arith)
              (rw size grant))
            (rw (size, restored)),
      )
