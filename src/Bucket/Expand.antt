-- ===== src/Bucket/Expand.antt =====
-- `mlib_bucket_expand`.
use native.Mathlib.Nat.{mod-eq_of_lt, zero-add}
use mlib.Prelude.{ℕ, ◌+◌, ◌<◌, ◌^◌, ◌≡◌, refl, ◌∙◌, inl, inr, some, List, arith}
use mlib.Bytes.{readl, writel}
use mlib.Bytes.Laws.{readl-writel_ne}
use mlib.Memory.{Library, Ptr, plus, sub64, u32}
use mlib.Memory.Laws.{store32_ok, ptr_diff_ok}
use mlib.Space.{Os}
use mlib.Space.Grow.{spaced, library_insert_space_lem}
use mlib.Space.Write.{load32_is}
use mlib.Bucket.{Entry, add_length, bucket_expand}
use mlib.Bucket.Room.{InPlaylist, InPlaylist-ordered, Widened, Grants}
use mlib.Bucket.Wide.{room, wide, room_field, wide_lib, wide-Widened}

module _ {l : Library} {p plen used offs len : ℕ} {es : List Entry}
    (v : InPlaylist l p plen used offs len es) (g : ℕ) (small : l.size + g < 2 ^ 32)
    (base : ℕ) where
  add_length_ok :
      add_length (record { base = base; off = p + 128 }) g (spaced base (p + 128 + offs) g l)
      ≡ some (tt, wide_lib v g small base)
  unfolding add_length wide_lib wide room
  add_length_ok =
      rw
        (
          load32_is l0 (plus b 4) (omega (arith, InPlaylist-ordered v)) (
              room_field v g (p + 128 + 4) (omega arith) (omega (arith, v.holds.room))
              ∙ v.holds.length_field),
          store32_ok l0 (plus b 4) (len + g) (omega (arith, InPlaylist-ordered v)),
          len_fits,
          load32_is l1 (plus b 8) (omega (arith, InPlaylist-ordered v)) offs_left,
          store32_ok l1 (plus b 8) (offs + g) (omega (arith, InPlaylist-ordered v)),
          offs_fits,
        )
        (rw (
          start,
          load32_is l2 (record { base = base; off = p + 4 }) (omega (arith, InPlaylist-ordered v))
              plist_left,
          store32_ok l2 (record { base = base; off = p + 4 }) (plen + g)
              (omega (arith, InPlaylist-ordered v)),
          plen_fits,
        ))
    where
      b : Ptr
      b = record { base = base; off = p + 128 }

      l0 : Library
      l0 = spaced base (p + 128 + offs) g l

      l1 : Library
      l1 = record l0 { bytes = writel l0.bytes (p + 128 + 4) (len + g) }

      l2 : Library
      l2 = record l1 { bytes = writel l1.bytes (p + 128 + 8) (offs + g) }

      len_fits : u32 (len + g) ≡ len + g
      len_fits = mod-eq_of_lt (omega (arith, InPlaylist-ordered v))

      offs_fits : u32 (offs + g) ≡ offs + g
      offs_fits = mod-eq_of_lt (omega (arith, InPlaylist-ordered v))

      plen_fits : u32 (plen + g) ≡ plen + g
      plen_fits = mod-eq_of_lt (omega (arith, InPlaylist-ordered v))

      start : sub64 (p + 128) 128 ≡ p
      start = omega (arith, InPlaylist-ordered v)

      offs_left : readl l1.bytes (p + 128 + 8) ≡ offs
      offs_left =
          readl-writel_ne l0.bytes (p + 128 + 4) (len + g) (p + 128 + 8) (inr (omega arith))
          ∙ (room_field v g (p + 128 + 8) (omega arith) (omega (arith, v.holds.room))
              ∙ v.holds.offs_field)

      plist_left : readl l2.bytes (p + 4) ≡ plen
      plist_left =
          readl-writel_ne l1.bytes (p + 128 + 8) (offs + g) (p + 4) (inl (omega arith))
          ∙ (readl-writel_ne l0.bytes (p + 128 + 4) (len + g) (p + 4) (inl (omega arith))
              ∙ (room_field v g (p + 4) (omega (arith, v.behind_header)) (omega arith)
                  ∙ v.plist_field))

module _ (os : Os) (grants : Grants os) {l : Library} {p plen used offs len : ℕ} {es : List Entry}
    (v : InPlaylist l p plen used offs len es) (g : ℕ) where
  -- Expanding the bucket of a playlist in a well-formed library by a positive number of bytes, with
  -- the file below 4 GiB and a kernel that grants it at any address, returns a pointer to the
  -- bucket in the new mapping. The bucket holds the same entries, with the new bytes between its
  -- strings and its index array; what stood behind them has moved up unchanged, and the lengths of
  -- the bucket, of its playlist and of the library count the new bytes.
  pub bucket_expand-Widened :
      0 < g
      → l.size + g < 2 ^ 32
      → (l' : Library) × (bucket_expand os (record { base = l.base; off = p + 128 }) g l
          ≡ some (some (record { base = l'.base; off = p + 128 }), l'))
        × Widened os l l' p plen used offs len es g
  unfolding bucket_expand wide_lib
  bucket_expand-Widened pos small =
      let (base, map) = grants.mmap l.base (l.size + g) in
      (
        wide_lib v g small base,
        rw
            (
              load32_is l (record { base = l.base; off = p + 128 + 8 })
                  (omega (arith, InPlaylist-ordered v)) v.holds.offs_field,
              ptr_diff_ok l (record { base = l.base; off = p + 128 + offs })
                  (record { base = l.base; off = 0 }) refl,
              ptr_diff_ok l (record { base = l.base; off = p + 128 })
                  (record { base = l.base; off = 0 }) refl,
              at_offs,
              library_insert_space_lem os v.library (p + 128 + offs) g
                  (omega (arith, InPlaylist-ordered v)) (omega (arith, InPlaylist-ordered v)) pos
                  small (grants.extends _) map,
            )
            (rw (at_bucket, zero-add) (rw (add_length_ok v g small base))),
        wide-Widened v g small base os map,
      )
    where
      at_offs : u32 (sub64 (p + 128 + offs) 0) ≡ p + 128 + offs
      at_offs = omega (arith, InPlaylist-ordered v)

      at_bucket : u32 (sub64 (p + 128) 0) ≡ p + 128
      at_bucket = omega (arith, InPlaylist-ordered v)
