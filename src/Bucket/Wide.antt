-- ===== src/Bucket/Wide.antt =====
-- The bytes that `mlib_bucket_expand` leaves: room before the index array, and the lengths counted.
use native.Mathlib.Nat.{mod-eq_of_lt}
use mlib.Prelude.{ℕ, ◌+◌, ◌≤◌, ◌<◌, ◌^◌, ◌≡◌, refl, ◌∙◌, ◌⊎◌, some, List, arith, inr}
use mlib.Bytes.{Bytes, readl, writel}
use mlib.Bytes.Laws.{readl-ext, readl-writel, readl-writel_ne, writel-out}
use mlib.Memory.{Library}
use mlib.Space.{Os}
use mlib.Space.Invariant.{IsLibrary}
use mlib.Space.Grow.{spread, spaced-IsLibrary}
use mlib.Space.Write.{written-IsLibrary}
use mlib.Bucket.{Entry}
use mlib.Bucket.Holds.{IsBucket, IsIndexes-copy, IsEntry-keep}
use mlib.Bucket.Room.{InPlaylist, InPlaylist-ordered, Kept, here, next, by, Widened}

module _ {l : Library} {p plen used offs len : ℕ} {es : List Entry}
    (v : InPlaylist l p plen used offs len es) where
  -- The bytes after one round.
  unfoldable pub room : ℕ → Bytes
  room g = spread (writel l.bytes 8 (l.size + g)) (p + 128 + offs) g

  unfoldable pub wide : ℕ → Bytes
  unfolding room
  wide g =
      writel (writel (writel (room g) (p + 128 + 4) (len + g)) (p + 128 + 8) (offs + g)) (p + 4)
        (plen + g)

  room_below : (g x : ℕ) → 12 ≤ x → x < p + 128 + offs → room g x ≡ l.bytes x
  unfolding room spread
  room_below g x lo hi = ground (arith, writel-out l.bytes 8 (l.size + g) x)

  pub room_field : (g a : ℕ) → 12 ≤ a → a + 4 ≤ p + 128 + offs → readl (room g) a ≡ readl l.bytes a
  room_field g a lo hi =
      readl-ext (room g) l.bytes a a (room_below g a lo (omega arith))
        (room_below g (a + 1) (omega arith) (omega arith))
        (room_below g (a + 2) (omega arith) (omega arith))
        (room_below g (a + 3) (omega arith) (omega arith))

  -- The three fields that `mlib_bucket_expand` sets.
  wide_out :
      (g x : ℕ) → (x < p + 4) ⊎ (p + 8 ≤ x) → (x < p + 132) ⊎ (p + 140 ≤ x) → wide g x ≡ room g x
  unfolding wide
  wide_out g x h k = ground (
    arith,
    writel-out (room g) (p + 128 + 4) (len + g) x,
    writel-out (writel (room g) (p + 128 + 4) (len + g)) (p + 128 + 8) (offs + g) x,
    writel-out (writel (writel (room g) (p + 128 + 4) (len + g)) (p + 128 + 8) (offs + g)) (p + 4)
        (plen + g) x,
  )

  wide_below : (g x : ℕ) → x < p + 128 + offs → Kept p x → wide g x ≡ l.bytes x
  unfolding room spread
  wide_below g x h k = ground (arith, wide_out g x k.1 k.2, writel-out l.bytes 8 (l.size + g) x)

  wide_above : (g x : ℕ) → p + 128 + offs ≤ x → wide g (x + g) ≡ l.bytes x
  unfolding room spread
  wide_above g x h = ground (
    arith,
    v.holds.room,
    v.behind_header,
    wide_out g (x + g),
    writel-out l.bytes 8 (l.size + g) x,
  )

  wide_field :
      (g a : ℕ)
      → 12 ≤ a
      → a + 4 ≤ p + 128 + offs
      → (a + 4 ≤ p + 4) ⊎ (p + 8 ≤ a)
      → (a + 4 ≤ p + 132) ⊎ (p + 140 ≤ a)
      → readl (wide g) a ≡ readl l.bytes a
  wide_field g a lo hi h k =
      readl-ext (wide g) l.bytes a a (wide_below g a (omega arith) (omega arith))
        (at 1 (omega arith)) (at 2 (omega arith)) (at 3 (omega arith))
    where
      at : (i : ℕ) → i < 4 → wide g (a + i) ≡ l.bytes (a + i)
      at i lt = wide_below g (a + i) (omega arith) (omega arith)

  small_len : len < 2 ^ 32
  small_len = omega (arith, InPlaylist-ordered v)

  length_written : (g : ℕ) → l.size + g < 2 ^ 32 → readl (wide g) (p + 128 + 4) ≡ len + g
  unfolding wide
  length_written g small = ground (
    arith,
    readl-writel (room g) (p + 128 + 4) (len + g),
    readl-writel_ne (writel (room g) (p + 128 + 4) (len + g)) (p + 128 + 8) (offs + g)
        (p + 128 + 4),
    readl-writel_ne (writel (writel (room g) (p + 128 + 4) (len + g)) (p + 128 + 8) (offs + g))
        (p + 4) (plen + g) (p + 128 + 4),
    v.inside,
    v.around,
    v.holds.indexes_fit,
  )

  offs_written : (g : ℕ) → l.size + g < 2 ^ 32 → readl (wide g) (p + 128 + 8) ≡ offs + g
  unfolding wide
  offs_written g small = ground (
    arith,
    readl-writel (writel (room g) (p + 128 + 4) (len + g)) (p + 128 + 8) (offs + g),
    readl-writel_ne (writel (writel (room g) (p + 128 + 4) (len + g)) (p + 128 + 8) (offs + g))
        (p + 4) (plen + g) (p + 128 + 8),
    v.inside,
    v.around,
    v.holds.indexes_fit,
  )

  module _ (g : ℕ) (small : l.size + g < 2 ^ 32) (base : ℕ) where
    unfoldable pub wide_lib : Library
    wide_lib = record { base = base; mapped = l.size + g; size = l.size + g; bytes = wide g }

    wide-IsLibrary : IsLibrary wide_lib
    unfolding wide_lib wide room
    wide-IsLibrary =
        written-IsLibrary (p + 4) (plen + g)
          (written-IsLibrary (p + 128 + 8) (offs + g)
            (written-IsLibrary (p + 128 + 4) (len + g)
              (spaced-IsLibrary v.library (p + 128 + offs) g base (omega (arith, v.behind_header))
                (omega (arith, InPlaylist-ordered v)) small)
              (omega (arith, InPlaylist-ordered v)) (omega (arith, InPlaylist-ordered v)))
            (omega (arith, InPlaylist-ordered v)) (omega (arith, InPlaylist-ordered v)))
          (omega (arith, InPlaylist-ordered v)) (omega (arith, InPlaylist-ordered v))

    wide-IsBucket : IsBucket wide_lib (p + 128) used (offs + g) (len + g) es
    unfolding wide_lib
    wide-IsBucket = record {
      magic =
          wide_field g (p + 128) (omega (arith, v.behind_header, v.holds.room))
            (omega (arith, v.behind_header, v.holds.room))
            (omega (arith, v.behind_header, v.holds.room))
            (omega (arith, v.behind_header, v.holds.room))
          ∙ v.holds.magic;
      length_field = length_written g (omega arith);
      offs_field = offs_written g (omega arith);
      bytes_field =
          wide_field g (p + 128 + 12) (omega (arith, v.behind_header, v.holds.room))
            (omega (arith, v.behind_header, v.holds.room))
            (omega (arith, v.behind_header, v.holds.room))
            (omega (arith, v.behind_header, v.holds.room))
          ∙ v.holds.bytes_field;
      room = omega (arith, v.holds.room);
      indexes_fit = omega (arith, v.holds.indexes_fit);
      inside = omega (arith, v.inside, v.around);
      indexes =
          IsIndexes-copy l.bytes (wide g) (p + 128 + offs) (p + 128 + (offs + g)) es
            (λ i lt. ground (arith, wide_above g (p + 128 + offs + i))) v.holds.indexes;
      texts =
          IsEntry-keep l.bytes (wide g) (p + 128 + 16) used used (omega arith)
            (λ x lo hi.
              wide_below g x (omega (arith, v.holds.room)) (omega (arith, v.behind_header)))
            es v.holds.texts;
    }

    pub wide-Widened :
        (os : Os)
        → os.mmap l.base (l.size + g) ≡ some base
        → Widened os l wide_lib p plen used offs len es g
    unfolding wide_lib wide
    wide-Widened os map = record {
      same_bucket = record {
        library = wide-IsLibrary;
        behind_header = v.behind_header;
        plist_field = readl-writel _ (p + 4) (plen + g) ∙ mod-eq_of_lt (omega (arith, v.inside));
        inside = omega (arith, v.inside);
        around = omega (arith, v.around);
        holds = wide-IsBucket;
      };
      moves = next (l.size + g) here map;
      again = inr (by (l.size + g) here map here);
      size = refl;
      below = wide_below g;
      above = wide_above g;
    }
