-- ===== src/Bucket/Written.antt =====
-- What `mlib_bucket_add` writes before it sorts: the string, its index and two fields.
use native.Mathlib.Nat.{mod-eq_of_lt}
use mlib.Prelude.{
  ℕ, ◌+◌, ◌≤◌, ◌<◌, ◌≡◌, refl, ◌∙◌, ◌⊎◌, inl, inr, List, [], ◌∷◌, ◌++◌, All, length, length-append,
  arith,
}
use mlib.Bytes.{Bytes, readl, writel, put}
use mlib.Bytes.Laws.{
  readl-agree, readl-writel, readl-writel_ne, writel-out, put-out, put-in, put-IsBytes,
}
use mlib.Memory.{Library}
use mlib.Text.{Text}
use mlib.Text.Stored.{IsText, IsCString, IsText-of_bytes}
use mlib.Space.Invariant.{IsLibrary}
use mlib.Space.Write.{written-IsLibrary}
use mlib.Bucket.{Entry}
use mlib.Bucket.Holds.{IsBucket, IsIndexes-copy, IsEntry-keep}
use mlib.Bucket.Room.{InPlaylist, InPlaylist-ordered}
use mlib.Bucket.Search.{BucketAt}

-- The bytes of `str`, with the zero.
abbrev pub c_bytes : Text → List ℕ
c_bytes str = str ++ 0 ∷ []

pub length-c_bytes : (str : Text) → length (c_bytes str) ≡ length str + 1
length-c_bytes str = length-append str (0 ∷ [])

c_bytes-lt : (str : Text) → IsCString str → All (λ b. b < 256) (c_bytes str)
c_bytes-lt [] h = (omega arith, tt)
c_bytes-lt (x ∷ str) h = (h.0.1, c_bytes-lt str h.1)

-- The bucket at `p` with space for `str` and an index, whose array begins at `o + 4`.
module _ {l : Library} {p plen used len o : ℕ} {es : List Entry}
    (v : InPlaylist l p plen used (o + 4) len es) (str : Text) (cs : IsCString str)
    (space : 16 + used + (length str + 1) ≤ o) where
  unfoldable pub entry : Entry
  entry = record { index = used; text = str }

  -- The string, its index, and the two fields.
  unfoldable pub m1 : Bytes
  m1 = put l.bytes (p + 128 + 16 + used) (c_bytes str)

  unfoldable pub m2 : Bytes
  m2 = writel m1 (p + 128 + o) used

  unfoldable pub m3 : Bytes
  m3 = writel m2 (p + 128 + 8) o

  unfoldable pub m4 : Bytes
  unfolding m1 m2 m3
  m4 = writel m3 (p + 128 + 12) (used + (length str + 1))

  -- The bytes that are not written.
  unfoldable pub Spared : ℕ → Type 0
  Spared x =
      ((x < p + 136) ⊎ (p + 144 ≤ x))
      × ((x < p + 144 + used) ⊎ (p + 144 + used + (length str + 1) ≤ x))
      × ((x < p + 128 + o) ⊎ (p + 128 + o + 4 ≤ x))

  pub m1-out :
      (x : ℕ) → (x < p + 144 + used) ⊎ (p + 144 + used + (length str + 1) ≤ x) → m1 x ≡ l.bytes x
  unfolding m1
  m1-out x h =
      put-out l.bytes (p + 128 + 16 + used) (c_bytes str) x (ground (arith, length-c_bytes str))

  m4-out : (x : ℕ) → (x < p + 136) ⊎ (p + 144 ≤ x) → m4 x ≡ m2 x
  unfolding m4
  m4-out x h = ground (
    arith,
    writel-out m3 (p + 128 + 12) (used + (length str + 1)) x,
    writel-out m2 (p + 128 + 8) o x,
  )

  pub spared : (x : ℕ) → Spared x → m4 x ≡ l.bytes x
  unfolding Spared m2
  spared x h = ground (arith, m4-out x h.0, writel-out m1 (p + 128 + o) used x h.2, m1-out x h.1)

  Spared-field : (a : ℕ) → ((x : ℕ) → a ≤ x → x < a + 4 → Spared x) → readl m4 a ≡ readl l.bytes a
  Spared-field a h = readl-agree m4 l.bytes a (λ x lo hi. spared x (h x lo hi))

  unfoldable pub appended : Library
  appended = record l { bytes = m4 }

  pub appended-IsLibrary : IsLibrary appended
  unfolding appended m4
  appended-IsLibrary =
      written-IsLibrary (p + 128 + 12) (used + (length str + 1))
        (written-IsLibrary (p + 128 + 8) o
          (written-IsLibrary (p + 128 + o) used texted (omega (arith, InPlaylist-ordered v))
            (omega (arith, InPlaylist-ordered v)))
          (omega (arith, InPlaylist-ordered v)) (omega (arith, InPlaylist-ordered v)))
        (omega (arith, InPlaylist-ordered v)) (omega (arith, InPlaylist-ordered v))
    where
      texted : IsLibrary (record l { bytes = m1 })
      texted = record {
        length_field =
            readl-agree m1 l.bytes 8 (λ x lo hi. m1-out x (inl (omega (arith, v.behind_header))))
            ∙ v.library.length_field;
        in_map = v.library.in_map;
        has_header = v.library.has_header;
        small = v.library.small;
        zero_past =
            λ x h. m1-out x (inr (omega (arith, InPlaylist-ordered v))) ∙ v.library.zero_past x h;
        are_bytes =
            put-IsBytes l.bytes (p + 128 + 16 + used) (c_bytes str) v.library.are_bytes
              (c_bytes-lt str cs);
      }

  IsText-written : IsText m4 (p + 128 + 16 + used) str
  unfolding m2 m1
  IsText-written = IsText-of_bytes m4 (p + 128 + 16 + used) str cs λ i le. ground (
    arith,
    m4-out (p + 128 + 16 + used + i),
    writel-out m1 (p + 128 + o) used (p + 128 + 16 + used + i),
    put-in l.bytes (p + 128 + 16 + used) (c_bytes str) i,
    length-c_bytes str,
  )

  index_written : readl m4 (p + 128 + o) ≡ used
  unfolding m2
  index_written =
      readl-agree m4 m2 (p + 128 + o) (λ x lo hi. m4-out x (inr (omega arith)))
      ∙ (readl-writel m1 (p + 128 + o) used ∙ mod-eq_of_lt (omega (arith, InPlaylist-ordered v)))

  appended-IsBucket : IsBucket appended (p + 128) (used + (length str + 1)) o len (entry ∷ es)
  unfolding appended entry Spared
  appended-IsBucket = record {
    magic = Spared-field (p + 128) (λ x lo hi. ground arith) ∙ v.holds.magic;
    length_field = Spared-field (p + 128 + 4) (λ x lo hi. ground arith) ∙ v.holds.length_field;
    offs_field = offs_written;
    bytes_field = bytes_written;
    room = omega arith;
    indexes_fit = omega (arith, v.holds.indexes_fit);
    inside = v.holds.inside;
    indexes = (
      index_written,
      IsIndexes-copy l.bytes m4 (p + 128 + (o + 4)) (p + 128 + o + 4) es
          (λ i lt. ground (arith, spared (p + 128 + o + 4 + i))) v.holds.indexes,
    );
    texts = (
      (omega arith, IsText-written),
      IsEntry-keep l.bytes m4 (p + 128 + 16) used (used + (length str + 1)) (omega arith)
          (λ x lo hi. spared x (ground arith)) es v.holds.texts,
    );
  }
    where
      offs_written : readl m4 (p + 128 + 8) ≡ o
      offs_written =
          unfold m3 m4 in
          readl-writel_ne m3 (p + 128 + 12) (used + (length str + 1)) (p + 128 + 8)
            (inl (omega arith))
          ∙ (readl-writel m2 (p + 128 + 8) o ∙ mod-eq_of_lt (omega (arith, InPlaylist-ordered v)))

      bytes_written : readl m4 (p + 128 + 12) ≡ used + (length str + 1)
      bytes_written =
          unfold m4 in
          readl-writel m3 (p + 128 + 12) (used + (length str + 1))
          ∙ mod-eq_of_lt (omega (arith, InPlaylist-ordered v))

  pub appended-At :
      BucketAt appended
        (record { base = l.base; off = p + 128 })
        (used + (length str + 1))
        o
        len
        (entry ∷ es)
  unfolding appended
  appended-At = record {
    same = refl;
    in_map = v.library.in_map;
    small = v.library.small;
    holds = appended-IsBucket;
  }
