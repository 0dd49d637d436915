-- ===== src/Playlist/Started.antt =====
-- The bytes that `mlib_start_playlist` leaves in a library that has grown.
use mlib.Prelude.{ℕ, suc, ◌+◌, ◌-◌, ◌≤◌, ◌<◌, ◌^◌, ◌≡◌, ◌⊎◌, inl, inr, refl, ◌∙◌, [], length, arith}
use mlib.Bytes.{Bytes, readl, writel, put}
use mlib.Bytes.Laws.{readl-writel, readl-writel_ne, writel-out, put-out, put-in}
use mlib.Memory.{Library}
use mlib.Text.{Text}
use mlib.Text.Stored.{IsText, IsText-of_bytes, IsCString}
use mlib.Space.{Os}
use mlib.Space.Invariant.{IsLibrary}
use mlib.Space.Grow.{grown-IsLibrary}
use mlib.Space.Write.{written-IsLibrary}
use mlib.Bucket.{bucket_magic_val}
use mlib.Bucket.Holds.{IsBucket}
use mlib.Playlist.{plist_hdr_magic}
use mlib.Playlist.NameField.{field, length-field, IsCString-bytes, get_or-padded, put-IsLibrary}

module _ (os : Os) {l : Library} (v : IsLibrary l) (name : Text) (cs : IsCString name)
    (short : length name ≤ 115) (small : l.size + 272 < 2 ^ 32) where
  unfoldable pub with_bytes : Bytes → Library
  with_bytes m = record { base = l.base; mapped = l.size + 272; size = l.size + 272; bytes = m }

  unfoldable pub m0 : Bytes
  m0 = put (writel l.bytes 8 (l.size + 272)) (l.size + 12) (field name)

  unfoldable pub m1 : Bytes
  m1 = writel m0 l.size plist_hdr_magic

  unfoldable pub m2 : Bytes
  m2 = writel m1 (l.size + 4) 272

  unfoldable pub m3 : Bytes
  m3 = writel m2 (l.size + 8) 0

  unfoldable pub m4 : Bytes
  m4 = writel m3 (l.size + 128) bucket_magic_val

  unfoldable pub m5 : Bytes
  m5 = writel m4 (l.size + 128 + 4) 128

  unfoldable pub m6 : Bytes
  m6 = writel m5 (l.size + 128 + 8) 128

  unfoldable pub m7 : Bytes
  m7 = writel m6 (l.size + 128 + 12) 0

  unfoldable pub started : Library
  started = with_bytes m7

  m0-IsLibrary : IsLibrary (with_bytes m0)
  unfolding with_bytes m0
  m0-IsLibrary =
      put-IsLibrary (l.size + 12) (field name)
        (grown-IsLibrary os v (l.size + 272) l.base (omega arith) small)
        (omega (arith, v.has_header)) (omega (arith, length-field name short))
        (IsCString-bytes name (suc (115 - length name)) cs)

  pub started-IsLibrary : IsLibrary started
  unfolding started with_bytes m1 m2 m3 m4 m5 m6 m7
  started-IsLibrary =
      written-IsLibrary (l.size + 128 + 12) 0
        (written-IsLibrary (l.size + 128 + 8) 128
          (written-IsLibrary (l.size + 128 + 4) 128
            (written-IsLibrary (l.size + 128) bucket_magic_val
              (written-IsLibrary (l.size + 8) 0
                (written-IsLibrary (l.size + 4) 272
                  (written-IsLibrary l.size plist_hdr_magic m0-IsLibrary
                    (omega (arith, v.has_header)) (omega arith))
                  (omega (arith, v.has_header)) (omega arith))
                (omega (arith, v.has_header)) (omega arith))
              (omega (arith, v.has_header)) (omega arith))
            (omega (arith, v.has_header)) (omega arith))
          (omega (arith, v.has_header)) (omega arith))
        (omega (arith, v.has_header)) (omega arith)

  outside : (x : ℕ) → (x < l.size) ⊎ ((l.size + 12 ≤ x) × (x < l.size + 128)) → m7 x ≡ m0 x
  unfolding m1 m2 m3 m4 m5 m6 m7
  outside x h = ground (
    arith,
    writel-out m6 (l.size + 128 + 12) 0 x,
    writel-out m5 (l.size + 128 + 8) 128 x,
    writel-out m4 (l.size + 128 + 4) 128 x,
    writel-out m3 (l.size + 128) bucket_magic_val x,
    writel-out m2 (l.size + 8) 0 x,
    writel-out m1 (l.size + 4) 272 x,
    writel-out m0 l.size plist_hdr_magic x,
  )

  pub old_bytes : (x : ℕ) → (x < 8) ⊎ (12 ≤ x) → x < l.size → m7 x ≡ l.bytes x
  unfolding m0
  old_bytes x lo hi =
      outside x (inl hi)
      ∙ put-out (writel l.bytes 8 (l.size + 272)) (l.size + 12) (field name) x (inl (omega arith))
      ∙ writel-out l.bytes 8 (l.size + 272) x lo

  pub named : IsText m7 (l.size + 12) name
  unfolding m0
  named = IsText-of_bytes m7 (l.size + 12) name cs (λ i le.
      outside (l.size + 12 + i) (inr (omega arith, omega arith))
      ∙ put-in (writel l.bytes 8 (l.size + 272)) (l.size + 12) (field name) i
          (omega (arith, length-field name short))
      ∙ get_or-padded name (115 - length name) i le)

  pub magic_field : readl m7 l.size ≡ plist_hdr_magic
  unfolding m1 m2 m3 m4 m5 m6 m7
  magic_field = ground (
    arith,
    readl-writel m0 l.size plist_hdr_magic,
    readl-writel_ne m1 (l.size + 4) 272 l.size,
    readl-writel_ne m2 (l.size + 8) 0 l.size,
    readl-writel_ne m3 (l.size + 128) bucket_magic_val l.size,
    readl-writel_ne m4 (l.size + 128 + 4) 128 l.size,
    readl-writel_ne m5 (l.size + 128 + 8) 128 l.size,
    readl-writel_ne m6 (l.size + 128 + 12) 0 l.size,
  )

  pub plen_field : readl m7 (l.size + 4) ≡ 272
  unfolding m2 m3 m4 m5 m6 m7
  plen_field = ground (
    arith,
    readl-writel m1 (l.size + 4) 272,
    readl-writel_ne m2 (l.size + 8) 0 (l.size + 4),
    readl-writel_ne m3 (l.size + 128) bucket_magic_val (l.size + 4),
    readl-writel_ne m4 (l.size + 128 + 4) 128 (l.size + 4),
    readl-writel_ne m5 (l.size + 128 + 8) 128 (l.size + 4),
    readl-writel_ne m6 (l.size + 128 + 12) 0 (l.size + 4),
  )

  pub count_field : readl m7 (l.size + 8) ≡ 0
  unfolding m3 m4 m5 m6 m7
  count_field = ground (
    arith,
    readl-writel m2 (l.size + 8) 0,
    readl-writel_ne m3 (l.size + 128) bucket_magic_val (l.size + 8),
    readl-writel_ne m4 (l.size + 128 + 4) 128 (l.size + 8),
    readl-writel_ne m5 (l.size + 128 + 8) 128 (l.size + 8),
    readl-writel_ne m6 (l.size + 128 + 12) 0 (l.size + 8),
  )

  pub started-IsBucket : IsBucket started (l.size + 128) 0 128 128 []
  unfolding started with_bytes m4 m5 m6 m7
  started-IsBucket = record {
    magic = ground (
      arith,
      readl-writel m3 (l.size + 128) bucket_magic_val,
      readl-writel_ne m4 (l.size + 128 + 4) 128 (l.size + 128),
      readl-writel_ne m5 (l.size + 128 + 8) 128 (l.size + 128),
      readl-writel_ne m6 (l.size + 128 + 12) 0 (l.size + 128),
    );
    length_field = ground (
      arith,
      readl-writel m4 (l.size + 128 + 4) 128,
      readl-writel_ne m5 (l.size + 128 + 8) 128 (l.size + 128 + 4),
      readl-writel_ne m6 (l.size + 128 + 12) 0 (l.size + 128 + 4),
    );
    offs_field = ground (
      arith,
      readl-writel m5 (l.size + 128 + 8) 128,
      readl-writel_ne m6 (l.size + 128 + 12) 0 (l.size + 128 + 8),
    );
    bytes_field = ground (arith, readl-writel m6 (l.size + 128 + 12) 0);
    room = omega arith;
    indexes_fit = refl;
    inside = omega arith;
    indexes = tt;
    texts = tt;
  }
