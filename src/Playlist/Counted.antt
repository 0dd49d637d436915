-- ===== src/Playlist/Counted.antt =====
-- The count of a playlist, which `mlib_add_path_to_plist` stores last.
use mlib.Prelude.{ℕ, ◌+◌, ◌∙◌, inl, inr, List, arith}
use mlib.Bytes.{writel}
use mlib.Bytes.Laws.{readl-writel_ne, writel-out}
use mlib.Memory.{Library}
use mlib.Space.Write.{written-IsLibrary}
use mlib.Bucket.{Entry}
use mlib.Bucket.Holds.{IsIndexes-copy, IsEntry-keep}
use mlib.Bucket.Room.{InPlaylist}

-- The count of a playlist is stored, and its bucket is as it was.
abbrev pub counted : ℕ → ℕ → Library → Library
counted p n l = record l { bytes = writel l.bytes (p + 8) n }

module _ {l : Library} {p plen used offs len : ℕ} {es : List Entry}
    (v : InPlaylist l p plen used offs len es) (n : ℕ) where
  pub InPlaylist-counted : InPlaylist (counted p n l) p plen used offs len es
  InPlaylist-counted = record {
    library =
        written-IsLibrary (p + 8) n v.library (omega (arith, v.behind_header))
          (omega (arith, v.inside, v.around, v.holds.room, v.holds.indexes_fit));
    behind_header = v.behind_header;
    plist_field = readl-writel_ne l.bytes (p + 8) n (p + 4) (inl (omega arith)) ∙ v.plist_field;
    inside = v.inside;
    around = v.around;
    holds = record {
      magic = readl-writel_ne l.bytes (p + 8) n (p + 128) (inr (omega arith)) ∙ v.holds.magic;
      length_field =
          readl-writel_ne l.bytes (p + 8) n (p + 128 + 4) (inr (omega arith))
          ∙ v.holds.length_field;
      offs_field =
          readl-writel_ne l.bytes (p + 8) n (p + 128 + 8) (inr (omega arith)) ∙ v.holds.offs_field;
      bytes_field =
          readl-writel_ne l.bytes (p + 8) n (p + 128 + 12) (inr (omega arith))
          ∙ v.holds.bytes_field;
      room = v.holds.room;
      indexes_fit = v.holds.indexes_fit;
      inside = v.holds.inside;
      indexes =
          IsIndexes-copy l.bytes (writel l.bytes (p + 8) n) (p + 128 + offs) (p + 128 + offs) es
            (λ i lt. writel-out l.bytes (p + 8) n (p + 128 + offs + i) (inr (omega arith)))
            v.holds.indexes;
      texts =
          IsEntry-keep l.bytes (writel l.bytes (p + 8) n) (p + 128 + 16) used used (omega arith)
            (λ x lo hi. writel-out l.bytes (p + 8) n x (inr (omega arith))) es v.holds.texts;
    };
  }
