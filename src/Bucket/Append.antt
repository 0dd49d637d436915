-- ===== src/Bucket/Append.antt =====
-- The second half of `mlib_bucket_add`: the string, its index and the fields are written, and the
-- index array is sorted again.
use mathlib.Core.List.{Permᴰ}
use mlib.Prelude.{ℕ, ◌+◌, ◌≤◌, ◌<◌, ◌≡◌, refl, ◌∙◌, inl, inr, some, List, ◌∷◌, length, arith}
use mlib.Bytes.{readl}
use mlib.Bytes.Laws.{readl-agree, writel-out}
use mlib.Memory.{Library, Ptr, u32, sub32, sub64, ok}
use mlib.Memory.Laws.{store32_ok, memcpy_ok, ptr_diff_ok}
use mlib.Text.{Text}
use mlib.Text.Stored.{IsCString}
use mlib.Space.Write.{load32_is}
use mlib.Bucket.{Entry, Libc, append_text}
use mlib.Bucket.Holds.{IsSorted}
use mlib.Bucket.Standard.{IsLibc}
use mlib.Bucket.Room.{InPlaylist, InPlaylist-ordered}
use mlib.Bucket.Sort.{
  ordered, put_entries, sort_runs, ordered-IsSorted, ordered-perm, sort-IsBucket, sorted-out,
  put_entries-IsLibrary, same_length,
}
use mlib.Bucket.Written.{
  c_bytes, length-c_bytes, m1, m2, m3, m4, m1-out, entry, Spared, spared, appended,
  appended-IsLibrary, appended-At,
}

-- The bucket at `p` with the string written, sorted.
module _ {l : Library} {p plen used len o : ℕ} {es : List Entry}
    (v : InPlaylist l p plen used (o + 4) len es) (str : Text) (cs : IsCString str)
    (space : 16 + used + (length str + 1) ≤ o) {c : Libc} (std : IsLibc c) where
  -- The array after the sort.
  abbrev entries : List Entry
  entries = ordered std (appended-At v str cs space)

  append_runs :
      append_text c (record { base = l.base; off = p + 128 }) str l
      ≡ some (ok, put_entries (appended v str cs space) entries (p + 128 + o))
  unfolding append_text m1 m2 m3 m4 appended
  append_runs =
      rw
        (
          load32_is l (at 12) (omega (arith, InPlaylist-ordered v)) v.holds.bytes_field,
          load32_is l (at 8) (omega (arith, InPlaylist-ordered v)) v.holds.offs_field,
          memcpy_ok l (record { base = l.base; off = p + 128 + 16 + used }) (c_bytes str)
              (omega (arith, InPlaylist-ordered v, length-c_bytes str)),
          ptr_diff_ok l1 (record { base = l.base; off = p + 128 + 16 + used }) (at 16) refl,
          count,
          used_fits,
          slot,
          store32_ok l1 (at o) used (omega (arith, InPlaylist-ordered v)),
          used_fits,
        )
        (rw
          (
            load32_is l2 (at 8) (omega (arith, InPlaylist-ordered v)) offs_left,
            minus,
            store32_ok l2 (at 8) o (omega (arith, InPlaylist-ordered v)),
            o_fits,
            load32_is l3 (at 12) (omega (arith, InPlaylist-ordered v)) bytes_left,
            store32_ok l3 (at 12) (used + (length str + 1)) (omega (arith, InPlaylist-ordered v)),
            sum_fits,
          )
          (rw (sort_runs std (appended-At v str cs space))))
    where
      at : ℕ → Ptr
      at i = record { base = l.base; off = p + 128 + i }

      l1 : Library
      l1 = record l { bytes = (m1 v str cs space) }

      l2 : Library
      l2 = record l { bytes = (m2 v str cs space) }

      l3 : Library
      l3 = record l { bytes = (m3 v str cs space) }

      count : sub64 (p + 128 + 16 + used) (p + 128 + 16) ≡ used
      count = (omega (arith, InPlaylist-ordered v))

      slot : sub64 (p + 128 + (o + 4)) 4 ≡ p + 128 + o
      slot = (omega (arith, InPlaylist-ordered v))

      minus : sub32 (o + 4) 4 ≡ o
      minus = (omega (arith, InPlaylist-ordered v))

      used_fits : u32 used ≡ used
      used_fits = (omega (arith, InPlaylist-ordered v))

      o_fits : u32 o ≡ o
      o_fits = (omega (arith, InPlaylist-ordered v))

      sum_fits : u32 (used + (length str + 1)) ≡ used + (length str + 1)
      sum_fits = (omega (arith, InPlaylist-ordered v))

      offs_left : readl (m2 v str cs space) (p + 128 + 8) ≡ o + 4
      offs_left =
          readl-agree (m2 v str cs space) l.bytes (p + 128 + 8) (λ x lo hi.
            writel-out (m1 v str cs space) (p + 128 + o) used x (inl (omega arith))
            ∙ m1-out v str cs space x (inl (omega arith)))
          ∙ v.holds.offs_field

      bytes_left : readl (m3 v str cs space) (p + 128 + 12) ≡ used
      bytes_left =
          readl-agree (m3 v str cs space) l.bytes (p + 128 + 12) (λ x lo hi.
            writel-out (m2 v str cs space) (p + 128 + 8) o x (inr (omega arith))
            ∙ (writel-out (m1 v str cs space) (p + 128 + o) used x (inl (omega arith))
                ∙ m1-out v str cs space x (inl (omega arith))))
          ∙ v.holds.bytes_field

  final : Library
  final = put_entries (appended v str cs space) entries (p + 128 + o)

  final_before : (x : ℕ) → x < p + 128 → final.bytes x ≡ l.bytes x
  unfolding final appended Spared
  final_before x h =
      sorted-out std (appended-At v str cs space) x (inl (omega arith))
      ∙ spared v str cs space x (ground arith)

  final_behind : (x : ℕ) → p + 128 + len ≤ x → final.bytes x ≡ l.bytes x
  unfolding final appended Spared
  final_behind x h =
      sorted-out std (appended-At v str cs space) x (inr h)
      ∙ spared v str cs space x (ground (arith, v.holds.indexes_fit))

  final-InPlaylist : InPlaylist final p plen (used + (length str + 1)) o len entries
  unfolding final appended put_entries
  final-InPlaylist = record {
    library =
        put_entries-IsLibrary (p + 128 + o) entries (appended-IsLibrary v str cs space)
          (omega arith)
          (omega (arith, InPlaylist-ordered v, same_length std (appended-At v str cs space)));
    behind_header = v.behind_header;
    plist_field =
        readl-agree _ l.bytes (p + 4) (λ x lo hi. final_before x (omega arith)) ∙ v.plist_field;
    inside = v.inside;
    around = v.around;
    holds = sort-IsBucket std (appended-At v str cs space);
  }

-- `l'` is `l` with `str` in the bucket at `p`, whose array begins at `o` now.
pub record Appended (l l' : Library) (p plen used len o : ℕ) (es : List Entry) (str : Text)
    (es' : List Entry) : Type 0 where
  pub bucket : InPlaylist l' p plen (used + (length str + 1)) o len es'
  pub sorted : IsSorted es'
  pub perm : Permᴰ es' (record { index = used; text = str } ∷ es)
  pub base : l'.base ≡ l.base
  pub size : l'.size ≡ l.size
  pub before : (x : ℕ) → x < p + 128 → l'.bytes x ≡ l.bytes x
  pub behind : (x : ℕ) → p + 128 + len ≤ x → l'.bytes x ≡ l.bytes x

-- With space for it the string is added, and only the bucket is written.
pub append_text-Appended :
    {c : Libc} (std : IsLibc c) {l : Library} {p plen used len o : ℕ} {es : List Entry}
    (v : InPlaylist l p plen used (o + 4) len es) (str : Text)
    → IsCString str
    → 16 + used + (length str + 1) ≤ o
    → (l' : Library) × (es' : List Entry) × (append_text c
          (record { base = l.base; off = p + 128 })
          str
          l
        ≡ some (ok, l'))
      × Appended l l' p plen used len o es str es'
unfolding final entry appended put_entries
append_text-Appended std v str cs space = (
  final v str cs space std,
  entries v str cs space std,
  append_runs v str cs space std,
  record {
    bucket = final-InPlaylist v str cs space std;
    sorted = ordered-IsSorted std (appended-At v str cs space);
    perm = ordered-perm std (appended-At v str cs space);
    base = refl;
    size = refl;
    before = final_before v str cs space std;
    behind = final_behind v str cs space std;
  },
)
