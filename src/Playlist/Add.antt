-- ===== src/Playlist/Add.antt =====
-- `mlib_add_path_to_plist`.
use mathlib.Core.List.{Permᴰ}
use native.Mathlib.Nat.{mod-eq_of_lt}
use mlib.Prelude.{
  get_elem?, ℕ, ◌+◌, ◌-◌, ◌≤◌, ◌<◌, ◌^◌, ◌≡◌, refl, ◌∙◌, inl, inr, some, List, ◌∷◌, ◌++◌, length,
  arith,
}
use mlib.Bytes.{readl}
use mlib.Bytes.Laws.{readl-ext, readl-writel, writel-out}
use mlib.Memory.{Library, u32, ok, failed}
use mlib.Memory.Laws.{store32_ok}
use mlib.Text.{Text}
use mlib.Text.Stored.{IsText-copy, IsCString}
use mlib.Space.{Os}
use mlib.Space.Invariant.{IsLibrary}
use mlib.Space.Write.{load32_is}
use mlib.Bucket.{Entry, Libc, bucket_add}
use mlib.Bucket.Standard.{IsLibc}
use mlib.Bucket.Room.{InPlaylist-ordered, Moves, here, next, Grants}
use mlib.Bucket.Add.{Absent, Added, bucket_add-Added, bucket_add-duplicate}
use mlib.Playlist.{add_path_to_plist}
use mlib.Playlist.Holds.{SameHeader, Playlist, HoldsAt, Run, Run-copy, Run-append, IsLib}
use mlib.Playlist.Find.{to_ptr}
use mlib.Playlist.Counted.{counted, InPlaylist-counted}

-- The kernel maps a file again where it was mapped before.
abbrev pub Stays : Os → Type 0
Stays os = (hint len : ℕ) → 1 ≤ hint → os.mmap hint len ≡ some hint

-- The same, of one address.
abbrev pub StaysAt : Os → ℕ → Type 0
StaysAt os base = (len : ℕ) → os.mmap base len ≡ some base

-- Where no address is asked for, which is NULL, the kernel maps a file, and not at NULL.
abbrev pub Places : Os → Type 0
Places os = (len : ℕ) → (base : ℕ) × (os.mmap 0 len ≡ some base) × (1 ≤ base)

same_base : {os : Os} {a b : ℕ} → StaysAt os a → Moves os a b → b ≡ a
same_base stays here = refl
same_base {os} {a} stays (next {b} len moves e) = ground (arith, stays len, same_base stays moves)

-- The playlist with one entry more.
abbrev pub with_entry : Playlist → Text → ℕ → List Entry → Playlist
with_entry pl str g es = record pl {
  mcount = pl.mcount + 1;
  plen = pl.plen + g;
  used = pl.used + (length str + 1);
  offs = pl.offs + g - 4;
  len = pl.len + g;
  entries = es;
}

module _ {os : Os} {l l1 : Library} (stays : StaysAt os l.base) {p : ℕ} {pl : Playlist} {str : Text}
    {g : ℕ} {es : List Entry} (h : HoldsAt l p pl) (lib : IsLibrary l)
    (few : pl.mcount + 1 < 2 ^ 32)
    (a : Added os l l1 p pl.plen pl.used pl.offs pl.len pl.entries str g es) where
  final : Library
  final = counted p (pl.mcount + 1) l1

  lo : 1024 ≤ p
  lo = h.bucket.behind_header

  final-IsLibrary : IsLibrary final
  unfolding final
  final-IsLibrary = (InPlaylist-counted a.bucket (pl.mcount + 1)).library

  mcount_kept : readl l1.bytes (p + 8) ≡ pl.mcount
  mcount_kept =
      readl-ext l1.bytes l.bytes (p + 8) (p + 8) (ground (arith, lo, a.before (p + 8)))
        (ground (arith, lo, a.before (p + 8 + 1))) (ground (arith, lo, a.before (p + 8 + 2)))
        (ground (arith, lo, a.before (p + 8 + 3)))
      ∙ h.mcount_field

  final_at : (x : ℕ) → p ≤ x → x < p + 4 → final.bytes x ≡ l.bytes x
  unfolding final
  final_at x le lt =
      writel-out l1.bytes (p + 8) (pl.mcount + 1) x (inl (omega arith))
      ∙ a.before x (omega arith) (inr (omega (arith, lo)), inl (omega arith), inl (omega arith))

  final-HoldsAt : HoldsAt final p (with_entry pl str g es)
  unfolding final
  final-HoldsAt = record {
    magic =
        readl-ext final.bytes l.bytes p p (final_at p (omega arith) (omega arith))
          (final_at (p + 1) (omega arith) (omega arith))
          (final_at (p + 2) (omega arith) (omega arith))
          (final_at (p + 3) (omega arith) (omega arith))
        ∙ h.magic;
    mcount_field = readl-writel l1.bytes (p + 8) (pl.mcount + 1) ∙ mod-eq_of_lt few;
    named =
        IsText-copy l.bytes final.bytes (p + 12) (p + 12) pl.name
          (λ i le.
            writel-out l1.bytes (p + 8) (pl.mcount + 1) (p + 12 + i) (inr (omega arith))
            ∙ a.before (p + 12 + i) (omega (arith, h.short))
                (inr (omega arith), inr (omega arith), inl (omega (arith, h.short))))
          h.named;
    short = h.short;
    bucket = InPlaylist-counted a.bucket (pl.mcount + 1);
    sorted = a.sorted;
  }

  final-IsLib :
      (xs ys : List Playlist)
      → Run l 1024 xs p
      → Run l (p + pl.plen) ys l.size
      → IsLib final (xs ++ with_entry pl str g es ∷ ys)
  unfolding final
  final-IsLib xs ys front behind = record {
    library = final-IsLibrary;
    chain =
        Run-append final 1024 p l1.size xs (with_entry pl str g es ∷ ys)
          (Run-copy l final 1024 1024 p p xs front
            (λ i lt.
              writel-out l1.bytes (p + 8) (pl.mcount + 1) (1024 + i) (inl (omega arith))
              ∙ a.before (1024 + i) (omega arith)
                  (inr (omega arith), inl (omega arith), inl (omega arith)))
            final-IsLibrary (omega arith) (omega (arith, a.bucket.inside)) (omega arith))
          (
            final-HoldsAt,
            Run-copy l final (p + pl.plen) (p + (pl.plen + g)) l.size l1.size ys behind
                (λ i lt. ground (
                  arith,
                  writel-out l1.bytes (p + 8) (pl.mcount + 1) (p + (pl.plen + g) + i),
                  a.behind (p + pl.plen + i),
                  h.bucket.around,
                ))
                final-IsLibrary (omega (arith, lo)) (omega arith) (omega (arith, a.size)),
          );
  }

  final-SameHeader : SameHeader l final
  unfolding final
  final-SameHeader x first past =
      writel-out l1.bytes (p + 8) (pl.mcount + 1) x (inl (omega (arith, lo)))
      ∙ a.before x (omega (arith, lo)) (first, inl (omega (arith, lo)), inl (omega (arith, lo)))

  add_runs :
      (c : Libc)
      → bucket_add os c (record { base = l.base; off = p + 128 }) str l ≡ some (ok, l1)
      → add_path_to_plist os c (to_ptr l p) str l ≡ some (ok, final)
  unfolding add_path_to_plist final
  add_runs c added =
      let same : l1.base ≡ l.base = same_base stays a.moves in
      let fits : u32 (pl.mcount + 1) ≡ pl.mcount + 1 = mod-eq_of_lt few in
      rw
        (
          load32_is l (to_ptr l p) (omega (arith, InPlaylist-ordered h.bucket)) h.magic,
          added,
          load32_is l1 (to_ptr l (p + 8)) (omega (arith, same, InPlaylist-ordered a.bucket))
              mcount_kept,
          store32_ok l1 (to_ptr l (p + 8)) (pl.mcount + 1)
              (omega (arith, same, InPlaylist-ordered a.bucket)),
        )
        (rw fits refl)

-- A path that a playlist holds already is refused, and nothing changes.
pub add_path_to_plist-duplicate :
    (os : Os) {c : Libc} (std : IsLibc c) {l : Library} (lib : IsLibrary l) (pl : Playlist) (p : ℕ)
    (h : HoldsAt l p pl) (str : Text) (i : ℕ) (e : Entry)
    → get_elem? pl.entries i ≡ some e
    → e.text ≡ str
    → add_path_to_plist os c (to_ptr l p) str l ≡ some (failed, l)
unfolding add_path_to_plist
add_path_to_plist-duplicate os std {l} lib pl p h str i e at same =
    rw
      (
        load32_is l (to_ptr l p) (omega (arith, InPlaylist-ordered h.bucket)) h.magic,
        bucket_add-duplicate os std h.bucket h.sorted str i e at same,
      )
      refl

module _ (os : Os) (grants : Grants os) {c : Libc} (std : IsLibc c) {l : Library}
    (stays : StaysAt os l.base) (lib : IsLibrary l) (xs : List Playlist) (pl : Playlist)
    (ys : List Playlist) (p : ℕ) (front : Run l 1024 xs p) (held : HoldsAt l p pl)
    (behind : Run l (p + pl.plen) ys l.size) (str : Text) where
  -- In a library that is its header and a row of playlists, adding to one of them a C string that
  -- it does not hold returns 0 without a fault; then the library is its header and the same
  -- playlists in the same order, and this one holds its old entries and the new one, sorted, and
  -- counts one more; the file has grown by at most 133 bytes more than the string has, and the
  -- header's name and prefix and the library's address are as they were. The kernel grants every
  -- extension and maps the file again where it was, `qsort` and `bsearch` keep the C standard, and
  -- the count and the file stay below 2^32.
  pub add_path_to_plist-with_entry :
      IsCString str
      → Absent str pl.entries
      → pl.mcount + 1 < 2 ^ 32
      → l.size + length str + 200 < 2 ^ 32
      → (l' : Library) × (g : ℕ) × (es : List Entry) × (add_path_to_plist os c (to_ptr l p) str l
          ≡ some (ok, l'))
        × IsLib l' (xs ++ with_entry pl str g es ∷ ys)
        × Permᴰ es (record { index = pl.used; text = str } ∷ pl.entries)
        × (l'.size ≡ l.size + g)
        × (g ≤ length str + 133)
        × SameHeader l l'
        × (l'.base ≡ l.base)
  unfolding final
  add_path_to_plist-with_entry cs absent few small =
      let (l1, g, es, run, a) =
        bucket_add-Added os std held.bucket held.sorted str grants cs absent small in
      (
        final stays held lib few a,
        g,
        es,
        add_runs stays held lib few a c run,
        final-IsLib stays held lib few a xs ys front behind,
        a.perm,
        a.size,
        a.bounded,
        final-SameHeader stays held lib few a,
        same_base stays a.moves,
      )
