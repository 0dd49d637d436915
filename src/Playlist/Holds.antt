-- ===== src/Playlist/Holds.antt =====
-- What a library holds: its playlists, in their order in the file.
use mathlib.Core.Path.{subst}
use native.Mathlib.Nat.{add_assoc}
use mlib.Prelude.{ℕ, ◌+◌, ◌≤◌, ◌<◌, ◌≡◌, ◌⊎◌, sym, ◌∙◌, List, [], ◌∷◌, ◌++◌, All, length, arith}
use mlib.Bytes.{readl}
use mlib.Bytes.Laws.{readl-ext}
use mlib.Memory.{Library}
use mlib.Text.{Text}
use mlib.Text.Stored.{IsText, IsText-copy}
use mlib.Space.Invariant.{IsLibrary}
use mlib.Bucket.{Entry}
use mlib.Bucket.Holds.{IsBucket, IsSorted, IsEntry, IsIndexes-copy}
use mlib.Bucket.Room.{InPlaylist}
use mlib.Playlist.{plist_hdr_magic, plist_name_len}

-- A playlist of `plen` bytes: its name, its count, and its bucket.
pub record Playlist : Type 0 where
  pub name : Text
  pub mcount : ℕ
  pub plen : ℕ
  pub used : ℕ
  pub offs : ℕ
  pub len : ℕ
  pub entries : List Entry

-- The header has the magic, the name and the prefix that it had.
abbrev pub SameHeader : Library → Library → Type 0
SameHeader l l' = (x : ℕ) → (x < 8) ⊎ (12 ≤ x) → x < 1024 → l'.bytes x ≡ l.bytes x

-- It stands at offset `p` of the library.
pub record HoldsAt (l : Library) (p : ℕ) (pl : Playlist) : Type 0 where
  pub magic : readl l.bytes p ≡ plist_hdr_magic
  pub mcount_field : readl l.bytes (p + 8) ≡ pl.mcount
  pub named : IsText l.bytes (p + 12) pl.name
  pub short : length pl.name < plist_name_len
  pub bucket : InPlaylist l p pl.plen pl.used pl.offs pl.len pl.entries
  pub sorted : IsSorted pl.entries

-- The playlists stand in a row from `p` to `e`.
abbrev pub Run : Library → ℕ → List Playlist → ℕ → Type 0
Run l p [] e = p ≡ e
Run l p (pl ∷ pls) e = HoldsAt l p pl × Run l (p + pl.plen) pls e

-- The library is its header and these playlists.
pub record IsLib (l : Library) (pls : List Playlist) : Type 0 where
  pub library : IsLibrary l
  pub chain : Run l 1024 pls l.size

module _ (l l' : Library) (p q : ℕ) where
  IsEntry-copy :
      (strings strings' used : ℕ)
      → ((i : ℕ) → i < used → l'.bytes (strings' + i) ≡ l.bytes (strings + i))
      → (es : List Entry) → All (IsEntry l.bytes strings used) es
      → All (IsEntry l'.bytes strings' used) es
  IsEntry-copy strings strings' used same [] h = tt
  IsEntry-copy strings strings' used same (e ∷ es) h = (
    (
      h.0.0,
      IsText-copy l.bytes l'.bytes (strings + e.index) (strings' + e.index) e.text
          (λ i le. ground (arith, same (e.index + i))) h.0.1,
    ),
    IsEntry-copy strings strings' used same es h.1,
  )

  -- A playlist goes where its bytes go.
  pub HoldsAt-copy :
      (pl : Playlist)
      → HoldsAt l p pl
      → ((i : ℕ) → i < pl.plen → l'.bytes (q + i) ≡ l.bytes (p + i))
      → IsLibrary l'
      → 1024 ≤ q
      → q + pl.plen ≤ l'.size
      → HoldsAt l' q pl
  HoldsAt-copy pl h same lib lo hi = record {
    magic = field0 ∙ h.magic;
    mcount_field = field 8 (omega arith) ∙ h.mcount_field;
    named =
        IsText-copy l.bytes l'.bytes (p + 12) (q + 12) pl.name
          (λ i le. ground (arith, same (12 + i), h.short, h.bucket.around)) h.named;
    short = h.short;
    sorted = h.sorted;
    bucket = record {
      library = lib;
      behind_header = lo;
      plist_field = field 4 (omega arith) ∙ h.bucket.plist_field;
      inside = hi;
      around = h.bucket.around;
      holds = record {
        magic = field 128 (omega arith) ∙ b.magic;
        length_field = field' 4 (omega arith) ∙ b.length_field;
        offs_field = field' 8 (omega arith) ∙ b.offs_field;
        bytes_field = field' 12 (omega arith) ∙ b.bytes_field;
        room = b.room;
        indexes_fit = b.indexes_fit;
        inside = omega (arith, h.bucket.around);
        indexes =
            IsIndexes-copy l.bytes l'.bytes (p + 128 + pl.offs) (q + 128 + pl.offs) pl.entries
              (λ i lt. ground (arith, same (128 + pl.offs + i), b.indexes_fit, h.bucket.around))
              b.indexes;
        texts =
            IsEntry-copy (p + 128 + 16) (q + 128 + 16) pl.used
              (λ i lt. ground (arith, same (128 + 16 + i), b.room, b.indexes_fit, h.bucket.around))
              pl.entries b.texts;
      };
    };
  }
    where
      b : IsBucket l (p + 128) pl.used pl.offs pl.len pl.entries
      b = h.bucket.holds

      large : 144 ≤ pl.plen
      large = omega (arith, h.bucket.around, b.room, b.indexes_fit)

      field0 : readl l'.bytes q ≡ readl l.bytes p
      field0 =
          readl-ext l'.bytes l.bytes q p (ground (arith, same 0)) (same 1 (omega arith))
            (same 2 (omega arith)) (same 3 (omega arith))

      field : (i : ℕ) → i + 4 ≤ 144 → readl l'.bytes (q + i) ≡ readl l.bytes (p + i)
      field i le =
          readl-ext l'.bytes l.bytes (q + i) (p + i) (same i (omega arith))
            (ground (arith, same (i + 1))) (ground (arith, same (i + 2)))
            (ground (arith, same (i + 3)))

      field' : (i : ℕ) → i + 4 ≤ 16 → readl l'.bytes (q + 128 + i) ≡ readl l.bytes (p + 128 + i)
      field' i le = rw (add_assoc q 128 i, add_assoc p 128 i) (field (128 + i) (omega arith))

-- The playlists from `p` to `e` move with their bytes.
pub Run-le : (l : Library) (p e : ℕ) (pls : List Playlist) → Run l p pls e → p ≤ e
Run-le l p e [] h = omega arith
Run-le l p e (pl ∷ pls) h = omega (arith, Run-le l (p + pl.plen) e pls h.1)

pub Run-copy :
    (l l' : Library) (p q e e' : ℕ) (pls : List Playlist)
    → Run l p pls e
    → ((i : ℕ) → p + i < e → l'.bytes (q + i) ≡ l.bytes (p + i))
    → IsLibrary l'
    → 1024 ≤ q
    → e' ≤ l'.size
    → q + e ≡ e' + p
    → Run l' q pls e'
Run-copy l l' p q e e' [] h same lib lo hi eq = omega arith
Run-copy l l' p q e e' (pl ∷ pls) h same lib lo hi eq =
    let le : p + pl.plen ≤ e = Run-le l (p + pl.plen) e pls h.1 in
    (
      HoldsAt-copy l l' p q pl h.0 (λ i lt. same i (omega arith)) lib lo (omega arith),
      Run-copy l l' (p + pl.plen) (q + pl.plen) e e' pls h.1
          (λ i lt. ground (arith, same (pl.plen + i))) lib (omega arith) hi (omega arith),
    )

pub Run-append :
    (l : Library) (p m e : ℕ) (xs ys : List Playlist)
    → Run l p xs m
    → Run l m ys e
    → Run l p (xs ++ ys) e
Run-append l p m e [] ys h k = subst (λ (x : ℕ). Run l x ys e) (sym h) k
Run-append l p m e (x ∷ xs) ys h k = (h.0, Run-append l (p + x.plen) m e xs ys h.1 k)
