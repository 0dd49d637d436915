-- ===== src/Bucket/Room.antt =====
-- A playlist with its bucket in a well-formed library, and what more room in it means.
use mlib.Prelude.{ℕ, ◌+◌, ◌*◌, ◌≤◌, ◌<◌, ◌^◌, ◌≡◌, ◌⊎◌, true, some, List, length}
use mlib.Bytes.{readl}
use mlib.Memory.{Library}
use mlib.Space.{Os}
use mlib.Space.Invariant.{IsLibrary}
use mlib.Bucket.{Entry}
use mlib.Bucket.Holds.{IsBucket}

-- The playlist at offset `p` of a library, of `plen` bytes, with its bucket.
pub record InPlaylist (l : Library) (p plen used offs len : ℕ) (es : List Entry) : Type 0 where
  pub library : IsLibrary l
  pub behind_header : 1024 ≤ p
  pub plist_field : readl l.bytes (p + 4) ≡ plen
  pub inside : p + plen ≤ l.size
  pub around : 128 + len ≤ plen
  pub holds : IsBucket l (p + 128) used offs len es

-- The order of the offsets in it.
pub InPlaylist-ordered :
    {l : Library} {p plen used offs len : ℕ} {es : List Entry}
    → InPlaylist l p plen used offs len es
    → (l.size < 2 ^ 32)
      × (l.size ≤ l.mapped)
      × (1024 ≤ p)
      × (p + plen ≤ l.size)
      × (128 + len ≤ plen)
      × (16 + used ≤ offs)
      × (offs + 4 * length es ≡ len)
InPlaylist-ordered v = (
  v.library.small, v.library.in_map, v.behind_header, v.inside, v.around, v.holds.room,
  v.holds.indexes_fit,
)

-- `x` is no byte of a length field that grows with the bucket: the library's, the playlist's, and
-- the bucket's `length` and `index_offs`.
abbrev pub Kept : ℕ → ℕ → Type 0
Kept p x = ((x < 8) ⊎ (12 ≤ x)) × ((x < p + 4) ⊎ (p + 8 ≤ x)) × ((x < p + 132) ⊎ (p + 140 ≤ x))

-- The mapping at `a` is placed at `b` after some calls of `mmap`.
pub data Moves (os : Os) (a : ℕ) : ℕ → Type 0 where
  here : Moves os a a
  next : {b c : ℕ} (len : ℕ) → Moves os a b → os.mmap b len ≡ some c → Moves os a c

pub Moves-trans : {os : Os} {a b c : ℕ} → Moves os a b → Moves os b c → Moves os a c
Moves-trans r here = r
Moves-trans r (next len s e) = next len (Moves-trans r s) e

-- It is placed there after at least one call of `mmap`.
pub data Remapped (os : Os) (a : ℕ) : ℕ → Type 0 where
  by :
      {b c d : ℕ} (len : ℕ) → Moves os a b → os.mmap b len ≡ some c → Moves os c d → Remapped os a d

pub Remapped-trans : {os : Os} {a b c : ℕ} → Remapped os a b → Moves os b c → Remapped os a c
Remapped-trans (by len r e s) t = by len r e (Moves-trans s t)

pub Moves-Remapped : {os : Os} {a b c : ℕ} → Moves os a b → Remapped os b c → Remapped os a c
Moves-Remapped t (by len r e s) = by len (Moves-trans t r) e s

-- `l'` is `l` with `g` more bytes between the strings and the indexes of the bucket at `p`: what
-- stands before them has not moved, what stands behind them has moved by `g`.
pub record Widened (os : Os) (l l' : Library) (p plen used offs len : ℕ) (es : List Entry) (g : ℕ)
    : Type 0 where
  pub same_bucket : InPlaylist l' p (plen + g) used (offs + g) (len + g) es
  pub moves : Moves os l.base l'.base
  pub again : (g ≡ 0) ⊎ Remapped os l.base l'.base
  pub size : l'.size ≡ l.size + g
  pub below : (x : ℕ) → x < p + 128 + offs → Kept p x → l'.bytes x ≡ l.bytes x
  pub above : (x : ℕ) → p + 128 + offs ≤ x → l'.bytes (x + g) ≡ l.bytes x

-- The kernel grants whatever is asked of it.
pub record Grants (os : Os) : Type 0 where
  pub extends : (len : ℕ) → os.extends len ≡ true
  pub mmap : (hint len : ℕ) → (base : ℕ) × (os.mmap hint len ≡ some base)
