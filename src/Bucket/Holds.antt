-- ===== src/Bucket/Holds.antt =====
-- What a bucket holds: the invariant of `struct mlib_bucket`.
use mlib.Prelude.{ℕ, ◌+◌, ◌*◌, ◌≤◌, ◌<◌, ◌≡◌, refl, some, List, [], ◌∷◌, map, All, length, arith}
use mlib.Bytes.{Bytes, readl}
use mlib.Bytes.Laws.{readl-ext}
use mlib.Memory.{Library, Ptr, plus}
use mlib.Memory.Laws.{load32_ok}
use mlib.Text.Order.{NotAfter}
use mlib.Text.Stored.{IsText, IsText-copy, load_text-IsText}
use mlib.Bucket.{Entry, bucket_magic_val, bucket_string_at, load_entries}

-- Memory holds the indexes of `es` in a row, from `a` on.
abbrev pub IsIndexes : Bytes → ℕ → List Entry → Type 0
IsIndexes m a [] = Unit {0}
IsIndexes m a (e ∷ es) = (readl m a ≡ e.index) × IsIndexes m (a + 4) es

-- Each entry's string stands at its index, among the `used` bytes from `strings` on.
abbrev pub IsEntry : Bytes → ℕ → ℕ → Entry → Type 0
IsEntry m strings used e = (e.index + length e.text < used) × IsText m (strings + e.index) e.text

-- No text comes after a later one.
abbrev pub IsSorted : List Entry → Type 0
IsSorted [] = Unit {0}
IsSorted (e ∷ es) = All (λ (f : Entry). NotAfter e.text f.text) es × IsSorted es

-- The bucket at offset `b` of the library, with `used` bytes of strings, its index array at `offs`
-- and `len` bytes in all, holds the strings of `es` and the indexes in that order.
pub record IsBucket (l : Library) (b used offs len : ℕ) (es : List Entry) : Type 0 where
  pub magic : readl l.bytes b ≡ bucket_magic_val
  pub length_field : readl l.bytes (b + 4) ≡ len
  pub offs_field : readl l.bytes (b + 8) ≡ offs
  pub bytes_field : readl l.bytes (b + 12) ≡ used
  pub room : 16 + used ≤ offs
  pub indexes_fit : offs + 4 * length es ≡ len
  pub inside : b + len ≤ l.size
  pub indexes : IsIndexes l.bytes (b + offs) es
  pub texts : All (IsEntry l.bytes (b + 16) used) es

module _ (m n : Bytes) where
  pub IsIndexes-copy :
      (a b : ℕ) (es : List Entry)
      → ((i : ℕ) → i < 4 * length es → n (b + i) ≡ m (a + i))
      → IsIndexes m a es
      → IsIndexes n b es
  IsIndexes-copy a b [] same h = tt
  IsIndexes-copy a b (e ∷ es) same h = (
    ground (arith, readl-ext n m b a, same 0, same 1, same 2, same 3),
    IsIndexes-copy (a + 4) (b + 4) es (λ i lt. ground (arith, same (i + 4))) h.1,
  )

  pub IsEntry-keep :
      (strings used more : ℕ)
      → used ≤ more
      → ((x : ℕ) → strings ≤ x → x < strings + used → n x ≡ m x)
      → (es : List Entry) → All (IsEntry m strings used) es
      → All (IsEntry n strings more) es
  IsEntry-keep strings used more le same [] h = tt
  IsEntry-keep strings used more le same (e ∷ es) h = (
    (
      omega arith,
      IsText-copy m n (strings + e.index) (strings + e.index) e.text
          (λ i at. same (strings + e.index + i) (omega arith) (omega arith)) h.0.1,
    ),
    IsEntry-keep strings used more le same es h.1,
  )

-- The array and its strings are read without a fault.
pub load_entries_ok :
    (l : Library) (b : Ptr) (used : ℕ) (es : List Entry) (p : Ptr)
    → b.base ≡ l.base
    → p.base ≡ l.base
    → l.size ≤ l.mapped
    → p.off + 4 * length es ≤ l.size
    → b.off + 16 + used ≤ l.size
    → IsIndexes l.bytes p.off es
    → All (IsEntry l.bytes (b.off + 16) used) es
    → load_entries b (length es) p l ≡ some (es, l)
unfolding load_entries bucket_string_at
load_entries_ok l b used [] p eb ep map room strs is ts = refl
load_entries_ok l b used (e ∷ es) p eb ep map room strs is ts = rw (
  load32_ok l p (omega arith),
  is.0,
  load_text-IsText l (plus (plus b 16) e.index) e.text eb ts.0.1 (omega arith) map,
  load_entries_ok l b used es (plus p 4) eb ep map (omega arith) strs is.1 ts.1,
)
