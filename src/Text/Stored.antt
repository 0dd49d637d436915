-- ===== src/Text/Stored.antt =====
-- Strings that memory holds, and reading them.
use mlib.Prelude.{
  ℕ, zero, suc, ◌+◌, ◌-◌, ◌≤◌, ◌<◌, ◌≡◌, ◌≢◌, some, [], ◌∷◌, length, get_or, ◌++◌, All, arith,
}
use mlib.Bytes.{Bytes}
use mlib.Memory.{Library, Ptr}
use mlib.Text.{Text, read_text, limit, load_text}

-- `m` holds the text and the zero behind it, from `a` on.
abbrev pub IsText : Bytes → ℕ → Text → Type 0
IsText m a [] = m a ≡ 0
IsText m a (c ∷ s) = (m a ≡ c) × (c ≢ 0) × IsText m (a + 1) s

pub read_text-IsText :
    (n : ℕ) (m : Bytes) (a : ℕ) (s : Text) → IsText m a s → length s < n → read_text n m a ≡ some s
unfolding read_text
read_text-IsText zero m a s h lt = absurd (omega arith)
read_text-IsText (suc n) m a [] h lt = ground arith
read_text-IsText (suc n) m a (c ∷ s) h lt = ground (arith, read_text-IsText n m (a + 1) s)

-- The text moves with its bytes.
pub IsText-copy :
    (m n : Bytes) (a b : ℕ) (s : Text)
    → ((i : ℕ) → i ≤ length s → n (b + i) ≡ m (a + i))
    → IsText m a s
    → IsText n b s
IsText-copy m n a b [] same h = ground (arith, same 0)
IsText-copy m n a b (c ∷ s) same h =
    ground (arith, same 0, IsText-copy m n (a + 1) (b + 1) s (λ i h'. ground (arith, same (suc i))))

pub load_text-IsText :
    (l : Library) (p : Ptr) (s : Text)
    → p.base ≡ l.base
    → IsText l.bytes p.off s
    → p.off + length s < l.size
    → l.size ≤ l.mapped
    → load_text p l ≡ some (s, l)
unfolding load_text
load_text-IsText l p s e h lt map =
    ground (arith, read_text-IsText (limit l - p.off) l.bytes p.off s)

-- A C string as an argument: bytes, none of them zero.
abbrev pub IsCString : Text → Type 0
IsCString s = All (λ (c : ℕ). (c ≢ 0) × (c < 256)) s

pub IsText-of_bytes :
    (m : Bytes) (a : ℕ) (s : Text)
    → IsCString s
    → ((i : ℕ) → i ≤ length s → m (a + i) ≡ get_or (s ++ 0 ∷ []) i 0)
    → IsText m a s
IsText-of_bytes m a [] h at = ground (arith, at 0)
IsText-of_bytes m a (c ∷ s) h at =
    ground (arith, at 0, IsText-of_bytes m (a + 1) s h.1 (λ i le. ground (arith, at (suc i))))
