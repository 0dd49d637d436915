-- ===== src/Bytes/Laws.antt =====
-- Reading a field back, and which reads a write leaves alone.
use mlib.Prelude.{
  zero, suc, ◌-◌, ap, List, [], ◌∷◌, All, get_or, length, ℕ, ◌+◌, ◌%◌, ◌^◌, ◌≤◌, ◌<◌, ◌≡◌, ◌⊎◌,
  fun_ext, List, length, arith,
}
use mlib.Bytes.{put, Bytes, put, readl, writel}

-- Every byte is below 256.
abbrev pub IsBytes : Bytes → Type 0
IsBytes m = (x : ℕ) → m x < 256

-- What __mlib_writel stores at an address, __mlib_readl reads there again, modulo 2^32.
pub readl-writel : (m : Bytes) (a v : ℕ) → readl (writel m a v) a ≡ v % 2 ^ 32
unfolding readl writel
readl-writel m a v = ground arith

pub writel-out : (m : Bytes) (a v x : ℕ) → (x < a) ⊎ (a + 4 ≤ x) → writel m a v x ≡ m x
unfolding writel
writel-out m a v x h = ground arith

pub readl-ext :
    (m n : Bytes) (a b : ℕ)
    → m a ≡ n b
    → m (a + 1) ≡ n (b + 1)
    → m (a + 2) ≡ n (b + 2)
    → m (a + 3) ≡ n (b + 3)
    → readl m a ≡ readl n b
unfolding readl
readl-ext m n a b p q r s = rw (p, q, r, s)

-- Fields that do not overlap do not disturb each other.
pub readl-writel_ne :
    (m : Bytes) (a v b : ℕ) → (b + 4 ≤ a) ⊎ (a + 4 ≤ b) → readl (writel m a v) b ≡ readl m b
unfolding readl writel
readl-writel_ne m a v b h = ground arith

pub readl-lt : (m : Bytes) (a : ℕ) → IsBytes m → readl m a < 2 ^ 32
unfolding readl
readl-lt m a h = omega (arith, h a, h (a + 1), h (a + 2), h (a + 3))

pub writel-IsBytes : (m : Bytes) (a v : ℕ) → IsBytes m → IsBytes (writel m a v)
unfolding writel
writel-IsBytes m a v h x = ground (arith, h x)

-- Writing back what is there changes nothing.
pub writel-readl : (m : Bytes) (a : ℕ) → IsBytes m → writel m a (readl m a) ≡ m
unfolding readl writel
writel-readl m a h = fun_ext λ x. ground (arith, h a, h (a + 1), h (a + 2), h (a + 3))

pub writel-writel : (m : Bytes) (a v w : ℕ) → writel (writel m a v) a w ≡ writel m a w
unfolding writel
writel-writel m a v w = fun_ext λ x. ground arith

pub put-out :
    (m : Bytes) (a : ℕ) (bs : List ℕ) (x : ℕ) → (x < a) ⊎ (a + length bs ≤ x) → put m a bs x ≡ m x
unfolding put
put-out m a bs x h = ground arith

pub put-in :
    (m : Bytes) (a : ℕ) (bs : List ℕ) (i : ℕ) → i < length bs → put m a bs (a + i) ≡ get_or bs i 0
unfolding put
put-in m a bs i h =
    let back : a + i - a ≡ i = omega arith in ground (arith, ap (λ (k : ℕ). get_or bs k 0) back)

get_or-lt : (bs : List ℕ) (i : ℕ) → All (λ b. b < 256) bs → get_or bs i 0 < 256
get_or-lt [] i h = omega arith
get_or-lt (b ∷ bs) zero h = h.0
get_or-lt (b ∷ bs) (suc i) h = get_or-lt bs i h.1

pub put-IsBytes :
    (m : Bytes) (a : ℕ) (bs : List ℕ) → IsBytes m → All (λ b. b < 256) bs → IsBytes (put m a bs)
unfolding put
put-IsBytes m a bs h hs x = ground (arith, h x, get_or-lt bs (x - a) hs)

-- A field is read alike where its four bytes are alike.
pub readl-agree :
    (m n : Bytes) (a : ℕ) → ((x : ℕ) → a ≤ x → x < a + 4 → m x ≡ n x) → readl m a ≡ readl n a
unfolding readl
readl-agree m n a h = rw (
  h a (omega arith) (omega arith),
  h (a + 1) (omega arith) (omega arith),
  h (a + 2) (omega arith) (omega arith),
  h (a + 3) (omega arith) (omega arith),
)
