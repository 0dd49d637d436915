-- ===== src/Bytes.antt =====
-- The bytes of a library file, what libc's `memmove`, `memset` and `strcpy` do to them, and the
-- 32-bit fields of include/mlib/library.h, which are stored as big endian data.
pub mod Laws
use mlib.Prelude.{
  ℕ, ◌+◌, ◌-◌, ◌*◌, ◌/◌, ◌%◌, ◌^◌, Bool, ◌&&◌, List, [], ltb, leb, ◌==◌, if◌then◌else◌, length,
  get_or,
}

-- The byte at each offset.
abbrev pub Bytes : Type 0
Bytes = ℕ → ℕ

-- `x` lies in the `n` bytes from `a`.
abbrev pub within : ℕ → ℕ → ℕ → Bool
within a n x = leb a x && ltb x (a + n)

-- `memcpy(a, bs, length)` of bytes that lie elsewhere.
unfoldable pub put : Bytes → ℕ → List ℕ → Bytes
put m a bs x = if within a (length bs) x then get_or bs (x - a) 0 else m x

-- `memmove(dst, src, n)`
unfoldable pub move : Bytes → ℕ → ℕ → ℕ → Bytes
move m dst src n x = if within dst n x then m (src + (x - dst)) else m x

-- `memset(a, v, n)`
unfoldable pub fill : Bytes → ℕ → ℕ → ℕ → Bytes
fill m a v n x = if within a n x then v else m x

-- `__mlib_readl`: the big endian number in the four bytes from `a`.
unfoldable pub readl : Bytes → ℕ → ℕ
readl m a = m a * 2 ^ 24 + m (a + 1) * 2 ^ 16 + m (a + 2) * 2 ^ 8 + m (a + 3)

-- `__mlib_writel`: the four bytes of a 32-bit number, the highest first.
unfoldable pub writel : Bytes → ℕ → ℕ → Bytes
writel m a v x =
    if x == a
    then v / 2 ^ 24 % 256
    else if x == a + 1
    then v / 2 ^ 16 % 256
    else if x == a + 2
    then v / 2 ^ 8 % 256
    else if x == a + 3
    then v % 256
    else m x
