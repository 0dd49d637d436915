-- ===== src/Memory.antt =====
-- A library as the program sees it: a file that is mapped into memory (the `struct mlib_library`
-- of include/mlib/library.h, without its list node), pointers into the mapping, and the accesses
-- that the code makes through them. An access outside the mapping or past the end of the file is
-- a fault (SIGSEGV, SIGBUS), so a run that returns has made none.
pub mod Laws
use mlib.Prelude.{
  ℕ, ◌+◌, ◌-◌, ◌%◌, ◌^◌, Bool, ◌&&◌, Option, none, some, List, leb, ◌==◌, if◌then◌else◌, length,
}
use mlib.Bytes.{Bytes, put, move, fill, readl, writel}

-- `base` names the mapping that the pointer was made in: `mmap` may place the file elsewhere when
-- it is mapped again, and a pointer of the old mapping is then no longer good.
pub record Ptr : Type 0 where
  pub base : ℕ
  pub off : ℕ

-- `header` points to the start of the mapping `base`, of `mapped` bytes; the file behind `fd` has
-- `size` bytes. Past its end `bytes` is zero, which is what the file reads when it grows.
pub record Library : Type 0 where
  pub base : ℕ
  pub mapped : ℕ
  pub size : ℕ
  pub bytes : Bytes

-- `none` is a fault.
abbrev pub M : Type 0 → Type 0
M A = Library → Option (A × Library)

abbrev pub pure : {A : Type 0} → A → M A
pure a l = some (a, l)

module _ {A B : Type 0} where
  abbrev pub and_then : Option (A × Library) → (A → M B) → Option (B × Library)
  and_then none k = none
  and_then (some (a, l)) k = k a l

  infixl 5 ◌>>=◌ ◌>>◌
  abbrev pub ◌>>=◌ : M A → (A → M B) → M B
  m >>= k = λ l. and_then (m l) k

  abbrev pub ◌>>◌ : M A → M B → M B
  m >> n = m >>= λ _. n

-- The `int` results of the library: 0, and -1.
pub data Status : Type 0 where
  ok failed : Status

-- `if (result) return -1;` and what follows.
abbrev pub if_ok : Status → M Status → M Status
if_ok ok k = k
if_ok failed k = pure failed

-- Arithmetic of `uint32_t` and `size_t`.
abbrev pub u32 : ℕ → ℕ
u32 a = a % 2 ^ 32

abbrev pub sub32 : ℕ → ℕ → ℕ
sub32 a b = (a + 2 ^ 32 - b) % 2 ^ 32

abbrev pub sub64 : ℕ → ℕ → ℕ
sub64 a b = (a + 2 ^ 64 - b) % 2 ^ 64

abbrev pub plus : Ptr → ℕ → Ptr
plus p n = record p { off = p.off + n }

-- `lib->header`
abbrev pub header : M Ptr
header l = some (record { base = l.base; off = 0 }, l)

-- The `n` bytes from `p` may be read and written.
abbrev pub valid : Library → Ptr → ℕ → Bool
valid l p n = (p.base == l.base) && (leb (p.off + n) l.mapped && leb (p.off + n) l.size)

-- The difference of two pointers, which must point into one mapping.
unfoldable pub ptr_diff : Ptr → Ptr → M ℕ
ptr_diff p q l = if p.base == q.base then some (sub64 p.off q.off, l) else none

unfoldable pub load32 : Ptr → M ℕ
load32 p l = if valid l p 4 then some (readl l.bytes p.off, l) else none

unfoldable pub store32 : Ptr → ℕ → M (Unit {0})
store32 p v l =
    if valid l p 4 then some (tt, record l { bytes = writel l.bytes p.off (u32 v) }) else none

unfoldable pub memmove : Ptr → Ptr → ℕ → M (Unit {0})
memmove dst src n l =
    if valid l dst n && valid l src n
    then some (tt, record l { bytes = move l.bytes dst.off src.off n })
    else none

unfoldable pub memset : Ptr → ℕ → ℕ → M (Unit {0})
memset p v n l =
    if valid l p n then some (tt, record l { bytes = fill l.bytes p.off v n }) else none

unfoldable pub memcpy : Ptr → List ℕ → M (Unit {0})
memcpy p bs l =
    if valid l p (length bs) then some (tt, record l { bytes = put l.bytes p.off bs }) else none
