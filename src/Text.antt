-- ===== src/Text.antt =====
-- C strings: `strcmp` and `strncmp` of libc, and the strings that stand in a library's memory.
pub mod Order
pub mod Stored
use Prim.Native.Nat.{compare, Ordering}
use Prim.Native.Char.{Char, code}
use Prim.Native.String.{String}
use mathlib.Core.Option
use mlib.Prelude.{
  ℕ, zero, suc, ◌+◌, ◌-◌, Bool, true, false, Option, none, some, List, [], ◌∷◌, ltb, ◌==◌,
  if◌then◌else◌,
}
use mlib.Bytes.{Bytes}
use mlib.Memory.{Ptr, Library, M}

-- The bytes of a string, without the zero that ends it.
abbrev pub Text : Type 0
Text = List ℕ

-- The bytes of an ASCII string. `String` has its own `[]` and `∷`.
abbrev pub codes : String → Text
codes String.[] = []
codes (String.◌∷◌ c s) = code c ∷ codes s

-- `strcmp`, by the sign of its result.
unfoldable pub strcmp : Text → Text → Ordering
strcmp [] [] = Ordering.eq
strcmp [] (d ∷ t) = Ordering.lt
strcmp (c ∷ s) [] = Ordering.gt
strcmp (c ∷ s) (d ∷ t) = elim (compare c d) [
  | Ordering.lt ↦ Ordering.lt
  | Ordering.gt ↦ Ordering.gt
  | Ordering.eq ↦ strcmp s t
]

-- `strncmp(s, t, n)`
unfoldable pub strncmp : Text → Text → ℕ → Ordering
strncmp s t zero = Ordering.eq
strncmp [] [] (suc n) = Ordering.eq
strncmp [] (d ∷ t) (suc n) = Ordering.lt
strncmp (c ∷ s) [] (suc n) = Ordering.gt
strncmp (c ∷ s) (d ∷ t) (suc n) = elim (compare c d) [
  | Ordering.lt ↦ Ordering.lt
  | Ordering.gt ↦ Ordering.gt
  | Ordering.eq ↦ strncmp s t n
]

-- `== 0` of a comparison.
abbrev pub is_eq : Ordering → Bool
is_eq Ordering.eq = true
is_eq Ordering.lt = false
is_eq Ordering.gt = false

-- The string at `a`, if its zero is among the first `n` bytes.
unfoldable pub read_text : ℕ → Bytes → ℕ → Option Text
read_text zero m a = none
read_text (suc n) m a =
    let rest = read_text n m (a + 1) in if m a == 0 then some [] else Option.map (λ s. m a ∷ s) rest

-- The end of what can be read: of the mapping, and of the file.
abbrev pub limit : Library → ℕ
limit l = if ltb l.size l.mapped then l.size else l.mapped

-- A string that a `char *` into the library points to; one that runs past the end is a fault.
unfoldable pub load_text : Ptr → M Text
load_text p l =
    if p.base == l.base
    then Option.map (λ s. (s, l)) (read_text (limit l - p.off) l.bytes p.off)
    else none
