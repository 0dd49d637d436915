-- ===== src/Space/Write.antt =====
-- Stores into a library, behind its header fields.
use mlib.Prelude.{ℕ, ◌+◌, ◌≤◌, ◌≡◌, ◌∙◌, inl, inr, some, arith}
use mlib.Bytes.{readl, writel}
use mlib.Bytes.Laws.{readl-writel_ne, writel-IsBytes, writel-out}
use mlib.Memory.{Library, Ptr, load32}
use mlib.Memory.Laws.{Valid, load32_ok}
use mlib.Space.Invariant.{IsLibrary}

-- Reading a field that is known.
pub load32_is :
    (l : Library) (p : Ptr) {v : ℕ}
    → Valid l p 4
    → readl l.bytes p.off ≡ v
    → load32 p l ≡ some (v, l)
load32_is l p b e = rw (load32_ok l p b, e)

-- A store behind the length field keeps the invariant.
pub written-IsLibrary :
    {l : Library} (a w : ℕ)
    → IsLibrary l
    → 12 ≤ a
    → a + 4 ≤ l.size
    → IsLibrary (record l { bytes = writel l.bytes a w })
written-IsLibrary {l} a w v lo hi = record {
  length_field = readl-writel_ne l.bytes a w 8 (inl (omega arith)) ∙ v.length_field;
  in_map = v.in_map;
  has_header = v.has_header;
  small = v.small;
  zero_past = λ x h. writel-out l.bytes a w x (inr (omega arith)) ∙ v.zero_past x h;
  are_bytes = writel-IsBytes l.bytes a w v.are_bytes;
}
