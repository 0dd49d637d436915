-- ===== src/Space/Invariant.antt =====
-- What every operation on a library file keeps.
use mlib.Prelude.{ℕ, ◌^◌, ◌≤◌, ◌<◌, ◌≡◌}
use mlib.Bytes.{readl}
use mlib.Bytes.Laws.{IsBytes}
use mlib.Memory.{Library}

-- The file is mapped whole, its length field is its size, it has room for the header, and it
-- reads as zero past its end.
pub record IsLibrary (l : Library) : Type 0 where
  pub length_field : readl l.bytes 8 ≡ l.size
  pub in_map : l.size ≤ l.mapped
  pub has_header : 1024 ≤ l.size
  pub small : l.size < 2 ^ 32
  pub zero_past : (x : ℕ) → l.size ≤ x → l.bytes x ≡ 0
  pub are_bytes : IsBytes l.bytes
