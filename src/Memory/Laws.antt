-- ===== src/Memory/Laws.antt =====
-- Accesses in bounds do not fault: one rule for each of them.
use mlib.Prelude.{ℕ, ◌+◌, ◌≤◌, ◌≡◌, List, true, some, length, arith}
use mlib.Bytes.{put, move, fill, readl, writel}
use mlib.Memory.{
  Ptr, Library, valid, u32, sub64, ptr_diff, load32, store32, memmove, memset, memcpy,
}

-- The `n` bytes from `p` lie in the mapping and in the file.
pub record Valid (l : Library) (p : Ptr) (n : ℕ) : Type 0 where
  pub same : p.base ≡ l.base
  pub in_map : p.off + n ≤ l.mapped
  pub in_file : p.off + n ≤ l.size

module _ (l : Library) (p : Ptr) where
  pub valid_iff : (n : ℕ) → Valid l p n → valid l p n ≡ true
  valid_iff n v = ground arith

  pub load32_ok : Valid l p 4 → load32 p l ≡ some (readl l.bytes p.off, l)
  unfolding load32
  load32_ok v = ground arith

  pub store32_ok :
      (v : ℕ)
      → Valid l p 4
      → store32 p v l ≡ some (tt, record l { bytes = writel l.bytes p.off (u32 v) })
  unfolding store32
  store32_ok v b = ground arith

  pub memset_ok :
      (v n : ℕ)
      → Valid l p n
      → memset p v n l ≡ some (tt, record l { bytes = fill l.bytes p.off v n })
  unfolding memset
  memset_ok v n b = ground arith

  pub memcpy_ok :
      (bs : List ℕ)
      → Valid l p (length bs)
      → memcpy p bs l ≡ some (tt, record l { bytes = put l.bytes p.off bs })
  unfolding memcpy
  memcpy_ok bs b = ground arith

  pub memmove_ok :
      (q : Ptr) (n : ℕ)
      → Valid l p n
      → Valid l q n
      → memmove p q n l ≡ some (tt, record l { bytes = move l.bytes p.off q.off n })
  unfolding memmove
  memmove_ok q n b c = ground arith

  pub ptr_diff_ok : (q : Ptr) → p.base ≡ q.base → ptr_diff p q l ≡ some (sub64 p.off q.off, l)
  unfolding ptr_diff
  ptr_diff_ok q e = ground arith
