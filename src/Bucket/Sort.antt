-- ===== src/Bucket/Sort.antt =====
-- `mlib_bucket_sort`.
use mathlib.Core.List.{Permᴰ}
use mathlib.Core.Path.{subst}
use mlib.Prelude.{
  suc, ℕ, ◌+◌, ◌*◌, ◌≤◌, ◌<◌, ◌^◌, ◌≡◌, refl, sym, ◌∙◌, ◌⊎◌, inl, some, List, [], ◌∷◌, All, length,
  ap, arith,
}
use mlib.Bytes.{Bytes, readl, writel}
use mlib.Bytes.Laws.{readl-agree, readl-ext, readl-writel, writel-out}
use mlib.Memory.{Library, Ptr, plus, u32}
use mlib.Memory.Laws.{store32_ok}
use mlib.Space.Invariant.{IsLibrary}
use mlib.Space.Write.{written-IsLibrary}
use mlib.Bucket.{Entry, Libc, cmp_indexes, store_entries, bucket_sort}
use mlib.Bucket.Holds.{IsBucket, IsIndexes, IsSorted, IsEntry, IsEntry-keep, load_entries_ok}
use mlib.Bucket.Standard.{IsLibc, cmp_indexes-IsOrder, Ascends→IsSorted}
use mlib.Bucket.Search.{BucketAt, bucket_indexes_ok, bucket_nr_indexes_ok}

-- The indexes of `es` written in a row.
unfoldable pub stored : Bytes → ℕ → List Entry → Bytes
stored m a [] = m
stored m a (e ∷ es) = stored (writel m a (u32 e.index)) (a + 4) es

stored-out :
    (m : Bytes) (a : ℕ) (es : List Entry) (x : ℕ)
    → (x < a) ⊎ (a + 4 * length es ≤ x)
    → stored m a es x ≡ m x
unfolding stored
stored-out m a [] x h = refl
stored-out m a (e ∷ es) x h =
    stored-out (writel m a (u32 e.index)) (a + 4) es x (ground arith)
    ∙ writel-out m a (u32 e.index) x (ground arith)

stored-IsIndexes :
    (m : Bytes) (a : ℕ) (es : List Entry)
    → All (λ (e : Entry). e.index < 2 ^ 32) es
    → IsIndexes (stored m a es) a es
unfolding stored
stored-IsIndexes m a [] h = tt
stored-IsIndexes m a (e ∷ es) h =
    (first, stored-IsIndexes (writel m a (u32 e.index)) (a + 4) es h.1)
  where
    m1 : Bytes
    m1 = writel m a (u32 e.index)

    out : (i : ℕ) → i < 4 → stored m1 (a + 4) es (a + i) ≡ m1 (a + i)
    out i lt = stored-out m1 (a + 4) es (a + i) (inl (omega arith))

    first : readl (stored m1 (a + 4) es) a ≡ e.index
    first =
        readl-ext (stored m1 (a + 4) es) m1 a a (stored-out m1 (a + 4) es a (inl (omega arith)))
          (out 1 (omega arith)) (out 2 (omega arith)) (out 3 (omega arith))
        ∙ (readl-writel m a (u32 e.index) ∙ omega (arith, h.0))

module _ (l : Library) (es : List Entry) where
  unfoldable pub put_entries : ℕ → Library
  put_entries a = record l { bytes = stored l.bytes a es }

store_entries_ok :
    (l : Library) (p : Ptr) (es : List Entry)
    → p.base ≡ l.base
    → l.size ≤ l.mapped
    → p.off + 4 * length es ≤ l.size
    → store_entries p es l ≡ some (tt, put_entries l es p.off)
unfolding store_entries put_entries stored
store_entries_ok l p [] e map fit = refl
store_entries_ok l p (x ∷ es) e map fit = rw (store32_ok l p x.index (omega arith)) (
    store_entries_ok (record l { bytes = writel l.bytes p.off (u32 x.index) }) (plus p 4) es e map
      (omega arith))

pub put_entries-IsLibrary :
    {l : Library} (a : ℕ) (es : List Entry)
    → IsLibrary l
    → 12 ≤ a
    → a + 4 * length es ≤ l.size
    → IsLibrary (put_entries l es a)
unfolding put_entries stored
put_entries-IsLibrary {l} a [] v lo hi = v
put_entries-IsLibrary {l} a (e ∷ es) v lo hi =
    put_entries-IsLibrary {l = record l { bytes = writel l.bytes a (u32 e.index) }} (a + 4) es
      (written-IsLibrary a (u32 e.index) v lo (omega arith)) (omega arith) (omega arith)

-- A property of all entries does not depend on their order.
pub All-perm : (P : Entry → Type 0) {xs ys : List Entry} → Permᴰ xs ys → All P ys → All P xs
All-perm P Permᴰ.nil h = tt
All-perm P (Permᴰ.cons {l₁ = xs} e q) h = (subst P (sym e) h.0, All-perm P q h.1)
All-perm P (Permᴰ.swap e f) h = (subst P (sym e) h.1.0, (subst P (sym f) h.0, h.1.1))
All-perm P (Permᴰ.trans q r) h = All-perm P q (All-perm P r h)

length-perm : {xs ys : List Entry} → Permᴰ xs ys → length xs ≡ length ys
length-perm Permᴰ.nil = refl
length-perm (Permᴰ.cons e q) = ap suc (length-perm q)
length-perm (Permᴰ.swap e f) = refl
length-perm (Permᴰ.trans q r) = length-perm q ∙ length-perm r

module _ {c : Libc} (std : IsLibc c) {l : Library} {b : Ptr} {used offs len : ℕ} {es : List Entry}
    (v : BucketAt l b used offs len es) where
  abbrev pub ordered : List Entry
  ordered = c.qsort cmp_indexes es

  pub ordered-perm : Permᴰ ordered es
  ordered-perm = std.qsort_perm cmp_indexes es cmp_indexes-IsOrder

  pub ordered-IsSorted : IsSorted ordered
  ordered-IsSorted = Ascends→IsSorted ordered (std.qsort_ascends cmp_indexes es cmp_indexes-IsOrder)

  pub same_length : length ordered ≡ length es
  same_length = length-perm ordered-perm

  -- The index array is rewritten in the order of the strings, and nothing else.
  pub sort_runs : bucket_sort c b l ≡ some (tt, put_entries l ordered (b.off + offs))
  unfolding bucket_sort
  sort_runs =
      rw
        (
          bucket_indexes_ok v,
          bucket_nr_indexes_ok v,
          load_entries_ok l b used es (plus b offs) v.same v.same v.in_map (omega arith)
              (omega arith) v.holds.indexes v.holds.texts,
        )
        (store_entries_ok l (plus b offs) ordered v.same v.in_map
          (omega (arith, same_length, v.holds.inside, v.holds.indexes_fit)))

  pub sorted-out :
      (x : ℕ)
      → (x < b.off + offs) ⊎ (b.off + len ≤ x)
      → (put_entries l ordered (b.off + offs)).bytes x ≡ l.bytes x
  unfolding put_entries
  sorted-out x h =
      stored-out l.bytes (b.off + offs) ordered x (ground (arith, same_length, v.holds.indexes_fit))

  pub sort-IsBucket : IsBucket (put_entries l ordered (b.off + offs)) b.off used offs len ordered
  unfolding put_entries
  sort-IsBucket = record {
    magic = field b.off (omega (arith, v.holds.room)) ∙ v.holds.magic;
    length_field = field (b.off + 4) (omega (arith, v.holds.room)) ∙ v.holds.length_field;
    offs_field = field (b.off + 8) (omega (arith, v.holds.room)) ∙ v.holds.offs_field;
    bytes_field = field (b.off + 12) (omega (arith, v.holds.room)) ∙ v.holds.bytes_field;
    room = v.holds.room;
    indexes_fit = omega (arith, same_length, v.holds.indexes_fit);
    inside = v.holds.inside;
    indexes =
        stored-IsIndexes l.bytes (b.off + offs) ordered
          (All-perm _ ordered-perm (low es v.holds.texts));
    texts =
        IsEntry-keep l.bytes _ (b.off + 16) used used (omega arith)
          (λ x lo hi. sorted-out x (inl (omega (arith, v.holds.room)))) ordered
          (All-perm _ ordered-perm v.holds.texts);
  }
    where
      field :
          (a : ℕ)
          → a + 4 ≤ b.off + offs
          → readl (stored l.bytes (b.off + offs) ordered) a ≡ readl l.bytes a
      field a le = readl-agree _ l.bytes a (λ x lo hi. sorted-out x (inl (omega arith)))

      low :
          (xs : List Entry)
          → All (IsEntry l.bytes (b.off + 16) used) xs
          → All (λ (e : Entry). e.index < 2 ^ 32) xs
      low [] h = tt
      low (x ∷ xs) h = (
        omega (arith, h.0.0, v.small, v.holds.inside, v.holds.room, v.holds.indexes_fit),
        low xs h.1,
      )
