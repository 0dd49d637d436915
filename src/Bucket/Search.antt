-- ===== src/Bucket/Search.antt =====
-- `mlib_bucket_contains`.
use Prim.Native.Nat.{Ordering}
use mlib.Prelude.{
  ℕ, ◌*◌, ◌/◌, ◌≤◌, ◌<◌, ◌^◌, ◌≡◌, refl, sym, ◌≢◌, inl, inr, Option, none, some, List, [], ◌∷◌, All,
  get_elem?, length, arith, Option-cases,
}
use mlib.Memory.{Library, Ptr, plus, sub32}
use mlib.Memory.Laws.{load32_ok}
use mlib.Text.{Text}
use mlib.Text.Order.{strcmp-eq, strcmp_self}
use mlib.Bucket.{Entry, Libc, cmp_str_to_ind, bucket_indexes, bucket_nr_indexes, bucket_contains}
use mlib.Bucket.Holds.{IsBucket, IsSorted, load_entries_ok}
use mlib.Bucket.Standard.{IsLibc, Partitioned, IsSorted→Partitioned}

-- `b` points into the mapping of `l`, to a bucket with the entries `es`.
pub record BucketAt (l : Library) (b : Ptr) (used offs len : ℕ) (es : List Entry) : Type 0 where
  pub same : b.base ≡ l.base
  pub in_map : l.size ≤ l.mapped
  pub small : l.size < 2 ^ 32
  pub holds : IsBucket l b.off used offs len es

module _ {l : Library} {b : Ptr} {used offs len : ℕ} {es : List Entry}
    (v : BucketAt l b used offs len es) where
  pub bucket_indexes_ok : bucket_indexes b l ≡ some (plus b offs, l)
  unfolding bucket_indexes
  bucket_indexes_ok = rw (load32_ok l (plus b 8) (omega arith), v.holds.offs_field)

  pub bucket_nr_indexes_ok : bucket_nr_indexes b l ≡ some (length es, l)
  unfolding bucket_nr_indexes
  bucket_nr_indexes_ok =
      let count : sub32 len offs / 4 ≡ length es = omega arith in
      rw (
        load32_ok l (plus b 4) (omega arith),
        load32_ok l (plus b 8) (omega arith),
        v.holds.offs_field,
        v.holds.length_field,
        count,
      )

-- `none`: no entry has the text. `some p`: `p` points to the index of an entry that has it.
abbrev pub Finds : Ptr → List Entry → Text → Option Ptr → Type 0
Finds indexes es str none = All (λ (e : Entry). str ≢ e.text) es
Finds indexes es str (some p) =
    (i : ℕ) × (e : Entry) × (get_elem? es i ≡ some e) × (e.text ≡ str) × (p ≡ plus indexes (4 * i))

missing_texts :
    (str : Text) (es : List Entry)
    → All (λ e. cmp_str_to_ind str e ≢ Ordering.eq) es
    → All (λ (e : Entry). str ≢ e.text) es
unfolding cmp_str_to_ind
missing_texts str [] h = tt
missing_texts str (e ∷ es) h = (λ eq. h.0 (rw eq (strcmp_self e.text)), missing_texts str es h.1)

module _ {c : Libc} (std : IsLibc c) {l : Library} {b : Ptr} {used offs len : ℕ} {es : List Entry}
    (v : BucketAt l b used offs len es) (sorted : IsSorted es) (str : Text) where
  run :
      (o : Option ℕ)
      → c.bsearch (cmp_str_to_ind str) es ≡ o
      → bucket_contains c b str l
        ≡ some (elim o [ none ↦ none | some i ↦ some (plus (plus b offs) (4 * i)) ], l)
  unfolding bucket_contains
  run o e = rw (
    load32_ok l b (omega (arith, v.holds.room)),
    v.holds.magic,
    bucket_indexes_ok v,
    bucket_nr_indexes_ok v,
    load_entries_ok l b used es (plus b offs) v.same v.same v.in_map (omega arith) (omega arith)
        v.holds.indexes v.holds.texts,
    e,
  )

  -- In a well-formed, mapped bucket whose texts are sorted, with a `bsearch` that keeps the C
  -- standard, the search for a string returns without a fault and changes nothing; where it returns
  -- NULL no entry has that text, and where it returns a pointer, that is the place in the index
  -- array of an entry with that text.
  pub bucket_contains-Finds :
      (r : Option Ptr) × (bucket_contains c b str l ≡ some (r, l)) × Finds (plus b offs) es str r
  unfolding cmp_str_to_ind
  bucket_contains-Finds = elim (Option-cases (c.bsearch (cmp_str_to_ind str) es)) [
    | inl miss ↦ (none, run none miss, missing_texts str es (std.bsearch_missing _ es parts miss))
    | inr (i, hit) ↦
        let (e, at, same) = std.bsearch_found _ es i parts hit in
        (
          some (plus (plus b offs) (4 * i)),
          run (some i) hit,
          (i, e, at, sym (strcmp-eq str e.text same), refl),
        )
  ]
    where
      parts : Partitioned (cmp_str_to_ind str) es
      parts = IsSorted→Partitioned str es sorted
