-- ===== src/Bucket/Dump.antt =====
-- The debugging print of src/bucket.c: `__mlib_print_bucket_info`.
use mathlib.Core.Path.{subst}
use mlib.Prelude.{ℕ, zero, suc, ◌+◌, ◌*◌, ◌≡◌, refl, some, List, [], ◌∷◌, All, length, arith}
use mlib.Memory.{Library, Ptr, M, pure, ◌>>=◌, plus, sub32}
use mlib.Memory.Laws.{load32_ok}
use mlib.Text.Stored.{load_text-IsText}
use mlib.Bucket.{
  Entry, sizeof_bucket, bucket_length, bucket_index_offs, bucket_str_bytes, bucket_nr_indexes,
  bucket_indexes, bucket_index, bucket_string, bucket_string_at,
}
use mlib.Bucket.Holds.{IsIndexes, IsEntry}
use mlib.Bucket.Search.{BucketAt, bucket_nr_indexes_ok}

-- What is printed: the fields, the free space, and a line for every index.
pub record Info : Type 0 where
  pub len : ℕ
  pub index_offs : ℕ
  pub str_bytes : ℕ
  pub free_space : ℕ
  pub lines : List Entry

-- The loop: `n` lines, from that of index `i` on.
unfoldable pub info_lines : Ptr → ℕ → ℕ → M (List Entry)
info_lines b zero i = pure []
info_lines b (suc n) i = do
  index ← bucket_index b i
  str ← bucket_string b i
  lines ← info_lines b n (i + 1)
  pure (record { index = index; text = str } ∷ lines)

-- `__mlib_print_bucket_info`
unfoldable pub print_bucket_info : Ptr → M Info
print_bucket_info b = do
  len ← bucket_length b
  offs ← bucket_index_offs b
  used ← bucket_str_bytes b
  nr_indexes ← bucket_nr_indexes b
  lines ← info_lines b nr_indexes 0
  pure (record {
    len = len;
    index_offs = offs;
    str_bytes = used;
    free_space = sub32 (sub32 offs used) sizeof_bucket;
    lines = lines;
  })

module _ {l : Library} {b : Ptr} {used offs len : ℕ} {all : List Entry}
    (v : BucketAt l b used offs len all) where
  bucket_index_ok :
      (i : ℕ) (e : Entry) (es : List Entry)
      → i + length (e ∷ es) ≡ length all
      → IsIndexes l.bytes (b.off + offs + 4 * i) (e ∷ es)
      → bucket_index b i l ≡ some (e.index, l)
  unfolding bucket_index bucket_indexes
  bucket_index_ok i e es sum is = rw (
    load32_ok l (plus b 8)
        (omega (arith, v.holds.room, v.holds.indexes_fit, v.holds.inside, v.in_map)),
    v.holds.offs_field,
    load32_ok l (plus (plus b offs) (4 * i))
        (omega (arith, v.holds.indexes_fit, v.holds.inside, v.in_map)),
    is.0,
  )

  bucket_string_ok :
      (i : ℕ) (e : Entry)
      → bucket_index b i l ≡ some (e.index, l)
      → IsEntry l.bytes (b.off + 16) used e
      → bucket_string b i l ≡ some (e.text, l)
  unfolding bucket_string bucket_string_at
  bucket_string_ok i e at t = rw (
    at,
    load_text-IsText l (plus (plus b 16) e.index) e.text v.same t.1
        (omega (arith, v.holds.room, v.holds.indexes_fit, v.holds.inside)) v.in_map,
  )

  info_lines_ok :
      (es : List Entry) (i : ℕ)
      → i + length es ≡ length all
      → IsIndexes l.bytes (b.off + offs + 4 * i) es
      → All (IsEntry l.bytes (b.off + 16) used) es
      → info_lines b (length es) i l ≡ some (es, l)
  unfolding info_lines
  info_lines_ok [] i sum is ts = refl
  info_lines_ok (e ∷ es) i sum is ts =
      let index = bucket_index_ok i e es sum is in
      let further : b.off + offs + 4 * i + 4 ≡ b.off + offs + 4 * (i + 1) = omega arith in
      let rest : IsIndexes l.bytes (b.off + offs + 4 * (i + 1)) es =
        subst (λ a. IsIndexes l.bytes a es) further is.1 in
      let left : i + 1 + length es ≡ length all = omega arith in
      rw (index, bucket_string_ok i e index ts.0, info_lines_ok es (i + 1) left rest ts.1)

  -- Printing a well-formed, mapped bucket returns without a fault and changes nothing. It shows the
  -- bucket's fields and every index with its string, in the order of the array; the free space that
  -- it shows is what the header, the strings and the indexes leave of the bucket.
  pub print_bucket_info-entries :
      (info : Info) × (print_bucket_info b l ≡ some (info, l))
      × (info.lines ≡ all)
      × (info.str_bytes ≡ used)
      × (info.len ≡ len)
      × (16 + used + info.free_space + 4 * length all ≡ len)
  unfolding print_bucket_info
  print_bucket_info-entries =
      let first : b.off + offs ≡ b.off + offs + 4 * 0 = omega arith in
      let indexes = subst (λ a. IsIndexes l.bytes a all) first v.holds.indexes in
      let none_shown : 0 + length all ≡ length all = omega arith in
      let lines = info_lines_ok all 0 none_shown indexes v.holds.texts in
      (
        record {
          len = len;
          index_offs = offs;
          str_bytes = used;
          free_space = sub32 (sub32 offs used) sizeof_bucket;
          lines = all;
        },
        rw
            (
              load32_ok l (plus b 4)
                  (omega (arith, v.holds.room, v.holds.indexes_fit, v.holds.inside, v.in_map)),
              load32_ok l (plus b 8)
                  (omega (arith, v.holds.room, v.holds.indexes_fit, v.holds.inside, v.in_map)),
              load32_ok l (plus b 12)
                  (omega (arith, v.holds.room, v.holds.indexes_fit, v.holds.inside, v.in_map)),
              v.holds.length_field,
              v.holds.offs_field,
              v.holds.bytes_field,
              bucket_nr_indexes_ok v,
              lines,
            )
            refl,
        refl,
        refl,
        refl,
        omega (arith, v.holds.room, v.holds.indexes_fit, v.holds.inside, v.small),
      )
