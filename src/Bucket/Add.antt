-- ===== src/Bucket/Add.antt =====
-- `mlib_bucket_add`: duplicates are refused, and a new string is added whatever room there was.
use mathlib.Core.List.{Permᴰ}
use mathlib.Core.Path.{subst}
use native.Mathlib.Nat.{mod-eq_of_lt}
use mlib.Prelude.{
  ℕ, zero, suc, ◌+◌, ◌-◌, ◌≤◌, ◌<◌, ◌^◌, ◌≡◌, ◌≢◌, refl, sym, ◌∙◌, Option, some, none, List, [],
  ◌∷◌, All, length, get_elem?, arith, ◌⊎◌,
}
use mlib.Memory.{Library, Ptr, plus, u32, ok, failed}
use mlib.Text.{Text}
use mlib.Text.Stored.{IsCString}
use mlib.Space.{Os}
use mlib.Bucket.{Entry, Libc, bucket_contains, make_room, append_text, bucket_add}
use mlib.Bucket.Holds.{IsSorted}
use mlib.Bucket.Standard.{IsLibc}
use mlib.Bucket.Room.{InPlaylist, Kept, Moves, Remapped, Grants}
use mlib.Bucket.Loop.{at, make_room-Suffices}
use mlib.Bucket.Search.{BucketAt, Finds, bucket_contains-Finds}
use mlib.Bucket.Append.{append_text-Appended}

-- No entry has the text.
abbrev pub Absent : Text → List Entry → Type 0
Absent str es = All (λ (e : Entry). str ≢ e.text) es

pub Absent-get_elem? :
    (str : Text) (es : List Entry) (i : ℕ) (e : Entry)
    → Absent str es
    → get_elem? es i ≡ some e
    → e.text ≢ str
Absent-get_elem? str [] i e a h = cc
Absent-get_elem? str (x ∷ es) zero e a h = λ q. a.0 (sym q ∙ cc)
Absent-get_elem? str (x ∷ es) (suc i) e a h = Absent-get_elem? str es i e a.1 h

-- `l'` is `l` with `str` added to the bucket at `p`. It has its place in the order of the index
-- array; all that stands behind the playlist has moved up by the `g` bytes that were needed.
pub record Added (os : Os) (l l' : Library) (p plen used offs len : ℕ) (es : List Entry)
    (str : Text) (g : ℕ) (es' : List Entry) : Type 0 where
  pub bucket : InPlaylist l' p (plen + g) (used + (length str + 1)) (offs + g - 4) (len + g) es'
  pub sorted : IsSorted es'
  pub perm : Permᴰ es' (record { index = used; text = str } ∷ es)
  pub moves : Moves os l.base l'.base
  pub again : (g ≡ 0) ⊎ Remapped os l.base l'.base
  pub size : l'.size ≡ l.size + g
  pub bounded : g ≤ length str + 133
  pub before : (x : ℕ) → x < p + 128 → Kept p x → l'.bytes x ≡ l.bytes x
  pub behind : (x : ℕ) → p + 128 + len ≤ x → l'.bytes (x + g) ≡ l.bytes x

module _ {l : Library} {p plen used offs len : ℕ} {es : List Entry}
    (v : InPlaylist l p plen used offs len es) where
  pub bucket_at : BucketAt l (at l p) used offs len es
  bucket_at = record {
    same = refl;
    in_map = v.library.in_map;
    small = v.library.small;
    holds = v.holds;
  }

module _ (os : Os) {c : Libc} (std : IsLibc c) {l : Library} {p plen used offs len : ℕ}
    {es : List Entry} (v : InPlaylist l p plen used offs len es) (sorted : IsSorted es)
    (str : Text) where
  -- A string that a well-formed, sorted bucket holds already is refused with -1, and nothing
  -- changes, whatever the kernel would grant. `bsearch` keeps the C standard.
  pub bucket_add-duplicate :
      (i : ℕ) (e : Entry)
      → get_elem? es i ≡ some e
      → e.text ≡ str
      → bucket_add os c (at l p) str l ≡ some (failed, l)
  unfolding bucket_add
  bucket_add-duplicate i e at_i same =
      duplicate (bucket_contains-Finds std (bucket_at v) sorted str)
    where
      duplicate :
          (r : Option Ptr) × (bucket_contains c (at l p) str l ≡ some (r, l))
            × Finds (plus (at l p) offs) es str r
          → bucket_add os c (at l p) str l ≡ some (failed, l)
      duplicate (none, run, absent) = absurd (Absent-get_elem? str es i e absent at_i same)
      duplicate (some q, run, found) = rw run

  module _ (grants : Grants os) (cs : IsCString str) (absent : Absent str es)
      (small : l.size + length str + 200 < 2 ^ 32) where
    search_misses : bucket_contains c (at l p) str l ≡ some (none, l)
    search_misses = misses (bucket_contains-Finds std (bucket_at v) sorted str)
      where
        misses :
            (r : Option Ptr) × (bucket_contains c (at l p) str l ≡ some (r, l))
              × Finds (plus (at l p) offs) es str r
            → bucket_contains c (at l p) str l ≡ some (none, l)
        misses (none, run, _) = run
        misses (some q, run, (i, e, at_i, same, _)) =
            absurd (Absent-get_elem? str es i e absent at_i same)

    add_runs :
        (l1 l2 : Library)
        → make_room os (suc (length str + 2)) (at l p) (length str + 1) l
          ≡ some (some (at l1 p), l1)
        → append_text c (at l1 p) str l1 ≡ some (ok, l2)
        → bucket_add os c (at l p) str l ≡ some (ok, l2)
    unfolding bucket_add
    add_runs l1 l2 made run =
        let fits : u32 (length str + 1) ≡ length str + 1 = mod-eq_of_lt (omega arith) in
        let rounds : length str + 1 + 2 ≡ suc (length str + 2) = omega arith in
        rw (search_misses, fits, rounds, made, run)

    -- A C string that a bucket does not hold yet is added to it, however little room there was. The
    -- bucket stands in a playlist of a well-formed library, its texts are sorted, libc's `qsort`
    -- and `bsearch` keep the C standard, the kernel grants every extension and mapping, at any
    -- address, and the file stays below 4 GiB. Then 0 is returned without a fault; the bucket is
    -- well formed and sorted again and holds its old entries and the new one; the library has grown
    -- by the bytes that were needed, what stood behind the bucket has moved up by them unchanged,
    -- and what stood in front of it is unchanged but for the length fields.
    pub bucket_add-Added :
        (l' : Library) × (g : ℕ) × (es' : List Entry) × (bucket_add os c (at l p) str l
          ≡ some (ok, l'))
        × Added os l l' p plen used offs len es str g es'
    bucket_add-Added =
        let (g, l1, made, wide, (enough, most)) =
          make_room-Suffices os grants (length str + 1) (length str + 2) v
            (omega (arith, v.holds.room)) (omega (arith, v.holds.room)) in
        let aligned : offs + g ≡ offs + g - 4 + 4 = omega arith in
        let (l2, es', run, done) =
          append_text-Appended std {o = offs + g - 4}
            (subst (λ (k : ℕ). InPlaylist l1 p (plen + g) used k (len + g) es) aligned
              wide.same_bucket)
            str cs (omega arith) in
        (
          l2,
          g,
          es',
          add_runs l1 l2 made run,
          record {
            bucket = done.bucket;
            sorted = done.sorted;
            perm = done.perm;
            moves = subst (Moves os l.base) (sym done.base) wide.moves;
            again = subst (λ (b : ℕ). (g ≡ 0) ⊎ Remapped os l.base b) (sym done.base) wide.again;
            size = omega (arith, done.size, wide.size);
            bounded = ground (arith, v.holds.room);
            before = λ x lt k. done.before x lt ∙ wide.below x (omega arith) k;
            behind = λ x le.
                done.behind (x + g) (omega arith)
                ∙ wide.above x (omega (arith, v.holds.indexes_fit));
          },
        )
