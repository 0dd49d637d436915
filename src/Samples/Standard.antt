-- ===== src/Samples/Standard.antt =====
-- `qsort` as insertion sort and `bsearch` as a search from the front.
use Prim.Native.Nat.{Ordering}
use mathlib.Core.List.{Permᴰ}
use mathlib.Core.List.Permᴰ
use mlib.Prelude.{
  ℕ, zero, suc, ◌≡◌, refl, ◌≢◌, ◌⊎◌, inl, inr, Option, none, some, List, [], ◌∷◌, All, get_elem?,
  arith,
}
use mlib.Bucket.{Entry, Libc}
use mlib.Bucket.Standard.{Ascends, IsOrder, IsLibc}

unfoldable pub search_from : (Entry → Ordering) → List Entry → Option ℕ
search_from cmp [] = none
search_from cmp (e ∷ es) =
    let further = search_from cmp es in
    elim (cmp e) [
      | Ordering.eq ↦ some 0
      | Ordering.lt ↦ elim further [ none ↦ none | some i ↦ some (suc i) ]
      | Ordering.gt ↦ elim further [ none ↦ none | some i ↦ some (suc i) ]
    ]

unfoldable pub insert : (Entry → Entry → Ordering) → Entry → List Entry → List Entry
insert cmp a [] = a ∷ []
insert cmp a (e ∷ es) =
    let further = insert cmp a es in
    elim (cmp a e) [
      | Ordering.gt ↦ e ∷ further
      | Ordering.eq ↦ a ∷ e ∷ es
      | Ordering.lt ↦ a ∷ e ∷ es
    ]

unfoldable pub insertion_sort : (Entry → Entry → Ordering) → List Entry → List Entry
insertion_sort cmp [] = []
insertion_sort cmp (e ∷ es) = insert cmp e (insertion_sort cmp es)

abbrev pub libc : Libc
libc = record { qsort = insertion_sort; bsearch = search_from }

found :
    (cmp : Entry → Ordering) (es : List Entry) (i : ℕ)
    → search_from cmp es ≡ some i
    → (e : Entry) × (get_elem? es i ≡ some e) × (cmp e ≡ Ordering.eq)
unfolding search_from
found cmp [] i h = cc
found cmp (e ∷ es) zero h = (e, refl, ground arith)
found cmp (e ∷ es) (suc i) h = found cmp es i (ground arith)

missing :
    (cmp : Entry → Ordering) (es : List Entry)
    → search_from cmp es ≡ none
    → All (λ e. cmp e ≢ Ordering.eq) es
unfolding search_from
missing cmp [] h = tt
missing cmp (e ∷ es) h = (ground (arith), missing cmp es (ground arith))

insert_nil : (cmp : Entry → Entry → Ordering) (a : Entry) → insert cmp a [] ≡ a ∷ []
unfolding insert
insert_nil cmp a = refl

insert-cases :
    (cmp : Entry → Entry → Ordering) (a e : Entry) (es : List Entry)
    → ((cmp a e ≡ Ordering.gt) × (insert cmp a (e ∷ es) ≡ e ∷ insert cmp a es))
      ⊎ ((cmp a e ≢ Ordering.gt) × (insert cmp a (e ∷ es) ≡ a ∷ e ∷ es))
unfolding insert
insert-cases cmp a e es = ground arith

insert-perm :
    (cmp : Entry → Entry → Ordering) (a : Entry) (es : List Entry)
    → Permᴰ (insert cmp a es) (a ∷ es)
insert-perm cmp a [] = rw (insert_nil cmp a) (Permᴰ.refl (a ∷ []))
insert-perm cmp a (e ∷ es) = elim (insert-cases cmp a e es) [
  | inl (gt, q) ↦ rw q (Permᴰ.trans (Permᴰ.cons refl (insert-perm cmp a es)) (Permᴰ.swap refl refl))
  | inr (le, q) ↦ rw q (Permᴰ.refl (a ∷ e ∷ es))
]

sort-perm : (cmp : Entry → Entry → Ordering) (es : List Entry) → Permᴰ (insertion_sort cmp es) es
unfolding insertion_sort
sort-perm cmp [] = Permᴰ.nil
sort-perm cmp (e ∷ es) =
    Permᴰ.trans (insert-perm cmp e (insertion_sort cmp es)) (Permᴰ.cons refl (sort-perm cmp es))

module _ {cmp : Entry → Entry → Ordering} (o : IsOrder cmp) where
  insert-All :
      (a b : Entry) (es : List Entry)
      → cmp b a ≢ Ordering.gt
      → All (λ f. cmp b f ≢ Ordering.gt) es
      → All (λ f. cmp b f ≢ Ordering.gt) (insert cmp a es)
  insert-All a b [] h k = rw (insert_nil cmp a) (h, tt)
  insert-All a b (e ∷ es) h k = elim (insert-cases cmp a e es) [
    | inl (gt, q) ↦ rw q (k.0, insert-All a b es h k.1)
    | inr (le, q) ↦ rw q (h, k)
  ]

  All-below :
      (a e : Entry) (es : List Entry)
      → cmp a e ≢ Ordering.gt
      → All (λ f. cmp e f ≢ Ordering.gt) es
      → All (λ f. cmp a f ≢ Ordering.gt) es
  All-below a e [] h k = tt
  All-below a e (f ∷ es) h k = (o.trans a e f h k.0, All-below a e es h k.1)

  insert-Ascends : (a : Entry) (es : List Entry) → Ascends cmp es → Ascends cmp (insert cmp a es)
  insert-Ascends a [] h = rw (insert_nil cmp a) (tt, tt)
  insert-Ascends a (e ∷ es) h = elim (insert-cases cmp a e es) [
    | inl (gt, q) ↦ rw q (insert-All a e es (o.total a e gt) h.0, insert-Ascends a es h.1)
    | inr (le, q) ↦ rw q ((le, All-below a e es le h.0), h)
  ]

  sort-Ascends : (es : List Entry) → Ascends cmp (insertion_sort cmp es)
  unfolding insertion_sort
  sort-Ascends [] = tt
  sort-Ascends (e ∷ es) = insert-Ascends e (insertion_sort cmp es) (sort-Ascends es)

pub libc-IsLibc : IsLibc libc
libc-IsLibc = record {
  bsearch_found = λ cmp es i parts h. found cmp es i h;
  bsearch_missing = λ cmp es parts h. missing cmp es h;
  qsort_perm = λ cmp es o. sort-perm cmp es;
  qsort_ascends = λ cmp es o. sort-Ascends o es;
}
