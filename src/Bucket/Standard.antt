-- ===== src/Bucket/Standard.antt =====
-- What the C standard says of `qsort` and `bsearch`, and that the comparisons of src/bucket.c meet
-- what it asks of them.
use Prim.Native.Nat.{Ordering}
use mathlib.Core.List.{Permᴰ}
use mlib.Prelude.{ℕ, ◌≡◌, ◌≢◌, none, some, List, [], ◌∷◌, All, get_elem?, arith}
use mlib.Text.{Text, strcmp}
use mlib.Text.Order.{strcmp-eq, strcmp_swap, NotAfter, NotAfter-total, NotAfter-trans}
use mlib.Bucket.{Entry, Libc, cmp_indexes, cmp_str_to_ind}
use mlib.Bucket.Holds.{IsSorted}

-- The elements below the key come first, then those that match it, then those above.
abbrev pub Partitioned : (Entry → Ordering) → List Entry → Type 0
Partitioned cmp [] = Unit {0}
Partitioned cmp (e ∷ es) =
    (cmp e ≢ Ordering.gt → All (λ f. cmp f ≢ Ordering.gt) es)
    × (cmp e ≡ Ordering.lt → All (λ f. cmp f ≡ Ordering.lt) es)
    × Partitioned cmp es

abbrev pub Ascends : (Entry → Entry → Ordering) → List Entry → Type 0
Ascends cmp [] = Unit {0}
Ascends cmp (e ∷ es) = All (λ f. cmp e f ≢ Ordering.gt) es × Ascends cmp es

-- A comparison that is consistent with itself.
pub record IsOrder (cmp : Entry → Entry → Ordering) : Type 0 where
  pub total : (a b : Entry) → cmp a b ≡ Ordering.gt → cmp b a ≢ Ordering.gt
  pub trans :
      (a b c : Entry) → cmp a b ≢ Ordering.gt → cmp b c ≢ Ordering.gt → cmp a c ≢ Ordering.gt

-- ISO C, 7.22.5: `bsearch` returns a matching element of a partitioned array, or NULL if there is
-- none; `qsort` rearranges the array into ascending order.
pub record IsLibc (c : Libc) : Type 0 where
  pub bsearch_found :
      (cmp : Entry → Ordering) (es : List Entry) (i : ℕ)
      → Partitioned cmp es
      → c.bsearch cmp es ≡ some i
      → (e : Entry) × (get_elem? es i ≡ some e) × (cmp e ≡ Ordering.eq)
  pub bsearch_missing :
      (cmp : Entry → Ordering) (es : List Entry)
      → Partitioned cmp es
      → c.bsearch cmp es ≡ none
      → All (λ e. cmp e ≢ Ordering.eq) es
  pub qsort_perm :
      (cmp : Entry → Entry → Ordering) (es : List Entry) → IsOrder cmp → Permᴰ (c.qsort cmp es) es
  pub qsort_ascends :
      (cmp : Entry → Entry → Ordering) (es : List Entry)
      → IsOrder cmp
      → Ascends cmp (c.qsort cmp es)

pub cmp_indexes-IsOrder : IsOrder cmp_indexes
unfolding cmp_indexes
cmp_indexes-IsOrder = record {
  total = λ a b. NotAfter-total a.text b.text;
  trans = λ a b c. NotAfter-trans a.text b.text c.text;
}

pub Ascends→IsSorted : (es : List Entry) → Ascends cmp_indexes es → IsSorted es
unfolding cmp_indexes
Ascends→IsSorted [] h = tt
Ascends→IsSorted (e ∷ es) h = (h.0, Ascends→IsSorted es h.1)

module _ (str : Text) where
  not_below :
      (e : Entry) (es : List Entry)
      → NotAfter str e.text
      → All (λ (f : Entry). NotAfter e.text f.text) es
      → All (λ f. cmp_str_to_ind str f ≢ Ordering.gt) es
  unfolding cmp_str_to_ind
  not_below e [] h hs = tt
  not_below e (f ∷ es) h hs = (NotAfter-trans str e.text f.text h hs.0, not_below e es h hs.1)

  strictly : (e f : Text) → strcmp str e ≡ Ordering.lt → NotAfter e f → strcmp str f ≡ Ordering.lt
  strictly e f h n = ground (arith, strcmp-eq str f, strcmp_swap str e h, NotAfter-trans str e f)

  above :
      (e : Entry) (es : List Entry)
      → strcmp str e.text ≡ Ordering.lt
      → All (λ (f : Entry). NotAfter e.text f.text) es
      → All (λ f. cmp_str_to_ind str f ≡ Ordering.lt) es
  unfolding cmp_str_to_ind
  above e [] h hs = tt
  above e (f ∷ es) h hs = (strictly e.text f.text h hs.0, above e es h hs.1)

  pub IsSorted→Partitioned : (es : List Entry) → IsSorted es → Partitioned (cmp_str_to_ind str) es
  unfolding cmp_str_to_ind
  IsSorted→Partitioned [] h = tt
  IsSorted→Partitioned (e ∷ es) h =
      (λ n. not_below e es n h.0, λ n. above e es n h.0, IsSorted→Partitioned es h.1)
