-- ===== src/Store/Lookup.antt =====
-- Looking for a path, by `mlib_find_path`, against the paths that a store shows.
use mathlib.Core.Bool.{Bool-set}
use mathlib.Core.Quot
use mlib.Prelude.{
  ℕ, ◌≡◌, ◌⊎◌, refl, inl, inr, true, false, Option, none, some, List, [], ◌∷◌, get_elem?, arith,
}
use mlib.Memory.{Library, Ptr, plus, failed}
use mlib.Text.{Text}
use mlib.Text.Order.{strcmp_self}
use mlib.Bucket.{Entry, Libc, bucket_contains}
use mlib.Bucket.Loop.{at}
use mlib.Bucket.Standard.{IsLibc}
use mlib.Bucket.Search.{Finds, bucket_contains-Finds}
use mlib.Bucket.Add.{bucket_at, Absent, Absent-get_elem?}
use mlib.Playlist.{find_path}
use mlib.Playlist.Holds.{Playlist}
use mlib.Playlist.Find.{to_ptr}
use mlib.Playlist.Split.{Split}
use mlib.Space.Write.{load32_is}
use mlib.Store.Bag.{has, of_list, Paths, with_path}
use mlib.Store.View.{texts, listing, has-cases}
use mlib.Store.Steps.{Good}
use mlib.Store.{Store, exists, put}

pub exists-put :
    (name other path : Text) (s : Store) → exists name (put other path s).1 ≡ exists name s
unfolding exists put
exists-put name other path [] = refl
exists-put name other path (x ∷ s) = ground (arith, exists-put name other path s)

pub has-Absent :
    (str : Text) (es : List Entry) → Absent str es → has str (of_list (texts es)) ≡ false
has-Absent str es absent = elim (has-cases str es) [
  | inl (h, a) ↦ h
  | inr (h, (i, e, at_i, same)) ↦ absurd (Absent-get_elem? str es i e absent at_i same)
]

pub has_present :
    (str : Text) (es : List Entry) (i : ℕ) (e : Entry)
    → get_elem? es i ≡ some e
    → e.text ≡ str
    → has str (of_list (texts es)) ≡ true
has_present str es i e at_i same = elim (has-cases str es) [
  | inl (h, absent) ↦ absurd (Absent-get_elem? str es i e absent at_i same)
  | inr (h, found) ↦ h
]

module _ {c : Libc} (std : IsLibc c) {l : Library} {pls : List Playlist} (g : Good l pls)
    (name elem : Text) (q : ℕ) (s : Split l name 1024 q l.size pls) where
  runs :
      (found : Option Ptr)
      → bucket_contains c (at l q) elem l ≡ some (found, l)
      → find_path c (to_ptr l q) elem l ≡ some (found, l)
  unfolding find_path
  runs found run =
      rw
        (
          load32_is l (to_ptr l q)
              (omega (
                arith, g.lib.library.in_map, s.held.bucket.inside, s.held.bucket.around,
                s.held.bucket.holds.room, s.held.bucket.holds.indexes_fit,
              ))
              s.held.magic,
          run,
        )
        refl

  decide :
      (found : Option Ptr) × (bucket_contains c (at l q) elem l ≡ some (found, l))
        × Finds (plus (at l q) s.here.offs) s.here.entries elem found
      → ((a : Ptr) × (find_path c (to_ptr l q) elem l ≡ some (some a, l))
          × (has elem (listing s.here).paths ≡ true))
        ⊎ ((find_path c (to_ptr l q) elem l ≡ some (none, l))
            × (has elem (listing s.here).paths ≡ false))
  decide (none, run, absent) = inr (runs none run, has-Absent elem s.here.entries absent)
  decide (some a, run, (i, e, at_i, same, place)) =
      inl (a, runs (some a) run, has_present elem s.here.entries i e at_i same)

  -- Whether the playlist has the path.
  pub found_path :
      ((a : Ptr) × (find_path c (to_ptr l q) elem l ≡ some (some a, l))
        × (has elem (listing s.here).paths ≡ true))
      ⊎ ((find_path c (to_ptr l q) elem l ≡ some (none, l))
          × (has elem (listing s.here).paths ≡ false))
  found_path = decide (bucket_contains-Finds std (bucket_at s.held.bucket) s.held.sorted elem)

has-with_path : (a : Text) (xs : Paths) → has a (with_path a xs) ≡ true
unfolding has with_path
has-with_path a =
    Quot.ind (λ xs. Bool-set (has a (with_path a xs)) true) (λ xs. ground (arith, strcmp_self a))

-- A path that has been put is there, and is not put again.
pub put_again :
    (name path : Text) (s : Store)
    → exists name s ≡ true
    → put name path (put name path s).1 ≡ (failed, (put name path s).1)
unfolding exists put
put_again name path [] h = absurd (ground arith)
put_again name path (x ∷ s) h = ground (arith, put_again name path s, has-with_path path x.paths)
