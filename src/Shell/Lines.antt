-- ===== src/Shell/Lines.antt =====
-- What lspls prints of a library.
use mathlib.Core.Path.{subst}
use native.Mathlib.Nat.{zero-add}
use mlib.Prelude.{
  ℕ, zero, suc, ◌+◌, ◌*◌, ◌≤◌, ◌<◌, ◌≡◌, ◌⊎◌, refl, Bool-cases, inl, inr, Option, none, some, List,
  [], ◌∷◌, ◌++◌, All, length, if◌then◌else◌, le→leb, lt→leb_false, arith,
}
use mlib.Memory.{M, Library, Ptr, plus, Status, ok, failed}
use mlib.Memory.Laws.{load32_ok}
use mlib.Text.{Text}
use mlib.Text.Stored.{load_text-IsText}
use mlib.Bucket.{Entry, bucket_index, bucket_string_at, bucket_string}
use mlib.Bucket.Holds.{IsIndexes, IsEntry}
use mlib.Bucket.Search.{BucketAt, bucket_indexes_ok, bucket_nr_indexes_ok}
use mlib.Bucket.Add.{bucket_at}
use mlib.Playlist.{next_playlist, get_path_at}
use mlib.Playlist.Holds.{Playlist, HoldsAt, Run, IsLib}
use mlib.Playlist.Find.{
  is_named, locate, to_ptr, first_of_run, plist_name_ok, next_playlist_ok, checked_playlist_ok,
  within, large, find_playlist-locate,
}
use mlib.Catalog.{Place, find_library}
use mlib.Shell.{
  Printed, playlist_lines, path_lines, print_playlists, print_paths, print_library, ls_playlist,
}

abbrev pub counts_and_names : List Playlist → List (ℕ × Text)
counts_and_names [] = []
counts_and_names (pl ∷ pls) = (pl.mcount, pl.name) ∷ counts_and_names pls

playlist_lines_ok :
    {l : Library} {pls : List Playlist} (v : IsLib l pls) (rounds p : ℕ) (run : List Playlist)
    → Run l p run l.size
    → l.size ≤ p + rounds
    → playlist_lines rounds (first_of_run v.library p run) l ≡ some (counts_and_names run, l)
unfolding playlist_lines
playlist_lines_ok v rounds p [] h fuel = refl
playlist_lines_ok v zero p (pl ∷ pls) h fuel = absurd (omega (arith, within v.library h.0))
playlist_lines_ok {l} v (suc rounds) p (pl ∷ pls) h fuel = rw (
  load32_ok l (to_ptr l (p + 8)) (omega (arith, v.library.in_map, within v.library h.0)),
  h.0.mcount_field,
  plist_name_ok v.library p pl h.0,
  next_playlist_ok v.library p pl pls h,
  playlist_lines_ok v rounds (p + pl.plen) pls h.1 (omega (arith, large v.library h.0)),
)

abbrev pub texts_of : List Entry → List Text
texts_of [] = []
texts_of (e ∷ es) = e.text ∷ texts_of es

module _ {l : Library} {b : Ptr} {used offs len : ℕ} {es : List Entry}
    (v : BucketAt l b used offs len es) where
  bucket_string_ok :
      (i : ℕ) (e : Entry) (rest : List Entry)
      → i + length (e ∷ rest) ≡ length es
      → IsIndexes l.bytes (b.off + offs + 4 * i) (e ∷ rest)
      → IsEntry l.bytes (b.off + 16) used e
      → bucket_string b i l ≡ some (e.text, l)
  unfolding bucket_string bucket_index bucket_string_at
  bucket_string_ok i e rest count is entry = rw (
    bucket_indexes_ok v,
    load32_ok l (plus (plus b offs) (4 * i)) (omega arith),
    is.0,
    load_text-IsText l (plus (plus b 16) e.index) e.text v.same entry.1 (omega arith) v.in_map,
  )

module _ {l : Library} (p : ℕ) {used offs len : ℕ} {es : List Entry}
    (v : BucketAt l (to_ptr l (p + 128)) used offs len es) where
  path_lines_ok :
      (rounds i : ℕ) (rest : List Entry)
      → i + length rest ≡ length es
      → length rest < rounds
      → IsIndexes l.bytes (p + 128 + offs + 4 * i) rest
      → All (IsEntry l.bytes (p + 128 + 16) used) rest
      → path_lines rounds (to_ptr l p) i l ≡ some (texts_of rest, l)
  unfolding path_lines get_path_at
  path_lines_ok zero i rest count fuel is entries = absurd (omega arith)
  path_lines_ok (suc rounds) i [] count fuel is entries =
      rw (bucket_nr_indexes_ok v, le→leb (length es) i (omega arith)) refl
  path_lines_ok (suc rounds) i (e ∷ rest) count fuel is entries =
      let next : p + 128 + offs + 4 * i + 4 ≡ p + 128 + offs + 4 * (i + 1) = omega arith in
      rw
        (
          bucket_nr_indexes_ok v,
          lt→leb_false (length es) i (omega arith),
          bucket_string_ok v i e rest count is entries.0,
          path_lines_ok rounds (i + 1) rest (omega arith) (omega arith)
              (subst (λ (a : ℕ). IsIndexes l.bytes a rest) next is.1) entries.1,
        )
        refl

-- The first playlist of a name.
abbrev pub first_named : Text → List Playlist → Option Playlist
first_named name [] = none
first_named name (pl ∷ pls) = if is_named name pl then some pl else first_named name pls

abbrev pub shown : Option Playlist → Status × Printed
shown none = (failed, Printed.nothing)
shown (some pl) = (ok, Printed.paths (texts_of pl.entries))

pub first_named-cases :
    (l : Library) (name : Text) (p e : ℕ) (pls : List Playlist)
    → Run l p pls e
    → ((locate name pls p ≡ none) × (first_named name pls ≡ none))
      ⊎ ((q : ℕ) × (pl : Playlist) × (locate name pls p ≡ some q)
          × (first_named name pls ≡ some pl)
          × HoldsAt l q pl)
unfolding locate
first_named-cases l name p e [] h = inl (refl, refl)
first_named-cases l name p e (pl ∷ pls) h = elim (Bool-cases (is_named name pl)) [
  | inl hit ↦ inr (p, pl, rw hit refl, rw hit refl, h.0)
  | inr miss ↦ rw miss (first_named-cases l name (p + pl.plen) e pls h.1)
]

pub print_library_ok :
    (lib : Text) (libs : List Library) (place : Place) (work : M (Status × Printed))
    (r : Status × Printed)
    → find_library lib libs ≡ some (some place)
    → work place.lib ≡ some (r, place.lib)
    → print_library lib work libs ≡ some (r.0, r.1, place.before ++ place.lib ∷ place.after)
unfolding print_library
print_library_ok lib libs place work r found ran = ground (arith, found, ran)

print_playlists_ok :
    {l : Library} {pls : List Playlist} (v : IsLib l pls)
    → print_playlists l ≡ some ((ok, Printed.playlists (counts_and_names pls)), l)
unfolding print_playlists next_playlist
print_playlists_ok {l} {pls} v =
    rw
      (
        checked_playlist_ok v.library 1024 pls v.chain,
        playlist_lines_ok v l.size 1024 pls v.chain (omega arith),
      )
      refl

-- In a library that is its header and a row of playlists, lspls with the library's name alone
-- returns 0 without a fault, prints the count and the name of every playlist, in their order, and
-- changes nothing.
pub ls_playlist-counts_and_names :
    (lib : Text) (libs : List Library) (place : Place) {pls : List Playlist}
    → find_library lib libs ≡ some (some place)
    → IsLib place.lib pls
    → ls_playlist (lib ∷ []) libs
      ≡ some (ok, Printed.playlists (counts_and_names pls), place.before ++ place.lib ∷ place.after)
unfolding ls_playlist
ls_playlist-counts_and_names lib libs place {pls} found v =
    print_library_ok lib libs place print_playlists (ok, Printed.playlists (counts_and_names pls))
      found (print_playlists_ok v)

first : (q : ℕ) (pl : Playlist) → q + 128 + pl.offs ≡ q + 128 + pl.offs + 4 * 0
first q pl = omega arith

print_paths-shown :
    {l : Library} {pls : List Playlist} (v : IsLib l pls) (name : Text)
    → print_paths name l ≡ some (shown (first_named name pls), l)
unfolding print_paths
print_paths-shown {l} {pls} v name = elim (first_named-cases l name 1024 l.size pls v.chain) [
  | inl (f, s) ↦ rw (find_playlist-locate v name, f, s) refl
  | inr (q, pl, f, s, h) ↦
      rw
        (
          find_playlist-locate v name,
          f,
          s,
          path_lines_ok q (bucket_at h.bucket) l.size 0 pl.entries (zero-add _)
              (omega (arith, h.bucket.inside, h.bucket.around, h.bucket.holds.indexes_fit))
              (subst (λ (a : ℕ). IsIndexes l.bytes a pl.entries) (first q pl)
                h.bucket.holds.indexes)
              h.bucket.holds.texts,
        )
        refl
]

-- In a library that is its header and a row of playlists, lspls with the library's name, a
-- playlist's name, and at most one argument more, which the usage line does not have and the code
-- accepts and ignores, returns without a fault and changes nothing. It prints the paths of the
-- first playlist of that name, in the order of its index array, and returns 0; where there is none
-- it prints no path and returns 1.
pub ls_playlist-shown :
    (lib name : Text) (more : List Text) (libs : List Library) (place : Place) {pls : List Playlist}
    → length more ≤ 1
    → find_library lib libs ≡ some (some place)
    → IsLib place.lib pls
    → ls_playlist (lib ∷ name ∷ more) libs
      ≡ some (
        (shown (first_named name pls)).0,
        (shown (first_named name pls)).1,
        place.before ++ place.lib ∷ place.after,
      )
unfolding ls_playlist
ls_playlist-shown lib name [] libs place few found v =
    print_library_ok lib libs place (print_paths name) _ found (print_paths-shown v name)
ls_playlist-shown lib name (x ∷ []) libs place few found v =
    print_library_ok lib libs place (print_paths name) _ found (print_paths-shown v name)
ls_playlist-shown lib name (x ∷ y ∷ more) libs place few found v = absurd (omega arith)
