-- ===== src/Playlist/Find.antt =====
-- `mlib_next_playlist` and `mlib_find_playlist`.
use native.Mathlib.Nat.{zero-add}
use mathlib.Core.Option
use mlib.Prelude.{
  ℕ, zero, suc, ◌+◌, ◌≤◌, ◌<◌, ◌≡◌, refl, Bool, Option, some, none, inl, inr, List, [], ◌∷◌, length,
  leb, if◌then◌else◌, Bool-cases, le→leb, lt→leb_false, arith,
}
use mlib.Bytes.{Bytes}
use mlib.Memory.{Library, Ptr}
use mlib.Memory.Laws.{Valid, valid_iff}
use mlib.Text.{Text, strncmp, is_eq}
use mlib.Text.Stored.{IsText}
use mlib.Space.Invariant.{IsLibrary}
use mlib.Space.Grow.{lib_len_ok}
use mlib.Space.Write.{load32_is}
use mlib.Playlist.{
  plist_name_len, read_name, plist_name, plist_check_len, checked_playlist, next_playlist,
  find_loop, find_playlist,
}
use mlib.Playlist.Holds.{Playlist, HoldsAt, Run, IsLib}

-- The test of `mlib_find_playlist`.
abbrev pub is_named : Text → Playlist → Bool
is_named name pl = is_eq (strncmp pl.name name plist_name_len)

-- Where the first playlist of that name stands, if the playlists begin at `p`.
unfoldable pub locate : Text → List Playlist → ℕ → Option ℕ
locate name [] p = none
locate name (pl ∷ pls) p =
    let rest = locate name pls (p + pl.plen) in if is_named name pl then some p else rest

-- The pointer to an offset.
abbrev pub to_ptr : Library → ℕ → Ptr
to_ptr l p = record { base = l.base; off = p }

read_name-IsText :
    (n : ℕ) (m : Bytes) (a : ℕ) (s : Text) → IsText m a s → length s < n → read_name n m a ≡ s
unfolding read_name
read_name-IsText zero m a s h lt = absurd (omega arith)
read_name-IsText (suc n) m a [] h lt = ground arith
read_name-IsText (suc n) m a (c ∷ s) h lt = ground (arith, read_name-IsText n m (a + 1) s)

module _ {l : Library} (v : IsLibrary l) where
  pub plist_name_ok :
      (p : ℕ) (pl : Playlist) → HoldsAt l p pl → plist_name (to_ptr l p) l ≡ some (pl.name, l)
  unfolding plist_name
  plist_name_ok p pl h =
      let ok : Valid l (to_ptr l (p + 12)) plist_name_len =
        (omega (
          arith, v.in_map, h.bucket.inside, h.bucket.around, h.bucket.holds.room,
          h.bucket.holds.indexes_fit,
        )) in
      rw (
        valid_iff l (to_ptr l (p + 12)) plist_name_len ok,
        read_name-IsText plist_name_len l.bytes (p + 12) pl.name h.named h.short,
      )

  check_len_ok : (p : ℕ) → plist_check_len (to_ptr l p) l ≡ some (leb l.size p, l)
  unfolding plist_check_len
  check_len_ok p = rw (lib_len_ok v, zero-add)

  pub within : {p : ℕ} {pl : Playlist} → HoldsAt l p pl → p + 144 ≤ l.size
  within h =
      omega
        (arith, h.bucket.inside, h.bucket.around, h.bucket.holds.room, h.bucket.holds.indexes_fit)

  pub large : {p : ℕ} {pl : Playlist} → HoldsAt l p pl → 144 ≤ pl.plen
  large h = omega (arith, h.bucket.around, h.bucket.holds.room, h.bucket.holds.indexes_fit)

  -- The first of the playlists from `p` to the end, if there is one.
  abbrev pub first_of_run : ℕ → List Playlist → Option Ptr
  first_of_run p [] = none
  first_of_run p (pl ∷ pls) = some (to_ptr l p)

  pub checked_playlist_ok :
      (p : ℕ) (pls : List Playlist)
      → Run l p pls l.size
      → checked_playlist (to_ptr l p) l ≡ some (first_of_run p pls, l)
  unfolding checked_playlist
  checked_playlist_ok p [] h = rw (check_len_ok p, le→leb l.size p (omega arith))
  checked_playlist_ok p (pl ∷ pls) h = rw (
    check_len_ok p,
    lt→leb_false l.size p (omega (arith, within h.0)),
    load32_is l (to_ptr l p)
        (omega (arith, v.in_map, within h.0, h.0.bucket.inside, h.0.bucket.around)) h.0.magic,
  )

  pub next_playlist_ok :
      (p : ℕ) (pl : Playlist) (pls : List Playlist)
      → Run l p (pl ∷ pls) l.size
      → next_playlist (some (to_ptr l p)) l ≡ some (first_of_run (p + pl.plen) pls, l)
  unfolding next_playlist
  next_playlist_ok p pl pls h =
      rw
        (load32_is l (to_ptr l (p + 4)) (omega (arith, v.in_map, within h.0))
          h.0.bucket.plist_field)
        (checked_playlist_ok (p + pl.plen) pls h.1)

  find_loop_ok :
      (rounds : ℕ) (name : Text) (p : ℕ) (pls : List Playlist)
      → Run l p pls l.size
      → l.size ≤ p + rounds
      → find_loop rounds name (first_of_run p pls) l
        ≡ some (Option.map (to_ptr l) (locate name pls p), l)
  unfolding find_loop locate
  find_loop_ok rounds name p [] h fuel = refl
  find_loop_ok zero name p (pl ∷ pls) h fuel = absurd (omega (arith, within h.0))
  find_loop_ok (suc rounds) name p (pl ∷ pls) h fuel = elim (Bool-cases (is_named name pl)) [
    | inl hit ↦ rw (plist_name_ok p pl h.0, hit)
    | inr miss ↦
        rw (plist_name_ok p pl h.0, miss, next_playlist_ok p pl pls h)
          (find_loop_ok rounds name (p + pl.plen) pls h.1 (omega (arith, large h.0)))
  ]

-- In a library that is its header and a row of playlists, the search for a name ends, changes
-- nothing, and finds the first playlist of that name, or NULL if there is none.
pub find_playlist-locate :
    {l : Library} {pls : List Playlist} (v : IsLib l pls) (name : Text)
    → find_playlist name l ≡ some (Option.map (to_ptr l) (locate name pls 1024), l)
unfolding find_playlist next_playlist
find_playlist-locate {l} {pls} v name =
    rw (zero-add, checked_playlist_ok v.library 1024 pls v.chain)
      (find_loop_ok v.library l.size name 1024 pls v.chain (omega arith))
