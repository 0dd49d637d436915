-- ===== src/Playlist/Delete.antt =====
-- `mlib_delete_playlist`.
use mlib.Prelude.{ℕ, ◌+◌, ◌-◌, ◌≤◌, ◌≡◌, refl, true, some, none, List, arith}
use mlib.Bytes.Laws.{writel-out}
use mlib.Memory.{Library, ok, failed}
use mlib.Text.{Text}
use mlib.Space.{Os}
use mlib.Space.Invariant.{IsLibrary}
use mlib.Space.Shrink.{close, closed, closed-IsLibrary, library_excise-closed}
use mlib.Space.Write.{load32_is}
use mlib.Playlist.{delete_playlist}
use mlib.Playlist.Holds.{SameHeader, Playlist, Run-le, Run-copy, Run-append, IsLib}
use mlib.Playlist.Split.{removed, Split, split}
use mlib.Playlist.Find.{locate, to_ptr, find_playlist-locate}

module _ (os : Os) {l : Library} {pls : List Playlist} (v : IsLib l pls) (name : Text) where
  -- In a library that is its header and a row of playlists none of which has the name, deleting
  -- returns -1 and nothing changes.
  pub delete_playlist_absent :
      locate name pls 1024 ≡ none → delete_playlist os name l ≡ some (failed, l)
  unfolding delete_playlist
  delete_playlist_absent missing = rw (find_playlist-locate v name, missing) refl

  module _ {q : ℕ} (s : Split l name 1024 q l.size pls) where
    at_header : 1024 ≤ q
    at_header = Run-le l 1024 q s.before s.in_front

    inside : q + s.here.plen ≤ l.size
    inside = Run-le l (q + s.here.plen) l.size s.after s.behind

    closed-IsLib : IsLib (closed q s.here.plen l) (removed name pls)
    unfolding close
    closed-IsLib =
        let n = s.here.plen in
        let l' = closed q n l in
        let lib : IsLibrary l' = closed-IsLibrary os v.library q n at_header inside in
        record {
          library = lib;
          chain = rw s.left (
              Run-append l' 1024 q (l.size - n) s.before s.after
                (Run-copy l l' 1024 1024 q q s.before s.in_front
                  (λ i lt. ground (arith, writel-out (close l.bytes q n) 8 (l.size - n) (1024 + i)))
                  lib (omega arith) (omega (arith, at_header, inside)) (omega arith))
                (Run-copy l l' (q + n) q l.size (l.size - n) s.after s.behind
                  (λ i lt.
                    ground
                      (arith, at_header, writel-out (close l.bytes q n) 8 (l.size - n) (q + i)))
                  lib at_header (omega arith) (omega (arith, inside))));
        }

    header_kept : SameHeader l (closed q s.here.plen l)
    unfolding close
    header_kept x lo hi =
        ground
          (arith, at_header, writel-out (close l.bytes q s.here.plen) 8 (l.size - s.here.plen) x)

    delete_playlist-split :
        locate name pls 1024 ≡ some q
        → os.ftruncate (l.size - s.here.plen) ≡ true
        → delete_playlist os name l ≡ some (ok, closed q s.here.plen l)
    unfolding delete_playlist
    delete_playlist-split found grant =
        rw
          (
            find_playlist-locate v name,
            found,
            load32_is l (to_ptr l (q + 4))
                (omega (
                  arith, v.library.in_map, inside, s.held.bucket.around, s.held.bucket.holds.room,
                  s.held.bucket.holds.indexes_fit,
                ))
                s.held.bucket.plist_field,
          )
          (library_excise-closed os v.library q s.here.plen at_header inside grant)

  -- In a library that is its header and a row of playlists, where a playlist has the name and
  -- `ftruncate` succeeds, deleting returns 0, and the library is its header and the other
  -- playlists, whole and in their order: exactly the first playlist of that name is gone. The file
  -- has not grown, and the header's name and prefix and the library's address are as they were.
  pub delete_playlist-removed :
      (q : ℕ)
      → locate name pls 1024 ≡ some q
      → ((n : ℕ) → os.ftruncate n ≡ true)
      → (l' : Library) × ((delete_playlist os name l ≡ some (ok, l'))
          × IsLib l' (removed name pls)
          × (l'.size ≤ l.size)
          × SameHeader l l'
          × (l'.base ≡ l.base))
  delete_playlist-removed q found grant =
      let s = split l name 1024 q l.size pls v.chain found in
      (
        closed q s.here.plen l,
        (
          delete_playlist-split s found (grant (l.size - s.here.plen)),
          closed-IsLib s,
          omega arith,
          header_kept s,
          refl,
        ),
      )
