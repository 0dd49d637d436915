-- ===== src/Playlist/Start.antt =====
-- `mlib_start_playlist`, where the mapping moves.
use native.Mathlib.Nat.{zero-add}
use mlib.Prelude.{ℕ, ◌+◌, ◌<◌, ◌^◌, ◌≡◌, ◌≢◌, refl, sym, true, none, some, List, arith}
use mlib.Memory.{Library, Ptr, plus, u32, memcpy}
use mlib.Text.{Text}
use mlib.Space.{Os}
use mlib.Space.Grow.{grown, lib_len_ok, library_expand-grown}
use mlib.Playlist.{name_field, new_playlist_addr, set_up_playlist, start_playlist}
use mlib.Playlist.Holds.{Playlist, IsLib}
use mlib.Playlist.Find.{locate, find_playlist-locate}

memcpy_elsewhere : (p : Ptr) (bs : List ℕ) (l : Library) → p.base ≢ l.base → memcpy p bs l ≡ none
unfolding memcpy
memcpy_elsewhere p bs l h = ground arith

set_up_elsewhere :
    (p : Ptr) (name : Text) (l : Library) → p.base ≢ l.base → set_up_playlist p name l ≡ none
unfolding set_up_playlist
set_up_elsewhere p name l h = rw (memcpy_elsewhere (plus p 12) (name_field name) l h) refl

-- In a library that is its header and a row of playlists none of which has the name, with the file
-- below 4 GiB, if the kernel extends the file and then maps it at another address than before,
-- mlib_start_playlist is a fault: it stores through the address that it took in the old mapping.
pub start_playlist_moved :
    (os : Os) {l : Library} {pls : List Playlist} (v : IsLib l pls) (name : Text) (base : ℕ)
    → locate name pls 1024 ≡ none
    → l.size + 272 < 2 ^ 32
    → os.extends (l.size + 272) ≡ true
    → os.mmap l.base (l.size + 272) ≡ some base
    → base ≢ l.base
    → start_playlist os name l ≡ none
unfolding start_playlist new_playlist_addr
start_playlist_moved os {l} v name base missing small ext map moved =
    let fits : u32 (l.size + 144 + 128) ≡ l.size + 272 = omega arith in
    rw (find_playlist-locate v name, missing, lib_len_ok v.library)
      (rw
        (
          zero-add,
          lib_len_ok v.library,
          fits,
          library_expand-grown os v.library (l.size + 272) (omega (arith)) small ext map,
        )
        (rw
          (set_up_elsewhere (record { base = l.base; off = l.size }) name
            (grown base (l.size + 272) l) (λ e. moved (sym e)))
          refl))
