-- ===== src/Playlist/Begin.antt =====
-- `mlib_start_playlist`, where the mapping stays.
use native.Mathlib.Nat.{zero-add}
use mlib.Prelude.{
  ℕ, ◌+◌, ◌≤◌, ◌<◌, ◌^◌, ◌≡◌, inr, refl, true, none, some, List, [], ◌∷◌, ◌++◌, length, arith,
}
use mlib.Memory.{Library, Ptr, u32, ok}
use mlib.Memory.Laws.{store32_ok, memcpy_ok}
use mlib.Text.{Text}
use mlib.Text.Stored.{IsCString}
use mlib.Space.{Os, sync_library}
use mlib.Space.Invariant.{IsLibrary}
use mlib.Space.Grow.{grown, lib_len_ok, library_expand-grown}
use mlib.Bucket.{bucket_magic_val, init_bucket}
use mlib.Playlist.{plist_hdr_magic, new_playlist_addr, set_up_playlist, start_playlist}
use mlib.Playlist.Holds.{SameHeader, Playlist, HoldsAt, Run, Run-copy, Run-append, IsLib}
use mlib.Playlist.NameField.{field, name_field-field, length-field}
use mlib.Playlist.Find.{locate, find_playlist-locate}
use mlib.Playlist.Started.{
  with_bytes, m0, m1, m2, m3, m4, m5, m6, m7, started, started-IsLibrary, old_bytes, named,
  magic_field, plen_field, count_field, started-IsBucket,
}

-- A playlist without a path.
abbrev pub empty_playlist : Text → Playlist
empty_playlist name = record {
  name = name;
  mcount = 0;
  plen = 272;
  used = 0;
  offs = 128;
  len = 128;
  entries = [];
}

module _ (os : Os) {l : Library} (v : IsLibrary l) (name : Text) (cs : IsCString name)
    (short : length name ≤ 115) (small : l.size + 272 < 2 ^ 32) where
  started-HoldsAt : HoldsAt (started os v name cs short small) l.size (empty_playlist name)
  unfolding started with_bytes
  started-HoldsAt = record {
    magic = magic_field os v name cs short small;
    mcount_field = (count_field os v name cs short small);
    named = (named os v name cs short small);
    short = omega arith;
    sorted = tt;
    bucket = record {
      library = (started-IsLibrary os v name cs short small);
      behind_header = v.has_header;
      plist_field = (plen_field os v name cs short small);
      inside = omega arith;
      around = omega arith;
      holds = (started-IsBucket os v name cs short small);
    };
  }

  started-IsLib :
      (pls : List Playlist)
      → Run l 1024 pls l.size
      → IsLib (started os v name cs short small) (pls ++ empty_playlist name ∷ [])
  unfolding started with_bytes
  started-IsLib pls run = record {
    library = (started-IsLibrary os v name cs short small);
    chain =
        Run-append (started os v name cs short small) 1024 l.size (l.size + 272) pls
          (empty_playlist name ∷ [])
          (Run-copy l (started os v name cs short small) 1024 1024 l.size l.size pls run
            (λ i lt. old_bytes os v name cs short small (1024 + i) (inr (omega arith)) lt)
            (started-IsLibrary os v name cs short small) (omega arith) (omega arith) (omega arith))
          (started-HoldsAt, refl);
  }

  set_up_runs :
      set_up_playlist (record { base = l.base; off = l.size }) name (grown l.base (l.size + 272) l)
      ≡ some (ok, (started os v name cs short small))
  unfolding set_up_playlist init_bucket started with_bytes m0 m1 m2 m3 m4 m5 m6 m7
  set_up_runs =
      let at : ℕ → Ptr = λ o. record { base = l.base; off = o } in
      rw
        (
          name_field-field name short,
          memcpy_ok (grown l.base (l.size + 272) l) (at (l.size + 12)) (field name)
              (omega (arith, length-field name short)),
          store32_ok ((with_bytes os v name cs short small) (m0 os v name cs short small))
              (at l.size) plist_hdr_magic (omega arith),
          store32_ok ((with_bytes os v name cs short small) (m1 os v name cs short small))
              (at (l.size + 4)) 272 (omega arith),
          store32_ok ((with_bytes os v name cs short small) (m2 os v name cs short small))
              (at (l.size + 8)) 0 (omega arith),
          store32_ok ((with_bytes os v name cs short small) (m3 os v name cs short small))
              (at (l.size + 128)) bucket_magic_val (omega arith),
          store32_ok ((with_bytes os v name cs short small) (m4 os v name cs short small))
              (at (l.size + 128 + 4)) 128 (omega arith),
          store32_ok ((with_bytes os v name cs short small) (m5 os v name cs short small))
              (at (l.size + 128 + 8)) 128 (omega arith),
          store32_ok ((with_bytes os v name cs short small) (m6 os v name cs short small))
              (at (l.size + 128 + 12)) 0 (omega arith),
        )
        refl

-- In a library that is its header and a row of playlists none of which has the name, a C string of
-- at most 115 bytes, with the file below 4 GiB, if the kernel extends the file, maps it again where
-- it was, and `msync` succeeds, mlib_start_playlist returns 0 without a fault, and the library is
-- its header, the same playlists in the same order, and behind them a playlist of that name that is
-- empty and well formed; the file has grown by 272 bytes, and the header's name and prefix and the
-- library's address are as they were.
pub start_playlist-empty_playlist :
    (os : Os) {l : Library} {pls : List Playlist} (v : IsLib l pls) (name : Text)
    → locate name pls 1024 ≡ none
    → IsCString name
    → length name ≤ 115
    → l.size + 272 < 2 ^ 32
    → os.extends (l.size + 272) ≡ true
    → os.mmap l.base (l.size + 272) ≡ some l.base
    → os.msync ≡ true
    → (l' : Library) × ((start_playlist os name l ≡ some (ok, l'))
        × IsLib l' (pls ++ empty_playlist name ∷ [])
        × (l'.size ≡ l.size + 272)
        × SameHeader l l'
        × (l'.base ≡ l.base))
unfolding start_playlist new_playlist_addr sync_library started with_bytes
start_playlist-empty_playlist os {l} {pls} v name missing cs short small ext map synced =
    let fits : u32 (l.size + 144 + 128) ≡ l.size + 272 = omega arith in
    (
      started os v.library name cs short small,
      (
        rw (find_playlist-locate v name, missing, lib_len_ok v.library)
            (rw
              (
                zero-add,
                lib_len_ok v.library,
                fits,
                library_expand-grown os v.library (l.size + 272) (omega arith) small ext map,
              )
              (rw (set_up_runs os v.library name cs short small, synced) refl)),
        started-IsLib os v.library name cs short small pls v.chain,
        refl,
        λ x lo hi.
            old_bytes os v.library name cs short small x lo (omega (arith, v.library.has_header)),
        refl,
      ),
    )
