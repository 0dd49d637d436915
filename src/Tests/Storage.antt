-- ===== src/Tests/Storage.antt =====
-- The theorems on libraries, playlists and buckets, at the library of Samples.
use mathlib.Core.List.{Permᴰ}
use mathlib.Core.Option
use mlib.Prelude.{
  ◌≤◌, ℕ, ◌+◌, ◌≡◌, refl, false, Option, none, some, List, [], ◌∷◌, arith, replicate, zero, suc,
}
use mlib.Memory.{Library, Ptr, plus, ok, failed}
use mlib.Text.{Text, strncmp}
use mlib.Text.Stored.{IsCString}
use mlib.Space.{Os, library_insert_space, library_excise}
use mlib.Space.Grow.{spaced, library_insert_space_lem}
use mlib.Space.Shrink.{closed, library_excise-closed, excise-insert_space}
use mlib.Bucket.{Entry, bucket_contains, bucket_add, make_room}
use mlib.Bucket.Holds.{IsSorted}
use mlib.Bucket.Room.{Widened, Grants}
use mlib.Bucket.Loop.{at, Suffices, make_room-Suffices}
use mlib.Bucket.Search.{Finds, bucket_contains-Finds}
use mlib.Bucket.Add.{Absent, Added, bucket_at, bucket_add-Added, bucket_add-duplicate}
use mlib.Playlist.{global_name, find_playlist, delete_playlist, add_path_to_plist, start_playlist}
use mlib.Playlist.Holds.{SameHeader, IsLib}
use mlib.Playlist.Find.{locate, to_ptr, find_playlist-locate}
use mlib.Playlist.Add.{with_entry, add_path_to_plist-with_entry}
use mlib.Playlist.Stale.{Rises, add_path_to_plist_moved}
use mlib.Playlist.Start.{start_playlist_moved}
use mlib.Playlist.Begin.{empty_playlist, start_playlist-empty_playlist}
use mlib.Playlist.Split.{removed}
use mlib.Playlist.Delete.{delete_playlist-removed}
use mlib.Samples.{kernel, kernel-Grants}
use mlib.Samples.Standard.{libc, libc-IsLibc}
use mlib.Samples.Stored.{
  path_a, entries_a, global, stored, stored-IsLibrary, stored-InPlaylist, stored-IsLib,
}

abbrev path_b : Text
path_b = b'b' ∷ []

entries_a-IsSorted : IsSorted entries_a
entries_a-IsSorted = (tt, tt)

b-Absent : Absent path_b entries_a
b-Absent = (λ e. ground arith, tt)

b-IsCString : IsCString path_b
b-IsCString = ((omega arith, omega arith), tt)

bucket_add-Added_example :
    (l' : Library) × (g : ℕ) × (es' : List Entry) × (bucket_add kernel libc
        (at stored 1024)
        path_b
        stored
      ≡ some (ok, l'))
    × Added kernel stored l' 1024 272 2 124 128 entries_a path_b g es'
bucket_add-Added_example =
    bucket_add-Added kernel libc-IsLibc stored-InPlaylist entries_a-IsSorted path_b kernel-Grants
      b-IsCString b-Absent (omega arith)

add_path_to_plist-with_entry_example :
    (l' : Library) × (g : ℕ) × (es : List Entry) × (add_path_to_plist kernel libc
        (to_ptr stored 1024)
        path_b
        stored
      ≡ some (ok, l'))
    × IsLib l' (with_entry global path_b g es ∷ [])
    × Permᴰ es (record { index = 2; text = path_b } ∷ entries_a)
    × (l'.size ≡ 1296 + g)
    × (g ≤ 134)
    × SameHeader stored l'
    × (l'.base ≡ 7)
add_path_to_plist-with_entry_example =
    add_path_to_plist-with_entry kernel kernel-Grants libc-IsLibc (λ len. refl) stored-IsLibrary []
      global [] 1024 refl (stored-IsLib.chain.0) refl path_b b-IsCString b-Absent (omega arith)
      (omega arith)

bucket_add-duplicate_example :
    bucket_add kernel libc (at stored 1024) path_a stored ≡ some (failed, stored)
bucket_add-duplicate_example =
    bucket_add-duplicate kernel libc-IsLibc stored-InPlaylist entries_a-IsSorted path_a 0
      (record { index = 0; text = path_a }) refl refl

bucket_contains-Finds_example :
    (r : Option Ptr) × (bucket_contains libc (at stored 1024) path_a stored ≡ some (r, stored))
    × Finds (plus (at stored 1024) 124) entries_a path_a r
bucket_contains-Finds_example =
    bucket_contains-Finds libc-IsLibc (bucket_at stored-InPlaylist) entries_a-IsSorted path_a

make_room-Suffices_example :
    (g : ℕ) × (l' : Library) × (make_room kernel 4 (at stored 1024) 300 stored
      ≡ some (some (at l' 1024), l'))
    × Widened kernel stored l' 1024 272 2 124 128 entries_a g
    × Suffices 2 124 300 g
make_room-Suffices_example =
    make_room-Suffices kernel kernel-Grants 300 3 stored-InPlaylist (omega arith) (omega arith)

find_playlist-locate_example :
    find_playlist global_name stored
    ≡ some (Option.map (to_ptr stored) (locate global_name (global ∷ []) 1024), stored)
find_playlist-locate_example = find_playlist-locate stored-IsLib global_name

found_global : locate global_name (global ∷ []) 1024 ≡ some 1024
unfolding locate strncmp
found_global = refl

delete_playlist-removed_example :
    (l' : Library) × ((delete_playlist kernel global_name stored ≡ some (ok, l'))
      × IsLib l' (removed global_name (global ∷ []))
      × (l'.size ≤ 1296)
      × SameHeader stored l'
      × (l'.base ≡ 7))
delete_playlist-removed_example =
    delete_playlist-removed kernel stored-IsLib global_name 1024 found_global (λ n. refl)

missing_b : locate path_b (global ∷ []) 1024 ≡ none
unfolding locate strncmp
missing_b = refl

library_insert_space_lem_example :
    library_insert_space kernel 1200 16 stored ≡ some (ok, spaced 7 1200 16 stored)
library_insert_space_lem_example =
    library_insert_space_lem kernel stored-IsLibrary 1200 16 (omega arith) (omega arith)
      (omega arith) (omega arith) refl refl

library_excise-closed_example :
    library_excise kernel (record { base = 7; off = 1100 }) (record { base = 7; off = 1110 }) stored
    ≡ some (ok, closed 1100 10 stored)
library_excise-closed_example =
    library_excise-closed kernel stored-IsLibrary 1100 10 (omega arith) (omega arith) refl

excise-insert_space_example :
    (m : Library) × (library_insert_space kernel 1100 10 stored ≡ some (ok, m))
    × (m.base ≡ 7)
    × (library_excise kernel (record { base = 7; off = 1100 }) (record { base = 7; off = 1110 }) m
        ≡ some (ok, record stored { base = 7; mapped = 1306 }))
excise-insert_space_example =
    excise-insert_space kernel stored-IsLibrary 1100 10 (omega arith) (omega arith) (omega arith)
      (omega arith) refl refl refl

-- A kernel that does not extend files.
abbrev full_disk : Os
full_disk = record kernel { extends = λ len. false }

-- A kernel that maps a file elsewhere each time.
abbrev moving : Os
moving = record kernel { mmap = λ hint len. some (hint + 1) }

start_playlist_moved_example : start_playlist moving path_b stored ≡ none
start_playlist_moved_example =
    start_playlist_moved moving stored-IsLib path_b 8 missing_b (omega arith) refl refl
      (λ e. ground arith)

moving-Grants : Grants moving
moving-Grants = record { extends = λ len. refl; mmap = λ hint len. (hint + 1, refl) }

moving-Rises : Rises moving
moving-Rises hint len base e = ground arith

-- A path of 110 characters.
abbrev long : Text
long = replicate 110 b'b'

replicate-IsCString : (n : ℕ) → IsCString (replicate n b'b')
replicate-IsCString zero = tt
replicate-IsCString (suc n) = ((omega arith, omega arith), replicate-IsCString n)

long-Absent : Absent long entries_a
long-Absent = (λ e. ground arith, tt)

add_path_to_plist_moved_example :
    add_path_to_plist moving libc (to_ptr stored 1024) long stored ≡ none
add_path_to_plist_moved_example =
    add_path_to_plist_moved moving moving-Grants moving-Rises libc-IsLibc global 1024
      stored-IsLib.chain.0 long (replicate-IsCString 110) long-Absent (omega arith) (omega arith)

start_playlist-empty_playlist_example :
    (l' : Library) × ((start_playlist kernel path_b stored ≡ some (ok, l'))
      × IsLib l' (global ∷ empty_playlist path_b ∷ [])
      × (l'.size ≡ 1568)
      × SameHeader stored l'
      × (l'.base ≡ 7))
start_playlist-empty_playlist_example =
    start_playlist-empty_playlist kernel stored-IsLib path_b missing_b b-IsCString (omega arith)
      (omega arith) refl refl refl
