-- ===== src/Samples/Stored.antt =====
-- A library with one playlist, ".global", that holds the one path "a".
use mlib.Prelude.{ℕ, ◌+◌, ◌≤◌, refl, List, [], ◌∷◌, arith}
use mlib.Bytes.{Bytes, readl, writel}
use mlib.Memory.{Library}
use mlib.Text.{Text}
use mlib.Space.Invariant.{IsLibrary}
use mlib.Space.Write.{written-IsLibrary}
use mlib.Bucket.{Entry}
use mlib.Bucket.Holds.{IsBucket}
use mlib.Bucket.Room.{InPlaylist}
use mlib.Playlist.{global_name}
use mlib.Playlist.Holds.{Playlist, IsLib}

abbrev pub path_a : Text
path_a = b'a' ∷ []

abbrev pub entries_a : List Entry
entries_a = record { index = 0; text = path_a } ∷ []

abbrev pub global : Playlist
global = record {
  name = global_name;
  mcount = 1;
  plen = 272;
  used = 2;
  offs = 124;
  len = 128;
  entries = entries_a;
}

-- The words of the file that are not zero.
abbrev words : List (ℕ × ℕ)
words =
    (1168, 0x61000000)
    ∷ (1164, 2)
    ∷ (1160, 124)
    ∷ (1156, 128)
    ∷ (1152, 0x12344321)
    ∷ (1040, 0x62616c00)
    ∷ (1036, 0x2e676c6f)
    ∷ (1032, 1)
    ∷ (1028, 272)
    ∷ (1024, 0x10202010)
    ∷ []

abbrev write_all : List (ℕ × ℕ) → Bytes
write_all [] = writel (λ x. 0) 8 1296
write_all ((a, w) ∷ ws) = writel (write_all ws) a w

abbrev with_bytes : Bytes → Library
with_bytes m = record { base = 7; mapped = 1296; size = 1296; bytes = m }

abbrev pub stored : Library
stored = with_bytes (write_all words)

empty-IsLibrary : IsLibrary (with_bytes (write_all []))
unfolding readl writel
empty-IsLibrary = record {
  length_field = refl;
  in_map = omega arith;
  has_header = omega arith;
  small = omega arith;
  zero_past = λ x h. ground arith;
  are_bytes = λ x. ground arith;
}

abbrev InFile : List (ℕ × ℕ) → Type 0
InFile [] = Unit
InFile ((a, w) ∷ ws) = (12 ≤ a) × (a + 4 ≤ 1296) × InFile ws

write_all-IsLibrary : (ws : List (ℕ × ℕ)) → InFile ws → IsLibrary (with_bytes (write_all ws))
write_all-IsLibrary [] h = empty-IsLibrary
write_all-IsLibrary ((a, w) ∷ ws) h = written-IsLibrary a w (write_all-IsLibrary ws h.2) h.0 h.1

pub stored-IsLibrary : IsLibrary stored
stored-IsLibrary = write_all-IsLibrary words ground_words
  where
    ground_words : InFile words
    ground_words = ground arith

pub stored-IsBucket : IsBucket stored 1152 2 124 128 entries_a
unfolding readl writel
stored-IsBucket = record {
  magic = refl;
  length_field = refl;
  offs_field = refl;
  bytes_field = refl;
  room = omega arith;
  indexes_fit = refl;
  inside = omega arith;
  indexes = (refl, tt);
  texts = ((omega arith, (refl, omega arith, refl)), tt);
}

pub stored-InPlaylist : InPlaylist stored 1024 272 2 124 128 entries_a
unfolding readl writel
stored-InPlaylist = record {
  library = stored-IsLibrary;
  behind_header = omega arith;
  plist_field = refl;
  inside = omega arith;
  around = omega arith;
  holds = stored-IsBucket;
}

pub stored-IsLib : IsLib stored (global ∷ [])
unfolding readl writel
stored-IsLib = record {
  library = stored-IsLibrary;
  chain = (
    record {
      magic = refl;
      mcount_field = refl;
      named = (
        refl,
        omega arith,
        (
          refl,
          omega arith,
          (
            refl,
            omega arith,
            (
              refl,
              omega arith,
              (refl, omega arith, (refl, omega arith, (refl, omega arith, refl))),
            ),
          ),
        ),
      );
      short = omega arith;
      bucket = stored-InPlaylist;
      sorted = (tt, tt);
    },
    refl,
  );
}
