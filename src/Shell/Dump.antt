-- ===== src/Shell/Dump.antt =====
-- What bucket_dump prints of a playlist.
use mlib.Prelude.{◌+◌, ◌*◌, ◌≡◌, ◌⊎◌, refl, inl, inr, none, some, List, [], ◌∷◌, ◌++◌, length}
use mlib.Memory.{Library, ok, failed}
use mlib.Text.{Text}
use mlib.Bucket.Add.{bucket_at}
use mlib.Bucket.Dump.{Info, print_bucket_info-entries}
use mlib.Playlist.Holds.{Playlist, IsLib}
use mlib.Playlist.Find.{find_playlist-locate}
use mlib.Catalog.{Place, find_library}
use mlib.Shell.{Printed, print_bucket, bucket_dump}
use mlib.Shell.Lines.{first_named, first_named-cases, print_library_ok}

-- A print of this playlist's bucket.
pub record Describes (pl : Playlist) (info : Info) : Type 0 where
  pub all : info.lines ≡ pl.entries
  pub used : info.str_bytes ≡ pl.used
  pub whole : info.len ≡ pl.len
  pub free : 16 + pl.used + info.free_space + 4 * length pl.entries ≡ pl.len

print_bucket-Describes :
    {l : Library} {pls : List Playlist} (v : IsLib l pls) (name : Text)
    → ((first_named name pls ≡ none) × (print_bucket name l ≡ some ((failed, Printed.nothing), l)))
      ⊎ ((pl : Playlist) × (info : Info) × (first_named name pls ≡ some pl)
          × Describes pl info
          × (print_bucket name l ≡ some ((ok, Printed.bucket info), l)))
unfolding print_bucket
print_bucket-Describes {l} {pls} v name = elim (first_named-cases l name 1024 l.size pls v.chain) [
  | inl (f, s) ↦ inl (s, rw (find_playlist-locate v name, f) refl)
  | inr (q, pl, f, s, h) ↦
      let (info, run, all, used, whole, free) = print_bucket_info-entries (bucket_at h.bucket) in
      inr (
        pl,
        info,
        s,
        record { all = all; used = used; whole = whole; free = free },
        rw (find_playlist-locate v name, f, run) refl,
      )
]

-- In a library that is its header and a row of playlists, bucket_dump with the library's name and a
-- playlist's name returns without a fault and changes nothing. Where there is a playlist of that name
-- it returns 0 and shows the first one's bucket: every index with its string, in the order of the
-- index array, and as free space what the header, the strings and the indexes leave of the bucket.
-- Where there is none it shows nothing and returns 1.
pub bucket_dump-Describes :
    (lib name : Text) (libs : List Library) (place : Place) {pls : List Playlist}
    → find_library lib libs ≡ some (some place)
    → IsLib place.lib pls
    → ((first_named name pls ≡ none)
        × (bucket_dump (lib ∷ name ∷ []) libs
            ≡ some (failed, Printed.nothing, place.before ++ place.lib ∷ place.after)))
      ⊎ ((pl : Playlist) × (info : Info) × (first_named name pls ≡ some pl)
          × Describes pl info
          × (bucket_dump (lib ∷ name ∷ []) libs
              ≡ some (ok, Printed.bucket info, place.before ++ place.lib ∷ place.after)))
unfolding bucket_dump
bucket_dump-Describes lib name libs place found v = elim (print_bucket-Describes v name) [
  | inl (absent, run) ↦ inl (
    absent,
    print_library_ok lib libs place (print_bucket name) (failed, Printed.nothing) found run,
  )
  | inr (pl, info, named, describes, run) ↦ inr (
    pl,
    info,
    named,
    describes,
    print_library_ok lib libs place (print_bucket name) (ok, Printed.bucket info) found run,
  )
]
