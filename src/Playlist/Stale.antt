-- ===== src/Playlist/Stale.antt =====
-- `mlib_add_path_to_plist`, where the mapping moves.
use mlib.Prelude.{ℕ, ◌+◌, ◌≤◌, ◌<◌, ◌^◌, ◌≡◌, ◌≢◌, refl, inl, inr, none, some, length, arith}
use mlib.Memory.{Library, Ptr, load32}
use mlib.Text.{Text}
use mlib.Text.Stored.{IsCString}
use mlib.Space.{Os}
use mlib.Space.Write.{load32_is}
use mlib.Bucket.{Libc}
use mlib.Bucket.Standard.{IsLibc}
use mlib.Bucket.Room.{InPlaylist-ordered, Moves, here, next, Remapped, by, Grants}
use mlib.Bucket.Add.{Absent, bucket_add-Added}
use mlib.Playlist.{add_path_to_plist}
use mlib.Playlist.Holds.{Playlist, HoldsAt}
use mlib.Playlist.Find.{to_ptr}

-- The kernel maps a file above where it was.
abbrev pub Rises : Os → Type 0
Rises os = (hint len base : ℕ) → os.mmap hint len ≡ some base → hint < base

Moves-le : {os : Os} {a b : ℕ} → Rises os → Moves os a b → a ≤ b
Moves-le rises here = omega arith
Moves-le rises (next {b} {c} len moves e) = omega (arith, rises b len c e, Moves-le rises moves)

Remapped-lt : {os : Os} {a b : ℕ} → Rises os → Remapped os a b → a < b
Remapped-lt rises (by {b} {c} len r e s) =
    omega (arith, rises b len c e, Moves-le rises r, Moves-le rises s)

load32_elsewhere : (p : Ptr) (l : Library) → p.base ≢ l.base → load32 p l ≡ none
unfolding load32
load32_elsewhere p l h = ground arith

-- If the bucket of a playlist in a well-formed library has no room for a C string that it does not
-- hold, and the kernel grants every extension but maps the file above where it was, adding the
-- string is a fault: the playlist's pointer is used again after the library has been mapped
-- elsewhere. The file stays below 2^32, and `qsort` and `bsearch` keep the C standard.
pub add_path_to_plist_moved :
    (os : Os) (grants : Grants os) (rises : Rises os) {c : Libc} (std : IsLibc c) {l : Library}
    (pl : Playlist) (p : ℕ) (held : HoldsAt l p pl) (str : Text)
    → IsCString str
    → Absent str pl.entries
    → pl.offs < 16 + pl.used + (length str + 1) + 4
    → l.size + length str + 200 < 2 ^ 32
    → add_path_to_plist os c (to_ptr l p) str l ≡ none
unfolding add_path_to_plist
add_path_to_plist_moved os grants rises std {l} pl p held str cs absent tight small =
    let (l1, g, es, run, a) =
      bucket_add-Added os std held.bucket held.sorted str grants cs absent small in
    let moved : l.base < l1.base = elim a.again [
      | inl none_yet ↦ absurd (omega (arith, a.bucket.holds.room))
      | inr r ↦ Remapped-lt rises r
    ] in
    rw
      (
        load32_is l (to_ptr l p) (omega (arith, InPlaylist-ordered held.bucket)) held.magic,
        run,
        load32_elsewhere (to_ptr l (p + 8)) l1 (λ e. omega arith),
      )
      refl
