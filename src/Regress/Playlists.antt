-- ===== src/Regress/Playlists.antt =====
-- The test that starts and deletes a playlist.
use mlib.Prelude.{
  ◌+◌, ◌<◌, ◌^◌, ◌≡◌, refl, ap, ◌∙◌, inl, inr, true, false, none, some, List, [], ◌∷◌, ◌++◌, arith,
}
use mlib.Memory.{Library, Ptr, ok}
use mlib.Text.{Text}
use mlib.Text.Order.{strcmp_self}
use mlib.Space.{Os}
use mlib.Bucket.{Libc}
use mlib.Bucket.Standard.{IsLibc}
use mlib.Playlist.Holds.{Playlist}
use mlib.Playlist.{find_playlist, start_playlist, delete_playlist}
use mlib.Store.Bag.{of_list}
use mlib.Playlist.Find.{to_ptr, find_playlist-locate}
use mlib.Store.View.{view, exists-locate}
use mlib.Store.Steps.{Good, Obliges, shorts, start-Answers, delete-Answers}
use mlib.Store.{Store, Listing, called, exists, start, delete}
use mlib.Regress.{test_pls, verify_mk_rm_pls}

exists-append :
    (name : Text) (s : Store) (x : Listing)
    → called name x ≡ true
    → exists name (s ++ x ∷ []) ≡ true
unfolding exists
exists-append name [] x h = ground arith
exists-append name (y ∷ s) x h = ground (arith, exists-append name s x h)

delete-append :
    (name : Text) (s : Store) (x : Listing)
    → exists name s ≡ false
    → called name x ≡ true
    → delete name (s ++ x ∷ []) ≡ (ok, s)
unfolding exists delete
delete-append name [] x none_there h = ground arith
delete-append name (y ∷ s) x none_there h = ground (arith, delete-append name s x)

-- A playlist that is started where none has its name can be found, and deleting it leaves the store
-- as it was.
delete-start :
    (name : Text) (s : Store)
    → exists name s ≡ false
    → ((start name s).0 ≡ ok)
      × (exists name (start name s).1 ≡ true)
      × (delete name (start name s).1 ≡ (ok, s))
unfolding start
delete-start name s absent =
    let new : Listing = record { name = name; paths = of_list [] } in
    let named : called name new ≡ true = rw (strcmp_self name) refl in
    rw absent (refl, exists-append name s new named, delete-append name s new absent named)

found :
    {os : Os} (o : Obliges os) {c : Libc} (std : IsLibc c) {l : Library} {pls : List Playlist}
    (g : Good l pls) (name : Text)
    → exists name (view pls) ≡ true
    → (p : Ptr) × (find_playlist name l ≡ some (some p, l))
found o std {l} {pls} g name there = elim (exists-locate name pls 1024 (shorts o std g)) [
  | inl (e, f) ↦ absurd (ground (arith, e))
  | inr (e, (q, f)) ↦ (to_ptr l q, rw (find_playlist-locate g.lib name, f) refl)
]

not_found :
    {os : Os} (o : Obliges os) {c : Libc} (std : IsLibc c) {l : Library} {pls : List Playlist}
    (g : Good l pls) (name : Text)
    → exists name (view pls) ≡ false
    → find_playlist name l ≡ some (none, l)
not_found o std {l} {pls} g name absent = elim (exists-locate name pls 1024 (shorts o std g)) [
  | inl (e, f) ↦ rw (find_playlist-locate g.lib name, f) refl
  | inr (e, (q, f)) ↦ absurd (ground (arith, e))
]

runs :
    {os : Os} (o : Obliges os) {c : Libc} (std : IsLibc c) (l m n : Library) {ms ns : List Playlist}
    (h : Good m ms) (k : Good n ns)
    → start_playlist os test_pls l ≡ some (ok, m)
    → exists test_pls (view ms) ≡ true
    → delete_playlist os test_pls m ≡ some (ok, n)
    → exists test_pls (view ns) ≡ false
    → verify_mk_rm_pls os l ≡ some (ok, n)
unfolding verify_mk_rm_pls
runs o std l m n h k starts there deletes absent =
    let (p, at) = found o std h test_pls there in
    rw (starts, at, deletes, not_found o std k test_pls absent) refl

-- On a library that is its header and a row of playlists which count their paths, none of them of the
-- test's name, with the file below 2^32 and a kernel that grants every request and maps the file
-- again where it was, the regression test of starting and deleting a playlist returns 0: the
-- playlist is started and found, deleted and not found any more. The library shows the playlists that
-- it showed before.
pub verify_mk_rm_pls-passes :
    {os : Os} (o : Obliges os) {c : Libc} (std : IsLibc c) {l : Library} {pls : List Playlist}
    (g : Good l pls)
    → exists test_pls (view pls) ≡ false
    → l.size + 272 < 2 ^ 32
    → (l' : Library) × (pls' : List Playlist) × (verify_mk_rm_pls os l ≡ some (ok, l'))
      × Good l' pls'
      × (view pls' ≡ view pls)
verify_mk_rm_pls-passes o std {l} {pls} g absent small =
    let (starts, there, deletes) = delete-start test_pls (view pls) absent in
    let a = start-Answers o std g test_pls (ground arith) (omega arith) small in
    let d = delete-Answers o std a.good test_pls in
    let same = ap (delete test_pls) a.shows ∙ deletes in
    let shown : view d.playlists ≡ view pls = d.shows ∙ ap (λ x. x.1) same in
    (
      d.left,
      d.playlists,
      runs o std l a.left d.left a.good d.good (a.run ∙ ap (λ x. some (x, a.left)) starts)
          (ap (exists test_pls) a.shows ∙ there) (d.run ∙ ap (λ x. some (x.0, d.left)) same)
          (ap (exists test_pls) shown ∙ absent),
      d.good,
      shown,
    )
