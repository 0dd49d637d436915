-- ===== src/Regress/Paths.antt =====
-- The test that adds a path.
use mlib.Prelude.{ℕ, ◌+◌, ◌<◌, ◌^◌, ◌≡◌, refl, ap, sym, ◌∙◌, inl, inr, true, some, List, arith}
use mlib.Memory.{Library, Ptr, ok, failed}
use mlib.Text.{strcmp, is_eq}
use mlib.Text.Order.{strcmp_self}
use mlib.Space.{Os}
use mlib.Bucket.{Libc}
use mlib.Bucket.Standard.{IsLibc}
use mlib.Playlist.{global_name, find_path}
use mlib.Playlist.Holds.{Playlist}
use mlib.Playlist.Find.{locate, to_ptr, find_playlist-locate}
use mlib.Playlist.Split.{split}
use mlib.Store.{exists, put, add}
use mlib.Store.View.{view, exists-locate}
use mlib.Store.Steps.{Good, Obliges, shorts, put_lacking}
use mlib.Store.Adds.{add-Answers}
use mlib.Store.Lookup.{found_path, exists-put, put_again}
use mlib.Regress.{test_path, verify_add_to_plist}

-- A path is found in a playlist that does not take it again.
find_refused :
    {os : Os} (o : Obliges os) {c : Libc} (std : IsLibc c) {l : Library} {pls : List Playlist}
    (g : Good l pls) (q : ℕ)
    → locate global_name pls 1024 ≡ some q
    → put global_name test_path (view pls) ≡ (failed, view pls)
    → l.size + 211 < 2 ^ 32
    → (a : Ptr) × (find_path c (to_ptr l q) test_path l ≡ some (some a, l))
find_refused o std {l} {pls} g q f refused small =
    let s = split l global_name 1024 q l.size pls g.lib.chain f in
    elim (found_path std g global_name test_path q s) [
      | inl (a, run, h) ↦ (a, run)
      | inr (run, h) ↦
          let more = put_lacking o std g global_name test_path (ground arith) (omega arith) s h in
          absurd (ground (arith, ap (λ x. x.0) (sym refused ∙ more)))
    ]

add_global : is_eq (strcmp global_name global_name) ≡ true
add_global = rw (strcmp_self global_name) refl

-- On a library that is its header and a row of playlists which count their paths, ".global" among
-- them, which does not have the test's path, with the file below 2^32 and a kernel that grants every
-- request and maps the file again where it was, the regression test of adding a path returns 0: the
-- path is added, ".global" is found, and the path is found in it. The library shows the path and what
-- it showed before.
pub verify_add_to_plist-passes :
    {os : Os} (o : Obliges os) {c : Libc} (std : IsLibc c) {l : Library} {pls : List Playlist}
    (g : Good l pls)
    → exists global_name (view pls) ≡ true
    → (put global_name test_path (view pls)).0 ≡ ok
    → l.size + 700 < 2 ^ 32
    → (l' : Library) × (pls' : List Playlist) × (verify_add_to_plist os c l ≡ some (ok, l'))
      × Good l' pls'
      × (view pls' ≡ (put global_name test_path (view pls)).1)
unfolding verify_add_to_plist add
verify_add_to_plist-passes o std {l} {pls} g there lacks small =
    let a = add-Answers o std g global_name test_path (ground arith) (omega arith) in
    let answer : add global_name test_path (view pls) ≡ put global_name test_path (view pls) =
      rw add_global refl in
    let shown = a.shows ∙ ap (λ x. x.1) answer in
    let here =
      ap (exists global_name) shown ∙ exists-put global_name global_name test_path _ ∙ there in
    let again = put_again global_name test_path (view pls) there in
    let added = a.run ∙ ap (λ x. some (x.0, a.left)) answer ∙ ap (λ x. some (x, a.left)) lacks in
    elim (exists-locate global_name a.playlists 1024 (shorts o std a.good)) [
      | inl (e, f) ↦ absurd (ground (arith, e))
      | inr (e, (q, f)) ↦
          let (p, found) =
            find_refused o std a.good q f (rw shown again) (omega (arith, a.grown)) in
          (
            a.left,
            a.playlists,
            rw (added, find_playlist-locate a.good.lib global_name, f, found) refl,
            a.good,
            shown,
          )
    ]
