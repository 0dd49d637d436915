-- ===== src/Store/Adds.antt =====
-- Adding a path, by `mlib_add_path_to_plist` and by `mlib_add_path`, against what a store answers.
use mlib.Prelude.{
  ℕ, ◌+◌, ◌*◌, ◌<◌, ◌^◌, ◌≡◌, refl, ◌∙◌, sym, inl, inr, Bool-cases, some, List, length, arith,
}
use mlib.Memory.{Library}
use mlib.Text.{Text, strcmp, is_eq}
use mlib.Text.Stored.{IsCString}
use mlib.Space.{Os}
use mlib.Bucket.{Libc}
use mlib.Bucket.Standard.{IsLibc}
use mlib.Playlist.{global_name, add_path_to_plist, add_to_named, add_path}
use mlib.Playlist.Holds.{Playlist}
use mlib.Playlist.Find.{locate, to_ptr, find_playlist-locate}
use mlib.Playlist.Split.{split}
use mlib.Store.View.{view, exists-locate, has-cases, put_absent}
use mlib.Store.Steps.{Good, Obliges, Answers, shorts, old_path, new_path}
use mlib.Store.{put, add}

module _ {os : Os} (o : Obliges os) {c : Libc} (std : IsLibc c) {l : Library} {pls : List Playlist}
    (g : Good l pls) (name path : Text) (cs : IsCString path)
    (small : l.size + length path + 200 < 2 ^ 32) where
  pub at-Answers :
      (q : ℕ)
      → locate name pls 1024 ≡ some q
      → Answers
          (add_path_to_plist os c (to_ptr l q) path)
          l
          (put name path (view pls))
          (length path + 133)
  at-Answers q f =
      let s = split l name 1024 q l.size pls g.lib.chain f in
      elim (has-cases path s.here.entries) [
        | inl (h, a) ↦ new_path o std g name path cs small s a h
        | inr (h, (i, e, at, same)) ↦
            let a = old_path o std g name path cs small s i e at same h in
            record {
              left = a.left;
              playlists = a.playlists;
              run = a.run;
              good = a.good;
              shows = a.shows;
              grown = omega (arith, a.grown);
              header = a.header;
            }
      ]

  pub put-Answers :
      Answers (add_to_named os c name path) l (put name path (view pls)) (length path + 133)
  unfolding add_to_named
  put-Answers = elim (exists-locate name pls 1024 (shorts o std g)) [
    | inl (e, f) ↦
        let absent = put_absent name path (view pls) e in
        record {
          left = l;
          playlists = pls;
          run = rw (absent, find_playlist-locate g.lib name, f) refl;
          good = g;
          shows = rw absent refl;
          grown = omega arith;
          header = λ x lo hi. refl;
        }
    | inr (e, (q, f)) ↦
        let a = at-Answers q f in
        record {
          left = a.left;
          playlists = a.playlists;
          run = rw (find_playlist-locate g.lib name, f) a.run;
          good = a.good;
          shows = a.shows;
          grown = a.grown;
          header = a.header;
        }
  ]

module _ {os : Os} (o : Obliges os) {c : Libc} (std : IsLibc c) {l : Library} {pls : List Playlist}
    (g : Good l pls) (name path : Text) (cs : IsCString path)
    (small : l.size + 2 * length path + 400 < 2 ^ 32) where
  pub add-Answers :
      Answers (add_path os c name path) l (add name path (view pls)) (2 * length path + 400)
  unfolding add_path add
  add-Answers = elim (Bool-cases (is_eq (strcmp name global_name))) [
    | inl same ↦
        let a = put-Answers o std g name path cs (omega arith) in
        record {
          left = a.left;
          playlists = a.playlists;
          run = rw same a.run;
          good = a.good;
          shows = rw same a.shows;
          grown = omega (arith, a.grown);
          header = a.header;
        }
    | inr other ↦ elim (exists-locate global_name pls 1024 (shorts o std g)) [
      | inl (e, f) ↦ record {
        left = l;
        playlists = pls;
        run = rw (other, e, find_playlist-locate g.lib global_name, f) refl;
        good = g;
        shows = rw (other, e) refl;
        grown = omega arith;
        header = λ x lo hi. refl;
      }
      | inr (e, (q, f)) ↦
          let a = at-Answers o std g global_name path cs (omega arith) q f in
          let b = put-Answers o std a.good name path cs (omega (arith, a.grown)) in
          record {
            left = b.left;
            playlists = b.playlists;
            run =
                rw (other, e, find_playlist-locate g.lib global_name, f, a.run, sym a.shows) b.run;
            good = b.good;
            shows = rw (other, e, sym a.shows) b.shows;
            grown = omega (arith, a.grown, b.grown);
            header = λ x lo hi. b.header x lo hi ∙ a.header x lo hi;
          }
    ]
  ]
