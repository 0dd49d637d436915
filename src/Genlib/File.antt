-- ===== src/Genlib/File.antt =====
-- What the generator does with one file.
use mathlib.Core.Path.{subst}
use mlib.Prelude.{
  ℕ, ◌+◌, ◌*◌, ◌<◌, ◌^◌, ◌≡◌, refl, ◌∙◌, ap, inl, inr, true, false, Option, some, List, All, length,
  arith,
}
use mlib.Memory.{Library, Ptr, M, ok}
use mlib.Text.{Text, strcmp, is_eq}
use mlib.Text.Order.{strcmp_self}
use mlib.Text.Stored.{IsText-copy, IsCString, load_text-IsText}
use mlib.Space.{Os}
use mlib.Bucket.{Libc}
use mlib.Bucket.Loop.{at}
use mlib.Bucket.Standard.{IsLibc}
use mlib.Playlist.{global_name, add_path}
use mlib.Playlist.Holds.{SameHeader, Playlist}
use mlib.Playlist.Find.{locate, to_ptr, find_playlist-locate}
use mlib.Playlist.Split.{Split, split}
use mlib.Catalog.{lib_prefix}
use mlib.Store.View.{view, exists-locate}
use mlib.Store.Steps.{Good, Obliges, put_held, put_lacking, shorts}
use mlib.Store.Adds.{add-Answers}
use mlib.Store.{exists, put, add}
use mlib.Store.Lookup.{found_path, exists-put}
use mlib.Genlib.{Search, add_file, drop_prefix, is_wanted, with_global}
use mlib.Genlib.Gather.{wanted, put_all, room_for}
use mlib.Genlib.Ready.{Ready, Gathers, wanted-cases}

module _ {os : Os} (o : Obliges os) {c : Libc} (std : IsLibc c) (custom_list : Option (List Text))
    {prefix : Text} {l : Library} {pls : List Playlist} (r : Ready prefix l pls) where
  lib_prefix_ok : lib_prefix l ≡ some (prefix, l)
  unfolding lib_prefix
  lib_prefix_ok =
      load_text-IsText l _ prefix refl r.named
        (omega (arith, r.good.lib.library.has_header, r.fits)) r.good.lib.library.in_map

  pub global_at : (q : ℕ) × (locate global_name pls 1024 ≡ some q)
  global_at = elim (exists-locate global_name pls 1024 (shorts o std r.good)) [
    | inl (e, f) ↦ cc
    | inr (e, at) ↦ at
  ]

  pub with_global_at :
      (q : ℕ)
      → locate global_name pls 1024 ≡ some q
      → (work : Ptr → M Search) → with_global os c custom_list work l ≡ work (to_ptr l q) l
  unfolding with_global
  with_global_at q f work = rw (find_playlist-locate r.good.lib global_name, f) refl

  add_Ready :
      {l' : Library} {pls' : List Playlist}
      → Good l' pls'
      → SameHeader l l'
      → exists global_name (view pls') ≡ true
      → Ready prefix l' pls'
  add_Ready {l'} good same there = record {
    good = good;
    global = there;
    named =
        IsText-copy l.bytes l'.bytes 128 128 prefix
          (λ i le. same (128 + i) (inr (omega arith)) (omega (arith, r.fits))) r.named;
    fits = r.fits;
  }

  -- A file whose path below the prefix is `elem`.
  module _ (new_name elem : Text) (q : ℕ) (f : locate global_name pls 1024 ≡ some q)
      (below : drop_prefix new_name prefix ≡ some elem) where
    abbrev s : Split l global_name 1024 q l.size pls
    s = split l global_name 1024 q l.size pls r.good.lib.chain f

    same_global : is_eq (strcmp global_name global_name) ≡ true
    same_global = rw (strcmp_self global_name) refl

    unwanted_file :
        is_wanted custom_list elem ≡ some false
        → Gathers prefix (add_file os c custom_list (to_ptr l q) new_name) l ok (view pls) 0
    unfolding add_file
    unwanted_file no_match = record {
      left = l;
      playlists = pls;
      run = elim (found_path std r.good global_name elem q s) [
        | inl (a, run, h) ↦ rw (lib_prefix_ok, below, run) refl
        | inr (run, h) ↦ rw (lib_prefix_ok, below, run, no_match) refl
      ];
      ready = r;
      shows = refl;
      grown = omega arith;
    }

    wanted_file :
        IsCString elem
        → l.size + 2 * length elem + 400 < 2 ^ 32
        → is_wanted custom_list elem ≡ some true
        → Gathers prefix
            (add_file os c custom_list (to_ptr l q) new_name)
            l
            ok
            (put global_name elem (view pls)).1
            (2 * length elem + 400)
    unfolding add_file add
    wanted_file cs small match = elim (found_path std r.good global_name elem q s) [
      | inl (a, run, h) ↦
          let kept = put_held o std r.good global_name elem cs (omega arith) s h in
          record {
            left = l;
            playlists = pls;
            run = rw (lib_prefix_ok, below, run) refl;
            ready = r;
            shows = rw kept refl;
            grown = omega arith;
          }
      | inr (run, h) ↦
          let more = put_lacking o std r.good global_name elem cs (omega arith) s h in
          let a = add-Answers o std r.good global_name elem cs small in
          let answer : add global_name elem (view pls) ≡ put global_name elem (view pls) =
            rw same_global refl in
          let added : add_path os c global_name elem l ≡ some (ok, a.left) =
            a.run ∙ ap (λ x. some (x.0, a.left)) (answer ∙ more) in
          record {
            left = a.left;
            playlists = a.playlists;
            run = rw (lib_prefix_ok, below, run, match, added) refl;
            ready = add_Ready a.good a.header (
                ap (exists global_name) (a.shows ∙ ap (λ x. x.1) answer)
                ∙ exists-put global_name global_name elem (view pls)
                ∙ r.global);
            shows = a.shows ∙ ap (λ x. x.1) answer;
            grown = a.grown;
          }
    ]

  -- A file in the first pass, whatever it is.
  pub file-Gathers :
      (new_name : Text) (elems : List Text)
      → wanted custom_list prefix new_name ≡ some elems
      → All IsCString elems
      → l.size + room_for elems < 2 ^ 32
      → Gathers prefix
          (with_global os c custom_list (λ p. add_file os c custom_list p new_name))
          l
          ok
          (put_all elems (view pls))
          (room_for elems)
  unfolding put_all
  file-Gathers new_name elems e cs small =
      let (q, f) = global_at in
      elim (wanted-cases custom_list prefix new_name elems e) [
        | inl (elem, b, match, one) ↦
            let cs' : IsCString elem = (subst (All IsCString) one cs).0 in
            let small' : l.size + (2 * length elem + 400 + 0) < 2 ^ 32 =
              subst (λ xs. l.size + room_for xs < 2 ^ 32) one small in
            let g = wanted_file new_name elem q f b cs' (omega arith) match in
            rw one (record {
              left = g.left;
              playlists = g.playlists;
              run = with_global_at q f (λ p. add_file os c custom_list p new_name) ∙ g.run;
              ready = g.ready;
              shows = g.shows;
              grown = omega (arith, g.grown);
            })
        | inr (elem, b, no_match, empty) ↦
            let g = unwanted_file new_name elem q f b no_match in
            rw empty (record {
              left = g.left;
              playlists = g.playlists;
              run = with_global_at q f (λ p. add_file os c custom_list p new_name) ∙ g.run;
              ready = g.ready;
              shows = g.shows;
              grown = omega (arith, g.grown);
            })
      ]
