-- ===== src/Store/Steps.antt =====
-- Each operation of src/playlist.c against what a store answers.
use mathlib.Core.List.{Permᴰ}
use mathlib.Core.Quot
use mathlib.Core.Path.{subst}
use mlib.Prelude.{
  ℕ, ◌+◌, ◌≤◌, ◌<◌, ◌^◌, ◌≡◌, refl, ap, ◌∙◌, inl, inr, true, false, some, List, [], ◌∷◌, ◌++◌, All,
  length, get_elem?, arith,
}
use mlib.Memory.{ok, Library, M, Status, failed}
use mlib.Text.{Text}
use mlib.Text.Stored.{IsCString}
use mlib.Space.{Os}
use mlib.Bucket.{Entry, Libc}
use mlib.Bucket.Add.{Absent}
use mlib.Bucket.Standard.{IsLibc}
use mlib.Bucket.Room.{Grants}
use mlib.Playlist.{start_playlist, delete_playlist, add_path_to_plist}
use mlib.Playlist.Holds.{SameHeader, Playlist, IsLib}
use mlib.Playlist.Find.{to_ptr, find_playlist-locate}
use mlib.Playlist.Split.{removed, Split}
use mlib.Playlist.Begin.{empty_playlist, start_playlist-empty_playlist}
use mlib.Playlist.Delete.{delete_playlist_absent, delete_playlist-removed}
use mlib.Playlist.Add.{Stays, with_entry, add_path_to_plist-duplicate, add_path_to_plist-with_entry}
use mlib.Store.Bag.{has, with_path}
use mlib.Store.View.{
  listing, view, view-append, Short, Run-Short, exists-locate, delete-view, Permᴰ-SameTexts,
  Permᴰ-length, removed_absent, put_old, put_new, All-removed, All-append, All-split,
}
use mlib.Store.{Store, start, delete, put}

-- A playlist counts its paths.
abbrev pub Counted : Playlist → Type 0
Counted pl = pl.mcount ≡ length pl.entries

-- A library that is its header and these playlists, which count their paths, and is not mapped at NULL.
pub record Good (l : Library) (pls : List Playlist) : Type 0 where
  pub lib : IsLib l pls
  pub counted : All Counted pls
  pub placed : 1 ≤ l.base

-- A kernel that does what is asked, and maps a file again where it was.
pub record Obliges (os : Os) : Type 0 where
  pub grants : Grants os
  pub stays : Stays os
  pub truncates : (n : ℕ) → os.ftruncate n ≡ true
  pub syncs : os.msync ≡ true

-- The code runs on the library as the store answers, and the file grows by `n` bytes at most.
pub record Answers (m : M Status) (l : Library) (s : Status × Store) (n : ℕ) : Type 0 where
  pub left : Library
  pub playlists : List Playlist
  pub run : m l ≡ some (s.0, left)
  pub good : Good left playlists
  pub shows : view playlists ≡ s.1
  pub grown : left.size ≤ l.size + n
  pub header : SameHeader l left

module _ {os : Os} (o : Obliges os) {c : Libc} (std : IsLibc c) {l : Library} {pls : List Playlist}
    (g : Good l pls) where
  pub shorts : All Short pls
  shorts = Run-Short l 1024 l.size pls g.lib.chain

  pub start-Answers :
      (name : Text)
      → IsCString name
      → length name ≤ 115
      → l.size + 272 < 2 ^ 32
      → Answers (start_playlist os name) l (start name (view pls)) 272
  unfolding start start_playlist view
  start-Answers name cs short small = elim (exists-locate name pls 1024 shorts) [
    | inl (e, f) ↦
        let (l', (run, lib, size, same, base)) =
          start_playlist-empty_playlist os g.lib name f cs short small (o.grants.extends _)
            (o.stays l.base _ g.placed) o.syncs in
        record {
          left = l';
          playlists = pls ++ empty_playlist name ∷ [];
          run = rw e run;
          good = record {
            lib = lib;
            counted = All-append Counted pls (empty_playlist name ∷ []) g.counted (refl, tt);
            placed = omega (arith, g.placed);
          };
          shows = rw e (view-append pls (empty_playlist name ∷ []));
          grown = omega arith;
          header = same;
        }
    | inr (e, (q, f)) ↦ record {
      left = l;
      playlists = pls;
      run = rw (e, find_playlist-locate g.lib name, f) refl;
      good = g;
      shows = rw e refl;
      grown = omega arith;
      header = λ x lo hi. refl;
    }
  ]

  pub delete-Answers :
      (name : Text) → Answers (delete_playlist os name) l (delete name (view pls)) 0
  delete-Answers name =
      rw (delete-view name pls shorts) (elim (exists-locate name pls 1024 shorts) [
        | inl (e, f) ↦ record {
          left = l;
          playlists = pls;
          run = rw e (delete_playlist_absent os g.lib name f);
          good = g;
          shows = rw (removed_absent name pls 1024 f) refl;
          grown = omega arith;
          header = λ x lo hi. refl;
        }
        | inr (e, (q, f)) ↦
            let (l', (run, lib, size, same, base)) =
              delete_playlist-removed os g.lib name q f o.truncates in
            record {
              left = l';
              playlists = removed name pls;
              run = rw e run;
              good = record {
                lib = lib;
                counted = All-removed Counted name pls g.counted;
                placed = omega (arith, g.placed);
              };
              shows = refl;
              grown = omega arith;
              header = same;
            }
      ])

  -- The playlist at `q`, the first of its name.
  module _ (name path : Text) (cs : IsCString path) (small : l.size + length path + 200 < 2 ^ 32)
      {q : ℕ} (s : Split l name 1024 q l.size pls) where
    parts : All Counted s.before × Counted s.here × All Counted s.after
    parts = All-split Counted s.before s.here s.after (subst (All Counted) s.whole g.counted)

    Short-parts : All Short s.before × Short s.here × All Short s.after
    Short-parts = All-split Short s.before s.here s.after (subst (All Short) s.whole shorts)

    few : s.here.mcount + 1 < 2 ^ 32
    few = omega (
      arith, parts.1, s.held.bucket.inside, s.held.bucket.around, s.held.bucket.holds.indexes_fit,
      s.held.bucket.holds.inside, g.lib.library.small, s.held.bucket.holds.room,
    )

    pub put_held :
        has path (listing s.here).paths ≡ true → put name path (view pls) ≡ (failed, view pls)
    put_held there =
        rw s.whole (
          put_old name path s.here s.after Short-parts.1 s.hit s.before Short-parts.0 s.missed
            there)

    pub put_lacking :
        has path (listing s.here).paths ≡ false
        → put name path (view pls) ≡ (
          ok,
          view s.before
              ++ record (listing s.here) { paths = with_path path (listing s.here).paths }
                ∷ view s.after,
        )
    put_lacking missing =
        ap (λ x. put name path (view x)) s.whole
        ∙ put_new name path s.here s.after Short-parts.1 s.hit s.before Short-parts.0 s.missed
            missing

    pub old_path :
        (i : ℕ) (e : Entry)
        → get_elem? s.here.entries i ≡ some e
        → e.text ≡ path
        → has path (listing s.here).paths ≡ true
        → Answers (add_path_to_plist os c (to_ptr l q) path) l (put name path (view pls)) 0
    old_path i e at same there =
        let answer = put_held there in
        record {
          left = l;
          playlists = pls;
          run =
              rw answer
                (add_path_to_plist-duplicate os std g.lib.library s.here q s.held path i e at same);
          good = g;
          shows = rw answer refl;
          grown = omega arith;
          header = λ x lo hi. refl;
        }

    with_entry_shows :
        (w : ℕ) (es : List Entry)
        → Permᴰ es (record { index = s.here.used; text = path } ∷ s.here.entries)
        → view (s.before ++ with_entry s.here path w es ∷ s.after)
          ≡ view s.before
            ++ record (listing s.here) { paths = with_path path (listing s.here).paths }
              ∷ view s.after
    unfolding view with_path
    with_entry_shows w es perm =
        view-append s.before (with_entry s.here path w es ∷ s.after)
        ∙ ap (λ ps. view s.before ++ record (listing s.here) { paths = ps } ∷ view s.after)
            (Quot.sound (λ a. Permᴰ-SameTexts a perm))

    pub new_path :
        Absent path s.here.entries
        → has path (listing s.here).paths ≡ false
        → Answers
            (add_path_to_plist os c (to_ptr l q) path)
            l
            (put name path (view pls))
            (length path + 133)
    new_path absent missing =
        let (l', w, es, run, lib, perm, size, bound, same, base) =
          add_path_to_plist-with_entry os o.grants std (λ len. o.stays l.base len g.placed)
            g.lib.library s.before s.here s.after q s.in_front s.held s.behind path cs absent few
            small in
        let answer = put_lacking missing in
        record {
          left = l';
          playlists = s.before ++ with_entry s.here path w es ∷ s.after;
          run = rw answer run;
          good = record {
            lib = lib;
            counted =
                All-append Counted s.before (with_entry s.here path w es ∷ s.after) parts.0
                  (omega (arith, parts.1, Permᴰ-length perm), parts.2);
            placed = omega (arith, g.placed);
          };
          shows = rw answer (with_entry_shows w es perm);
          grown = omega arith;
          header = same;
        }
