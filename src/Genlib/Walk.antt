-- ===== src/Genlib/Walk.antt =====
-- What the generator does with a directory and all that is below it.
use mathlib.Core.Path.{subst}
use mlib.Prelude.{
  ◌⊎◌, ◌+◌, ◌<◌, ◌^◌, ◌≡◌, refl, sym, ◌∙◌, ap, inl, inr, Option, Option-cases, none, some, List, [],
  ◌∷◌, ◌++◌, All, Bool-cases, arith,
}
use mlib.Memory.{Library, M, Status, ok, failed, ◌>>=◌}
use mlib.Text.{Text}
use mlib.Text.Stored.{IsCString}
use mlib.Space.{Os}
use mlib.Bucket.{Libc}
use mlib.Bucket.Standard.{IsLibc}
use mlib.Playlist.{global_name}
use mlib.Playlist.Holds.{Playlist}
use mlib.Store.View.{view}
use mlib.Store.Steps.{Obliges}
use mlib.Store.{Store, put}
use mlib.Genlib.{
  Entries, nil, file, missing, dir, locked, Search, fails, if_done, path_combine, with_global,
  add_file, add_files, search_dirs, search,
}
use mlib.Genlib.Gather.{
  Found, ended, join, wanted, files_in, files_below, gather, put_all, room_for, dots,
}
use mlib.Genlib.Agrees.{is_dots-dots}
use mlib.Genlib.Ready.{Ready, Gathers}
use mlib.Genlib.File.{global_at, with_global_at, file-Gathers}

-- A joined part is the first where that failed, and else both.
join-cases :
    (a b : Found) (elems : List Text) (end : Status)
    → join a b ≡ some (elems, end)
    → ((xs : List Text) × (ys : List Text) × (a ≡ some (xs, ok))
        × (b ≡ some (ys, end))
        × (elems ≡ xs ++ ys))
      ⊎ ((a ≡ some (elems, end)) × (end ≡ failed))
join-cases none b elems end e = cc
join-cases (some (xs, ok)) none elems end e = cc
join-cases (some (xs, ok)) (some (ys, r)) elems end e =
    inl (xs, ys, refl, ground arith, ground arith)
join-cases (some (xs, failed)) b elems end e = inr (e, ground arith)

put_all-append : (xs ys : List Text) (s : Store) → put_all (xs ++ ys) s ≡ put_all ys (put_all xs s)
unfolding put_all
put_all-append [] ys s = refl
put_all-append (x ∷ xs) ys s = put_all-append xs ys (put global_name x s).1

room_for-append : (xs ys : List Text) → room_for (xs ++ ys) ≡ room_for xs + room_for ys
room_for-append [] ys = omega arith
room_for-append (x ∷ xs) ys = omega (arith, room_for-append xs ys)

IsCString-append :
    (xs ys : List Text) → All IsCString (xs ++ ys) → All IsCString xs × All IsCString ys
IsCString-append [] ys h = (tt, h)
IsCString-append (x ∷ xs) ys h = let r = IsCString-append xs ys h.1 in ((h.0, r.0), r.1)

-- What a part of the search does wherever it starts.
abbrev pub Walks : Text → M Search → List Text → Status → Type 0
Walks prefix m elems end =
    (l : Library) (pls : List Playlist)
    → Ready prefix l pls
    → All IsCString elems
    → l.size + room_for elems < 2 ^ 32
    → Gathers prefix m l end (put_all elems (view pls)) (room_for elems)

-- One part behind the other.
abbrev pub in_turn : M Search → M Search → M Search
in_turn first next = first >>= λ x. if_done x next

both-Walks :
    (prefix : Text) (first next : M Search) (xs ys : List Text) (end : Status)
    → Walks prefix first xs ok
    → Walks prefix next ys end
    → Walks prefix (in_turn first next) (xs ++ ys) end
unfolding if_done
both-Walks prefix first next xs ys end walk behind l pls r cs small =
    let both = IsCString-append xs ys cs in
    let sum = room_for-append xs ys in
    let a = walk l pls r both.0 (omega (arith, sum)) in
    let b = behind a.left a.playlists a.ready both.1 (omega (arith, sum, a.grown)) in
    record {
      left = b.left;
      playlists = b.playlists;
      run = rw a.run b.run;
      ready = b.ready;
      shows = b.shows ∙ ap (put_all ys) a.shows ∙ sym (put_all-append xs ys (view pls));
      grown = omega (arith, sum, a.grown, b.grown);
    }

stopped-Walks :
    (prefix : Text) (first next : M Search) (xs : List Text) (end : Status)
    → end ≡ failed
    → Walks prefix first xs end
    → Walks prefix (in_turn first next) xs end
unfolding if_done
stopped-Walks prefix first next xs end stop walk l pls r cs small =
    let a = walk l pls r cs small in
    record {
      left = a.left;
      playlists = a.playlists;
      run = rw (a.run, stop) refl;
      ready = a.ready;
      shows = a.shows;
      grown = a.grown;
    }

-- The parts walk as their joined lists say.
in_turn-Walks :
    (prefix : Text) (first next : M Search) (a b : Found)
    → ((xs : List Text) (r : Status) → a ≡ some (xs, r) → Walks prefix first xs r)
    → ((ys : List Text) (r : Status) → b ≡ some (ys, r) → Walks prefix next ys r)
    → (elems : List Text) (end : Status) → join a b ≡ some (elems, end)
    → Walks prefix (in_turn first next) elems end
in_turn-Walks prefix first next a b walk behind elems end e = elim (join-cases a b elems end e) [
  | inl (xs, ys, here, there, both) ↦
      subst (λ zs. Walks prefix (in_turn first next) zs end) (sym both)
        (both-Walks prefix first next xs ys end (walk xs ok here) (behind ys end there))
  | inr (here, stop) ↦ stopped-Walks prefix first next elems end stop (walk elems end here)
]

module _ {os : Os} (o : Obliges os) {c : Libc} (std : IsLibc c) (custom_list : Option (List Text))
    (prefix : Text) where
  -- Nothing is gathered, and the part ends at once.
  ended-Walks :
      (r end : Status) (elems : List Text)
      → ◌≡◌ {A = Found} (some ([], r)) (some (elems, end))
      → Walks prefix (λ l. some (ended r, l)) elems end
  unfolding put_all
  ended-Walks r end elems e l pls ready cs small =
      let none_there : ◌≡◌ {A = List Text} [] elems = cc in
      let same : r ≡ end = cc in
      record {
        left = l;
        playlists = pls;
        run = rw same refl;
        ready = ready;
        shows = ap (λ xs. put_all xs (view pls)) none_there;
        grown = omega arith;
      }

  global-Walks :
      (m : M Search) (elems : List Text) (end : Status)
      → Walks prefix m elems end
      → Walks prefix (with_global os c custom_list (λ p. m)) elems end
  global-Walks m elems end walk l pls r cs small =
      let (q, f) = global_at o std custom_list r in
      let a = walk l pls r cs small in
      record {
        left = a.left;
        playlists = a.playlists;
        run = with_global_at o std custom_list r q f (λ p. m) ∙ a.run;
        ready = a.ready;
        shows = a.shows;
        grown = a.grown;
      }

  file-Walks :
      (new_name : Text) (elems : List Text) (end : Status)
      → elim (wanted custom_list prefix new_name) as (λ _. Found) [
        | none ↦ none
        | some elems ↦ some (elems, ok)
      ]
        ≡ some (elems, end)
      → Walks prefix
          (with_global os c custom_list (λ p. add_file os c custom_list p new_name))
          elems
          end
  file-Walks new_name elems end e l pls r cs small =
      elim (Option-cases (wanted custom_list prefix new_name)) [
        | inl missed ↦ absurd (ground (arith, missed))
        | inr (xs, found) ↦
            let same : xs ≡ elems = ground (arith, found) in
            let over : ok ≡ end = ground (arith, found) in
            subst
              (λ x.
                Gathers prefix
                  (with_global os c custom_list (λ p. add_file os c custom_list p new_name)) l x
                  (put_all elems (view pls)) (room_for elems))
              over (file-Gathers o std custom_list r new_name elems (found ∙ ap some same) cs small)
      ]

  add_files-Walks :
      (cwd : Text) (entries : Entries) (elems : List Text) (end : Status)
      → files_in custom_list prefix cwd entries ≡ some (elems, end)
      → Walks prefix (add_files os c custom_list cwd entries) elems end
  unfolding add_files files_in path_combine
  add_files-Walks cwd nil elems end e = ended-Walks ok end elems e
  add_files-Walks cwd (file name rest) elems end e =
      in_turn-Walks prefix _ (add_files os c custom_list cwd rest) _
        (files_in custom_list prefix cwd rest) (file-Walks (path_combine cwd name))
        (add_files-Walks cwd rest) elems end e
  add_files-Walks cwd (missing name rest) elems end e =
      global-Walks (λ l. some (fails, l)) elems end (ended-Walks failed end elems e)
  add_files-Walks cwd (dir name sub rest) elems end e =
      global-Walks (add_files os c custom_list cwd rest) elems end
        (add_files-Walks cwd rest elems end e)
  add_files-Walks cwd (locked name rest) elems end e =
      global-Walks (add_files os c custom_list cwd rest) elems end
        (add_files-Walks cwd rest elems end e)

  -- What stands in `ret` before it is set is 0.
  module _ (junk : Text → Status) (zero : (cwd : Text) → junk cwd ≡ ok) where
    search_dirs-Walks :
        (cwd : Text) (entries : Entries) (elems : List Text) (end : Status)
        → files_below custom_list prefix cwd entries ≡ some (elems, end)
        → Walks prefix (search_dirs os c custom_list junk cwd ok entries) elems end
    unfolding search_dirs files_below path_combine
    search_dirs-Walks cwd nil elems end e = ended-Walks ok end elems e
    search_dirs-Walks cwd (file name rest) elems end e = search_dirs-Walks cwd rest elems end e
    search_dirs-Walks cwd (missing name rest) elems end e = ended-Walks failed end elems e
    search_dirs-Walks cwd (dir name sub rest) elems end e = elim (Bool-cases (dots name)) [
      | inl skipped ↦
          rw (is_dots-dots name ∙ skipped)
            (search_dirs-Walks cwd rest elems end (ground (arith, skipped)))
      | inr named ↦
          let here = path_combine cwd name in
          let walk =
            in_turn-Walks prefix (add_files os c custom_list here sub)
              (search_dirs os c custom_list junk here (junk here) sub)
              (files_in custom_list prefix here sub) (files_below custom_list prefix here sub)
              (add_files-Walks here sub) (rw (zero here) (search_dirs-Walks here sub)) in
          let all =
            in_turn-Walks prefix _ (search_dirs os c custom_list junk cwd ok rest) _
              (files_below custom_list prefix cwd rest) walk (search_dirs-Walks cwd rest) elems end
              (ground (arith, named)) in
          rw (is_dots-dots name ∙ named) all
    ]
    search_dirs-Walks cwd (locked name rest) elems end e = elim (Bool-cases (dots name)) [
      | inl skipped ↦
          rw (is_dots-dots name ∙ skipped)
            (search_dirs-Walks cwd rest elems end (ground (arith, skipped)))
      | inr named ↦
          rw (is_dots-dots name ∙ named) (ended-Walks failed end elems (ground (arith, named)))
    ]

    pub search-gather :
        (cwd : Text) (entries : Entries) (elems : List Text) (end : Status)
        → gather custom_list prefix cwd entries ≡ some (elems, end)
        → Walks prefix (search os c custom_list junk cwd entries) elems end
    unfolding search gather
    search-gather cwd entries elems end e =
        in_turn-Walks prefix (add_files os c custom_list cwd entries) _ _ _
          (add_files-Walks cwd entries) (rw (zero cwd) (search_dirs-Walks cwd entries)) elems end e
