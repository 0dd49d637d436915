-- ===== src/Genlib/Ready.antt =====
-- The library that the generator fills, between two files.
use mlib.Prelude.{
  ℕ, ◌+◌, ◌≤◌, ◌<◌, ◌≡◌, ◌⊎◌, inl, inr, true, false, Option, some, List, [], ◌∷◌, length,
  Option-cases, arith,
}
use mlib.Memory.{Status, Library, M}
use mlib.Text.{Text}
use mlib.Text.Stored.{IsText}
use mlib.Playlist.{global_name}
use mlib.Playlist.Holds.{Playlist}
use mlib.Store.View.{view}
use mlib.Store.Steps.{Good}
use mlib.Store.{Store, exists}
use mlib.Genlib.{Search, drop_prefix, is_wanted}
use mlib.Genlib.Gather.{ended, wanted}
use mlib.Genlib.Agrees.{drop_prefix-unshared, is_wanted-ends_in}

-- A library of these playlists, ".global" among them, with this prefix.
pub record Ready (prefix : Text) (l : Library) (pls : List Playlist) : Type 0 where
  pub good : Good l pls
  pub global : exists global_name (view pls) ≡ true
  pub named : IsText l.bytes 128 prefix
  pub fits : length prefix < 896

-- The search ends with `end` in a library that shows `s`, and the file grows by `n` bytes at most.
pub record Gathers (prefix : Text) (m : M Search) (l : Library) (end : Status) (s : Store) (n : ℕ)
    : Type 0 where
  pub left : Library
  pub playlists : List Playlist
  pub run : m l ≡ some (ended end, left)
  pub ready : Ready prefix left playlists
  pub shows : view playlists ≡ s
  pub grown : left.size ≤ l.size + n

pub wanted-cases :
    (custom_list : Option (List Text)) (prefix new_name : Text) (elems : List Text)
    → wanted custom_list prefix new_name ≡ some elems
    → ((elem : Text) × (drop_prefix new_name prefix ≡ some elem)
        × (is_wanted custom_list elem ≡ some true)
        × (elems ≡ elem ∷ []))
      ⊎ ((elem : Text) × (drop_prefix new_name prefix ≡ some elem)
          × (is_wanted custom_list elem ≡ some false)
          × (elems ≡ []))
wanted-cases custom_list prefix new_name elems e =
    let left = drop_prefix-unshared new_name prefix in
    elim (Option-cases (drop_prefix new_name prefix)) [
      | inl b ↦ absurd (ground (arith, b, left))
      | inr (elem, b) ↦
          let tells = is_wanted-ends_in custom_list elem in
          elim (Option-cases (is_wanted custom_list elem)) [
            | inl w ↦ absurd (ground (arith, b, w, left, tells))
            | inr (true, w) ↦ inl (elem, b, w, ground (arith, b, w, left, tells))
            | inr (false, w) ↦ inr (elem, b, w, ground (arith, b, w, left, tells))
          ]
    ]
