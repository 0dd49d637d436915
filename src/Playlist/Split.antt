-- ===== src/Playlist/Split.antt =====
-- The first playlist of a name, and what stands on both sides of it.
use mlib.Prelude.{
  ℕ, ◌+◌, ◌≡◌, refl, sym, ap, inl, inr, true, false, Bool-cases, some, List, [], ◌∷◌, ◌++◌, All,
  if◌then◌else◌, arith,
}
use mlib.Memory.{Library}
use mlib.Text.{Text}
use mlib.Playlist.Holds.{Playlist, HoldsAt, Run}
use mlib.Playlist.Find.{is_named, locate}

-- The playlists without the first of that name.
unfoldable pub removed : Text → List Playlist → List Playlist
removed name [] = []
removed name (pl ∷ pls) = let rest = removed name pls in if is_named name pl then pls else pl ∷ rest

-- Where the first playlist of the name stands, and what stands on both sides.
pub record Split (l : Library) (name : Text) (p q e : ℕ) (pls : List Playlist) : Type 0 where
  pub before : List Playlist
  pub here : Playlist
  pub after : List Playlist
  pub whole : pls ≡ before ++ here ∷ after
  pub missed : All (λ pl. is_named name pl ≡ false) before
  pub hit : is_named name here ≡ true
  pub left : removed name pls ≡ before ++ after
  pub in_front : Run l p before q
  pub held : HoldsAt l q here
  pub behind : Run l (q + here.plen) after e

pub split :
    (l : Library) (name : Text) (p q e : ℕ) (pls : List Playlist)
    → Run l p pls e
    → locate name pls p ≡ some q
    → Split l name p q e pls
unfolding locate removed
split l name p q e [] run found = cc
split l name p q e (pl ∷ pls) run found = elim (Bool-cases (is_named name pl)) [
  | inl hit ↦
      let here : p ≡ q = ground arith in
      record {
        before = [];
        here = pl;
        after = pls;
        whole = refl;
        missed = tt;
        hit = hit;
        left = ground arith;
        in_front = here;
        held = rw (sym here) run.0;
        behind = rw (sym here) run.1;
      }
  | inr miss ↦
      let s = split l name (p + pl.plen) q e pls run.1 (ground arith) in
      record {
        before = pl ∷ s.before;
        here = s.here;
        after = s.after;
        whole = ap (λ rest. pl ∷ rest) s.whole;
        missed = (miss, s.missed);
        hit = s.hit;
        left = ground (arith, s.left);
        in_front = (run.0, s.in_front);
        held = s.held;
        behind = s.behind;
      }
]
