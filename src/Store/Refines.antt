-- ===== src/Store/Refines.antt =====
-- Requests one after the other: the code answers as the store does.
use mlib.Prelude.{
  ℕ, ◌+◌, ◌*◌, ◌≤◌, ◌<◌, ◌^◌, ◌≡◌, refl, ap, ◌∙◌, some, List, [], ◌∷◌, All, length, arith,
}
use mlib.Memory.{Library, M, Status, pure, ◌>>=◌}
use mlib.Text.Stored.{IsCString}
use mlib.Space.{Os}
use mlib.Bucket.{Libc}
use mlib.Bucket.Standard.{IsLibc}
use mlib.Playlist.{start_playlist, delete_playlist, add_path}
use mlib.Playlist.Holds.{SameHeader, Playlist}
use mlib.Store.View.{view}
use mlib.Store.Steps.{Good, Obliges, Answers, start-Answers, delete-Answers}
use mlib.Store.Adds.{add-Answers}
use mlib.Store.{Request, answer, answers}

module _ (os : Os) (c : Libc) where
  -- The function of src/playlist.c that a request calls.
  unfoldable pub serve : Request → M Status
  serve (Request.start_playlist name) = start_playlist os name
  serve (Request.delete_playlist name) = delete_playlist os name
  serve (Request.add_path name path) = add_path os c name path

  unfoldable pub serve_all : List Request → M (List Status)
  serve_all [] = pure []
  serve_all (r ∷ rs) = do s ← serve r; rest ← serve_all rs; pure (s ∷ rest)

-- What a request must keep to: C strings, and a name that fits the name field.
abbrev pub Fits : Request → Type 0
Fits (Request.start_playlist name) = IsCString name × (length name ≤ 115)
Fits (Request.delete_playlist name) = Unit
Fits (Request.add_path name path) = IsCString path

-- The bytes by which a request may extend the file.
abbrev pub cost : Request → ℕ
cost (Request.start_playlist name) = 272
cost (Request.delete_playlist name) = 0
cost (Request.add_path name path) = 2 * length path + 400

abbrev pub costs : List Request → ℕ
costs [] = 0
costs (r ∷ rs) = cost r + costs rs

module _ {os : Os} (o : Obliges os) {c : Libc} (std : IsLibc c) where
  pub serve-Answers :
      {l : Library} {pls : List Playlist}
      → Good l pls
      → (r : Request) → Fits r
      → l.size + cost r < 2 ^ 32
      → Answers (serve os c r) l (answer r (view pls)) (cost r)
  unfolding serve answer
  serve-Answers g (Request.start_playlist name) (cs, short) small =
      start-Answers o std g name cs short small
  serve-Answers g (Request.delete_playlist name) h small = delete-Answers o std g name
  serve-Answers g (Request.add_path name path) cs small =
      add-Answers o std g name path cs (omega arith)

  -- Any sequence of calls of mlib_start_playlist, mlib_delete_playlist and mlib_add_path, on a
  -- library that is its header and a row of playlists which count their paths, not mapped at NULL,
  -- runs without a fault, returns in each call what an abstract store answers, and leaves a library
  -- of this kind that shows the store's playlists: their names in order, each with its bag of
  -- paths. A path that is added goes to ".global" too, and names and paths that are there already
  -- are refused. The strings are C strings, a name that is started has at most 115 bytes, the file
  -- stays below 2^32 by the bytes that the calls may need, the kernel grants every request and maps
  -- the file again where it was, and `qsort` and `bsearch` keep the C standard. The header's name
  -- and prefix are as they were.
  pub serve_all-answers :
      (l : Library) (pls : List Playlist)
      → Good l pls
      → (rs : List Request) → All Fits rs
      → l.size + costs rs < 2 ^ 32
      → (l' : Library) × (pls' : List Playlist) × (serve_all os c rs l
          ≡ some ((answers rs (view pls)).0, l'))
        × Good l' pls'
        × (view pls' ≡ (answers rs (view pls)).1)
        × SameHeader l l'
  unfolding serve_all answers
  serve_all-answers l pls g [] fits small = (l, pls, refl, g, refl, λ x lo hi. refl)
  serve_all-answers l pls g (r ∷ rs) fits small =
      let a = serve-Answers g r fits.0 (omega arith) in
      let (l', pls', run, good, shows, same) =
        serve_all-answers a.left a.playlists a.good rs fits.1 (omega (arith, a.grown)) in
      (
        l',
        pls',
        rw (a.run, run) (ap (λ s. some ((answer r (view pls)).0 ∷ (answers rs s).0, l')) a.shows),
        good,
        shows ∙ ap (λ s. (answers rs s).1) a.shows,
        λ x lo hi. same x lo hi ∙ a.header x lo hi,
      )
