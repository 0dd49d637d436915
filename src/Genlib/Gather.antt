-- ===== src/Genlib/Gather.antt =====
-- What the generator should gather below a directory, and what the library then shows.
use mlib.Prelude.{
  ℕ, ◌+◌, ◌*◌, true, false, Option, none, some, List, [], ◌∷◌, ◌++◌, length, if◌then◌else◌, Bool,
  ◌==◌, ◌&&◌, ◌||◌, leb, ltb, ◌-◌,
}
use mlib.Text.{Text, codes}
use mlib.Util.{from}
use mlib.Memory.{Status, ok, failed}
use mlib.Playlist.{global_name}
use mlib.Store.{Store, put}
use mlib.Genlib.{
  Entries, nil, file, missing, dir, locked, Search, done, fails, audio_ext, video_ext,
}

-- The paths that a part of the walk gathers, and what it returns. No result is a read outside a
-- string.
abbrev pub Found : Type 0
Found = Option (List Text × Status)

-- What `__do_search` returns, as the model of it tells.
abbrev pub ended : Status → Search
ended ok = done
ended failed = fails

-- One part behind the other, which does not begin where the first has failed.
abbrev pub join : Found → Found → Found
join none next = none
join (some (xs, ok)) none = none
join (some (xs, ok)) (some (ys, end)) = some (xs ++ ys, end)
join (some (xs, failed)) next = some (xs, failed)

-- Whether two texts are the same.
unfoldable pub same : Text → Text → Bool
same [] [] = true
same [] (d ∷ t) = false
same (c ∷ s) [] = false
same (c ∷ s) (d ∷ t) = (c == d) && same s t

-- How many characters two texts share at their beginning.
unfoldable pub shared : Text → Text → ℕ
shared [] t = 0
shared (c ∷ s) [] = 0
shared (c ∷ s) (d ∷ t) = let more = shared s t in if c == d then 1 + more else 0

-- Without a slash in front.
unfoldable pub no_slash : Text → Text
no_slash [] = []
no_slash (c ∷ s) = if c == b'/' then s else c ∷ s

-- What is left of a path behind the characters that it shares with the prefix, one more, and a slash.
-- Where it has no more, the code reads outside it.
unfoldable pub unshared : Text → Text → Option Text
unshared path prefix =
    let n = shared path prefix in
    if leb (length path) n then none else some (no_slash (from (n + 1) path))

-- Whether a name ends in one of the types, of which none in front of the one found is longer than it.
unfoldable pub ends_in : List Text → Text → Option Bool
ends_in [] name = some false
ends_in (t ∷ ts) name =
    let further = ends_in ts name in
    if ltb (length name) (length t)
    then none
    else (if same t (from (length name - length t) name) then some true else further)

-- The types that are looked for: the given ones, or those that the library names.
unfoldable pub types_of : Option (List Text) → List Text
types_of none = audio_ext ++ video_ext
types_of (some custom_list) = custom_list

unfoldable pub dots : Text → Bool
dots name = same name (codes ".") || same name (codes "..")

module _ (custom_list : Option (List Text)) (prefix : Text) where
  -- What is left of the name, if it ends in a type that is looked for.
  abbrev pub wanted : Text → Option (List Text)
  wanted new_name = elim (unshared new_name prefix) [
    | none ↦ none
    | some elem ↦ elim (ends_in (types_of custom_list) elem) [
      | none ↦ none
      | some true ↦ some (elem ∷ [])
      | some false ↦ some []
    ]
  ]

  -- The files of a directory, in its order, up to a name on which `stat` fails.
  unfoldable pub files_in : Text → Entries → Found
  files_in cwd nil = some ([], ok)
  files_in cwd (file name rest) =
      let here = elim (wanted (cwd ++ b'/' ∷ name)) as (λ _. Found) [
        | none ↦ none
        | some elems ↦ some (elems, ok)
      ] in
      join here (files_in cwd rest)
  files_in cwd (missing name rest) = some ([], failed)
  files_in cwd (dir name sub rest) = files_in cwd rest
  files_in cwd (locked name rest) = files_in cwd rest

  -- Those of the directories in it, one directory behind the other, up to one that fails.
  unfoldable pub files_below : Text → Entries → Found
  files_below cwd nil = some ([], ok)
  files_below cwd (file name rest) = files_below cwd rest
  files_below cwd (missing name rest) = some ([], failed)
  files_below cwd (dir name sub rest) =
      let here = cwd ++ b'/' ∷ name in
      let next = files_below cwd rest in
      let inner = join (files_in here sub) (files_below here sub) in
      if dots name then next else join inner next
  files_below cwd (locked name rest) =
      let next = files_below cwd rest in if dots name then next else some ([], failed)

  unfoldable pub gather : Text → Entries → Found
  gather cwd entries = join (files_in cwd entries) (files_below cwd entries)

-- The paths are put into ".global" one after the other.
unfoldable pub put_all : List Text → Store → Store
put_all [] s = s
put_all (path ∷ paths) s = put_all paths (put global_name path s).1

-- The bytes by which they may extend the file.
abbrev pub room_for : List Text → ℕ
room_for [] = 0
room_for (path ∷ paths) = 2 * length path + 400 + room_for paths
