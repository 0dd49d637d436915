-- ===== src/Store.antt =====
-- What a library promises to its users: playlists in the order in which they were made, each with a
-- name and a bag of paths. `Store.Refines` compares this with the code of src/playlist.c.
pub mod Bag
pub mod View
pub mod Steps
pub mod Adds
pub mod Lookup
pub mod Refines
use mlib.Prelude.{Bool, true, false, List, [], ◌∷◌, ◌++◌, ◌||◌, if◌then◌else◌, ℕ, ◌+◌, length, ◌≤◌}
use mlib.Memory.{Status, ok, failed}
use mlib.Text.{Text, strcmp, is_eq}
use mlib.Playlist.{global_name}
use mlib.Store.Bag.{Paths, of_list, has, with_path}

-- A playlist of a store.
pub record Listing : Type 0 where
  pub name : Text
  pub paths : Paths

abbrev pub Store : Type 0
Store = List Listing

abbrev pub called : Text → Listing → Bool
called name x = is_eq (strcmp x.name name)

unfoldable pub exists : Text → Store → Bool
exists name [] = false
exists name (x ∷ xs) = called name x || exists name xs

-- A new name comes last.
unfoldable pub start : Text → Store → Status × Store
start name s =
    if exists name s
    then (failed, s)
    else (ok, s ++ record { name = name; paths = of_list [] } ∷ [])

-- The first of the name goes.
unfoldable pub delete : Text → Store → Status × Store
delete name [] = (failed, [])
delete name (x ∷ xs) =
    let rest = delete name xs in if called name x then (ok, xs) else (rest.0, x ∷ rest.1)

-- A path that the first of the name does not have is put into it.
unfoldable pub put : Text → Text → Store → Status × Store
put name path [] = (failed, [])
put name path (x ∷ xs) =
    let rest = put name path xs in
    if called name x
    then (if has path x.paths
        then (failed, x ∷ xs)
        else (ok, record x { paths = with_path path x.paths } ∷ xs))
    else (rest.0, x ∷ rest.1)

-- A path goes to ".global" too, which must be there; whether it was there already is no matter.
unfoldable pub add : Text → Text → Store → Status × Store
add name path s =
    if is_eq (strcmp name global_name)
    then put name path s
    else (if exists global_name s then put name path (put global_name path s).1 else (failed, s))

-- What a user asks of a library.
pub data Request : Type 0 where
  start_playlist : Text → Request
  delete_playlist : Text → Request
  add_path : Text → Text → Request

unfoldable pub answer : Request → Store → Status × Store
answer (start_playlist name) s = start name s
answer (delete_playlist name) s = delete name s
answer (add_path name path) s = add name path s

unfoldable pub answers : List Request → Store → List Status × Store
answers [] s = ([], s)
answers (r ∷ rs) s =
    let first = answer r s in let rest = answers rs first.1 in (first.0 ∷ rest.0, rest.1)
