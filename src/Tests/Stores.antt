-- ===== src/Tests/Stores.antt =====
-- Requests to the library of `Samples.Stored`.
use mlib.Prelude.{◌≡◌, refl, List, [], ◌∷◌, some, arith}
use mlib.Memory.{Library, ok, failed}
use mlib.Text.{Text}
use mlib.Playlist.Holds.{SameHeader, Playlist}
use mlib.Samples.{kernel, kernel-Grants, kernel-Stays}
use mlib.Samples.Standard.{libc, libc-IsLibc}
use mlib.Samples.Stored.{stored, stored-IsLib, global, path_a}
use mlib.Store.{Request, answers, answer, start, delete, put, add, exists}
use mlib.Store.Bag.{has, with_path}
use mlib.Store.View.{view}
use mlib.Store.Steps.{Good, Obliges}
use mlib.Store.Refines.{serve_all, serve_all-answers}
use mlib.Text.{strcmp}

pub kernel-Obliges : Obliges kernel
kernel-Obliges = record {
  grants = kernel-Grants;
  stays = kernel-Stays;
  truncates = λ n. refl;
  syncs = refl;
}

pub stored-Good : Good stored (global ∷ [])
stored-Good = record { lib = stored-IsLib; counted = (refl, tt); placed = omega arith }

abbrev list_b : Text
list_b = b'b' ∷ []

-- A playlist is started twice, two paths are added to it, one of them twice, and it is deleted.
abbrev requests : List Request
requests =
    Request.start_playlist list_b
    ∷ Request.start_playlist list_b
    ∷ Request.add_path list_b path_a
    ∷ Request.add_path list_b list_b
    ∷ Request.add_path list_b list_b
    ∷ Request.delete_playlist list_b
    ∷ Request.add_path list_b path_a
    ∷ []

serve_all-answers_example :
    (l' : Library) × (pls' : List Playlist) × (serve_all kernel libc requests stored
      ≡ some (ok ∷ failed ∷ ok ∷ ok ∷ failed ∷ ok ∷ failed ∷ [], l'))
    × Good l' pls'
    × (view pls' ≡ (answers requests (view (global ∷ []))).1)
    × SameHeader stored l'
unfolding answers answer start delete put add exists has with_path view strcmp
serve_all-answers_example =
    serve_all-answers kernel-Obliges libc-IsLibc stored (global ∷ []) stored-Good requests
      (ground arith) (omega arith)
