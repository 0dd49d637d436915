-- ===== src/Engine/Player.antt =====
-- The shared `playing` of src/engine.c, and the threads that play: each step is what one thread does
-- between taking the lock and giving it back, or one call.
pub mod Safety
pub mod Progress
use mlib.Prelude.{ℕ, ◌+◌, ◌-◌, ◌≤◌, ◌≡◌, Bool, true, false, Option, none, some, if◌then◌else◌}
use mlib.Memory.{Status, ok, failed}
use mlib.Text.{Text}

-- What a call asks to be played: a path or a playlist of a library. For the pointer to the library
-- stands the address at which it is mapped; what is there is not part of this state, and the library
-- may be closed while a thread plays.
pub data Media : Type 0 where
  elem : ℕ → Text → Media
  plist : ℕ → Text → Media

-- `playing.elem`: NULL, a copy that `strdup` made, or one that has been freed.
pub data Copy : Type 0 where
  null : Copy
  live : Text → Copy
  freed : Copy

-- How many callers or threads there are of each kind.
pub record Count : Type 0 where
  pub elems : ℕ
  pub plists : ℕ

abbrev pub total : Count → ℕ
total n = n.elems + n.plists

-- `playing`, the threads that run, and the callers that have set `in_use` and have not yet called
-- `pthread_create`. `lost` counts the calls of it that failed.
pub record Player : Type 0 where
  pub lib : Option ℕ
  pub elem : Copy
  pub plist : Option Text
  pub use_plist : Bool
  pub in_use : Bool
  pub starting : Count
  pub running : Count
  pub lost : ℕ

abbrev pub idle : Player
idle = record {
  lib = none;
  elem = Copy.null;
  plist = none;
  use_plist = false;
  in_use = false;
  starting = record { elems = 0; plists = 0 };
  running = record { elems = 0; plists = 0 };
  lost = 0;
}

abbrev pub one_elem : Count → Count
one_elem n = record n { elems = n.elems + 1 }

abbrev pub one_plist : Count → Count
one_plist n = record n { plists = n.plists + 1 }

abbrev pub less_elem : Count → Count
less_elem n = record n { elems = n.elems - 1 }

abbrev pub less_plist : Count → Count
less_plist n = record n { plists = n.plists - 1 }

-- The first part of `mlib_play_media` and of `mlib_play`, under the lock. `copied` says
-- whether `strdup` has memory; its result is not looked at.
unfoldable pub claim : Bool → Media → Player → Status × Player
claim copied (Media.elem lib entry) p = if p.in_use then (failed, p) else (
  ok,
  record p {
    lib = some lib;
    elem = if copied then Copy.live entry else Copy.null;
    use_plist = false;
    in_use = true;
    starting = one_elem p.starting;
  },
)
claim copied (Media.plist lib name) p = if p.in_use then (failed, p) else (
  ok,
  record p {
    lib = some lib;
    plist = some name;
    use_plist = true;
    in_use = true;
    starting = one_plist p.starting;
  },
)

-- The second part of `mlib_play_media`: `pthread_create`, whose result is `created`.
unfoldable pub create_media : Bool → Player → Status × Player
create_media created p =
    if created
    then (ok, record p { starting = less_elem p.starting; running = one_elem p.running })
    else (failed, record p { starting = less_elem p.starting; lost = p.lost + 1 })

-- The second part of `mlib_play`.
unfoldable pub create_playlist : Bool → Player → Status × Player
create_playlist created p =
    if created
    then (ok, record p { starting = less_plist p.starting; running = one_plist p.running })
    else (failed, record p { starting = less_plist p.starting; lost = p.lost + 1 })

-- The arguments with which `__mlib_play_media_thread` calls `__mlib_play_media`; none where they
-- cannot be read.
unfoldable pub played : Player → Option (ℕ × Text)
played p = elim p.lib [
  | none ↦ none
  | some lib ↦ elim p.elem [ live entry ↦ some (lib, entry) | null ↦ none | freed ↦ none ]
]

-- The end of `__mlib_play_media_thread`, under the lock; none where it frees twice.
unfoldable pub finish_media : Player → Option Player
finish_media p =
    let over = record p { in_use = false; elem = Copy.freed; running = less_elem p.running } in
    elim p.elem [
      | live entry ↦ some over
      | null ↦ some (record over { elem = Copy.null })
      | freed ↦ none
    ]

-- The end of `__mlib_play_playlist_thread`, under the lock.
unfoldable pub finish_playlist : Player → Player
finish_playlist p = record p { in_use = false; running = less_plist p.running }

-- `mlib_play_media`, where no other thread comes between.
unfoldable pub play_elem : Bool → Bool → ℕ → Text → Player → Status × Player
play_elem copied created lib entry p =
    let claimed = claim copied (Media.elem lib entry) p in
    elim claimed.0 [ ok ↦ create_media created claimed.1 | failed ↦ claimed ]

-- `mlib_play`, in the same way.
unfoldable pub play_playlist : Bool → ℕ → Text → Player → Status × Player
play_playlist created lib name p =
    let claimed = claim true (Media.plist lib name) p in
    elim claimed.0 [ ok ↦ create_playlist created claimed.1 | failed ↦ claimed ]

-- `__mlib_pause` and `__mlib_stop`, on the engine's function: whether it is called, and what is
-- returned. Without an engine or without the function, `interface` is `none`.
unfoldable pub control : Option Status → Player → Status × Bool
control none p = (failed, false)
control (some interface) p = if p.in_use then (ok, true) else (ok, false)

-- The steps of the callers and of the threads, in any order.
pub data Step : Player → Player → Type 0 where
  claims : (copied : Bool) (m : Media) (p : Player) → Step p (claim copied m p).1
  creates_media :
      (created : Bool) (p : Player) → 1 ≤ p.starting.elems → Step p (create_media created p).1
  creates_playlist :
      (created : Bool) (p : Player) → 1 ≤ p.starting.plists → Step p (create_playlist created p).1
  finishes_media : (p q : Player) → 1 ≤ p.running.elems → finish_media p ≡ some q → Step p q
  finishes_playlist : (p : Player) → 1 ≤ p.running.plists → Step p (finish_playlist p)

pub data Reachable : Player → Type 0 where
  at_start : Reachable idle
  after : {p q : Player} → Reachable p → Step p q → Reachable q
