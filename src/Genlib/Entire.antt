-- ===== src/Genlib/Entire.antt =====
-- The generator as a whole, where it makes a new library.
use mlib.Prelude.{◌≡◌, ◌⊎◌, true, false, Option, none, some, List, []}
use mlib.Memory.{Library}
use mlib.Text.{Text}
use mlib.Playlist.{global_name}
use mlib.Playlist.Holds.{Playlist}
use mlib.Store.View.{view}
use mlib.Store.{exists, start}
use mlib.Genlib.Options.{Parsed, Settings, set_filters}
use mlib.Genlib.Options
use mlib.Genlib.Gather.{put_all}
use mlib.Genlib.Ready.{Ready}
use mlib.Genlib.Main.{Files, Exit}

abbrev names_of : Parsed → Option Text × Option Text
names_of (Parsed.set s) = (s.dir, s.output)
names_of Parsed.refused = (none, none)
names_of Parsed.helped = (none, none)
names_of Parsed.faulted = (none, none)

-- The prefix is the option's, or else the real path of the directory.
unfoldable pub Prefixes : Settings → Files → Text → Text → Type 0
Prefixes s files dir prefix =
    (s.given_prefix ≡ some prefix) ⊎ ((s.given_prefix ≡ none) × (files.realpath dir ≡ some prefix))

-- There is no old library, or it is overwritten.
unfoldable pub Fresh : Settings → Files → Type 0
Fresh s files =
    (files.exists ≡ false)
    ⊎ ((files.exists ≡ true) × (s.overwrites ≡ true) × (files.unlinked ≡ true))

-- What the program leaves: a library that shows what was gathered, and its name and prefix as they
-- were printed.
pub record Collects (exit : Exit) (name prefix : Text) (elems : List Text) : Type 0 where
  pub left : Library
  pub playlists : List Playlist
  pub run : exit ≡ Exit.zero_with (record { name = name; media_prefix = prefix }) left
  pub ready : Ready prefix left playlists
  pub shows : view playlists ≡ put_all elems (start global_name []).1
