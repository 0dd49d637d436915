-- ===== src/Genlib/Whole.antt =====
-- `__do_search` of a whole directory tree.
use mlib.Prelude.{◌+◌, ◌<◌, ◌^◌, ◌≡◌, some, Option, List, All}
use mlib.Memory.{Library, Status, ok}
use mlib.Text.{Text}
use mlib.Text.Stored.{IsCString}
use mlib.Space.{Os}
use mlib.Bucket.{Libc}
use mlib.Bucket.Standard.{IsLibc}
use mlib.Playlist.Holds.{Playlist}
use mlib.Store.View.{view}
use mlib.Store.Steps.{Obliges}
use mlib.Genlib.{Entries, search}
use mlib.Genlib.Gather.{ended, gather, put_all, room_for}
use mlib.Genlib.Ready.{Ready}
use mlib.Genlib.Walk.{search-gather}

-- Where ret happens to be 0 before it is set, __do_search of a directory tree in which no string is
-- read outside its bounds ends as `gather` says, with 0 where `stat` and `opendir` succeed
-- everywhere and with -1 at the first place where one of them fails. The library then shows what it
-- showed before, with the files that were met until then put into ".global" in the order of the
-- walk: the files of a directory first, then each directory in it but "." and "..". Of a file's
-- path (the directory as it is given, a slash, and so on), what is put in is without the characters
-- that the path shares with the prefix at its beginning, one more character, and a slash where one
-- is next; and only files are put in for which this ends in one of the types: those given, or the
-- library's for audio and video. The library is its header and a row of playlists which count their
-- paths, ".global" among them, holds the prefix, which is shorter than 896 bytes, and is not mapped
-- at NULL; the paths are C strings, the file stays below 2^32 by the bytes they may need, the
-- kernel grants every request and maps the file again where it was, and `qsort` and `bsearch` keep
-- the C standard.
pub search-put_all :
    {os : Os} (o : Obliges os) {c : Libc} (std : IsLibc c) (custom_list : Option (List Text))
    (junk : Text → Status) (zero : (cwd : Text) → junk cwd ≡ ok) (prefix : Text) {l : Library}
    {pls : List Playlist} (r : Ready prefix l pls) (cwd : Text) (entries : Entries)
    (elems : List Text) (end : Status)
    → gather custom_list prefix cwd entries ≡ some (elems, end)
    → All IsCString elems
    → l.size + room_for elems < 2 ^ 32
    → (l' : Library) × (pls' : List Playlist) × (search os c custom_list junk cwd entries l
        ≡ some (ended end, l'))
      × Ready prefix l' pls'
      × (view pls' ≡ put_all elems (view pls))
search-put_all o std custom_list junk zero prefix {l} {pls} r cwd entries elems end e cs small =
    let g =
      search-gather o std custom_list prefix junk zero cwd entries elems end e l pls r cs small in
    (g.left, g.playlists, g.run, g.ready, g.shows)
