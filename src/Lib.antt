-- ===== src/Lib.antt =====
-- mlib, a media library manager: a library is a file that is mapped into memory, with a header of
-- 1024 bytes and then playlists, one behind the other. A playlist is a header of 128 bytes and a
-- bucket, which holds its paths as C strings and a sorted array of their offsets. A shell registers
-- commands, loads modules, and plays media on an engine that a module brings.
--
-- The files, and the code they are about:
--   Bytes       the word access macros of include/mlib/library.h, and libc's memory functions.
--   Memory      `struct mlib_library` of include/mlib/library.h as a mapped file: `M` runs code on
--               it, with `none` for an access outside the mapping or the file. A pointer carries
--               the mapping in which it was made, so that one kept across `mmap` is no longer good.
--   Space       the growth of a library in src/library.c: `library_expand`, `library_insert_space`,
--               `library_trunc`, `library_excise`, `sync_library`.
--   Text        libc's comparisons of strings, and strings in memory.
--   Bucket      src/bucket.c and include/mlib/plist_bucket.h.
--   Playlist    src/playlist.c, but for its commands.
--   Catalog     the open libraries of src/library.c: creating, opening, finding, closing.
--   Shell       the commands of src/library.c and src/playlist.c, and the one of src/bucket.c that
--               prints a bucket, which is compiled only for debugging.
--   Command     src/command.c: `command_register`, `find_command`, `echo`.
--   Engine      src/engine.c: registration, and in Engine.Player the stream that is played, with
--               the callers and their threads as steps of a relation. A thread that plays a path
--               reads a copy, which it frees.
--   Io          src/mlib_io.c: the stack of streams, `read_line`, `readbuf`.
--   Queue       the print queue of src/core.c.
--   Util        src/util.c.
--   Modules     src/module.c. A module's init may register engines and commands; of a call of such a
--               command only that it is made is kept.
--   Store       what a library promises: playlists with their names and bags of paths. The bag is a
--               quotient of lists. Store.Refines compares it with src/playlist.c.
--   Program     the initialisers of all parts, `mlib_init` of src/core.c, `main` of src/mlib.c, the
--               loop of src/mlib_shell.c, in Program.World what each command does to the state, in
--               Program.Session what is typed against the store, and in Program.History the
--               history file.
--   Genlib      src/mlib_genlib.c: its options, and the search through a directory tree, which is
--               given with what `stat` and `opendir` say of each name. Genlib.Main is `main`,
--               Genlib.Gather says what the search should find, without the code's functions, and
--               Genlib.Agrees compares the two.
--   Mplayer     modules/mplayer_engine/mplayer_engine.c: the child process and the pipe to it, over
--               tables of descriptors with the laws of POSIX in Mplayer.Posix.
--   Regress     regress/basic.c and regress/regress.c: the program's tests of the library, run on the
--               model, with the options and `main` of that program.
--   Lists       the calls of include/mlib/list.h, a copy of the Linux kernel's list: a parameter,
--               with what that file documents as `IsListHead`.
--   Prelude     names, tests and lists that the others share.
--   Samples     instances of the parameters and a small library; Tests uses them.
-- A definition has the name of the C function without its prefix `mlib_` or `__mlib_`. Functions
-- that return 0 or a negative number return `Status`; a NULL pointer is `none`.
--
-- Parameters, beside the lists: the kernel (`Os`: lseek and write, mmap, ftruncate, msync), libc's
-- qsort and bsearch (`Libc`, with the laws of ISO C in Bucket.Standard), vsnprintf, the allocator,
-- the dynamic linker, the file system, what the lexer and readline will return, the results of
-- pthread_create, and what the calls on processes and descriptors return (`Descriptors`). `mmap` may
-- put a file anywhere, and where that is NULL `mlib_create_library` takes it for a failure; where a
-- result needs it to succeed, it says so.
--
-- Bounds: sizes are kept below 2^32, as the length field of a library is a 32-bit word; words and
-- pointer differences wrap around as in C. Loops run on fuel: `find_loop` and the
-- loops of lspls have as many rounds as the library has bytes, which is enough since a playlist and
-- the index of a path are not empty; `make_room` has as many as the
-- string has bytes with its zero and two more, each of which makes 128 bytes of room; `format` and
-- `read_all` of Io.Chunks have as many as the text has bytes and two more; the other loops recurse
-- on a list or on the number of rounds that the code counts.
--
-- `mlib_loop` has a round for every token and one more, each of which takes a token.
--
-- Not modelled: include/mlib/list.h itself; the initialisation of libcurl in src/core.c; the module
-- under modules/test_mod, which is empty; the texts of complaints and usage lines; memory that is
-- freed, but for the copy of a path that is played; whether the library that a thread plays is open
-- still. What `open` reads of a file does not follow what was written to it before in Program.World
-- (it does in Regress and in Genlib), and the threads that play are steps of
-- Engine.Player: they do not run between the commands of Program.World.
pub mod Bucket
pub mod Bytes
pub mod Catalog
pub mod Command
pub mod Engine
pub mod Genlib
pub mod Io
pub mod Lists
pub mod Memory
pub mod Modules
pub mod Mplayer
pub mod Playlist
pub mod Prelude
pub mod Program
pub mod Queue
pub mod Regress
pub mod Samples
pub mod Shell
pub mod Space
pub mod Store
pub mod Tests
pub mod Text
pub mod Util
