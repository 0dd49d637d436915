-- ===== src/Tests/Program.antt =====
-- The theorems on the commands, engines, modules, streams, messages and lists of words.
use mlib.Prelude.{
  ℕ, ◌-◌, ◌≡◌, refl, ◌⊎◌, inl, true, false, Option, none, some, [], ◌∷◌, length, take,
  if◌then◌else◌, arith,
}
use mlib.Memory.{ok, failed}
use mlib.Text.{Text, strcmp, strncmp, is_eq}
use mlib.Command.{Command, command_register, register_behind, find_command}
use mlib.Command.Register.{find-command_register}
use mlib.Engine.{Engine, engine_register}
use mlib.Engine.Register.{IsEngines, engine_register-IsEngines}
use mlib.Util.{filter}
use mlib.Util.Filter.{Matches, filter-Matches}
use mlib.Io.{stdin, Streams, eol, string, read_line, room_for_one}
use mlib.Io.Lines.{read_line-words}
use mlib.Io.Chunks.{read_all, ready, Pieces, read_all-line}
use mlib.Queue.{Vsnprintf, queue_printf, empty_print_queue}
use mlib.Queue.Order.{IsVsnprintf, queue_printf-queued, empty_print_queue-joined}
use mlib.Modules.{Module, Linker, nothing}
use mlib.Bytes.{writel}
use mlib.Text.Stored.{load_text-IsText}
use mlib.Catalog.{Place, lib_name, find_library, find_behind}
use mlib.Catalog.Find.{IsFirst, find_library-IsFirst}
use mlib.Samples.{lists, lists-IsListHead}
use mlib.Samples.Stored.{global, stored}
use mlib.Playlist.Find.{locate}

abbrev text_a : Text
text_a = b'a' ∷ []

abbrev text_b : Text
text_b = b'b' ∷ []

abbrev command_a : Command ℕ
command_a = record { name = text_a; desc = []; main = 0 }

abbrev command_b : Command ℕ
command_b = record { name = text_b; desc = []; main = 1 }

taken_a : (command_register lists command_a (command_b ∷ [])).0 ≡ ok
unfolding command_register register_behind strcmp
taken_a = refl

refused_b : (command_register lists command_b (command_b ∷ [])).0 ≡ failed
unfolding command_register register_behind strcmp
refused_b = refl

find-command_register_example :
    find_command text_b (command_register lists command_a (command_b ∷ [])).1 ≡ (
      if is_eq (strcmp text_a text_b) then some command_a else find_command text_b (command_b ∷ []))
find-command_register_example =
    find-command_register lists-IsListHead command_a (command_b ∷ []) text_b taken_a

abbrev player : Engine
player = record {
  name = some text_a;
  caps = record { audio = true; video = true; others = 0 };
  play_audio = none;
  play_video = some (λ uri. ok);
  toggle = none;
  stop = none;
}

engine_register-IsEngines_example :
    IsEngines (engine_register lists player (record { engines = []; current = none })).2
engine_register-IsEngines_example =
    engine_register-IsEngines lists-IsListHead player (record { engines = []; current = none })
      (record { all = tt; current_first = refl })

-- "mp3,mkv"
abbrev list_of_two : Text
list_of_two = b'm' ∷ b'p' ∷ b'3' ∷ b',' ∷ b'm' ∷ b'k' ∷ b'v' ∷ []

filter-Matches_example :
    ((filter list_of_two (text_a ∷ text_b ∷ []) ≡ some true)
      × Matches list_of_two (text_a ∷ text_b ∷ []))
    ⊎ ((filter list_of_two (text_a ∷ text_b ∷ []) ≡ some false)
        × (Matches list_of_two (text_a ∷ text_b ∷ []) → ⊥))
filter-Matches_example =
    filter-Matches list_of_two (text_a ∷ text_b ∷ []) (omega arith, (omega arith, tt))

read_all-line_example :
    Pieces 4 list_of_two
      (read_all 8 4 (ready ([] ∷ list_of_two ∷ text_b ∷ [])))
      (ready (text_b ∷ []))
read_all-line_example =
    read_all-line 4 1 b'm' (b'p' ∷ b'3' ∷ b',' ∷ b'm' ∷ b'k' ∷ b'v' ∷ []) (text_b ∷ [])
      (omega arith)

no_streams : Streams
no_streams = record { input_streams = []; current_stream = stdin }

read_line-words_example :
    read_line lists (λ n. true) (eol ∷ string text_a ∷ string text_b ∷ eol ∷ eol ∷ []) no_streams
    ≡ some (record {
      status = ok;
      argv = some (text_a ∷ text_b ∷ []);
      rest = eol ∷ [];
      streams = no_streams;
    })
read_line-words_example =
    read_line-words lists (λ n. true) (λ n. refl) 1 text_a (text_b ∷ []) (eol ∷ []) no_streams

empty_array :
    room_for_one (λ n. true) (record { argv = []; len = 0 }) ≡ some (record { argv = []; len = 8 })
unfolding room_for_one
empty_array = refl

abbrev print_two : Vsnprintf
print_two size = (some (length list_of_two), take (size - 1) list_of_two)

print_two-IsVsnprintf : IsVsnprintf print_two list_of_two
print_two-IsVsnprintf = λ size. inl refl

queue_printf-queued_example :
    queue_printf lists 9 true true (λ n. true) print_two (text_a ∷ [])
    ≡ some (ok, text_a ∷ list_of_two ∷ [])
queue_printf-queued_example =
    queue_printf-queued print_two list_of_two print_two-IsVsnprintf (λ n. true) (λ n. refl)
      lists-IsListHead (text_a ∷ [])

empty_print_queue-joined_example :
    empty_print_queue lists 2 (text_a ∷ text_b ∷ []) ≡ some (b'a' ∷ b'b' ∷ [], [])
empty_print_queue-joined_example = empty_print_queue-joined lists-IsListHead (text_a ∷ text_b ∷ [])

abbrev one_module : Module
one_module = record {
  address = 64;
  name = some text_a;
  desc = none;
  init = some ok;
  registers = nothing;
  syms = 0;
}

abbrev linker : Linker
linker = record { dlopen = λ path. some 3; dlsym = λ handle. some one_module }

-- The stored library has an empty name.
nameless : lib_name stored ≡ some ([], stored)
unfolding lib_name writel
nameless =
    load_text-IsText stored (record { base = 7; off = 12 }) [] refl refl (omega arith) (omega arith)

abbrev alone : Place
alone = record { before = []; lib = stored; after = [] }

found_alone : find_library text_a (stored ∷ []) ≡ some (some alone)
unfolding find_library find_behind strncmp
found_alone = ground (arith, nameless)

find_library-IsFirst_example :
    (r : Option Place) × ((find_library text_a (stored ∷ []) ≡ some r)
      × IsFirst text_a (stored ∷ []) r)
find_library-IsFirst_example = find_library-IsFirst text_a (stored ∷ []) ([] ∷ []) (nameless, tt)

missing_a : locate text_a (global ∷ []) 1024 ≡ none
unfolding locate strncmp
missing_a = refl
