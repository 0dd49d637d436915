-- ===== src/Util.antt =====
-- src/util.c: lists of words in one string, offsets in a library, and file name endings.
pub mod Split
pub mod Filter
use mlib.Prelude.{
  ℕ, zero, suc, ◌+◌, ◌-◌, Bool, true, false, not, ◌&&◌, Option, none, some, List, [], ◌∷◌, ltb,
  ◌==◌, if◌then◌else◌, length,
}
use mlib.Memory.{Ptr, M, pure, and_then, ◌>>=◌, u32, header, ptr_diff}
use mlib.Text.{Text, strcmp, is_eq}

-- The first loop of `mlib_parse_list`: the delimiters with something else behind them.
unfoldable pub count_delimiters : ℕ → Text → ℕ
count_delimiters delimiter [] = 0
count_delimiters delimiter (c ∷ []) = 0
count_delimiters delimiter (c ∷ d ∷ s) =
    let further = count_delimiters delimiter (d ∷ s) in
    if (c == delimiter) && not (d == delimiter) then further + 1 else further

-- The string that stands at `s` once the delimiters are zeros.
unfoldable pub segment : ℕ → Text → Text
segment delimiter [] = []
segment delimiter (c ∷ s) =
    let rest = segment delimiter s in if c == delimiter then [] else c ∷ rest

-- `while (*list_mem++)`: what stands behind the string's zero, `none` past the end of the copy.
unfoldable pub behind : ℕ → Text → Option Text
behind delimiter [] = none
behind delimiter (c ∷ s) = let rest = behind delimiter s in if c == delimiter then some s else rest

-- The last loop of `mlib_parse_list`; `none` where it reads past the end of the copy.
unfoldable pub strings_of : ℕ → ℕ → Option Text → Option (List Text)
strings_of delimiter zero s = some []
strings_of delimiter (suc count) none = none
strings_of delimiter (suc count) (some s) =
    let further = strings_of delimiter count (behind delimiter s) in
    elim further [ none ↦ none | some strings ↦ some (segment delimiter s ∷ strings) ]

-- What is stored at `len`, which is tested for the number that it points to; `none` is NULL, which is
-- read all the same, and a fault.
unfoldable pub store_len : ℕ → Option ℕ → Option ℕ
store_len count none = none
store_len count (some old) = some (if old == 0 then old else count - 1)

-- `mlib_parse_list`: the strings, `none` for NULL, and `*len`. No result is a fault.
unfoldable pub parse_list : ℕ → Text → Option ℕ → Option (Option (List Text) × Option ℕ)
parse_list delimiter list len =
    let count = count_delimiters delimiter list in
    if count == 0 then some (none, len) else (elim (strings_of delimiter count (some list)) [
      | none ↦ none
      | some strings ↦ elim (store_len count len) [
        | none ↦ none
        | some n ↦ some (some strings, some n)
      ]
    ])

-- `mlib_lib_offset`
unfoldable pub lib_offset : Ptr → M ℕ
lib_offset p = do h ← header; d ← ptr_diff p h; pure (u32 d)

-- The string at `file + n`.
abbrev pub from : ℕ → Text → Text
from zero s = s
from (suc n) [] = []
from (suc n) (c ∷ s) = from n s

-- `!strcmp(filt, file + file_len - filt_len)`; `none` where that points in front of the string.
unfoldable pub ends_with : Text → Text → Option Bool
ends_with file filt =
    if ltb (length file) (length filt)
    then none
    else some (is_eq (strcmp filt (from (length file - length filt) file)))

-- The loop of `mlib_filter`, at the types that are still to come.
unfoldable pub filter_loop : Text → List Text → Option Bool
filter_loop file [] = some false
filter_loop file (filt ∷ mtypes) =
    let further = filter_loop file mtypes in
    elim (ends_with file filt) [ none ↦ none | some true ↦ some true | some false ↦ further ]

-- `mlib_filter`: `*mtypes++` gives the first type a second time.
unfoldable pub filter : Text → List Text → Option Bool
filter file [] = some false
filter file (filt ∷ mtypes) = filter_loop file (filt ∷ filt ∷ mtypes)
