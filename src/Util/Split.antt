-- ===== src/Util/Split.antt =====
-- `mlib_parse_list` against the words between the delimiters.
use mlib.Prelude.{ℕ, ◌+◌, Option, none, some, List, [], ◌∷◌, ◌==◌, if◌then◌else◌}
use mlib.Text.{Text}

-- A word that gets one more character in front.
abbrev longer : ℕ → List Text → List Text
longer c [] = (c ∷ []) ∷ []
longer c (w ∷ ws) = (c ∷ w) ∷ ws

-- The words between the delimiters, empty ones too: one more than there are delimiters.
unfoldable pub words : ℕ → Text → List Text
words delimiter [] = [] ∷ []
words delimiter (c ∷ s) =
    let rest = words delimiter s in if c == delimiter then [] ∷ rest else longer c rest

abbrev words_of : ℕ → Option Text → List Text
words_of delimiter none = []
words_of delimiter (some s) = words delimiter s

-- How many words are not empty.
unfoldable pub filled : List Text → ℕ
filled [] = 0
filled ([] ∷ ws) = filled ws
filled ((c ∷ w) ∷ ws) = filled ws + 1

-- The words behind a delimiter.
unfoldable pub behind_first : List Text → List Text
behind_first [] = []
behind_first (w ∷ ws) = ws

-- The words behind a delimiter that are not empty.
abbrev pub later_words : ℕ → Text → ℕ
later_words d s = filled (behind_first (words d s))
