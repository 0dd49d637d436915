-- ===== src/Store/Bag.antt =====
-- The paths of a playlist, with neither their order nor their place in memory.
use mathlib.Core.Bool.{Bool-set}
use mathlib.Core.Quot
use mathlib.Core.Quot.{Quot, Quot-set}
use mlib.Prelude.{ℕ, ◌+◌, ◌≡◌, Bool, List, [], ◌∷◌, leb, if◌then◌else◌, arith}
use mlib.Text.{Text, strcmp, is_eq}

-- How often a text stands in a list.
abbrev pub count : Text → List Text → ℕ
count a [] = 0
count a (x ∷ xs) = (if is_eq (strcmp x a) then 1 else 0) + count a xs

abbrev pub SameTexts : List Text → List Text → Type 0
SameTexts xs ys = (a : Text) → count a xs ≡ count a ys

abbrev pub Paths : Type 0
Paths = Quot SameTexts

abbrev pub of_list : List Text → Paths
of_list = Quot.mk

unfoldable pub has : Text → Paths → Bool
has a = Quot.lift Bool-set (λ xs. leb 1 (count a xs)) (λ xs ys h. rw (h a))

pub SameTexts-cons : (x : Text) (xs ys : List Text) → SameTexts xs ys → SameTexts (x ∷ xs) (x ∷ ys)
SameTexts-cons x xs ys h a = omega (arith, h a)

unfoldable pub with_path : Text → Paths → Paths
with_path x =
    Quot.lift Quot-set (λ xs. of_list (x ∷ xs)) (λ xs ys h. Quot.sound (SameTexts-cons x xs ys h))
