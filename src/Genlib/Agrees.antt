-- ===== src/Genlib/Agrees.antt =====
-- The code of the generator against what it should gather: names, prefixes and types.
use mlib.Prelude.{
  ℕ, suc, ◌+◌, ◌-◌, ◌≡◌, refl, ap, ◌∙◌, Bool, inl, inr, true, false, Bool-cases, Option, none, some,
  List, [], ◌∷◌, ◌++◌, length, ◌==◌, arith,
}
use mlib.Text.{Text, strcmp, is_eq, codes}
use mlib.Util.{from, filter, filter_loop, ends_with}
use mlib.Genlib.{drop_prefix, skip_slash, is_wanted, is_dots, audio_ext, video_ext}
use mlib.Genlib.Gather.{same, shared, no_slash, unshared, ends_in, types_of, dots}

strcmp-same : (s t : Text) → is_eq (strcmp s t) ≡ same s t
unfolding strcmp same
strcmp-same [] [] = refl
strcmp-same [] (d ∷ t) = ground arith
strcmp-same (c ∷ s) [] = ground arith
strcmp-same (c ∷ s) (d ∷ t) = ground (arith, strcmp-same s t)

pub is_dots-dots : (name : Text) → is_dots name ≡ dots name
unfolding is_dots dots
is_dots-dots name = rw (strcmp-same name (codes "."), strcmp-same name (codes "..")) refl

skip_slash-no_slash : (s : Text) → skip_slash s ≡ no_slash s
unfolding skip_slash no_slash
skip_slash-no_slash [] = refl
skip_slash-no_slash (c ∷ s) = refl

from_next : (n c : ℕ) (s : Text) → from (1 + n + 1) (c ∷ s) ≡ from (n + 1) s
from_next n c s = let e : 1 + n + 1 ≡ suc (n + 1) = omega arith in rw e refl

unshared_none : (c : ℕ) (path : Text) → some (no_slash path) ≡ unshared (c ∷ path) []
unfolding unshared shared
unshared_none c path = ground arith

unshared_same :
    (c d : ℕ) (path prefix : Text)
    → (c == d) ≡ true
    → unshared path prefix ≡ unshared (c ∷ path) (d ∷ prefix)
unfolding unshared shared
unshared_same c d path prefix eq = rw (eq, from_next (shared path prefix) c path) (ground arith)

unshared_other :
    (c d : ℕ) (path prefix : Text)
    → (c == d) ≡ false
    → some (no_slash path) ≡ unshared (c ∷ path) (d ∷ prefix)
unfolding unshared shared
unshared_other c d path prefix ne = rw ne (ground arith)

drop_prefix_same :
    (c d : ℕ) (path prefix : Text)
    → (c == d) ≡ true
    → drop_prefix (c ∷ path) (d ∷ prefix) ≡ drop_prefix path prefix
unfolding drop_prefix
drop_prefix_same c d path prefix eq = rw eq refl

drop_prefix_other :
    (c d : ℕ) (path prefix : Text)
    → (c == d) ≡ false
    → drop_prefix (c ∷ path) (d ∷ prefix) ≡ some (skip_slash path)
unfolding drop_prefix
drop_prefix_other c d path prefix ne = rw ne refl

pub drop_prefix-unshared : (path prefix : Text) → drop_prefix path prefix ≡ unshared path prefix
unfolding drop_prefix unshared shared
drop_prefix-unshared [] prefix = refl
drop_prefix-unshared (c ∷ path) [] = ap some (skip_slash-no_slash path) ∙ unshared_none c path
drop_prefix-unshared (c ∷ path) (d ∷ prefix) = elim (Bool-cases (c == d)) [
  | inl eq ↦
      drop_prefix_same c d path prefix eq
      ∙ drop_prefix-unshared path prefix
      ∙ unshared_same c d path prefix eq
  | inr ne ↦
      drop_prefix_other c d path prefix ne
      ∙ ap some (skip_slash-no_slash path)
      ∙ unshared_other c d path prefix ne
]

filter_loop-ends_in : (file : Text) (ts : List Text) → filter_loop file ts ≡ ends_in ts file
unfolding filter_loop ends_in ends_with
filter_loop-ends_in file [] = refl
filter_loop-ends_in file (t ∷ ts) =
    ground (arith, strcmp-same t (from (length file - length t) file), filter_loop-ends_in file ts)

filter-ends_in : (file : Text) (ts : List Text) → filter file ts ≡ ends_in ts file
unfolding filter filter_loop
filter-ends_in file [] = filter_loop-ends_in file []
filter-ends_in file (t ∷ ts) =
    ground (arith, filter_loop-ends_in file (t ∷ ts), filter_loop-ends_in file ts)

ends_in-append :
    (name : Text) (xs ys : List Text)
    → ends_in (xs ++ ys) name ≡ (elim (ends_in xs name) [
      | none ↦ none
      | some true ↦ some true
      | some false ↦ ends_in ys name
    ])
unfolding ends_in
ends_in-append name [] ys = refl
ends_in-append name (t ∷ xs) ys = ground (arith, ends_in-append name xs ys)

both_lists :
    (name : Text) (xs ys : List Text)
    → elim (filter name xs) as (λ _. Option Bool) [
      | none ↦ none
      | some true ↦ some true
      | some false ↦ filter name ys
    ]
      ≡ ends_in (xs ++ ys) name
both_lists name xs ys =
    ground (arith, filter-ends_in name xs, filter-ends_in name ys, ends_in-append name xs ys)

pub is_wanted-ends_in :
    (custom_list : Option (List Text)) (name : Text)
    → is_wanted custom_list name ≡ ends_in (types_of custom_list) name
unfolding is_wanted types_of
is_wanted-ends_in (some ts) name = filter-ends_in name ts
is_wanted-ends_in none name = both_lists name audio_ext video_ext
