-- ===== src/Util/Filter.antt =====
-- `mlib_filter` against the endings of a name.
use mlib.Prelude.{
  ℕ, zero, suc, ◌+◌, ◌-◌, ◌≤◌, ◌≡◌, ◌⊎◌, inl, inr, refl, ap, ◌∙◌, Bool, true, false, Bool-cases,
  Option, some, List, [], ◌∷◌, ◌++◌, All, length, take, length-append, arith,
}
use mlib.Text.{Text, strcmp, is_eq}
use mlib.Text.Order.{strcmp-eq, strcmp_self}
use mlib.Util.{from, ends_with, filter_loop, filter}

-- Some type is an ending of the name.
abbrev pub Matches : Text → List Text → Type 0
Matches file [] = ⊥
Matches file (filt ∷ mtypes) = ((stem : Text) × (stem ++ filt ≡ file)) ⊎ Matches file mtypes

take-from : (n : ℕ) (s : Text) → take n s ++ from n s ≡ s
take-from zero s = refl
take-from (suc n) [] = refl
take-from (suc n) (c ∷ s) = ap (λ r. c ∷ r) (take-from n s)

from-append : (stem s : Text) → from (length stem) (stem ++ s) ≡ s
from-append [] s = refl
from-append (c ∷ stem) s = from-append stem s

-- What a test says of an ending.
abbrev Decides : Text → Text → Option Bool → Type 0
Decides file filt b =
    ((b ≡ some true) × ((stem : Text) × (stem ++ filt ≡ file)))
    ⊎ ((b ≡ some false) × (((stem : Text) × (stem ++ filt ≡ file)) → ⊥))

ending-eq :
    (file filt stem : Text)
    → stem ++ filt ≡ file
    → is_eq (strcmp filt (from (length file - length filt) file)) ≡ true
ending-eq file filt stem e =
    let behind : length stem + length filt - length filt ≡ length stem = omega arith in
    rw (← e, length-append stem filt, behind, from-append stem filt, strcmp_self filt) refl

ends_with-Decides :
    (file filt : Text) → length filt ≤ length file → Decides file filt (ends_with file filt)
unfolding ends_with
ends_with-Decides file filt le =
    let k = length file - length filt in
    elim (Bool-cases (is_eq (strcmp filt (from k file)))) [
      | inl e ↦ inl (
        ground arith,
        (
          take k file,
          ap (λ r. take k file ++ r) (strcmp-eq filt (from k file) (ground arith))
              ∙ take-from k file,
        ),
      )
      | inr e ↦ inr (ground arith, λ h. cc (e, ending-eq file filt h.0 h.1))
    ]

filter_loop-Matches :
    (file : Text) (mtypes : List Text)
    → All (λ filt. length filt ≤ length file) mtypes
    → ((filter_loop file mtypes ≡ some true) × Matches file mtypes)
      ⊎ ((filter_loop file mtypes ≡ some false) × (Matches file mtypes → ⊥))
unfolding filter_loop
filter_loop-Matches file [] h = inr (refl, λ m. m)
filter_loop-Matches file (filt ∷ mtypes) h = elim (ends_with-Decides file filt h.0) [
  | inl (e, stem) ↦ inl (ground arith, inl stem)
  | inr (e, not_one) ↦ elim (filter_loop-Matches file mtypes h.1) [
    | inl (f, m) ↦ inl (ground arith, inr m)
    | inr (f, m) ↦ inr (ground arith, λ o. elim o [ inl stem ↦ not_one stem | inr more ↦ m more ])
  ]
]

-- If none of the types is longer than the file's name, mlib_filter reads nothing outside the name,
-- and it returns true if the name ends in one of the types and false if it ends in none.
pub filter-Matches :
    (file : Text) (mtypes : List Text)
    → All (λ filt. length filt ≤ length file) mtypes
    → ((filter file mtypes ≡ some true) × Matches file mtypes)
      ⊎ ((filter file mtypes ≡ some false) × (Matches file mtypes → ⊥))
unfolding filter
filter-Matches file [] h = inr (refl, λ m. m)
filter-Matches file (filt ∷ mtypes) h =
    elim (filter_loop-Matches file (filt ∷ filt ∷ mtypes) (h.0, h)) [
      | inl (f, m) ↦ inl (f, elim m [ inl stem ↦ inl stem | inr more ↦ more ])
      | inr (f, m) ↦ inr (f, λ o. m (inr o))
    ]
