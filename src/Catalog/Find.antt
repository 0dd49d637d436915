-- ===== src/Catalog/Find.antt =====
-- What name finds which library.
use mathlib.Core.List.{append_assoc, append-nil}
use mlib.Prelude.{
  ℕ, ◌≡◌, ◌≢◌, ap, ◌⊎◌, inl, inr, refl, sym, true, false, Option, none, some, List, [], ◌∷◌, ◌++◌,
  All, length, if◌then◌else◌, arith,
}
use mlib.Memory.{Library, ok, failed}
use mlib.Text.{Text, strncmp, is_eq}
use mlib.Lists.{ListHead, IsListHead}
use mlib.Space.{Os, lib_len, sync_library}
use mlib.Catalog.{Place, lib_name, find_behind, find_library, shut_down, close_library}

-- `strncmp` over the whole of `t` says whether `s` begins with `t`.
abbrev pub Begins : Text → Text → Type 0
Begins s t = (rest : Text) × (t ++ rest ≡ s)

equal-cases : (a b : ℕ) → (a ≡ b) ⊎ (a ≢ b)
equal-cases a b = ground arith

strncmp-Begins :
    (s t : Text)
    → ((is_eq (strncmp s t (length t)) ≡ true) × Begins s t)
      ⊎ ((is_eq (strncmp s t (length t)) ≡ false) × (Begins s t → ⊥))
unfolding strncmp
strncmp-Begins s [] = inl (refl, (s, refl))
strncmp-Begins [] (d ∷ t) = inr (refl, λ b. cc (b.1))
strncmp-Begins (c ∷ s) (d ∷ t) = elim (equal-cases c d) [
  | inr other ↦ inr (ground arith, λ b. other (cc (b.1)))
  | inl same ↦ elim (strncmp-Begins s t) [
    | inl (e, b) ↦ inl (ground arith, (b.0, rw same (ap (λ r. d ∷ r) b.1)))
    | inr (e, not_so) ↦ inr (ground arith, λ b. not_so (b.0, cc (b.1)))
  ]
]

-- The names of libraries that can be read.
abbrev pub Named : List Library → List Text → Type 0
Named [] [] = Unit
Named [] (n ∷ ns) = ⊥
Named (l ∷ ls) [] = ⊥
Named (l ∷ ls) (n ∷ ns) = (lib_name l ≡ some (n, l)) × Named ls ns

-- None of these names begins the one that is looked for.
abbrev pub NoneBegins : Text → List Text → Type 0
NoneBegins name ns = All (λ n. Begins name n → ⊥) ns

-- What is found: NULL if no library's name begins the one that is looked for, and if not the first
-- library whose name does.
abbrev pub IsFirst : Text → List Library → Option Place → Type 0
IsFirst name libs none = (ns : List Text) × (Named libs ns × NoneBegins name ns)
IsFirst name libs (some p) =
    (libs ≡ p.before ++ p.lib ∷ p.after)
    × ((ns : List Text) × (Named p.before ns × NoneBegins name ns))
    × ((n : Text) × ((lib_name p.lib ≡ some (n, p.lib)) × Begins name n))

Named-append :
    (ls : List Library) (ns : List Text) (l : Library) (n : Text)
    → Named ls ns
    → lib_name l ≡ some (n, l)
    → Named (ls ++ l ∷ []) (ns ++ n ∷ [])
Named-append [] [] l n h e = (e, tt)
Named-append [] (m ∷ ns) l n h e = absurd h
Named-append (x ∷ ls) [] l n h e = absurd h
Named-append (x ∷ ls) (m ∷ ns) l n h e = (h.0, Named-append ls ns l n h.1 e)

NoneBegins-append :
    (name : Text) (ns : List Text) (n : Text)
    → NoneBegins name ns
    → (Begins name n → ⊥)
    → NoneBegins name (ns ++ n ∷ [])
NoneBegins-append name [] n h e = (e, tt)
NoneBegins-append name (m ∷ ns) n h e = (h.0, NoneBegins-append name ns n h.1 e)

find_behind-IsFirst :
    (name : Text) (before libs : List Library) (ns ms : List Text)
    → Named before ns
    → NoneBegins name ns
    → Named libs ms
    → (r : Option Place) × ((find_behind name before libs ≡ some r)
        × IsFirst name (before ++ libs) r)
unfolding find_behind
find_behind-IsFirst name before [] ns ms named missed open_ =
    (none, (refl, (ns, (rw (append-nil before) named, missed))))
find_behind-IsFirst name before (lib ∷ libs) ns [] named missed open_ = absurd open_
find_behind-IsFirst name before (lib ∷ libs) ns (m ∷ ms) named missed open_ =
    elim (strncmp-Begins name m) [
      | inl (e, b) ↦
          let place : Place = record { before = before; lib = lib; after = libs } in
          (some place, (ground (arith, open_.0), (refl, (ns, (named, missed)), (m, (open_.0, b)))))
      | inr (e, b) ↦
          let further =
            find_behind-IsFirst name (before ++ lib ∷ []) libs (ns ++ m ∷ []) ms
              (Named-append before ns lib m named open_.0) (NoneBegins-append name ns m missed b)
              open_.1 in
          (
            further.0,
            (
              ground (arith, open_.0, further.1.0),
              rw (sym (append_assoc before (lib ∷ []) libs)) further.1.1,
            ),
          )
    ]

-- The search through the open libraries, whose names can all be read, ends without a fault and
-- finds the first whose name begins the name that is looked for (it need not be equal to it), and
-- NULL if there is none.
pub find_library-IsFirst :
    (name : Text) (libs : List Library) (ms : List Text)
    → Named libs ms
    → (r : Option Place) × ((find_library name libs ≡ some r) × IsFirst name libs r)
unfolding find_library
find_library-IsFirst name libs ms named = find_behind-IsFirst name [] libs [] ms tt tt named

module _ {h : ListHead} (k : IsListHead h) (os : Os) where
  -- Closing a library whose length can be read takes it from the list and leaves the others in
  -- their order; what is returned is the result of `msync`. The list deletes as include/mlib/list.h
  -- documents.
  pub close_library-append :
      (place : Place) (len : ℕ)
      → lib_len place.lib ≡ some (len, place.lib)
      → close_library h os place
        ≡ some (if os.msync then ok else failed, place.before ++ place.after)
  unfolding close_library shut_down sync_library
  close_library-append place len e = ground (arith, k.deletes place.before place.lib place.after)
