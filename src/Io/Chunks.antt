-- ===== src/Io/Chunks.antt =====
-- How a line that was typed reaches the lexer: `__mlib_readbuf_term` gives it in pieces.
use mlib.Prelude.{
  All, ◌∙◌, ℕ, zero, suc, ◌+◌, ◌-◌, ◌≤◌, ◌<◌, ◌≡◌, ◌⊎◌, inl, inr, refl, sym, ap, Option, some, none,
  List, [], ◌∷◌, ◌++◌, length, take, replicate, ltb, if◌then◌else◌, arith,
}
use mlib.Text.{Text}
use mlib.Io.{Terminal, next_line, drop, read_chunk, readbuf_term}

-- The pieces, until NULL comes.
unfoldable pub read_all : (rounds most : ℕ) → Terminal → Option (List Text × Terminal)
read_all zero most t = none
read_all (suc rounds) most t =
    let more = read_all rounds most (readbuf_term most t).1 in
    elim (readbuf_term most t).0 [
      | none ↦ some ([], (readbuf_term most t).1)
      | some piece ↦ elim more [ none ↦ none | some r ↦ some (piece ∷ r.0, r.1) ]
    ]

take-drop : (n : ℕ) (s : Text) → take n s ++ drop n s ≡ s
take-drop zero s = refl
take-drop (suc n) [] = refl
take-drop (suc n) (c ∷ s) = ap (λ r. c ∷ r) (take-drop n s)

drop_nil : (n : ℕ) → drop {A = ℕ} n [] ≡ []
drop_nil zero = refl
drop_nil (suc n) = refl

drop-drop : (n k : ℕ) (s : Text) → drop n (drop k s) ≡ drop (k + n) s
drop-drop n zero s = let e : 0 + n ≡ n = omega arith in rw e refl
drop-drop n (suc k) [] = let e : suc k + n ≡ suc (k + n) = omega arith in rw e (drop_nil n)
drop-drop n (suc k) (c ∷ s) =
    let e : suc k + n ≡ suc (k + n) = omega arith in rw e (drop-drop n k s)

drop_all : (n : ℕ) (s : Text) → length s ≤ n → drop n s ≡ []
drop_all zero [] h = refl
drop_all zero (c ∷ s) h = absurd (omega arith)
drop_all (suc n) [] h = refl
drop_all (suc n) (c ∷ s) h = drop_all n s (omega arith)

abbrev pub reading : Text → ℕ → List Text → Terminal
reading line k typed = record { readline_buff = some line; read_bytes = k; typed = typed }

-- Nothing is left of the last line.
abbrev pub ready : List Text → Terminal
ready typed = record { readline_buff = none; read_bytes = 0; typed = typed }

abbrev pub piece : ℕ → Text → ℕ → ℕ
piece most line k = if ltb most (length line - k) then most else length line - k

pub readbuf_term_end :
    (most : ℕ) (line : Text) (k : ℕ) (typed : List Text)
    → length line ≤ k
    → readbuf_term most (reading line k typed) ≡ (none, ready typed)
unfolding readbuf_term read_chunk
readbuf_term_end most line k typed h = ground arith

pub readbuf_term_more :
    (most : ℕ) (line : Text) (k : ℕ) (typed : List Text)
    → k < length line
    → readbuf_term most (reading line k typed)
      ≡ (some (take (piece most line k) (drop k line)), reading line (k + piece most line k) typed)
unfolding readbuf_term read_chunk
readbuf_term_more most line k typed h = ground arith

read_all_end :
    (rounds most : ℕ) (t u : Terminal)
    → readbuf_term most t ≡ (none, u)
    → read_all (suc rounds) most t ≡ some ([], u)
unfolding read_all
read_all_end rounds most t u h = ground arith

read_all_more :
    (rounds most : ℕ) (t u v : Terminal) (p : Text) (ps : List Text)
    → readbuf_term most t ≡ (some p, u)
    → read_all rounds most u ≡ some (ps, v)
    → read_all (suc rounds) most t ≡ some (p ∷ ps, v)
unfolding read_all
read_all_more rounds most t u v p ps h k = ground arith

le-cases : (a b : ℕ) → (a ≤ b) ⊎ (b < a)
le-cases a b = omega arith

-- All pieces in a row.
unfoldable pub joined : List Text → Text
joined [] = []
joined (p ∷ ps) = p ++ joined ps

length-take_le : (n : ℕ) (s : Text) → length (take n s) ≤ n
length-take_le zero s = omega arith
length-take_le (suc n) [] = omega arith
length-take_le (suc n) (c ∷ s) = omega (arith, length-take_le n s)

-- The pieces of the text, each of `most` bytes at most, and then NULL.
abbrev pub Pieces : ℕ → Text → Option (List Text × Terminal) → Terminal → Type 0
Pieces most s r t =
    (ps : List Text) × (r ≡ some (ps, t)) × (joined ps ≡ s) × All (λ p. length p ≤ most) ps

read_all-rest :
    (rounds most : ℕ) (line : Text) (k : ℕ) (typed : List Text)
    → 1 ≤ most
    → length line < k + rounds
    → k ≤ length line
    → Pieces most (drop k line) (read_all rounds most (reading line k typed)) (ready typed)
unfolding joined
read_all-rest zero most line k typed one fuel le = absurd (omega arith)
read_all-rest (suc rounds) most line k typed one fuel le = elim (le-cases (length line) k) [
  | inl past ↦ (
    [],
    read_all_end rounds most (reading line k typed) (ready typed)
        (readbuf_term_end most line k typed past),
    sym (drop_all k line past),
    tt,
  )
  | inr more ↦
      let m = piece most line k in
      let (ps, run, all, small) =
        read_all-rest rounds most line (k + m) typed one (ground arith) (ground arith) in
      let fits : m ≤ most = ground arith in
      let short = length-take_le m (drop k line) in
      (
        take m (drop k line) ∷ ps,
        read_all_more rounds most (reading line k typed) (reading line (k + m) typed) (ready typed)
            (take m (drop k line)) ps (readbuf_term_more most line k typed more) run,
        ap (λ r. take m (drop k line) ++ r) (all ∙ sym (drop-drop m k line))
            ∙ take-drop m (drop k line),
        (omega arith, small),
      )
]

next_line-blank :
    (blank c : ℕ) (s : Text) (typed : List Text)
    → next_line (replicate blank [] ++ (c ∷ s) ∷ typed) ≡ (some (c ∷ s), typed)
unfolding next_line
next_line-blank zero c s typed = refl
next_line-blank (suc blank) c s typed = next_line-blank blank c s typed

readbuf_term-ready :
    (most blank c : ℕ) (s : Text) (typed : List Text)
    → readbuf_term most (ready (replicate blank [] ++ (c ∷ s) ∷ typed))
      ≡ readbuf_term most (reading (c ∷ s) 0 typed)
unfolding readbuf_term
readbuf_term-ready most blank c s typed = ground (arith, next_line-blank blank c s typed)

read_all-ready :
    (rounds most : ℕ) (t u : Terminal)
    → readbuf_term most t ≡ readbuf_term most u
    → read_all rounds most t ≡ read_all rounds most u
unfolding read_all
read_all-ready zero most t u h = refl
read_all-ready (suc rounds) most t u h = ground arith

-- The first line typed that is not empty reaches the reader of __mlib_readbuf_term whole, in pieces
-- of at most the buffer's size, which is not 0, and then NULL comes; the lines behind it are still
-- to be read. At most two more calls are needed than the line has bytes behind its first.
pub read_all-line :
    (most blank c : ℕ) (s : Text) (typed : List Text)
    → 1 ≤ most
    → Pieces most
        (c ∷ s)
        (read_all (length s + 2) most (ready (replicate blank [] ++ (c ∷ s) ∷ typed)))
        (ready typed)
read_all-line most blank c s typed one =
    rw
      (read_all-ready (length s + 2) most (ready (replicate blank [] ++ (c ∷ s) ∷ typed))
        (reading (c ∷ s) 0 typed) (readbuf_term-ready most blank c s typed))
      (read_all-rest (length s + 2) most (c ∷ s) 0 typed one (omega arith) (omega arith))
