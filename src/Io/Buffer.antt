-- ===== src/Io/Buffer.antt =====
-- What `mlib_readbuf` reads of a line that was typed.
use native.Mathlib.Decide.{dec_lt}
use mlib.Prelude.{
  true, false, ltb, leb, le→leb, lt→leb_false, if◌then◌else◌, ℕ, zero, suc, ap, ◌+◌, ◌-◌, ◌≤◌, ◌<◌,
  ◌≡◌, refl, Option, none, some, List, [], ◌∷◌, ◌++◌, length, take, arith,
}
use mlib.Text.{Text}
use mlib.Io.{File, stdin, Terminal, drop, readbuf_term, strlen_in, remember, readbuf}
use mlib.Io.Chunks.{reading, piece, ready, readbuf_term_end, readbuf_term_more}

length-drop : (k : ℕ) (s : Text) → k ≤ length s → length (drop k s) + k ≡ length s
length-drop zero s le = omega arith
length-drop (suc k) [] le = absurd (omega arith)
length-drop (suc k) (c ∷ s) le = omega (arith, length-drop k s (omega arith))

take_all : (n : ℕ) (s : Text) → length s ≡ n → take n s ≡ s
take_all zero [] e = refl
take_all zero (c ∷ s) e = absurd (omega arith)
take_all (suc n) [] e = absurd (omega arith)
take_all (suc n) (c ∷ s) e = ap (λ r. c ∷ r) (take_all n s (omega arith))

length-take : (n : ℕ) (s : Text) → n ≤ length s → length (take n s) ≡ n
length-take zero s le = refl
length-take (suc n) [] le = absurd (omega arith)
length-take (suc n) (c ∷ s) le = omega (arith, length-take n s (omega arith))

remember_short :
    (most : ℕ) (history : List Text) (p : Text) (t : Terminal)
    → 0 < length p
    → length p < most
    → remember most history (some p, t)
      ≡ some (record { count = length p; buffer = p; terminal = t; history = history ++ p ∷ [] })
unfolding remember strlen_in
remember_short most history p t one short = ground arith

remember_full :
    (most : ℕ) (history : List Text) (p : Text) (t : Terminal)
    → most ≤ length p
    → remember most history (some p, t) ≡ none
unfolding remember strlen_in
remember_full most history p t full = ground arith

short_rest :
    (most : ℕ) (line : Text) (k : ℕ) (typed history : List Text)
    → k < length line
    → length line - k < most
    → remember most history (readbuf_term most (reading line k typed))
      ≡ some (record {
        count = length line - k;
        buffer = drop k line;
        terminal = reading line (length line) typed;
        history = history ++ drop k line ∷ [];
      })
short_rest most line k typed history more short =
    let size = length-drop k line (omega arith) in
    let whole : piece most line k ≡ length line - k = ground arith in
    let end : k + (length line - k) ≡ length line = omega arith in
    let left : length (drop k line) ≡ length line - k = omega arith in
    rw
      (
        readbuf_term_more most line k typed more,
        whole,
        end,
        take_all (length line - k) (drop k line) left,
      )
      (rw⁻¹ left (
        remember_short most history (drop k line) (reading line (length line) typed) (omega arith)
          (omega arith)))

full_rest :
    (most : ℕ) (line : Text) (k : ℕ) (typed history : List Text)
    → k < length line
    → most ≤ length line - k
    → remember most history (readbuf_term most (reading line k typed)) ≡ none
full_rest most line k typed history more full =
    let size = length-drop k line (omega arith) in
    let cut : piece most line k ≡ most = ground arith in
    rw (readbuf_term_more most line k typed more) (
      remember_full most history (take (piece most line k) (drop k line))
        (reading line (k + piece most line k) typed)
        (omega (arith, cut, length-take (piece most line k) (drop k line) (omega (arith, cut)))))

-- Of a line that was typed, behind its first `k` bytes, mlib_readbuf gives the rest where that is
-- shorter than the buffer, and remembers it; where nothing is left it returns 0 and the line is
-- gone; but where the rest fills the buffer, no zero is left in it, and the length is read past its
-- end.
pub readbuf-overruns :
    (fgets : File → ℕ → Option Text) (most : ℕ) (line : Text) (k : ℕ) (typed history : List Text)
    → readbuf fgets most (some stdin) (reading line k typed) history ≡ (
        if leb (length line) k
        then some (record { count = 0; buffer = []; terminal = ready typed; history = history })
        else if ltb (length line - k) most
        then some (record {
          count = length line - k;
          buffer = drop k line;
          terminal = reading line (length line) typed;
          history = history ++ drop k line ∷ [];
        })
        else none)
unfolding readbuf
readbuf-overruns fgets most line k typed history = elim (dec_lt k (length line)) [
  | no past ↦
      rw (le→leb (length line) k (omega arith), readbuf_term_end most line k typed (omega arith))
        (unfold remember in refl)
  | yes more ↦ elim (dec_lt (length line - k) most) [
    | yes short ↦
        let e : ltb (length line - k) most ≡ true = ground arith in
        rw (lt→leb_false (length line) k more, e) (short_rest most line k typed history more short)
    | no full ↦
        let e : ltb (length line - k) most ≡ false = ground arith in
        rw (lt→leb_false (length line) k more, e)
          (full_rest most line k typed history more (omega arith))
  ]
]
