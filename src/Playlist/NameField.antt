-- ===== src/Playlist/NameField.antt =====
-- The name field of `struct mlib_playlist` as `mlib_start_playlist` writes it.
use mlib.Prelude.{
  ℕ, zero, suc, ◌+◌, ◌-◌, ◌≤◌, ◌<◌, ◌≡◌, inl, inr, refl, ap, ◌∙◌, List, [], ◌∷◌, ◌++◌, All, length,
  take, replicate, get_or, length-append, arith,
}
use mlib.Bytes.{put}
use mlib.Bytes.Laws.{readl-ext, put-out, put-IsBytes}
use mlib.Memory.{Library}
use mlib.Text.{Text}
use mlib.Text.Stored.{IsCString}
use mlib.Space.Invariant.{IsLibrary}
use mlib.Playlist.{name_field}

length-replicate : (n b : ℕ) → length (replicate n b) ≡ n
length-replicate zero b = refl
length-replicate (suc n) b = ap suc (length-replicate n b)

take_all : (n : ℕ) (s : Text) → length s ≤ n → take n s ≡ s
take_all zero [] h = refl
take_all zero (c ∷ s) h = absurd (omega arith)
take_all (suc n) [] h = refl
take_all (suc n) (c ∷ s) h = ground (arith, take_all n s)

pub IsCString-bytes : (s : Text) (n : ℕ) → IsCString s → All (λ b. b < 256) (s ++ replicate n 0)
IsCString-bytes [] zero h = tt
IsCString-bytes [] (suc n) h = (omega arith, IsCString-bytes [] n tt)
IsCString-bytes (c ∷ s) n h = (h.0.1, IsCString-bytes s n h.1)

pub get_or-padded :
    (s : Text) (n i : ℕ)
    → i ≤ length s
    → get_or (s ++ replicate (suc n) 0) i 0 ≡ get_or (s ++ 0 ∷ []) i 0
get_or-padded [] n zero h = refl
get_or-padded [] n (suc i) h = absurd (omega arith)
get_or-padded (c ∷ s) n zero h = refl
get_or-padded (c ∷ s) n (suc i) h = get_or-padded s n i (omega arith)

-- The name field of a name that fits.
abbrev pub field : Text → List ℕ
field name = name ++ replicate (suc (115 - length name)) 0

pub name_field-field : (name : Text) → length name ≤ 115 → name_field name ≡ field name
unfolding name_field
name_field-field name short =
    let left : 116 - length name ≡ suc (115 - length name) = omega arith in
    rw (take_all 115 name short, left) refl

pub length-field : (name : Text) → length name ≤ 115 → length (field name) ≡ 116
length-field name short = omega (
  arith,
  length-append name (replicate (suc (115 - length name)) 0),
  length-replicate (115 - length name) 0,
)

pub put-IsLibrary :
    {l : Library} (a : ℕ) (bs : List ℕ)
    → IsLibrary l
    → 12 ≤ a
    → a + length bs ≤ l.size
    → All (λ b. b < 256) bs
    → IsLibrary (record l { bytes = put l.bytes a bs })
put-IsLibrary {l} a bs v lo hi small = record {
  length_field =
      readl-ext (put l.bytes a bs) l.bytes 8 8 (put-out l.bytes a bs 8 (inl (omega arith)))
        (put-out l.bytes a bs 9 (inl (omega arith))) (put-out l.bytes a bs 10 (inl (omega arith)))
        (put-out l.bytes a bs 11 (inl (omega arith)))
      ∙ v.length_field;
  in_map = v.in_map;
  has_header = v.has_header;
  small = v.small;
  zero_past = λ x h. put-out l.bytes a bs x (inr (omega arith)) ∙ v.zero_past x h;
  are_bytes = put-IsBytes l.bytes a bs v.are_bytes small;
}
