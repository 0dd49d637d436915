-- ===== src/Bucket/Loop.antt =====
-- The loop of `mlib_bucket_add` that makes room for a string.
use native.Mathlib.Nat.{add-zero, add_assoc}
use native.Mathlib.Decide.{dec_lt}
use mlib.Prelude.{
  ℕ, zero, suc, ◌+◌, ◌*◌, ◌≤◌, ◌<◌, ◌^◌, ◌≡◌, refl, ◌∙◌, ◌⊎◌, inl, true, false, some, List, leb,
  arith, inr,
}
use mlib.Memory.{Library, Ptr, plus, sub64}
use mlib.Space.{Os}
use mlib.Space.Write.{load32_is}
use mlib.Bucket.{Entry, bucket_expand, make_room}
use mlib.Bucket.Room.{
  InPlaylist, Widened, here, Moves-trans, Remapped-trans, Moves-Remapped, Grants,
}
use mlib.Bucket.Expand.{bucket_expand-Widened}

module _ {os : Os} {p plen used offs len : ℕ} {es : List Entry} where
  Widened-refl :
      {l : Library}
      → InPlaylist l p plen used offs len es
      → Widened os l l p plen used offs len es 0
  Widened-refl {l} v = record {
    same_bucket = simp add-zero v;
    moves = here;
    again = inl refl;
    size = omega arith;
    below = λ x h k. refl;
    above = λ x h. rw add-zero;
  }

  Widened-trans :
      {l m n : Library} (g h : ℕ)
      → Widened os l m p plen used offs len es g
      → Widened os m n p (plen + g) used (offs + g) (len + g) es h
      → Widened os l n p plen used offs len es (g + h)
  Widened-trans g h a b = record {
    same_bucket = simp add_assoc at b.same_bucket;
    moves = Moves-trans a.moves b.moves;
    again = elim a.again [
      | inr r ↦ inr (Remapped-trans r b.moves)
      | inl none_yet ↦ elim b.again [
        | inr r ↦ inr (Moves-Remapped a.moves r)
        | inl still_none ↦ inl (omega arith)
      ]
    ];
    size = omega (arith, a.size, b.size);
    below = λ x lt k. b.below x (omega arith) k ∙ a.below x lt k;
    above = λ x le. ground (arith, b.above (x + g), a.above x le);
  }

-- The bucket's pointer, and its test of the space that is left.
abbrev pub at : Library → ℕ → Ptr
at l p = record { base = l.base; off = p + 128 }

-- `g` more bytes leave space for `n` bytes and an index, and are not many more than needed.
abbrev pub Suffices : (used offs n g : ℕ) → Type 0
Suffices used offs n g =
    (16 + used + n + 4 < offs + g) × ((g ≡ 0) ⊎ (offs + g ≤ 16 + used + n + 132))

module _ (os : Os) (grants : Grants os) {p used : ℕ} {es : List Entry} (n : ℕ) where
  -- The test of the loop, in numbers.
  roomy :
      {l : Library} {plen offs len : ℕ}
      → InPlaylist l p plen used offs len es
      → 16 + used + n + 4 < offs
      → leb (sub64 (p + 128 + offs) 4) (p + 128 + 16 + used + n) ≡ false
  roomy v h = ground (
    arith, v.library.small, v.library.in_map, v.inside, v.around, v.holds.indexes_fit, v.holds.room,
  )

  tight :
      {l : Library} {plen offs len : ℕ}
      → InPlaylist l p plen used offs len es
      → ¬ (16 + used + n + 4 < offs)
      → leb (sub64 (p + 128 + offs) 4) (p + 128 + 16 + used + n) ≡ true
  tight v h = ground (
    arith, v.library.small, v.library.in_map, v.inside, v.around, v.holds.indexes_fit, v.holds.room,
  )

  enough :
      (rounds : ℕ) {l : Library} {plen offs len : ℕ}
      → InPlaylist l p plen used offs len es
      → leb (sub64 (p + 128 + offs) 4) (p + 128 + 16 + used + n) ≡ false
      → make_room os (suc rounds) (at l p) n l ≡ some (some (at l p), l)
  unfolding make_room
  enough rounds {l} v test = rw (
    load32_is l (plus (at l p) 12)
        (omega (arith, v.library.in_map, v.inside, v.around, v.holds.indexes_fit, v.holds.room))
        v.holds.bytes_field,
    load32_is l (plus (at l p) 8)
        (omega (arith, v.library.in_map, v.inside, v.around, v.holds.indexes_fit, v.holds.room))
        v.holds.offs_field,
    test,
  )

  widen :
      (rounds : ℕ) {l l' : Library} {plen offs len : ℕ}
      → InPlaylist l p plen used offs len es
      → leb (sub64 (p + 128 + offs) 4) (p + 128 + 16 + used + n) ≡ true
      → bucket_expand os (at l p) 128 l ≡ some (some (at l' p), l')
      → make_room os (suc rounds) (at l p) n l ≡ make_room os rounds (at l' p) n l'
  unfolding make_room
  widen rounds {l} v test grown = rw (
    load32_is l (plus (at l p) 12)
        (omega (arith, v.library.in_map, v.inside, v.around, v.holds.indexes_fit, v.holds.room))
        v.holds.bytes_field,
    load32_is l (plus (at l p) 8)
        (omega (arith, v.library.in_map, v.inside, v.around, v.holds.indexes_fit, v.holds.room))
        v.holds.offs_field,
    test,
    grown,
  )

  -- The loop of mlib_bucket_add that makes room for `n` bytes ends within one round for every 128
  -- bytes that are missing and one more, if the kernel grants every extension, at any address, and
  -- the file stays below 4 GiB. The bucket, in a playlist of a well-formed library, then has space
  -- for the bytes and an index, and is the old one with bytes inserted in front of its index array,
  -- at most 132 more than needed.
  pub make_room-Suffices :
      (rounds : ℕ) {l : Library} {plen offs len : ℕ}
      → InPlaylist l p plen used offs len es
      → 16 + used + n + 4 < offs + 128 * rounds
      → l.size + (16 + used + n + 132) < 2 ^ 32 + offs
      → (g : ℕ) × (l' : Library) × (make_room os (suc rounds) (at l p) n l
          ≡ some (some (at l' p), l'))
        × Widened os l l' p plen used offs len es g
        × Suffices used offs n g
  make_room-Suffices zero {l} {offs} v fuel small =
      (0, l, enough zero v (roomy v (omega arith)), Widened-refl v, (omega arith, inl refl))
  make_room-Suffices (suc rounds) {l} {offs} v fuel small = elim (dec_lt (16 + used + n + 4) offs) [
    | no short ↦
        let fits : l.size + 128 < 2 ^ 32 = omega arith in
        let (l1, run, wide) = bucket_expand-Widened os grants v 128 (omega arith) fits in
        let (g, l2, rest, wider, most) =
          make_room-Suffices rounds wide.same_bucket (omega arith) (omega (arith, wide.size)) in
        (
          128 + g,
          l2,
          widen (suc rounds) v (tight v short) run ∙ rest,
          Widened-trans 128 g wide wider,
          (omega arith, ground arith),
        )
    | yes fits ↦
        (0, l, enough (suc rounds) v (roomy v fits), Widened-refl v, (omega arith, inl refl))
  ]
