-- ===== src/Catalog/Header.antt =====
-- The header that `mlib_create_library` writes.
use native.Mathlib.Nat.{mod-eq_of_lt}
use mlib.Prelude.{
  ℕ, ◌+◌, ◌≤◌, ◌^◌, ◌≡◌, refl, ◌∙◌, inl, inr, some, [], ◌∷◌, ◌++◌, length, length-append, arith,
}
use mlib.Bytes.{Bytes, readl, writel, put, fill}
use mlib.Bytes.Laws.{
  IsBytes, readl-writel, readl-writel_ne, writel-out, writel-IsBytes, put-out, put-in, readl-agree,
}
use mlib.Memory.{Library, Ptr, ok}
use mlib.Memory.Laws.{store32_ok, memset_ok, memcpy_ok}
use mlib.Text.{Text}
use mlib.Text.Stored.{IsText, IsText-of_bytes, IsCString}
use mlib.Space.{Os}
use mlib.Space.Invariant.{IsLibrary}
use mlib.Space.Grow.{lib_len_ok}
use mlib.Playlist.{global_name, start_playlist}
use mlib.Playlist.NameField.{IsCString-bytes, put-IsLibrary}
use mlib.Playlist.Holds.{IsLib}
use mlib.Catalog.{mlib_magic, write_header}

module _ (name given : Text) where
  m0 : Bytes
  m0 = fill (put (λ x. 0) 1023 (0 ∷ [])) 0 1024 0

  m1 : Bytes
  m1 = writel m0 0 mlib_magic

  m2 : Bytes
  m2 = writel m1 4 0

  m3 : Bytes
  m3 = writel m2 8 1024

  m4 : Bytes
  m4 = put m3 12 (name ++ 0 ∷ [])

  pub m5 : Bytes
  m5 = put m4 128 (given ++ 0 ∷ [])

  -- The file while its header is written.
  unfoldable pub filled : ℕ → Bytes → Library
  filled base m = record { base = base; mapped = 1024; size = 1024; bytes = m }

  m0_zero : (x : ℕ) → m0 x ≡ 0
  unfolding m0 fill put
  m0_zero x = ground arith

  m0-IsBytes : IsBytes m0
  m0-IsBytes x = omega (arith, m0_zero x)

  m3-IsLibrary : (b : ℕ) → IsLibrary (filled b m3)
  unfolding filled m1 m2 m3
  m3-IsLibrary b = record {
    length_field = readl-writel m2 8 1024 ∙ mod-eq_of_lt {m = 2 ^ 32} (omega arith);
    in_map = omega arith;
    has_header = omega arith;
    small = omega arith;
    zero_past = λ x h.
        writel-out m2 8 1024 x (inr (omega arith))
        ∙ writel-out m1 4 0 x (inr (omega arith))
        ∙ writel-out m0 0 mlib_magic x (inr (omega arith))
        ∙ m0_zero x;
    are_bytes =
        writel-IsBytes m2 8 1024
          (writel-IsBytes m1 4 0 (writel-IsBytes m0 0 mlib_magic m0-IsBytes));
  }

  module _ (cs : IsCString name) (ps : IsCString given) (short : length name ≤ 115)
      (short_prefix : length given ≤ 895) where
    name_size : length (name ++ 0 ∷ []) ≡ length name + 1
    name_size = length-append name (0 ∷ [])

    prefix_size : length (given ++ 0 ∷ []) ≡ length given + 1
    prefix_size = length-append given (0 ∷ [])

    m5-IsLibrary : (b : ℕ) → IsLibrary (filled b m5)
    unfolding filled m4 m5
    m5-IsLibrary b =
        put-IsLibrary 128 (given ++ 0 ∷ [])
          (put-IsLibrary 12 (name ++ 0 ∷ []) (m3-IsLibrary b) (omega arith)
            (omega (arith, name_size)) (IsCString-bytes name 1 cs))
          (omega arith) (omega (arith, prefix_size)) (IsCString-bytes given 1 ps)

    pub m5-name : IsText m5 12 name
    unfolding m4 m5
    m5-name = IsText-of_bytes m5 12 name cs (λ i le.
        put-out m4 128 (given ++ 0 ∷ []) (12 + i) (inl (omega arith))
        ∙ put-in m3 12 (name ++ 0 ∷ []) i (omega (arith, name_size)))

    pub m5-prefix : IsText m5 128 given
    unfolding m5
    m5-prefix =
        IsText-of_bytes m5 128 given ps
          (λ i le. put-in m4 128 (given ++ 0 ∷ []) i (omega (arith, prefix_size)))

    pub m5-magic : readl m5 0 ≡ mlib_magic
    unfolding m1 m2 m3 m4 m5
    m5-magic =
        readl-agree m5 m3 0 (λ x lo hi.
          put-out m4 128 (given ++ 0 ∷ []) x (inl (omega arith))
          ∙ put-out m3 12 (name ++ 0 ∷ []) x (inl (omega arith)))
        ∙ readl-writel_ne m2 8 1024 0 (inl (omega arith))
        ∙ readl-writel_ne m1 4 0 0 (inl (omega arith))
        ∙ readl-writel m0 0 mlib_magic
        ∙ mod-eq_of_lt {m = 2 ^ 32} (omega arith)

    pub m5-IsLib : (b : ℕ) → IsLib (filled b m5) []
    unfolding filled
    m5-IsLib b = record { library = m5-IsLibrary b; chain = refl }

    pub header_runs :
        (os : Os) (b : ℕ) {l : Library}
        → IsLibrary l
        → start_playlist os global_name (filled b m5) ≡ some (ok, l)
        → write_header os name given (filled b (put (λ x. 0) 1023 (0 ∷ [])))
          ≡ some (ok, record l { mapped = 0 })
    unfolding write_header filled m0 m1 m2 m3 m4 m5
    header_runs os b v started =
        let at : ℕ → Ptr = λ o. record { base = b; off = o } in
        rw
          (
            memset_ok (filled b (put (λ x. 0) 1023 (0 ∷ []))) (at 0) 1024 0 (omega arith),
            store32_ok (filled b m0) (at 0) mlib_magic (omega arith),
            store32_ok (filled b m1) (at 4) 0 (omega arith),
            store32_ok (filled b m2) (at 8) 1024 (omega arith),
            memcpy_ok (filled b m3) (at 12) (name ++ 0 ∷ []) (omega (arith, name_size)),
            memcpy_ok (filled b m4) (at 128) (given ++ 0 ∷ []) (omega (arith, prefix_size)),
            started,
            lib_len_ok v,
          )
          refl
