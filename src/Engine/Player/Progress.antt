-- ===== src/Engine/Player/Progress.antt =====
-- The stream becomes free again.
use native.Mathlib.Decide.{dec_lt}
use mlib.Prelude.{
  Bool-cases, ◌∙◌, ℕ, suc, ◌+◌, ◌*◌, ◌≤◌, ◌≡◌, refl, ◌⊎◌, inl, inr, true, false, some, arith,
}
use mlib.Engine.Player.{
  total, Player, create_media, create_playlist, finish_media, finish_playlist, Step, creates_media,
  creates_playlist, finishes_media, finishes_playlist, Reachable, after,
}
use mlib.Engine.Player.Safety.{Reachable-one_at_a_time, Reachable-finishes}

-- A step of the caller that has taken the stream, where its thread is made, or of that thread.
pub data Advance : Player → Player → Type 0 where
  makes_media : (p : Player) → 1 ≤ p.starting.elems → Advance p (create_media true p).1
  makes_playlist : (p : Player) → 1 ≤ p.starting.plists → Advance p (create_playlist true p).1
  ends_media : (p q : Player) → 1 ≤ p.running.elems → finish_media p ≡ some q → Advance p q
  ends_playlist : (p : Player) → 1 ≤ p.running.plists → Advance p (finish_playlist p)

pub data Advances : ℕ → Player → Player → Type 0 where
  stop : {p : Player} → Advances 0 p p
  go : {n : ℕ} {p q r : Player} → Advance p q → Advances n q r → Advances (suc n) p r

-- What is still to be done: two steps for a caller, one for a thread.
abbrev left_over : Player → ℕ
left_over p = 2 * total p.starting + total p.running

Advance-left_over : {p q : Player} → Advance p q → left_over q + 1 ≡ left_over p
unfolding create_media create_playlist finish_media finish_playlist
Advance-left_over (makes_media p one) = omega arith
Advance-left_over (makes_playlist p one) = omega arith
Advance-left_over (ends_media p q one e) = ground arith
Advance-left_over (ends_playlist p one) = omega arith

Advances-left_over : {n : ℕ} {p q : Player} → Advances n p q → left_over q + n ≡ left_over p
Advances-left_over stop = omega arith
Advances-left_over (go s t) = omega (arith, Advance-left_over s, Advances-left_over t)

Advance-Step : {p q : Player} → Advance p q → Step p q
Advance-Step (makes_media p one) = creates_media true p one
Advance-Step (makes_playlist p one) = creates_playlist true p one
Advance-Step (ends_media p q one e) = finishes_media p q one e
Advance-Step (ends_playlist p one) = finishes_playlist p one

-- No lost thread comes from these steps.
Advance-lost : {p q : Player} → Advance p q → q.lost ≡ p.lost
unfolding create_media create_playlist finish_media finish_playlist
Advance-lost (makes_media p one) = refl
Advance-lost (makes_playlist p one) = refl
Advance-lost (ends_media p q one e) = ground arith
Advance-lost (ends_playlist p one) = refl

-- A stream that is taken can go on.
next : {p : Player} → Reachable p → p.lost ≡ 0 → p.in_use ≡ true → (q : Player) × Advance p q
next {p} r none_lost used =
    let one : total p.starting + total p.running ≡ 1 = ground (arith, Reachable-one_at_a_time r) in
    elim (dec_lt 0 p.starting.elems) [
      | yes a ↦ ((create_media true p).1, makes_media p (omega arith))
      | no not_a ↦ elim (dec_lt 0 p.starting.plists) [
        | yes b ↦ ((create_playlist true p).1, makes_playlist p (omega arith))
        | no not_b ↦ elim (dec_lt 0 p.running.elems) [
          | yes c ↦ elim (Reachable-finishes r (omega arith)) [
            | inl (lib, entry, live, reads, over) ↦
                (over.0, ends_media p over.0 (omega arith) over.1)
            | inr (null, reads, over) ↦ (over.0, ends_media p over.0 (omega arith) over.1)
          ]
          | no not_c ↦ (finish_playlist p, ends_playlist p (omega arith))
        ]
      ]
    ]

Advances-Reachable :
    {n : ℕ} {p q : Player} → Advances n p q → Reachable p → p.lost ≡ 0 → Reachable q × (q.lost ≡ 0)
Advances-Reachable stop r none_lost = (r, none_lost)
Advances-Reachable (go s t) r none_lost =
    Advances-Reachable t (after r (Advance-Step s)) (Advance-lost s ∙ none_lost)

-- From every state that can be reached, in which no call of `pthread_create` has failed, whatever
-- steps the caller that has taken the stream and its thread take, where the thread is made, there
-- are at most two of them, and they cannot end before the stream is free: as long as it is not, one
-- of them has a further step.
pub Reachable-frees :
    {n : ℕ} {p q : Player}
    → Reachable p
    → p.lost ≡ 0
    → Advances n p q
    → (n ≤ 2) × ((q.in_use ≡ false) ⊎ ((r : Player) × Advance q r))
Reachable-frees {n} {p} {q} r none_lost steps =
    let (reached, still_none) = Advances-Reachable steps r none_lost in
    (
      ground (arith, Advances-left_over steps, Reachable-one_at_a_time r),
      elim (Bool-cases q.in_use) [
        | inl used ↦ inr (next reached still_none used)
        | inr free ↦ inl free
      ],
    )
