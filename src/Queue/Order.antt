-- ===== src/Queue/Order.antt =====
-- Messages are printed whole, and in the order in which they were queued.
use mlib.Prelude.{
  ℕ, zero, suc, ◌+◌, ◌-◌, ◌≤◌, ◌<◌, ◌≡◌, ◌⊎◌, inl, inr, refl, Bool, true, none, some, List, [], ◌∷◌,
  ◌++◌, length, take, arith,
}
use mlib.Memory.{ok}
use mlib.Text.{Text}
use mlib.Lists.{ListHead, IsListHead}
use mlib.Queue.{Vsnprintf, format, queue_printf, empty_print_queue}

-- What `vsnprintf` promises for a text: it returns the length of the text, and leaves as much of it
-- as fits; where it does not fit, it may instead return a negative number, as older libraries do.
abbrev pub IsVsnprintf : Vsnprintf → Text → Type 0
IsVsnprintf f text =
    (size : ℕ)
    → (f size ≡ (some (length text), take (size - 1) text))
      ⊎ ((size ≤ length text) × ((f size).0 ≡ none))

take_all : (n : ℕ) (s : Text) → length s ≤ n → take n s ≡ s
take_all zero [] h = refl
take_all zero (c ∷ s) h = absurd (omega arith)
take_all (suc n) [] h = refl
take_all (suc n) (c ∷ s) h = ground (arith, take_all n s)

fits-cases : (n size : ℕ) → (n < size) ⊎ (size ≤ n)
fits-cases n size = omega arith

module _ (vsnprintf : Vsnprintf) (text : Text) (v : IsVsnprintf vsnprintf text) (realloc : ℕ → Bool)
    (grant : (n : ℕ) → realloc n ≡ true) where
  format-text :
      (rounds size : ℕ)
      → 1 ≤ rounds
      → 1 ≤ size
      → length text + 1 < size + rounds
      → format rounds realloc vsnprintf size ≡ some (some text)
  unfolding format
  format-text zero size one pos fuel = absurd (omega arith)
  format-text (suc rounds) size one pos fuel = elim (v size) [
    | inl e ↦ elim (fits-cases (length text) size) [
      | inl lt ↦ ground (arith, take_all (size - 1) text)
      | inr ge ↦ ground (
        arith,
        grant (length text + 1),
        format-text rounds (length text + 1) (omega arith) (omega arith) (omega arith),
      )
    ]
    | inr (short, e) ↦ ground (
      arith,
      grant (size + 32),
      format-text rounds (size + 32) (omega arith) (omega arith) (omega arith),
    )
  ]

  -- If there is memory, and `vsnprintf` returns the length of the text, or a negative number where
  -- the text does not fit, then mlib_queue_printf ends within two more rounds than the text has
  -- bytes, returns 0, and the whole text is queued behind the other messages.
  pub queue_printf-queued :
      {h : ListHead} (k : IsListHead h) (queue : List Text)
      → queue_printf h (length text + 2) true true realloc vsnprintf queue
        ≡ some (ok, queue ++ text ∷ [])
  unfolding queue_printf
  queue_printf-queued {h} k queue = ground (
    arith,
    k.adds_before queue text [],
    format-text (length text + 2) 32 (omega arith) (omega arith) (omega arith),
  )

-- The messages put together.
abbrev pub joined : List Text → Text
joined [] = []
joined (text ∷ queue) = text ++ joined queue

module _ {h : ListHead} (k : IsListHead h) where
  -- Emptying the print queue ends after as many rounds as there are messages; it prints every
  -- message once, in the order in which they were queued, and leaves the queue empty. The list
  -- deletes as include/mlib/list.h documents.
  pub empty_print_queue-joined :
      (queue : List Text) → empty_print_queue h (length queue) queue ≡ some (joined queue, [])
  unfolding empty_print_queue
  empty_print_queue-joined [] = refl
  empty_print_queue-joined (text ∷ queue) =
      ground (arith, k.deletes [] text queue, empty_print_queue-joined queue)
