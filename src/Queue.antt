-- ===== src/Queue.antt =====
-- The print queue of src/core.c: what other threads say is kept until the next prompt. `vsnprintf`
-- and the allocator are parameters.
pub mod Order
use mlib.Prelude.{
  ℕ, zero, suc, ◌+◌, Bool, false, Option, none, some, List, [], ◌∷◌, ◌++◌, ltb, if◌then◌else◌,
}
use mlib.Memory.{Status, ok, failed}
use mlib.Text.{Text}
use mlib.Lists.{ListHead}

-- `vsnprintf(buffer, size, …)` for one message: what it returns, `none` for a negative number, and
-- the string that it leaves in the buffer.
abbrev pub Vsnprintf : Type 0
Vsnprintf = ℕ → Option ℕ × Text

-- The loop of `mlib_queue_printf` with a buffer of `msg_size` bytes: the text, or `failed` where
-- `realloc` gives NULL. No result means that the rounds were too few.
unfoldable pub format : ℕ → (ℕ → Bool) → Vsnprintf → ℕ → Option (Option Text)
format zero realloc vsnprintf msg_size = none
format (suc rounds) realloc vsnprintf msg_size =
    let printed = vsnprintf msg_size in
    let wider : ℕ = elim printed.0 [ some n ↦ n + 1 | none ↦ msg_size + 32 ] in
    let again = format rounds realloc vsnprintf wider in
    let fits : Bool = elim printed.0 [ some n ↦ ltb n msg_size | none ↦ false ] in
    if fits then some (some printed.1) else (if realloc wider then again else some none)

module _ (h : ListHead) where
  -- `mlib_queue_printf`, where `malloc` gives the first buffer and `node` the struct for the list.
  unfoldable pub queue_printf :
      ℕ → (malloc node : Bool) → (ℕ → Bool) → Vsnprintf → List Text → Option (Status × List Text)
  queue_printf rounds malloc node realloc vsnprintf queue =
      if malloc
      then (elim (format rounds realloc vsnprintf 32) [
        | none ↦ none
        | some none ↦ some (failed, queue)
        | some (some text) ↦
            if node then some (ok, h.list_add_tail queue text []) else some (failed, queue)
      ])
      else some (failed, queue)

  -- `mlib_empty_print_queue`: what is printed, and the queue behind it.
  unfoldable pub empty_print_queue : ℕ → List Text → Option (Text × List Text)
  empty_print_queue rounds [] = some ([], [])
  empty_print_queue zero (text ∷ queue) = none
  empty_print_queue (suc rounds) (text ∷ queue) =
      let more = empty_print_queue rounds (h.list_del [] text queue) in
      elim more [ none ↦ none | some r ↦ some (text ++ r.0, r.1) ]
