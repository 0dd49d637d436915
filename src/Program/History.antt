-- ===== src/Program/History.antt =====
-- The history file of src/core.c: its name, reading it in `mlib_init`, and writing it in `mlib_exit`.
use mlib.Prelude.{ℕ, ◌≡◌, refl, Bool, true, false, Option, none, some, [], ◌∷◌, ◌++◌, take}
use mlib.Text.{Text, codes}

-- The result of readline's `read_history` or `write_history`.
pub data ℤ : Type 0 where
  pos : ℕ → ℤ
  negsuc : ℕ → ℤ

abbrev pub is_negative : ℤ → Bool
is_negative (pos n) = false
is_negative (negsuc n) = true

-- What `snprintf(hist_file, 512, "%s/.mlib_history", home)` leaves in the buffer.
abbrev pub history_of : Text → Text
history_of home = take 511 (home ++ codes "/.mlib_history")

-- `__mlib_hist_file`: the buffer, which it fills where it is empty and returns. `getenv` may give NULL,
-- which `%s` reads.
unfoldable pub hist_file : Option Text → Text → Option Text
hist_file home (c ∷ cs) = some (c ∷ cs)
hist_file none [] = none
hist_file (some home) [] = some (history_of home)

-- The file that was read or written, which is the buffer, and whether a complaint was printed.
pub record History : Type 0 where
  pub file : Text
  pub complained : Bool

-- The last lines of `mlib_init`.
unfoldable pub init_history : (Text → ℤ) → Option Text → Text → Option History
init_history read_history home buf = elim (hist_file home buf) [
  | none ↦ none
  | some name ↦ some (record { file = name; complained = is_negative (read_history name) })
]

-- `mlib_exit`, with the status that the program ends with.
unfoldable pub mlib_exit : (Text → ℤ) → Option Text → Text → ℕ → Option (History × ℕ)
mlib_exit write_history home buf status = elim (hist_file home buf) [
  | none ↦ none
  | some name ↦ some (record { file = name; complained = is_negative (write_history name) }, status)
]

-- readline returns 0, or an `errno`, which is positive.
abbrev pub IsErrno : (Text → ℤ) → Type 0
IsErrno call = (name : Text) → (n : ℕ) × (call name ≡ pos n)

history_of-cons : (home : Text) → (c : ℕ) × (cs : Text) × (history_of home ≡ c ∷ cs)
history_of-cons [] = (b'/', codes ".mlib_history", refl)
history_of-cons (c ∷ cs) = (c, take 510 (cs ++ codes "/.mlib_history"), refl)

-- With HOME set when the program starts, the file that mlib_exit writes is the one that mlib_init read,
-- whatever HOME is by then. Where readline returns 0 or an `errno`, neither says a word if the file
-- cannot be read or written.
pub mlib_exit-init_history :
    (read_history write_history : Text → ℤ)
    → IsErrno read_history
    → IsErrno write_history
    → (home : Text) (later : Option Text) (status : ℕ)
    → (start : History) × (init_history read_history (some home) [] ≡ some start)
      × (mlib_exit write_history later start.file status ≡ some (start, status))
      × (start.complained ≡ false)
unfolding init_history mlib_exit hist_file
mlib_exit-init_history read_history write_history reads writes home later status =
    let (c, cs, name) = history_of-cons home in
    let (n, read) = reads (c ∷ cs) in
    let (m, written) = writes (c ∷ cs) in
    (record { file = c ∷ cs; complained = false }, rw (name, read) refl, rw written refl, refl)
