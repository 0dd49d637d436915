-- ===== src/Mplayer/Posix.antt =====
-- What POSIX says of the calls on descriptors.
use mlib.Prelude.{ℕ, ◌≡◌, ◌≢◌, none, some, ◌==◌, if◌then◌else◌}
use mlib.Mplayer.{reads, writes, Descriptors}

-- A new pipe: its ends have descriptors that were not in use, and the others are as they were.
pub record NewPipe {Table : Type 0} (d : Descriptors Table) (t : Table) (r w id : ℕ) (t' : Table)
    : Type 0 where
  pub free_r : d.at t r ≡ none
  pub free_w : d.at t w ≡ none
  pub two : r ≢ w
  pub ends :
      (m : ℕ)
      → d.at t' m
        ≡ (if r == m then some (reads id) else if w == m then some (writes id) else d.at t m)

pub record IsPosix {Table : Type 0} (d : Descriptors Table) : Type 0 where
  pub closes :
      (n : ℕ) (t : Table) (m : ℕ) → d.at (d.close n t) m ≡ (if n == m then none else d.at t m)
  pub dups :
      (a b : ℕ) (t t' : Table)
      → d.dup2 a b t ≡ some t'
      → (m : ℕ) → d.at t' m ≡ (if b == m then d.at t a else d.at t m)
  pub pipes :
      (t : Table) (r w id : ℕ) (t' : Table) → d.pipe t ≡ some (r, w, id, t') → NewPipe d t r w id t'
