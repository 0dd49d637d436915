-- ===== src/Mplayer/Pipe.antt =====
-- The pipe to mplayer.
use mlib.Prelude.{
  Bool, true, false, ◌&&◌, ℕ, ◌≡◌, ◌≢◌, refl, sym, ap, ◌∙◌, [], ◌∷◌, Option, Option-cases, inl, inr,
  none, some, ◌==◌, if◌then◌else◌, arith,
}
use mlib.Memory.{ok, failed}
use mlib.Text.{Text}
use mlib.Mplayer.{
  End, reads, writes, Descriptors, Mplayer, Ended, Message, in_child, mplayer_exec, close_write,
  wait_for, mplayer_play_uri,
}
use mlib.Mplayer.Posix.{NewPipe, IsPosix}

-- The child exits with 0.
abbrev pub exits_well : Option ℕ → Bool
exits_well none = false
exits_well (some code) = code == 0

abbrev pub started : Option ℕ → Bool
started none = false
started (some pid) = true

-- What a descriptor refers to in the end, with what is left open.
abbrev pub left_at :
    {Table : Type 0}
    → Descriptors Table
    → Table
    → (r w id : ℕ) → (fork exited : Option ℕ) → ℕ
    → Option End
left_at d t r w id none exited k =
    if r == k then some (reads id) else if w == k then some (writes id) else d.at t k
left_at d t r w id (some pid) exited k =
    if exits_well exited then d.at t k else if w == k then some (writes id) else d.at t k

module _ {Table : Type 0} {d : Descriptors Table} (posix : IsPosix d) {t t' : Table} {r w id : ℕ}
    (made : d.pipe t ≡ some (r, w, id, t')) where
  new : NewPipe d t r w id t'
  new = posix.pipes t r w id t' made

  -- The parent.
  parent_at : (m : ℕ) → d.at (d.close r t') m ≡ (if w == m then some (writes id) else d.at t m)
  parent_at m = ground (arith, posix.closes r t' m, new.ends m, new.free_r, new.two)

  -- The child, where `dup2` succeeds: the descriptor of the read end is a copy of 0.
  child_at :
      (c : Table)
      → in_child d r w t' ≡ some c
      → (m : ℕ)
      → d.at c m ≡ (
          if 2 == m
          then none
          else if 1 == m
          then none
          else if w == m
          then none
          else if r == m
          then d.at t' 0
          else d.at t' m)
  unfolding in_child
  child_at c run m = elim (Option-cases (d.dup2 0 r t')) [
    | inl e ↦ absurd (ground (arith, e))
    | inr (t1, e) ↦
        let closed : d.close 2 (d.close 1 (d.close w t1)) ≡ c = ground (arith, e) in
        rw⁻¹ closed (
          ground (
            arith,
            posix.closes 2 (d.close 1 (d.close w t1)) m,
            posix.closes 1 (d.close w t1) m,
            posix.closes w t1 m,
            posix.dups 0 r t' t1 e m,
          ))
  ]

  stdin_kept : d.at t 0 ≢ none → d.at t' 0 ≡ d.at t 0
  stdin_kept stdin = ground (arith, new.ends 0, new.free_r, new.free_w, stdin)

  stdin_copied : (c : Table) → in_child d r w t' ≡ some c → d.at t 0 ≢ none → d.at c 0 ≡ d.at t 0
  stdin_copied c run stdin =
      ground (arith, child_at c run 0, stdin_kept stdin, new.free_r, new.free_w, stdin)

  unread :
      ((m : ℕ) → d.at t m ≢ some (reads id))
      → d.at t 0 ≢ none
      → (c : Table) → in_child d r w t' ≡ some c
      → (m : ℕ) → (d.at (d.close r t') m ≢ some (reads id)) × (d.at c m ≢ some (reads id))
  unread fresh stdin c run m = (
    λ h. ground (arith, parent_at m, fresh m),
    λ h. ground (arith, child_at c run m, new.ends m, stdin_kept stdin, fresh 0, fresh m),
  )

  -- The parent goes on.
  abbrev forked : ℕ → Ended Table
  forked pid = record {
    status = ok;
    mplayer = record { pid = some pid; write_fd = some w };
    table = d.close r t';
    queued = [];
    child = in_child d r w t';
  }

  exec_runs : (m : Mplayer) (pid : ℕ) → mplayer_exec d (some pid) m t ≡ forked pid
  unfolding mplayer_exec
  exec_runs m pid = rw (mplayer_exec, made) refl

  exec_fails :
      (m : Mplayer)
      → mplayer_exec d none m t ≡ record {
        status = failed;
        mplayer = record m { pid = none };
        table = t';
        queued = Message.fork_failed ∷ [];
        child = none;
      }
  unfolding mplayer_exec
  exec_fails m = rw (mplayer_exec, made) refl

  -- mplayer_exec, on a kernel that keeps POSIX, where the pipe is made, the process is forked and
  -- the child's `dup2` succeeds, descriptor 0 is open and no descriptor referred to the pipe
  -- before: it returns 0 and keeps the write end, but then no descriptor of the program and none of
  -- mplayer refers to the read end, so what is written to it reaches nobody; mplayer's descriptor 0
  -- is the program's own.
  pub mplayer_exec-unread :
      (m : Mplayer) (pid : ℕ) (c : Table)
      → ((k : ℕ) → d.at t k ≢ some (reads id))
      → d.at t 0 ≢ none
      → (mplayer_exec d (some pid) m t).child ≡ some c
      → ((mplayer_exec d (some pid) m t).status ≡ ok)
        × ((mplayer_exec d (some pid) m t).mplayer.write_fd ≡ some w)
        × (d.at (mplayer_exec d (some pid) m t).table w ≡ some (writes id))
        × ((k : ℕ)
            → (d.at (mplayer_exec d (some pid) m t).table k ≢ some (reads id))
              × (d.at c k ≢ some (reads id)))
        × (d.at c 0 ≡ d.at t 0)
  mplayer_exec-unread m pid c fresh stdin child =
      rw (exec_runs m pid) (
        refl,
        refl,
        ground (arith, parent_at w),
        unread fresh stdin c run,
        stdin_copied c run stdin,
      )
    where
      run : in_child d r w t' ≡ some c
      run = sym (ap (λ (e : Ended Table). e.child) (exec_runs m pid)) ∙ child

  waits :
      (pid : ℕ) (exited : Option ℕ) (uri : Text) (k : ℕ)
      → ((wait_for d exited uri (forked pid)).status ≡ (if exits_well exited then ok else failed))
        × (d.at (wait_for d exited uri (forked pid)).table k
            ≡ left_at d t r w id (some pid) exited k)
  unfolding wait_for close_write
  waits pid none uri k = (refl, parent_at k)
  waits pid (some code) uri k =
      ground (arith, parent_at k, posix.closes w (d.close r t') k, new.free_w)

  -- On a kernel that keeps POSIX, where the pipe is made: if mplayer exits with 0, mplayer_play_URI
  -- returns 0, and every descriptor is as it was before. If it was forked and ended in any other
  -- way, -1 is returned, and the write end of the pipe stays open, at a descriptor that was free;
  -- if `fork` fails, -1 is returned, and both ends stay open.
  pub mplayer_play_uri-left_open :
      (fork exited : Option ℕ) (uri : Text) (m : Mplayer) (k : ℕ)
      → ((mplayer_play_uri d fork exited uri m t).status
          ≡ (if started fork && exits_well exited then ok else failed))
        × (d.at (mplayer_play_uri d fork exited uri m t).table k ≡ left_at d t r w id fork exited k)
        × (d.at t r ≡ none)
        × (d.at t w ≡ none)
  unfolding mplayer_play_uri wait_for
  mplayer_play_uri-left_open none exited uri m k =
      rw (exec_fails m) (refl, new.ends k, new.free_r, new.free_w)
  mplayer_play_uri-left_open (some pid) exited uri m k =
      let both = waits pid exited uri k in
      rw (exec_runs m pid) (both.0, both.1, new.free_r, new.free_w)
