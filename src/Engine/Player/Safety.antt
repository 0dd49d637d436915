-- ===== src/Engine/Player/Safety.antt =====
-- What holds of `playing` in every order of steps.
use mlib.Prelude.{
  ℕ, none, ◌+◌, ◌-◌, ◌≤◌, ◌≡◌, refl, ◌⊎◌, inl, inr, Bool, true, false, some, if◌then◌else◌, arith,
}
use mlib.Memory.{Status, ok, failed}
use mlib.Text.{Text}
use mlib.Engine.Player.{
  Media, Copy, total, one_plist, Player, claim, create_media, create_playlist, played, finish_media,
  finish_playlist, Step, claims, creates_media, creates_playlist, finishes_media, finishes_playlist,
  Reachable, at_start, after,
}

-- As many callers, threads and failures as `in_use` says.
abbrev Counted : Player → Type 0
Counted p = total p.starting + total p.running + p.lost ≡ (if p.in_use then 1 else 0)

-- A library, and a copy that can be read, or NULL.
abbrev Readable : Player → Type 0
Readable p =
    (lib : ℕ) × (p.lib ≡ some lib)
    × ((p.elem ≡ Copy.null) ⊎ ((entry : Text) × (p.elem ≡ Copy.live entry)))

-- Where a caller or a thread has to do with a path, its copy has not been freed.
abbrev Held : Player → Type 0
Held p = (p.starting.elems + p.running.elems ≡ 0) ⊎ Readable p

Step-Counted : {p q : Player} → Step p q → Counted p → Counted q
unfolding claim create_media create_playlist finish_media finish_playlist
Step-Counted (claims copied (Media.elem lib entry) p) h = ground arith
Step-Counted (claims copied (Media.plist lib name) p) h = ground arith
Step-Counted (creates_media created p one) h = ground arith
Step-Counted (creates_playlist created p one) h = ground arith
Step-Counted (finishes_media p q one e) h = ground arith
Step-Counted (finishes_playlist p one) h = ground arith

Held-if : (b : Bool) (x y : Status × Player) → Held x.1 → Held y.1 → Held (if b then x else y).1
Held-if true x y h k = h
Held-if false x y h k = k

readable : (p : Player) → Held p → 1 ≤ p.starting.elems + p.running.elems → Readable p
readable p (inl none_there) one = absurd (omega arith)
readable p (inr there) one = there

if_copied :
    (copied : Bool) (entry : Text)
    → let copy = if copied then Copy.live entry else Copy.null in
      (copy ≡ Copy.null) ⊎ ((x : Text) × (copy ≡ Copy.live x))
if_copied true entry = inr (entry, refl)
if_copied false entry = inl refl

Step-Held : {p q : Player} → Step p q → Counted p → Held p → Held q
unfolding claim create_media create_playlist finish_media finish_playlist
Step-Held (claims copied (Media.elem lib entry) p) n h =
    Held-if p.in_use _ _ h (inr (lib, refl, if_copied copied entry))
Step-Held (claims copied (Media.plist lib name) p) n h =
    Held-if p.in_use (failed, p)
      (
        ok,
        record p {
          lib = some lib;
          plist = some name;
          use_plist = true;
          in_use = true;
          starting = one_plist p.starting;
        },
      )
      h (elim h [ inl e ↦ inl e | inr there ↦ inr (lib, refl, there.2) ])
Step-Held (creates_media created p one) n h =
    let there = readable p h (omega arith) in Held-if created _ _ (inr there) (inr there)
Step-Held (creates_playlist created p one) n h = Held-if created _ _ h h
Step-Held (finishes_media p q one e) n h = inl (ground arith)
Step-Held (finishes_playlist p one) n h = h

pub record Sound (p : Player) : Type 0 where
  pub counted : total p.starting + total p.running + p.lost ≡ (if p.in_use then 1 else 0)
  pub held : Held p

Reachable-Sound : {p : Player} → Reachable p → Sound p
Reachable-Sound at_start = record { counted = refl; held = inl refl }
Reachable-Sound (after r s) =
    let v = Reachable-Sound r in
    record { counted = Step-Counted s v.counted; held = Step-Held s v.counted v.held }

-- After any sequence of steps of the callers of mlib_play_media and mlib_play and of the threads
-- they start, in any order, the callers that are between taking `in_use` and `pthread_create`, the
-- threads that run and the failed calls of `pthread_create` are together one where `in_use` is set,
-- and none where it is not: two threads never play at once.
pub Reachable-one_at_a_time :
    {p : Player}
    → Reachable p
    → total p.starting + total p.running + p.lost ≡ (if p.in_use then 1 else 0)
Reachable-one_at_a_time r = (Reachable-Sound r).counted

-- Once a call of `pthread_create` has failed, in every later state that steps of callers and
-- threads can reach, `in_use` is set, no thread runs, and every further call to play is refused and
-- changes nothing.
pub Reachable-stuck :
    {p : Player}
    → Reachable p
    → 1 ≤ p.lost
    → (copied : Bool) (m : Media)
    → (p.in_use ≡ true) × (total p.running ≡ 0) × (claim copied m p ≡ (failed, p))
unfolding claim
Reachable-stuck {p} r lost copied (Media.elem lib entry) = ground (arith, Reachable-one_at_a_time r)
Reachable-stuck {p} r lost copied (Media.plist lib name) = ground (arith, Reachable-one_at_a_time r)

-- What a thread that plays a path leaves.
abbrev pub Over : Player → Copy → Type 0
Over p copy =
    (q : Player) × (finish_media p ≡ some q)
    × (q.elem ≡ copy)
    × (q.in_use ≡ false)
    × (total q.starting + total q.running + q.lost ≡ 0)

-- In every state that steps of callers and threads can reach, in any order, in which a thread that
-- plays a path runs: either the path that it reads is a copy that has not been freed, and the
-- thread frees it exactly once, so that when it has ended, the copy is freed, the stream is free,
-- and no such thread is left; or `strdup` had no memory for the copy, then reading it is a fault,
-- and the end of the thread frees the stream.
pub Reachable-finishes :
    {p : Player}
    → Reachable p
    → 1 ≤ p.running.elems
    → ((lib : ℕ) × (entry : Text) × (p.elem ≡ Copy.live entry)
        × (played p ≡ some (lib, entry))
        × Over p Copy.freed)
      ⊎ ((p.elem ≡ Copy.null) × (played p ≡ none) × Over p Copy.null)
unfolding played finish_media
Reachable-finishes {p} r one =
    let (lib, there, held) = readable p (Reachable-Sound r).held (omega arith) in
    let over = λ (copy : Copy). record p {
      in_use = false;
      elem = copy;
      running = record { elems = p.running.elems - 1; plists = p.running.plists };
    } in
    let empty : total p.starting + (p.running.elems - 1 + p.running.plists) + p.lost ≡ 0 =
      ground (arith, Reachable-one_at_a_time r) in
    elim held [
      | inr (entry, copy) ↦ inl (
        lib,
        entry,
        copy,
        ground (arith, there, copy),
        (over Copy.freed, ground (arith, copy), refl, refl, empty),
      )
      | inl null ↦ inr (
        null,
        ground (arith, there, null),
        (over Copy.null, ground (arith, null), refl, refl, empty),
      )
    ]
