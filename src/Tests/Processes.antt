-- ===== src/Tests/Processes.antt =====
-- The theorems on the mplayer engine, on a kernel whose tables are functions.
use mathlib.Core.Path.{subst}
use mlib.Prelude.{
  ℕ, ◌≡◌, ◌≢◌, refl, sym, ap, ◌∙◌, inl, inr, Option-cases, true, Option, none, some, [], ◌∷◌, ◌==◌,
  if◌then◌else◌, arith,
}
use mlib.Memory.{ok, failed}
use mlib.Text.{Text, codes}
use mlib.Samples.{lists, lists-IsListHead}
use mlib.Engine.{play_media}
use mlib.Mplayer.{
  End, reads, writes, other, Descriptors, unused, in_child, mplayer_exec, mplayer_play_uri,
  mplayer_engine, mplayer_engine_init,
}
use mlib.Mplayer.Posix.{NewPipe, IsPosix}
use mlib.Mplayer.Pipe.{mplayer_exec-unread, mplayer_play_uri-left_open}
use mlib.Mplayer.Register.{play_media-mplayer_engine_init}

abbrev Fds : Type 0
Fds = ℕ → Option End

abbrev piped : Fds → Fds
piped t m = if 3 == m then some (reads 0) else if 4 == m then some (writes 0) else t m

-- Pipes are made at 3 and 4.
abbrev fds : Descriptors Fds
fds = record {
  at = λ t m. t m;
  close = λ n t m. if n == m then none else t m;
  dup2 = λ a b t. elim (t a) [ none ↦ none | some e ↦ some (λ m. if b == m then some e else t m) ];
  pipe = λ t. elim (t 3) [
    | some e ↦ none
    | none ↦ elim (t 4) [ some e ↦ none | none ↦ some (3, 4, 0, piped t) ]
  ];
}

abbrev pointed : Option Fds → ℕ → Option End
pointed none m = none
pointed (some t) m = t m

fds-dups :
    (a b : ℕ) (t t' : Fds) (e : Option End)
    → t a ≡ e
    → elim e as (λ _. Option Fds) [
      | none ↦ none
      | some e ↦ some (λ m. if b == m then some e else t m)
    ]
      ≡ some t'
    → (m : ℕ) → t' m ≡ (if b == m then e else t m)
fds-dups a b t t' none same h m = absurd (ground arith)
fds-dups a b t t' (some e) same h m = sym (ap (λ (o : Option Fds). pointed o m) h)

abbrev Made : Type 0
Made = ℕ × ℕ × ℕ × Fds

abbrev made_or : Made → Option Made → Made
made_or m none = m
made_or m (some x) = x

piped-NewPipe : (t : Fds) → t 3 ≡ none → t 4 ≡ none → NewPipe fds t 3 4 0 (piped t)
piped-NewPipe t a b = record { free_r = a; free_w = b; two = λ e. omega arith; ends = λ m. refl }

fds-pipes :
    (t : Fds) (r w id : ℕ) (t' : Fds) → fds.pipe t ≡ some (r, w, id, t') → NewPipe fds t r w id t'
fds-pipes t r w id t' h = elim (Option-cases (t 3)) [
  | inr (e, a) ↦ absurd (ground (arith, a))
  | inl a ↦ elim (Option-cases (t 4)) [
    | inr (e, b) ↦ absurd (ground (arith, a, b))
    | inl b ↦
        let new : Made = (3, 4, 0, piped t) in
        let given : fds.pipe t ≡ some new = rw (a, b) refl in
        let same : new ≡ (r, w, id, t') = ap (made_or new) (sym given ∙ h) in
        subst (λ (o : Made). NewPipe fds t o.0 o.1 o.2 o.3) same (piped-NewPipe t a b)
  ]
]

fds-IsPosix : IsPosix fds
fds-IsPosix = record {
  closes = λ n t m. refl;
  dups = λ a b t t' h m. fds-dups a b t t' (t a) refl h m;
  pipes = fds-pipes;
}

-- Standard input, output and error.
abbrev shell_fds : Fds
shell_fds m = if m == 0 then some (other 7) else if m == 1 then some (other 7) else none

shell-fresh : (k : ℕ) → shell_fds k ≢ some (reads 0)
shell-fresh k e = ground arith

abbrev mplayer_fds : Fds
mplayer_fds m =
    if 2 == m
    then none
    else if 1 == m
    then none
    else if 4 == m
    then none
    else if 3 == m
    then some (other 7)
    else piped shell_fds m

mplayer_exec-unread_example :
    ((mplayer_exec fds (some 9) unused shell_fds).status ≡ ok)
    × ((mplayer_exec fds (some 9) unused shell_fds).mplayer.write_fd ≡ some 4)
    × (fds.at (mplayer_exec fds (some 9) unused shell_fds).table 4 ≡ some (writes 0))
    × ((k : ℕ)
        → (fds.at (mplayer_exec fds (some 9) unused shell_fds).table k ≢ some (reads 0))
          × (mplayer_fds k ≢ some (reads 0)))
    × (mplayer_fds 0 ≡ some (other 7))
unfolding mplayer_exec in_child
mplayer_exec-unread_example =
    mplayer_exec-unread fds-IsPosix {t = shell_fds} {t' = piped shell_fds} refl unused 9 mplayer_fds
      shell-fresh (λ e. ground arith) refl

mplayer_play_uri-left_open_example :
    ((mplayer_play_uri fds (some 9) (some 1) (codes "u") unused shell_fds).status ≡ failed)
    × (fds.at (mplayer_play_uri fds (some 9) (some 1) (codes "u") unused shell_fds).table 4
        ≡ some (writes 0))
    × (shell_fds 3 ≡ none)
    × (shell_fds 4 ≡ none)
mplayer_play_uri-left_open_example =
    mplayer_play_uri-left_open fds-IsPosix {t = shell_fds} {t' = piped shell_fds} refl (some 9)
      (some 1) (codes "u") unused 4

play_media-mplayer_engine_init_example :
    (mplayer_engine_init lists
        (λ uri. failed)
        failed
        failed
        (record { engines = []; current = none })
      ≡ (
        ok,
        mplayer_engine (λ uri. failed) failed failed,
        record {
          engines = mplayer_engine (λ uri. failed) failed failed ∷ [];
          current = some (mplayer_engine (λ uri. failed) failed failed);
        },
      ))
    × ((prefix entry : Text)
        → play_media
            (mplayer_engine_init lists
              (λ uri. failed)
              failed
              failed
              (record { engines = []; current = none })).2.current
            (some [])
            prefix
            entry
          ≡ some (ok, true))
    × ((c : ℕ) (junk prefix entry : Text)
        → play_media
            (mplayer_engine_init lists
              (λ uri. failed)
              failed
              failed
              (record { engines = []; current = none })).2.current
            (some (c ∷ junk))
            prefix
            entry
          ≡ none)
play_media-mplayer_engine_init_example =
    play_media-mplayer_engine_init lists-IsListHead (λ uri. failed) failed failed
      (record { engines = []; current = none }) refl
