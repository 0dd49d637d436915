-- ===== src/Tests/Players.antt =====
-- The theorems on the stream that is played, and on what is typed.
use mlib.Prelude.{ℕ, ◌+◌, ◌≤◌, ◌≡◌, refl, ◌⊎◌, true, false, [], none, some, if◌then◌else◌, arith}
use mlib.Memory.{failed}
use mlib.Text.{Text, codes}
use mlib.Io.{stdin, readbuf}
use mlib.Io.Chunks.{reading}
use mlib.Io.Buffer.{readbuf-overruns}
use mlib.Engine.Player.{
  Media, Copy, total, Player, idle, claim, create_media, played, Reachable, at_start, after, claims,
  creates_media,
}
use mlib.Engine.Player.Safety.{Reachable-one_at_a_time, Reachable-stuck, Reachable-finishes, Over}
use mlib.Engine.Player.Progress.{Advance, stop, go, makes_media, Reachable-frees}

abbrev song : Media
song = Media.elem 7 (codes "a")

abbrev claimed : Player
claimed = (claim true song idle).1

abbrev stuck : Player
stuck = (create_media false claimed).1

abbrev plays : Player
plays = (create_media true claimed).1

claimed-starting : 1 ≤ claimed.starting.elems
unfolding claim
claimed-starting = omega arith

claimed-Reachable : Reachable claimed
claimed-Reachable = after at_start (claims true song idle)

stuck-Reachable : Reachable stuck
stuck-Reachable = after claimed-Reachable (creates_media false claimed claimed-starting)

plays-Reachable : Reachable plays
plays-Reachable = after claimed-Reachable (creates_media true claimed claimed-starting)

stuck-lost : 1 ≤ stuck.lost
unfolding claim create_media
stuck-lost = omega arith

plays-running : 1 ≤ plays.running.elems
unfolding claim create_media
plays-running = omega arith

claimed-lost : claimed.lost ≡ 0
unfolding claim
claimed-lost = refl

Reachable-one_at_a_time_example :
    total stuck.starting + total stuck.running + stuck.lost ≡ (if stuck.in_use then 1 else 0)
Reachable-one_at_a_time_example = Reachable-one_at_a_time stuck-Reachable

Reachable-stuck_example :
    (stuck.in_use ≡ true)
    × (total stuck.running ≡ 0)
    × (claim true (Media.plist 7 (codes "b")) stuck ≡ (failed, stuck))
Reachable-stuck_example =
    Reachable-stuck stuck-Reachable stuck-lost true (Media.plist 7 (codes "b"))

Reachable-finishes_example :
    ((lib : ℕ) × (entry : Text) × (plays.elem ≡ Copy.live entry)
      × (played plays ≡ some (lib, entry))
      × Over plays Copy.freed)
    ⊎ ((plays.elem ≡ Copy.null) × (played plays ≡ none) × Over plays Copy.null)
Reachable-finishes_example = Reachable-finishes plays-Reachable plays-running

Reachable-frees_example : (1 ≤ 2) × ((plays.in_use ≡ false) ⊎ ((r : Player) × Advance plays r))
Reachable-frees_example =
    Reachable-frees claimed-Reachable claimed-lost (go (makes_media claimed claimed-starting) stop)

-- "play", in a buffer of four bytes.
readbuf-overruns_example :
    readbuf (λ file most. none) 4 (some stdin) (reading (codes "play") 0 []) [] ≡ none
readbuf-overruns_example = readbuf-overruns (λ file most. none) 4 (codes "play") 0 [] []
