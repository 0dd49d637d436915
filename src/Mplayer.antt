-- ===== src/Mplayer.antt =====
-- modules/mplayer_engine/mplayer_engine.c: the engine that runs mplayer in a child process, with a
-- pipe to it. The kernel's tables of descriptors, and what `fork`, `waitpid`, `write` and `fsync`
-- return, are parameters.
pub mod Posix
pub mod Pipe
pub mod Register
use mlib.Prelude.{
  ℕ, Bool, true, false, Option, none, some, List, [], ◌∷◌, ◌++◌, ◌==◌, if◌then◌else◌,
}
use mlib.Memory.{Status, ok, failed}
use mlib.Text.{Text, codes}
use mlib.Lists.{ListHead}
use mlib.Engine.{Engine, Engines, engine_register}
use mlib.Modules.{Module}

-- What a descriptor refers to: an end of a pipe, or another open file.
pub data End : Type 0 where
  reads : ℕ → End
  writes : ℕ → End
  other : ℕ → End

-- The calls on a process's table of descriptors, and what a descriptor refers to. `pipe` gives the
-- read end, the write end and the pipe.
pub record Descriptors (Table : Type 0) : Type 0 where
  pub at : Table → ℕ → Option End
  pub close : ℕ → Table → Table
  pub dup2 : ℕ → ℕ → Table → Option Table
  pub pipe : Table → Option (ℕ × ℕ × ℕ × Table)

-- The messages that are queued for the terminal.
pub data Message : Type 0 where
  pipe_failed : Message
  fork_failed : Message
  playing : Text → Message
  pid_is : Option ℕ → Message
  fd_is : Option ℕ → Message
  finished : Message
  pausing : Message
  killing : Message
  kill_failed : Message

-- `mplayer_pid` and `mplayer_write_fd`; -1 is `none`.
pub record Mplayer : Type 0 where
  pub pid : Option ℕ
  pub write_fd : Option ℕ

abbrev pub unused : Mplayer
unused = record { pid = some 0; write_fd = none }

-- How a call ends: what it returns, the variables, the table, the messages, and the table with which
-- the child runs mplayer, if it does.
pub record Ended (Table : Type 0) : Type 0 where
  pub status : Status
  pub mplayer : Mplayer
  pub table : Table
  pub queued : List Message
  pub child : Option Table

module _ {Table : Type 0} (d : Descriptors Table) where
  -- `mplayer_exec` in the child, up to `execlp`; none where it exits.
  unfoldable pub in_child : ℕ → ℕ → Table → Option Table
  in_child read_end write_end t = elim (d.dup2 0 read_end t) [
    | none ↦ none
    | some t' ↦ some (d.close 2 (d.close 1 (d.close write_end t')))
  ]

  -- `mplayer_exec` in the parent. `fork` gives the child's pid.
  unfoldable pub mplayer_exec : Option ℕ → Mplayer → Table → Ended Table
  mplayer_exec fork m t = elim (d.pipe t) [
    | none ↦ record {
      status = failed;
      mplayer = m;
      table = t;
      queued = Message.pipe_failed ∷ [];
      child = none;
    }
    | some (read_end, write_end, id, t') ↦ elim fork [
      | none ↦ record {
        status = failed;
        mplayer = record m { pid = none };
        table = t';
        queued = Message.fork_failed ∷ [];
        child = none;
      }
      | some pid ↦ record {
        status = ok;
        mplayer = record { pid = some pid; write_fd = some write_end };
        table = d.close read_end t';
        queued = [];
        child = in_child read_end write_end t';
      }
    ]
  ]

  -- `close(mplayer_write_fd)`
  unfoldable pub close_write : Mplayer → Table → Table
  close_write m t = elim m.write_fd [ none ↦ t | some fd ↦ d.close fd t ]

  -- `mplayer_play_URI` behind `mplayer_exec`. `exited` is the child's exit status, or none where it
  -- did not exit.
  unfoldable pub wait_for : Option ℕ → Text → Ended Table → Ended Table
  wait_for exited uri e =
      let said = Message.playing uri ∷ e.queued in
      let told = said ++ Message.pid_is e.mplayer.pid ∷ Message.fd_is e.mplayer.write_fd ∷ [] in
      let over = record e { status = failed; queued = told } in
      elim e.status as (λ _. Ended Table) [
        | failed ↦ record e { queued = said }
        | ok ↦ elim exited [
          | none ↦ over
          | some code ↦
              if code == 0
              then (record e {
                table = close_write e.mplayer e.table;
                queued = told ++ Message.finished ∷ [];
              })
              else over
        ]
      ]

  -- `mplayer_play_URI`
  unfoldable pub mplayer_play_uri : Option ℕ → Option ℕ → Text → Mplayer → Table → Ended Table
  mplayer_play_uri fork exited uri m t = wait_for exited uri (mplayer_exec fork m t)

-- `ret < 1`, where `ret` is 0 or -1.
unfoldable pub below_one : Status → Bool
below_one ok = true
below_one failed = true

-- `mplayer_pause` and `mplayer_stop`, which differ in the byte and the messages; `wrote` says whether
-- `write` returned 1, and `synced` what `fsync` returns.
unfoldable pub mplayer_pause : Bool → Status → Status × List Message
mplayer_pause wrote synced =
    if below_one (if wrote then ok else failed)
    then (failed, Message.pausing ∷ [])
    else (synced, Message.pausing ∷ [])

unfoldable pub mplayer_stop : Bool → Status → Status × List Message
mplayer_stop wrote synced =
    if below_one (if wrote then ok else failed)
    then (failed, Message.killing ∷ Message.kill_failed ∷ [])
    else (synced, Message.killing ∷ [])

-- `mplayer_engine`, where `play` is what `mplayer_play_URI` returns.
unfoldable pub mplayer_engine : (Text → Status) → Status → Status → Engine
mplayer_engine play toggle stop = record {
  name = some (codes "mplayer-engine");
  caps = record { audio = true; video = true; others = 0 };
  play_audio = some play;
  play_video = some play;
  toggle = some toggle;
  stop = some stop;
}

-- `mplayer_engine_init`
module _ (h : ListHead) where
  unfoldable pub mplayer_engine_init :
      (Text → Status) → Status → Status → Engines → Status × Engine × Engines
  mplayer_engine_init play toggle stop es = engine_register h (mplayer_engine play toggle stop) es

-- `MLIB_MODULE`, at an address, where `init` is what `mplayer_engine_init` returns, with the engine
-- that it registers.
unfoldable pub mplayer_module : ℕ → Status → Engine → Module
mplayer_module address init engine = record {
  address = address;
  name = some (codes "mplayer-engine");
  desc = some (codes "Mplayer backend to play media URIs.");
  init = some init;
  registers = record { engines = engine ∷ []; commands = [] };
  syms = 0;
}
