-- ===== src/Engine.antt =====
-- src/engine.c and include/mlib/engine.h: the media engines, and the one stream that is played at a
-- time. The threads of the C code are steps of `Player` in Engine/Player.antt.
pub mod Register
pub mod Player
use mathlib.Core.Option
use mlib.Prelude.{
  ℕ, ◌+◌, Bool, true, false, not, ◌&&◌, ◌||◌, Option, none, some, List, [], ◌∷◌, ◌++◌,
  if◌then◌else◌, ltb, length,
}
use mlib.Memory.{Status, ok, failed}
use mlib.Text.{Text}
use mlib.Lists.{ListHead}

-- `caps`: the bits MLIB_ENGINE_AUDIO and MLIB_ENGINE_VIDEO, and the others.
pub record Caps : Type 0 where
  pub audio : Bool
  pub video : Bool
  pub others : ℕ

-- `caps` is not 0.
abbrev pub any_caps : Caps → Bool
any_caps caps = caps.audio || caps.video || ltb 0 caps.others

-- `struct mlib_engine`. A function pointer is `none` where it is NULL; what a call of it returns is
-- a parameter, and so is what it does outside this program.
pub record Engine : Type 0 where
  pub name : Option Text
  pub caps : Caps
  pub play_audio : Option (Text → Status)
  pub play_video : Option (Text → Status)
  pub toggle : Option Status
  pub stop : Option Status

-- `mlib_engines` and `current`.
pub record Engines : Type 0 where
  pub engines : List Engine
  pub current : Option Engine

-- A pointer that is not NULL.
abbrev pub is_set : {A : Type 0} → Option A → Bool
is_set none = false
is_set (some a) = true

-- The capabilities that `mlib_engine_register` leaves: not one without its function.
unfoldable pub checked_caps : Engine → Caps
checked_caps engine = record {
  audio = engine.caps.audio && is_set engine.play_audio;
  video = engine.caps.video && is_set engine.play_video;
  others = engine.caps.others;
}

-- `mlib_engine_register`. The engine that is refused for its capabilities has lost them: the second
-- part of the result is the engine as the caller finds it.
module _ (h : ListHead) where
  unfoldable pub engine_register : Engine → Engines → Status × Engine × Engines
  engine_register engine es =
      if not (is_set engine.name)
      then (failed, engine, es)
      else (let checked = record engine { caps = checked_caps engine } in
          if not (any_caps checked.caps) then (failed, checked, es) else (
            ok,
            checked,
            record {
              engines = h.list_add_tail es.engines checked [];
              current = if is_set es.current then es.current else some checked;
            },
          ))

-- `__mlib_engines`, a line for each engine.
unfoldable pub engine_lines : List Engine → List (Option Text × Bool × Bool)
engine_lines [] = []
engine_lines (engine ∷ engines) =
    (engine.name, engine.caps.audio, engine.caps.video) ∷ engine_lines engines

-- `__build_uri`, where the memory that `malloc` returns begins with `junk` and a zero, or is NULL. No
-- result is a write outside it.
unfoldable pub build_uri : Option Text → Text → Text → Option Text
build_uri none prefix entry = none
build_uri (some junk) prefix entry =
    let uri = junk ++ prefix ++ b'/' ∷ entry in
    if ltb (length entry + length prefix + 2) (length uri + 1) then none else some uri

-- `MLIB_ENGINE_UNKNOWN`, `MLIB_ENGINE_AUDIO` and `MLIB_ENGINE_VIDEO` as media types.
pub data MediaType : Type 0 where
  unknown : MediaType
  audio : MediaType
  video : MediaType

-- `__mlib_guess_media_type`
unfoldable pub guess_media_type : Text → MediaType
guess_media_type uri = unknown

-- `__mlib_play_audio`: the function is looked at and not called.
unfoldable pub play_audio : Engine → Text → Status
play_audio engine uri =
    if not engine.caps.audio || not (is_set engine.play_audio) then failed else ok

-- `__mlib_play_video`
unfoldable pub play_video : Engine → Text → Status
play_video engine uri =
    if not engine.caps.video
    then failed
    else elim engine.play_video [ none ↦ failed | some play ↦ play uri ]

-- A video first, and audio where that fails: `true` says that "Falling back to audio" is queued.
unfoldable pub play_either : Engine → Text → Status × Bool
play_either engine uri = elim (play_video engine uri) [
  | ok ↦ (ok, false)
  | failed ↦ (play_audio engine uri, true)
]

-- `__mlib_play_media`
unfoldable pub play_media : Option Engine → Option Text → Text → Text → Option (Status × Bool)
play_media none junk prefix entry = some (failed, false)
play_media (some engine) junk prefix entry = elim (build_uri junk prefix entry) [
  | none ↦ none
  | some uri ↦ some (elim (guess_media_type uri) [
    | video ↦ play_either engine uri
    | unknown ↦ play_either engine uri
    | audio ↦ (play_audio engine uri, false)
  ])
]
