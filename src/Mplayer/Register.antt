-- ===== src/Mplayer/Register.antt =====
-- The engine when it is registered and plays.
use mlib.Prelude.{
  ℕ, ◌+◌, length, ltb, length-append, ◌≡◌, true, false, none, some, [], ◌∷◌, ◌++◌, arith,
}
use mlib.Memory.{Status, ok, failed}
use mlib.Text.{Text}
use mlib.Lists.{ListHead, IsListHead}
use mlib.Engine.{
  Engines, checked_caps, engine_register, build_uri, guess_media_type, play_audio, play_video,
  play_either, play_media,
}
use mlib.Mplayer.{mplayer_engine, mplayer_engine_init}

strcat_fits :
    (prefix entry : Text)
    → ltb (length entry + length prefix + 2) (length (prefix ++ b'/' ∷ entry) + 1) ≡ false
strcat_fits prefix entry = ground (arith, length-append prefix (b'/' ∷ entry))

strcat_overruns :
    (c : ℕ) (junk prefix entry : Text)
    → ltb (length entry + length prefix + 2) (length (c ∷ junk ++ prefix ++ b'/' ∷ entry) + 1)
      ≡ true
strcat_overruns c junk prefix entry =
    ground (arith, length-append (junk ++ prefix) (b'/' ∷ entry), length-append junk prefix)

-- mplayer_engine_init, where no engine is the current one, returns 0, puts the engine behind those
-- that are registered, and makes it the current one. Playing a path then depends on the memory that
-- `malloc` gives for the URI. Where that begins with a zero, success is returned, and the message
-- on falling back to audio is queued exactly where mplayer_play_URI returns -1 on the prefix, a
-- slash and the path. Where it begins with any other character, playing is a fault: `strcat` writes
-- past the end of that memory. The list inserts as include/mlib/list.h documents.
pub play_media-mplayer_engine_init :
    {h : ListHead} (k : IsListHead h) (play : Text → Status) (toggle stop : Status) (es : Engines)
    → es.current ≡ none
    → (mplayer_engine_init h play toggle stop es ≡ (
      ok,
      mplayer_engine play toggle stop,
      record {
        engines = es.engines ++ mplayer_engine play toggle stop ∷ [];
        current = some (mplayer_engine play toggle stop);
      },
    ))
      × ((prefix entry : Text)
          → play_media (mplayer_engine_init h play toggle stop es).2.current (some []) prefix entry
            ≡ some (ok, elim (play (prefix ++ b'/' ∷ entry)) [ ok ↦ false | failed ↦ true ]))
      × ((c : ℕ) (junk prefix entry : Text)
          → play_media
              (mplayer_engine_init h play toggle stop es).2.current
              (some (c ∷ junk))
              prefix
              entry
            ≡ none)
unfolding mplayer_engine_init mplayer_engine engine_register checked_caps play_media play_either
    play_video play_audio guess_media_type build_uri
play_media-mplayer_engine_init k play toggle stop es first = (
  ground (arith, k.adds_before es.engines (mplayer_engine play toggle stop) []),
  λ prefix entry. ground (arith, strcat_fits prefix entry),
  λ c junk prefix entry. ground (arith, strcat_overruns c junk prefix entry),
)
