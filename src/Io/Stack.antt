-- ===== src/Io/Stack.antt =====
-- The stack of input streams.
use mlib.Prelude.{◌≡◌, Option, some, [], ◌∷◌}
use native.Mathlib.Omega.{arith}
use mlib.Memory.{failed}
use mlib.Text.{Text}
use mlib.Lists.{ListHead, IsListHead}
use mlib.Io.{File, stdin, Streams, push_stream, pop_stream}

module _ {h : ListHead} (k : IsListHead h) where
  -- Popping the stream that was just pushed, where `fopen` gave a file, leaves the stack as it was
  -- and returns -1. The current stream is then `stdin` if the stack was empty before; if it was
  -- not, it is still the file that was closed. The list inserts and deletes as include/mlib/list.h
  -- documents.
  pub pop-push_stream :
      (fopen : Text → Option File) (stream : Text) (file : File) (s : Streams)
      → fopen stream ≡ some file
      → pop_stream h (push_stream h fopen (some stream) s).1 ≡ (
        failed,
        record {
          input_streams = s.input_streams;
          current_stream = elim s.input_streams [ [] ↦ stdin | f ∷ fs ↦ file ];
        },
      )
  unfolding pop_stream push_stream
  pop-push_stream fopen stream file s e =
      ground (arith, k.adds_first file s.input_streams, k.deletes [] file s.input_streams)
