-- ===== src/Stream/Sessions.antt =====
-- src/zippylog/stream.cpp: what sessions of writing leave in a file.
use mathlib.Core.List.{append_assoc, append-nil}
use zippylog.Prelude.{
  ◌≡◌, refl, sym, ap, ◌∙◌, true, List, [], ◌∷◌, ◌++◌, Text, length, Outcome, done, ◌>>=◌,
}
use zippylog.Stream.Output.{
  OutputStream, CodedOutput, flush, write_stream_header, write_bytes, open_output, close_output,
}

-- A session: a file is opened, envelopes are written to it by their bytes, and it is closed.
module _ {Message : Type 0} (output : CodedOutput Message) where
  unfoldable pub write_each : List Text → OutputStream → OutputStream
  unfolding write_bytes
  write_each [] s = s
  write_each (t ∷ ts) s = write_each ts (write_bytes output t s).1

  unfoldable pub session : Text → List Text → Outcome Text
  unfolding write_each open_output close_output
  session file ts = open_output output file >>= λ s. done (close_output output (write_each ts s))

  unfoldable pub frames : List Text → Text
  frames [] = []
  frames (t ∷ ts) = output.varint (length t) ++ (t ++ frames ts)

  -- The file is opened, and what is written comes behind what is there.
  pub record IsWriting : Type 0 where
    pub opens : output.opens ≡ true
    pub stats : output.stats ≡ true
    pub flushes : output.flushes ≡ true
    pub puts : (file t : Text) → output.put file t ≡ (true, file ++ t)

  -- The stream is open, with bytes in the file and in the buffer.
  abbrev with_buffer : Text → Text → OutputStream
  with_buffer file t = record { file = file; buffered = t; cos = true }

  write-frames :
      (ts : List Text) (file t : Text)
      → write_each ts (with_buffer file t) ≡ with_buffer file (t ++ frames ts)
  unfolding write_each frames write_bytes
  write-frames [] file t = ap (with_buffer file) (sym (append-nil t))
  write-frames (x ∷ xs) file t =
      write-frames xs file (t ++ output.varint (length x) ++ x)
      ∙ ap (with_buffer file) (simp append_assoc)

  closed :
      (ts : List Text) (file : Text)
      → IsWriting
      → close_output output (write_each ts (with_buffer file [])) ≡ file ++ frames ts
  unfolding close_output
  closed ts file w =
      ap (close_output output) (write-frames ts file []) ∙ ap (λ r. r.1) (w.puts file (frames ts))

  pub frames-append : (ts us : List Text) → frames (ts ++ us) ≡ frames ts ++ frames us
  unfolding frames
  frames-append [] us = refl
  frames-append (t ∷ ts) us = rw (frames-append ts us) (simp append_assoc)

  pub session-new : (ts : List Text) → IsWriting → session [] ts ≡ done (1 ∷ frames ts)
  unfolding session open_output write_stream_header flush frames
  session-new ts w =
      rw (w.opens, w.stats, w.puts [] (1 ∷ []), w.flushes, session) (ap done (closed ts (1 ∷ []) w))

  pub session-more :
      (ts us : List Text) → IsWriting → session (1 ∷ frames ts) us ≡ done (1 ∷ frames (ts ++ us))
  unfolding session open_output frames
  session-more ts us w =
      rw (w.opens, w.stats, session)
        (ap done (closed us (1 ∷ frames ts) w ∙ ap (λ l. 1 ∷ l) (sym (frames-append ts us))))
