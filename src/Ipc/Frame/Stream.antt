-- ===== src/Ipc/Frame/Stream.antt =====
-- src/proto/ipc/frame.go: a connection as the stream of the frames written to it. `WriteFrame` writes
-- the encoding in one call, so the stream is the encodings one after another.
use mathlib.Core.List.{append_assoc, append-nil}
use xnc.Prelude.{
  zero, suc, ℕ, ◌≡◌, refl, inl, inr, Option, none, some, List, [], ◌∷◌, ◌++◌, length, All,
  Option-cases, arith,
}
use xnc.Ipc.Frame.{Frame, IsFrame, Result, ok, ◌>>=◌, encode, read_frame}
use xnc.Ipc.Frame.RoundTrip.{read_frame-encode}

-- `WriteFrame` of each frame, to a stream that holds `s`; `none` is the panic of `Encode`.
unfoldable pub write_frames : List ℕ → List Frame → Option (List ℕ)
write_frames s [] = some s
write_frames s (f ∷ fs) = elim (encode f) [ none ↦ none | some wire ↦ write_frames (s ++ wire) fs ]

-- `ReadFrame` as often as asked: the frames, and the rest of the stream.
unfoldable pub read_frames : ℕ → List ℕ → Result (List Frame × List ℕ)
read_frames zero s = ok ([], s)
read_frames (suc n) s = do (f, s') ← read_frame s; (fs, s'') ← read_frames n s'; ok (f ∷ fs, s'')

stream_step :
    (f : Frame) (fs : List Frame) (s w1 wire t rest : List ℕ)
    → IsFrame f
    → encode f ≡ some w1
    → t ≡ (s ++ w1) ++ wire
    → read_frames (length fs) (wire ++ rest) ≡ ok (fs, rest)
    → (t ≡ s ++ (w1 ++ wire))
      × (read_frames (suc (length fs)) ((w1 ++ wire) ++ rest) ≡ ok (f ∷ fs, rest))
unfolding read_frames
stream_step f fs s w1 wire t rest v e eq ih = (
  rw eq (append_assoc s w1 wire),
  rw (append_assoc w1 wire rest, read_frame-encode f (wire ++ rest) w1 v e, ◌>>=◌, ih),
)

-- What `WriteFrame` appends to a stream, frame by frame, `ReadFrame` gives back as the same
-- frames in the same order, and the bytes that follow stay on the stream; the frames have values
-- that the fields of the struct can take.
pub read_frames-write_frames :
    (fs : List Frame) (s t rest : List ℕ)
    → All IsFrame fs
    → write_frames s fs ≡ some t
    → (wire : List ℕ) × (t ≡ s ++ wire) × (read_frames (length fs) (wire ++ rest) ≡ ok (fs, rest))
unfolding write_frames
read_frames-write_frames [] s t rest w e =
    ([], ground (arith, append-nil s), unfold read_frames in refl)
read_frames-write_frames (f ∷ fs) s t rest w e = elim (Option-cases (encode f)) [
  | inl no_wire ↦ absurd (ground arith)
  | inr (w1, h) ↦
      let (wire, eq, ih) = read_frames-write_frames fs (s ++ w1) t rest w.1 (ground arith) in
      let (whole, read) = stream_step f fs s w1 wire t rest w.0 h eq ih in (w1 ++ wire, whole, read)
]
