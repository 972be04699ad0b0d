-- ===== src/Ipc/Frame/RoundTrip.antt =====
-- src/proto/ipc/frame.go: what is encoded is read back, from a buffer and from a stream.
use xnc.Prelude.{
  ℕ, ◌≤◌, ◌≡◌, some, List, ◌++◌, length, length-append, take-append, drop-append, arith,
}
use mathlib.Core.List.{append_assoc}
use xnc.Ipc.Frame.{
  Frame, IsFrame, ok, max_frame_bytes, header_bytes, encode, decode, decode_header, read_frame,
  frame_of,
}

-- The header that `encode` writes passes `decode_header`, whatever follows it.
decode_header-header_bytes :
    (f : Frame) (rest : List ℕ)
    → IsFrame f
    → length f.payload ≤ max_frame_bytes
    → decode_header (header_bytes f ++ rest) ≡ ok (f.message_type, length f.payload)
unfolding decode_header header_bytes
decode_header-header_bytes f rest w fits = ground arith

frame_of-header_bytes :
    (f : Frame) (rest : List ℕ)
    → IsFrame f
    → frame_of (header_bytes f ++ rest) f.message_type f.payload ≡ f
unfolding header_bytes
frame_of-header_bytes f rest w = ground arith

decode-framed :
    (f : Frame) (rest : List ℕ)
    → IsFrame f
    → length f.payload ≤ max_frame_bytes
    → decode (header_bytes f ++ (f.payload ++ rest)) ≡ ok f
unfolding decode header_bytes
decode-framed f rest w fits =
    ground (arith, take-append f.payload rest, length-append f.payload rest)

read_frame-framed :
    (f : Frame) (rest : List ℕ)
    → IsFrame f
    → length f.payload ≤ max_frame_bytes
    → read_frame (header_bytes f ++ (f.payload ++ rest)) ≡ ok (f, rest)
unfolding read_frame header_bytes
read_frame-framed f rest w fits =
    ground
      (arith, take-append f.payload rest, drop-append f.payload rest, length-append f.payload rest)

-- The wire form of a frame: the header, then the payload.
pub encode-eq :
    (f : Frame) (wire : List ℕ)
    → encode f ≡ some wire
    → (length f.payload ≤ max_frame_bytes) × (header_bytes f ++ f.payload ≡ wire)
unfolding encode
encode-eq f wire e = ground arith

-- A frame with values that the fields of the struct can take, and that `Encode` accepts, is
-- given back by `Decode` from a buffer that begins with its encoding.
pub decode-encode :
    (f : Frame) (rest wire : List ℕ)
    → IsFrame f
    → encode f ≡ some wire
    → decode (wire ++ rest) ≡ ok f
decode-encode f rest wire w e =
    let (fits, same) = encode-eq f wire e in rw (← same, append_assoc) (decode-framed f rest w fits)

-- `ReadFrame` takes exactly the frame that `Encode` wrote, with values that the fields of the
-- struct can take, from a stream that begins with it, and leaves the rest of the stream.
pub read_frame-encode :
    (f : Frame) (rest wire : List ℕ)
    → IsFrame f
    → encode f ≡ some wire
    → read_frame (wire ++ rest) ≡ ok (f, rest)
read_frame-encode f rest wire w e =
    let (fits, same) = encode-eq f wire e in
    rw (← same, append_assoc) (read_frame-framed f rest w fits)
