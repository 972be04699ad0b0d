-- ===== src/Ipc/Frame/Tests.antt =====
-- src/proto/ipc/frame.go at concrete frames.
use xnc.Prelude.{ℕ, ◌≡◌, refl, List, [], ◌∷◌, ◌++◌, arith}
use xnc.Ipc.Frame.{Frame, IsFrame, ok, encode}
use xnc.Ipc.Frame.Stream.{write_frames, read_frames, read_frames-write_frames}

-- A response of three bytes.
abbrev reply : Frame
reply = record { flags = 1; message_type = 258; request_id = 7; payload = 1 ∷ 2 ∷ 3 ∷ [] }

abbrev ping : Frame
ping = record { flags = 0; message_type = 16; request_id = 8; payload = [] }

abbrev reply_wire : List ℕ
reply_wire = 88 ∷ 78 ∷ 73 ∷ 80 ∷ 1 ∷ 1 ∷ 2 ∷ 1 ∷ 7 ∷ 0 ∷ 0 ∷ 0 ∷ 3 ∷ 0 ∷ 0 ∷ 0 ∷ 1 ∷ 2 ∷ 3 ∷ []

abbrev ping_wire : List ℕ
ping_wire = 88 ∷ 78 ∷ 73 ∷ 80 ∷ 1 ∷ 0 ∷ 16 ∷ 0 ∷ 8 ∷ 0 ∷ 0 ∷ 0 ∷ 0 ∷ 0 ∷ 0 ∷ 0 ∷ []

reply-IsFrame : IsFrame reply
reply-IsFrame = ground arith

ping-IsFrame : IsFrame ping
ping-IsFrame = ground arith

read_frames-write_frames_example :
    (wire : List ℕ) × (reply_wire ++ ping_wire ≡ [] ++ wire)
    × (read_frames 2 (wire ++ (88 ∷ [])) ≡ ok (reply ∷ ping ∷ [], 88 ∷ []))
unfolding write_frames encode
read_frames-write_frames_example =
    read_frames-write_frames (reply ∷ ping ∷ []) [] (reply_wire ++ ping_wire) (88 ∷ [])
      (reply-IsFrame, (ping-IsFrame, tt)) refl
