-- ===== src/Ipc/Frame.antt =====
-- src/proto/ipc/frame.go: the XNIP frames. A byte is a number below 256 and a stream is the list
-- of the bytes that arrive before it ends. `Encode` panics on a payload that is too long: `none`.
pub mod Words
pub mod RoundTrip
pub mod Accepted
pub mod Stream
mod Tests
use xnc.Prelude.{
  ℕ, suc, ◌+◌, ◌*◌, ◌/◌, ◌%◌, ◌^◌, ◌<◌, ◌≤◌, ◌≡◌, Bool, true, false, ◌&&◌, Option, none, some, List,
  [], ◌∷◌, ◌++◌, length, take, drop, All, ltb, ◌==◌, if◌then◌else◌,
}
use Words.{byte_at, put_uint16, put_uint32, uint16_at, uint32_at}

abbrev pub protocol_version : ℕ
protocol_version = 1

abbrev pub header_size : ℕ
header_size = 16

-- 9 << 20
abbrev pub max_frame_bytes : ℕ
max_frame_bytes = 9437184

abbrev pub magic : List ℕ
magic = b'X' ∷ b'N' ∷ b'I' ∷ b'P' ∷ []

pub record Frame : Type 0 where
  pub flags : ℕ
  pub message_type : ℕ
  pub request_id : ℕ
  pub payload : List ℕ

pub data Error : Type 0 where
  bad_magic truncated eof unexpected_eof : Error
  bad_version : ℕ → Error
  too_large : ℕ → Error

pub data Result {ℓ} (A : Type ℓ) : Type ℓ where
  ok : A → Result A
  err : Error → Result A

infixl 5 ◌>>=◌
abbrev pub ◌>>=◌ {ℓ κ} : {A : Type ℓ} {B : Type κ} → Result A → (A → Result B) → Result B
ok a >>= f = f a
err e >>= f = err e

unfoldable pub header_bytes : Frame → List ℕ
header_bytes f =
    magic
    ++ (protocol_version
        ∷ f.flags
        ∷ (put_uint16 f.message_type
            ++ (put_uint32 f.request_id ++ put_uint32 (length f.payload % 2 ^ 32))))

unfoldable pub encode : Frame → Option (List ℕ)
unfolding header_bytes
encode f =
    if ltb max_frame_bytes (length f.payload) then none else some (header_bytes f ++ f.payload)

abbrev pub same_bytes : List ℕ → List ℕ → Bool
same_bytes [] [] = true
same_bytes (x ∷ xs) (y ∷ ys) = x == y && same_bytes xs ys
same_bytes _ _ = false

-- The message type and the length of the payload.
unfoldable pub decode_header : List ℕ → Result (ℕ × ℕ)
decode_header h =
    if ltb (length h) header_size
    then err truncated
    else if same_bytes (take 4 h) magic
    then (if byte_at h 4 == protocol_version
        then (let n = uint32_at h 12 in
            if ltb max_frame_bytes n then err (too_large n) else ok (uint16_at h 6, n))
        else err (bad_version (byte_at h 4)))
    else err bad_magic

abbrev pub frame_of : List ℕ → ℕ → List ℕ → Frame
frame_of h mt payload = record {
  flags = byte_at h 5;
  message_type = mt;
  request_id = uint32_at h 8;
  payload = payload;
}

unfoldable pub decode : List ℕ → Result Frame
unfolding decode_header
decode wire = do
  (mt, n) ← decode_header wire
  if ltb (length wire) (header_size + n)
      then err truncated
      else ok (frame_of wire mt (take n (drop header_size wire)))

-- io.ReadFull of n bytes, 0 < n: the bytes and the rest of the stream.
unfoldable pub read_full : ℕ → List ℕ → Result (List ℕ × List ℕ)
read_full n s =
    if ltb (length s) n
    then (if length s == 0 then err eof else err unexpected_eof)
    else ok (take n s, drop n s)

-- The payload, once the header `h` is read; `ReadFrame` reads none where the length is 0.
unfoldable pub read_payload : List ℕ → ℕ → ℕ → List ℕ → Result (Frame × List ℕ)
unfolding read_full
read_payload h mt n s =
    if ltb 0 n
    then read_full n s >>= (λ (p : List ℕ × List ℕ). ok (frame_of h mt p.0, p.1))
    else ok (frame_of h mt [], s)

unfoldable pub read_frame : List ℕ → Result (Frame × List ℕ)
unfolding decode_header read_full read_payload
read_frame s = do
  (h, rest) ← read_full header_size s
  (mt, n) ← decode_header h
  read_payload h mt n rest

-- The values that the fields of the Go struct can take.
pub record IsFrame (f : Frame) : Type 0 where
  pub flags_fit : f.flags < 256
  pub message_type_fits : f.message_type < 65536
  pub request_id_fits : f.request_id < 2 ^ 32
  pub payload_fits : All (λ b. b < 256) f.payload
