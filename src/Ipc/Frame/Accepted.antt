-- ===== src/Ipc/Frame/Accepted.antt =====
-- src/proto/ipc/frame.go: what `Decode` and `ReadFrame` accept, and what they refuse.
use xnc.Prelude.{
  ◌-◌, ℕ, zero, suc, ◌+◌, ◌≤◌, ◌<◌, ◌≡◌, refl, ap, some, List, [], ◌∷◌, ◌++◌, length, take, drop,
  All, length-append, arith,
}
use native.Mathlib.Nat.{zero-add, suc-add}
use native.Mathlib.Decide.{dec_lt}
use xnc.Ipc.Frame.RoundTrip.{encode-eq}
use xnc.Ipc.Frame.Words.{uint32, uint32_at}
use xnc.Ipc.Frame.{
  Frame, IsFrame, ok, err, truncated, max_frame_bytes, header_size, header_bytes, encode, decode,
}

length-take : {A : Type 0} (n : ℕ) (xs : List A) → n ≤ length xs → length (take n xs) ≡ n
length-take zero xs h = refl
length-take (suc n) [] h = omega arith
length-take (suc n) (x ∷ xs) h = omega (arith, length-take n xs)

length-drop :
    {A : Type 0} (n : ℕ) (xs : List A) → n ≤ length xs → length (drop n xs) + n ≡ length xs
length-drop zero xs h = omega arith
length-drop (suc n) [] h = omega arith
length-drop (suc n) (x ∷ xs) h = omega (arith, length-drop n xs)

length-take-le : {A : Type 0} (n : ℕ) (xs : List A) → length (take n xs) ≤ n
length-take-le zero xs = omega arith
length-take-le (suc n) [] = omega arith
length-take-le (suc n) (x ∷ xs) = omega (arith, length-take-le n xs)

-- The payload of a decoded frame is within the limit, and its bytes were all in the buffer.
pub decode_bounds :
    (wire : List ℕ) {f : Frame}
    → decode wire ≡ ok f
    → (length f.payload ≤ max_frame_bytes) × (header_size + length f.payload ≤ length wire)
unfolding decode
decode_bounds wire e =
    ground (arith, length-take (uint32_at wire 12) (drop 16 wire), length-drop 16 wire)

-- A buffer of bytes that `Decode` accepts begins with the encoding of the frame it returns: no
-- two encodings stand for one frame.
pub encode-decode :
    (wire : List ℕ) {f : Frame}
    → All (λ b. b < 256) wire
    → decode wire ≡ ok f
    → encode f ≡ some (take header_size wire ++ take (length f.payload) (drop header_size wire))
unfolding decode encode
encode-decode
      (b0 ∷ b1 ∷ b2 ∷ b3 ∷ b4 ∷ b5 ∷ b6 ∷ b7 ∷ b8 ∷ b9 ∷ b10 ∷ b11 ∷ b12 ∷ b13 ∷ b14 ∷ b15 ∷ rest) w
      e =
    ground (arith, length-take (uint32 b12 b13 b14 b15) rest)
encode-decode _ w e = ground arith

take-append_add :
    {A : Type 0} (xs ys : List A) (j : ℕ) → take (length xs + j) (xs ++ ys) ≡ xs ++ take j ys
take-append_add [] ys j = rw zero-add
take-append_add (x ∷ xs) ys j = rw suc-add (ap (◌∷◌ x) (take-append_add xs ys j))

length-header_bytes : (f : Frame) → length (header_bytes f) ≡ header_size
unfolding header_bytes
length-header_bytes f = refl

decode_short : (wire : List ℕ) → length wire < header_size → decode wire ≡ err truncated
unfolding decode
decode_short wire h = ground arith

decode_cut :
    (f : Frame) (part : List ℕ)
    → IsFrame f
    → length f.payload ≤ max_frame_bytes
    → length part < length f.payload
    → decode (header_bytes f ++ part) ≡ err truncated
unfolding decode header_bytes
decode_cut f part v fits short = ground arith

cut_long :
    (f : Frame) (wire : List ℕ) (k : ℕ)
    → IsFrame f
    → length f.payload ≤ max_frame_bytes
    → header_bytes f ++ f.payload ≡ wire
    → k < length wire
    → header_size ≤ k
    → decode (take k wire) ≡ err truncated
cut_long f wire k v fits same lt le =
    let j : ℕ = k - header_size in
    let at : k ≡ length (header_bytes f) + j = omega (arith, length-header_bytes f) in
    let total = ap length same in
    rw (at, ← same, take-append_add (header_bytes f) f.payload j)
      (decode_cut f (take j f.payload) v fits (
        omega (
          arith,
          total,
          length-append (header_bytes f) f.payload,
          length-header_bytes f,
          length-take-le j f.payload,
        )))

-- Every proper prefix of the encoding of a frame, with values that the fields of the struct can
-- take, is refused as truncated.
pub decode-take_encode :
    (f : Frame) (wire : List ℕ) (k : ℕ)
    → IsFrame f
    → encode f ≡ some wire
    → k < length wire
    → decode (take k wire) ≡ err truncated
decode-take_encode f wire k v e lt = elim (dec_lt k header_size) [
  | yes short ↦ decode_short (take k wire) (omega (arith, length-take k wire))
  | no long ↦
      let (fits, same) = encode-eq f wire e in cut_long f wire k v fits same lt (omega arith)
]
