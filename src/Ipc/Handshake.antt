-- ===== src/Ipc/Handshake.antt =====
-- src/proto/ipc/handshake.go: the payloads of the mutual authentication, and its proofs. HMAC-SHA256
-- is a parameter, and the law that the code relies on is the length of its result. The nonces are
-- arguments. A panic of an encoder and an error of a decoder are `none`.
mod Tests
use xnc.Prelude.{
  ℕ, suc, zero, ◌+◌, ◌/◌, ◌%◌, ◌^◌, ◌<◌, ◌≡◌, ◌↔◌, refl, sym, ap, ◌∙◌, inl, inr, Bool, true, false,
  ◌&&◌, Option, none, some, List, [], ◌∷◌, ◌++◌, length, take, drop, take-append, drop-append,
  length-append, ◌==◌, if◌then◌else◌, Bool-cases, arith,
}
use xnc.Ipc.Frame.{same_bytes}
use xnc.Ipc.Frame.Words.{put_uint32, uint32_at, uint32-put}

abbrev pub nonce_size : ℕ
nonce_size = 16

abbrev pub proof_size : ℕ
proof_size = 32

abbrev pub hello_len : ℕ
hello_len = 20

abbrev pub hello_proof_len : ℕ
hello_proof_len = 52

-- The secret, the nonce and the result.
abbrev pub Hmac : Type 0
Hmac = List ℕ → List ℕ → List ℕ

abbrev pub IsHmac : Hmac → Type 0
IsHmac hmac = (secret nonce : List ℕ) → length (hmac secret nonce) ≡ proof_size

abbrev pub proof : Hmac → (secret nonce : List ℕ) → List ℕ
proof hmac secret nonce = hmac secret nonce

abbrev pub verify_proof : Hmac → (secret nonce got : List ℕ) → Bool
verify_proof hmac secret nonce got = same_bytes (proof hmac secret nonce) got

unfoldable pub encode_hello : (pid : ℕ) → (nonce : List ℕ) → Option (List ℕ)
encode_hello pid nonce = if length nonce == nonce_size then some (put_uint32 pid ++ nonce) else none

unfoldable pub decode_hello : List ℕ → Option (ℕ × List ℕ)
decode_hello p =
    if length p == hello_len then some (uint32_at p 0, take nonce_size (drop 4 p)) else none

unfoldable pub encode_hello_proof : (pid : ℕ) → (nonce sum : List ℕ) → Option (List ℕ)
encode_hello_proof pid nonce sum =
    if length nonce == nonce_size && length sum == proof_size
    then some (put_uint32 pid ++ (nonce ++ sum))
    else none

unfoldable pub decode_hello_proof : List ℕ → Option (ℕ × List ℕ × List ℕ)
decode_hello_proof p =
    if length p == hello_proof_len
    then some (uint32_at p 0, take nonce_size (drop 4 p), drop nonce_size (drop 4 p))
    else none

unfoldable pub encode_proof : List ℕ → Option (List ℕ)
encode_proof sum = if length sum == proof_size then some sum else none

unfoldable pub decode_proof : List ℕ → Option (List ℕ)
decode_proof p = if length p == proof_size then some p else none

take-append_at : (n : ℕ) (xs ys : List ℕ) → length xs ≡ n → take n (xs ++ ys) ≡ xs
take-append_at n xs ys e = rw (← e) (take-append xs ys)

drop-append_at : (n : ℕ) (xs ys : List ℕ) → length xs ≡ n → drop n (xs ++ ys) ≡ ys
drop-append_at n xs ys e = rw (← e) (drop-append xs ys)

take-length : (xs : List ℕ) → take (length xs) xs ≡ xs
take-length [] = refl
take-length (x ∷ xs) = ap (◌∷◌ x) (take-length xs)

same_bytes_iff : (xs ys : List ℕ) → (same_bytes xs ys ≡ true) ↔ (xs ≡ ys)
same_bytes_iff [] [] = ((λ h. refl), (λ h. refl))
same_bytes_iff [] (y ∷ ys) = ((λ h. ground arith), (λ h. ground arith))
same_bytes_iff (x ∷ xs) [] = ((λ h. ground arith), (λ h. ground arith))
same_bytes_iff (x ∷ xs) (y ∷ ys) =
    let rest = same_bytes_iff xs ys in ((λ h. ground arith), (λ h. ground arith))

-- A HELLO is read back as the process id and the nonce that were written.
pub decode_hello-encode_hello :
    (pid : ℕ) (nonce p : List ℕ)
    → pid < 2 ^ 32
    → encode_hello pid nonce ≡ some p
    → decode_hello p ≡ some (pid, nonce)
unfolding encode_hello decode_hello
decode_hello-encode_hello pid nonce p fits e = ground (arith, take-length nonce, uint32-put pid)

decode_hello_proof-encode_hello_proof :
    (hmac : Hmac) (secret asked nonce p : List ℕ) (pid : ℕ)
    → pid < 2 ^ 32
    → encode_hello_proof pid nonce (proof hmac secret asked) ≡ some p
    → decode_hello_proof p ≡ some (pid, nonce, proof hmac secret asked)
unfolding encode_hello_proof decode_hello_proof
decode_hello_proof-encode_hello_proof hmac secret asked nonce p pid fits e = ground (
  arith,
  take-append_at 16 nonce (hmac secret asked),
  drop-append_at 16 nonce (hmac secret asked),
  length-append nonce (hmac secret asked),
  uint32-put pid,
)

-- With a nonce of the right size the answer to a HELLO is made. It carries the nonce of its sender
-- and the proof of the nonce that it answers: the peer reads both back, and accepts the proof
-- exactly if its own secret gives the same one, so always with the same secret.
pub encode_hello_proof_lem :
    (hmac : Hmac) (secret own_secret asked nonce : List ℕ) (pid : ℕ)
    → IsHmac hmac
    → length nonce ≡ nonce_size
    → pid < 2 ^ 32
    → (p sum : List ℕ) × (encode_hello_proof pid nonce (proof hmac secret asked) ≡ some p)
      × (decode_hello_proof p ≡ some (pid, nonce, sum))
      × ((verify_proof hmac own_secret asked sum ≡ true)
          ↔ (proof hmac own_secret asked ≡ proof hmac secret asked))
      × (verify_proof hmac secret asked sum ≡ true)
encode_hello_proof_lem hmac secret own_secret asked nonce pid law size fits =
    let p : List ℕ = put_uint32 pid ++ (nonce ++ proof hmac secret asked) in
    let made : encode_hello_proof pid nonce (proof hmac secret asked) ≡ some p =
      unfold encode_hello_proof in ground (arith, law secret asked) in
    (
      p,
      proof hmac secret asked,
      made,
      decode_hello_proof-encode_hello_proof hmac secret asked nonce p pid fits made,
      same_bytes_iff (proof hmac own_secret asked) (proof hmac secret asked),
      (same_bytes_iff (proof hmac secret asked) (proof hmac secret asked)).1 refl,
    )
