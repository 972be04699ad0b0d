-- ===== src/Ipc/Handshake/Tests.antt =====
-- src/proto/ipc/handshake.go with a fixed function in the place of HMAC.
use xnc.Prelude.{ℕ, zero, suc, ◌≡◌, refl, List, [], ◌∷◌, ◌++◌, length, arith}
use xnc.Ipc.Handshake.{Hmac, IsHmac}

-- A list cut or filled up to a length.
abbrev fill : ℕ → List ℕ → List ℕ
fill zero xs = []
fill (suc n) [] = 0 ∷ fill n []
fill (suc n) (x ∷ xs) = x ∷ fill n xs

length-fill : (n : ℕ) (xs : List ℕ) → length (fill n xs) ≡ n
length-fill zero xs = refl
length-fill (suc n) [] = ground (arith, length-fill n [])
length-fill (suc n) (x ∷ xs) = ground (arith, length-fill n xs)

abbrev mix : Hmac
mix secret nonce = fill 32 (secret ++ nonce)

mix-IsHmac : IsHmac mix
mix-IsHmac = λ secret nonce. length-fill 32 (secret ++ nonce)

abbrev nonce : List ℕ
nonce = fill 16 (9 ∷ 8 ∷ [])

abbrev hello : List ℕ
hello = 1 ∷ 2 ∷ 0 ∷ 0 ∷ nonce
