-- ===== src/Ipc/Frame/Words.antt =====
-- encoding/binary's little-endian words, as src/proto/ipc uses them.
use xnc.Prelude.{ℕ, zero, suc, ◌+◌, ◌*◌, ◌/◌, ◌%◌, ◌^◌, ◌<◌, ◌≡◌, List, [], ◌∷◌, arith}

-- The byte at an index; the callers have checked the length.
abbrev pub byte_at : List ℕ → ℕ → ℕ
byte_at [] i = 0
byte_at (x ∷ xs) zero = x
byte_at (x ∷ xs) (suc i) = byte_at xs i

abbrev pub put_uint16 : ℕ → List ℕ
put_uint16 v = v % 256 ∷ v / 256 % 256 ∷ []

abbrev pub put_uint32 : ℕ → List ℕ
put_uint32 v = v % 256 ∷ v / 256 % 256 ∷ v / 65536 % 256 ∷ v / 16777216 % 256 ∷ []

abbrev pub uint16 : ℕ → ℕ → ℕ
uint16 a b = a + 256 * b

abbrev pub uint32 : ℕ → ℕ → ℕ → ℕ → ℕ
uint32 a b c d = a + 256 * b + 65536 * c + 16777216 * d

abbrev pub uint16_at : List ℕ → ℕ → ℕ
uint16_at h i = uint16 (byte_at h i) (byte_at h (suc i))

abbrev pub uint32_at : List ℕ → ℕ → ℕ
uint32_at h i =
    uint32 (byte_at h i) (byte_at h (suc i)) (byte_at h (suc (suc i)))
      (byte_at h (suc (suc (suc i))))

pub uint16-put : (v : ℕ) → v < 65536 → uint16 (v % 256) (v / 256 % 256) ≡ v
uint16-put v h = omega arith

pub uint32-put :
    (v : ℕ)
    → v < 2 ^ 32
    → uint32 (v % 256) (v / 256 % 256) (v / 65536 % 256) (v / 16777216 % 256) ≡ v
uint32-put v h = omega arith
