-- ===== src/Agent/Updater/Numbers.antt =====
-- src/agent/updater/updater.go: the comparison of segments of digits is that of their numbers.
use Prim.Native.Nat.{compare}
use native.Mathlib.Nat.{mul-le-mul_right, zero-mul, suc-mul}
use xnc.Prelude.{
  ℕ, zero, suc, ◌+◌, ◌-◌, ◌*◌, ◌≤◌, ◌<◌, ◌≡◌, ◌≢◌, refl, ap, ◌∙◌, inl, inr, true, [], ◌∷◌, length,
  ◌==◌, Bool-cases, ltb, ℕ_discrete, arith,
}
use xnc.Prelude.Compare.{compare_lists}
use xnc.Agent.Updater.Version.{Text, compare_texts, all_digits, trim_zeros, compare_int_strings}

-- Ten to the power of a number of digits, and the number that a text of digits stands for.
unfoldable pub tens : ℕ → ℕ
tens zero = 1
tens (suc n) = 10 * tens n

abbrev pub value : Text → ℕ
value [] = 0
value (c ∷ cs) = (c - b'0') * tens (length cs) + value cs

value-lt_tens : (cs : Text) → all_digits cs ≡ true → value cs < tens (length cs)
unfolding tens
value-lt_tens [] h = ground arith
value-lt_tens (c ∷ cs) h =
    let rest = value-lt_tens cs (ground arith) in
    let digit : c - b'0' ≤ 9 = ground arith in
    let bound = mul-le-mul_right (tens (length cs)) digit in omega arith

tens-le_value :
    (c : ℕ) (cs : Text) → all_digits (c ∷ cs) ≡ true → c ≢ b'0' → tens (length cs) ≤ value (c ∷ cs)
tens-le_value c cs h other =
    let digit : 1 ≤ c - b'0' = ground arith in
    let bound = mul-le-mul_right (tens (length cs)) digit in omega arith

tens_mono : (m n : ℕ) → m ≤ n → tens m ≤ tens n
unfolding tens
tens_mono zero zero le = ground arith
tens_mono zero (suc n) le = let more = tens_mono zero n (omega arith) in ground arith
tens_mono (suc m) zero le = absurd (omega arith)
tens_mono (suc m) (suc n) le = let more = tens_mono m n (omega arith) in omega arith

-- A shorter number without a leading zero is smaller.
value-shorter :
    (as' : Text) (b : ℕ) (bs : Text)
    → all_digits as' ≡ true
    → all_digits (b ∷ bs) ≡ true
    → b ≢ b'0'
    → length as' < length (b ∷ bs)
    → value as' < value (b ∷ bs)
value-shorter as' b bs h k other lt =
    let small = value-lt_tens as' h in
    let large = tens-le_value b bs k other in
    let mono = tens_mono (length as') (length bs) (omega arith) in omega arith

-- A smaller first digit makes a smaller number.
head_lt : (a b t m n : ℕ) → a < b → b'0' ≤ a → m < t → (a - b'0') * t + m < (b - b'0') * t + n
head_lt a b t m n lt digit small =
    let step : suc (a - b'0') ≤ b - b'0' = omega arith in
    let bound = mul-le-mul_right t step in let open_up = suc-mul (a - b'0') t in omega arith

-- Numbers with the same number of digits compare as texts.
compare_texts-value :
    (as' bs : Text)
    → all_digits as' ≡ true
    → all_digits bs ≡ true
    → length as' ≡ length bs
    → compare_texts as' bs ≡ compare (value as') (value bs)
unfolding compare_lists
compare_texts-value [] [] h k e = ground arith
compare_texts-value [] (b ∷ bs) h k e = absurd (omega arith)
compare_texts-value (a ∷ as') [] h k e = absurd (omega arith)
compare_texts-value (a ∷ as') (b ∷ bs) h k e =
    let rest = compare_texts-value as' bs (ground arith) (ground arith) (omega arith) in
    let small = value-lt_tens as' (ground arith) in
    let small' = value-lt_tens bs (ground arith) in
    let t = tens (length as') in
    let same : tens (length bs) ≡ t = ap tens (omega arith) in
    rw (same, rest)
      (elim (ℕ_discrete a b) [
        | yes equal ↦ rw (equal) (ground arith)
        | no other ↦ elim (Bool-cases (ltb a b)) [
          | inl less ↦
              let before =
                head_lt a b t (value as') (value bs) (ground arith) (ground arith) small in
              ground arith
          | inr more ↦
              let before =
                head_lt b a t (value bs) (value as') (ground arith) (ground arith)
                  (rw⁻¹ (same) small') in
              ground arith
        ]
      ])

trim_zeros-digits : (cs : Text) → all_digits cs ≡ true → all_digits (trim_zeros cs) ≡ true
unfolding trim_zeros
trim_zeros-digits [] h = refl
trim_zeros-digits (c ∷ cs) h = let rest = trim_zeros-digits cs (ground arith) in ground arith

trim_zeros-value : (cs : Text) → value (trim_zeros cs) ≡ value cs
unfolding trim_zeros
trim_zeros-value [] = refl
trim_zeros-value (c ∷ cs) =
    let rest = trim_zeros-value cs in
    elim (ℕ_discrete c b'0') [
      | yes e ↦
          let digit : c - b'0' ≡ 0 = omega arith in
          let nothing = ap (λ d. d * tens (length cs)) digit ∙ zero-mul (tens (length cs)) in
          ground arith
      | no other ↦ ground arith
    ]

-- What is left of a text of digits starts with another digit than zero.
abbrev Trimmed : Text → Type 0
Trimmed [] = Unit
Trimmed (c ∷ cs) = c ≢ b'0'

trim_zeros-Trimmed : (cs : Text) → Trimmed (trim_zeros cs)
unfolding trim_zeros
trim_zeros-Trimmed [] = tt
trim_zeros-Trimmed (c ∷ cs) = elim (Bool-cases (c == b'0')) [
  | inl e ↦ rw (trim_zeros, e) (trim_zeros-Trimmed cs)
  | inr other ↦ rw (trim_zeros, other) (λ same. ground arith)
]

shorter-Trimmed :
    (as' bs : Text)
    → Trimmed bs
    → all_digits as' ≡ true
    → all_digits bs ≡ true
    → length as' < length bs
    → value as' < value bs
shorter-Trimmed as' [] start h k lt = absurd (omega arith)
shorter-Trimmed as' (b ∷ bs) start h k lt = value-shorter as' b bs h k start lt

-- Two segments of digits, with leading zeros or without, compare as the numbers that they stand for.
pub compare_int_strings-value :
    (as' bs : Text)
    → all_digits as' ≡ true
    → all_digits bs ≡ true
    → compare_int_strings as' bs ≡ compare (value as') (value bs)
unfolding compare_int_strings
compare_int_strings-value as' bs h k =
    let x = trim_zeros as' in
    let y = trim_zeros bs in
    let hx = trim_zeros-digits as' h in
    let hy = trim_zeros-digits bs k in
    let less = shorter-Trimmed x y (trim_zeros-Trimmed bs) hx hy in
    let more = shorter-Trimmed y x (trim_zeros-Trimmed as') hy hx in
    let level = compare_texts-value x y hx hy in
    rw⁻¹ (trim_zeros-value as', trim_zeros-value bs) (ground arith)
