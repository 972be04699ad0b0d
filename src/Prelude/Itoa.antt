-- ===== src/Prelude/Itoa.antt =====
-- `strconv.Itoa`: the decimal digits of a number, and that no two numbers have the same.
use Prim.Native.Nat.{ℕ, zero, suc, ◌+◌, ◌-◌, ◌*◌, ◌/◌, ◌%◌, ◌<◌}
use Prim.Native.Char.{code}
use Prim.Native.String.append
use Prim.Native.String.{String, [], ◌∷◌, ◌++◌}
use text.Mathlib.TextLemmas.{append_cancel_left, append_assoc, append-nil, cons-ne-nil}
use mathlib.Core.Path.{◌≡◌, refl, sym, ap, ◌∙◌}
use native.Mathlib.Omega.{arith}
use xnc.Prelude.Tests.{ltb, if◌then◌else◌}

unfoldable digit : ℕ → String
digit zero = "0"
digit (suc zero) = "1"
digit (suc (suc zero)) = "2"
digit (suc (suc (suc zero))) = "3"
digit (suc (suc (suc (suc zero)))) = "4"
digit (suc (suc (suc (suc (suc zero))))) = "5"
digit (suc (suc (suc (suc (suc (suc zero)))))) = "6"
digit (suc (suc (suc (suc (suc (suc (suc zero))))))) = "7"
digit (suc (suc (suc (suc (suc (suc (suc (suc zero)))))))) = "8"
digit _ = "9"

unfoldable digits : (fuel : ℕ) → ℕ → String
digits zero n = ""
digits (suc fuel) n =
    let rest = digits fuel (n / 10) in if ltb n 10 then digit n else rest ++ digit (n % 10)

unfoldable itoa : ℕ → String
unfolding digits
itoa n = digits (suc n) n

-- A name with a number behind a dash.
unfoldable pub suffixed : String → ℕ → String
unfolding itoa digits digit
suffixed base i = (base ++ "-") ++ itoa i

-- The number a text of digits stands for, after the digits of `acc`.
unfoldable read_digits : ℕ → String → ℕ
read_digits acc [] = acc
read_digits acc (c ∷ s) = read_digits (acc * 10 + (code c - 48)) s

read_digits-append :
    (s t : String) (acc : ℕ) → read_digits acc (s ++ t) ≡ read_digits (read_digits acc s) t
unfolding read_digits
read_digits-append [] t acc = rw append.nil refl
read_digits-append (c ∷ s) t acc =
    rw append.cons (read_digits-append s t (acc * 10 + (code c - 48)))

read_digits-digit : (d acc : ℕ) → d < 10 → read_digits acc (digit d) ≡ acc * 10 + d
unfolding read_digits digit
read_digits-digit zero acc h = omega arith
read_digits-digit (suc zero) acc h = omega arith
read_digits-digit (suc (suc zero)) acc h = omega arith
read_digits-digit (suc (suc (suc zero))) acc h = omega arith
read_digits-digit (suc (suc (suc (suc zero)))) acc h = omega arith
read_digits-digit (suc (suc (suc (suc (suc zero))))) acc h = omega arith
read_digits-digit (suc (suc (suc (suc (suc (suc zero)))))) acc h = omega arith
read_digits-digit (suc (suc (suc (suc (suc (suc (suc zero))))))) acc h = omega arith
read_digits-digit (suc (suc (suc (suc (suc (suc (suc (suc zero)))))))) acc h = omega arith
read_digits-digit (suc (suc (suc (suc (suc (suc (suc (suc (suc zero))))))))) acc h = omega arith
read_digits-digit (suc (suc (suc (suc (suc (suc (suc (suc (suc (suc n)))))))))) acc h = omega arith

read_digits-digits : (fuel n : ℕ) → n < fuel → read_digits 0 (digits fuel n) ≡ n
unfolding digits
read_digits-digits zero n h = omega arith
read_digits-digits (suc fuel) n h = ground (
  arith,
  read_digits-digit n 0,
  read_digits-append (digits fuel (n / 10)) (digit (n % 10)) 0,
  read_digits-digits fuel (n / 10),
  read_digits-digit (n % 10) (n / 10),
)

itoa_inj : (a b : ℕ) → itoa a ≡ itoa b → a ≡ b
unfolding itoa
itoa_inj a b e =
    sym (read_digits-digits (suc a) a (omega arith))
    ∙ ap (read_digits 0) e
    ∙ read_digits-digits (suc b) b (omega arith)

-- Different numbers make different names.
pub suffixed_inj : (base : String) (a b : ℕ) → suffixed base a ≡ suffixed base b → a ≡ b
unfolding suffixed
suffixed_inj base a b e = itoa_inj a b (append_cancel_left (base ++ "-") (itoa a) (itoa b) e)

dash-ne-nil : (t : String) → "-" ++ t ≡ "" → ⊥
dash-ne-nil t e = cons-ne-nil "-" t (sym (append.cons "-" "" t ∙ ap (◌∷◌ "-") (append.nil t)) ∙ e)

-- A suffix makes another name.
pub suffixed-base : (base : String) (i : ℕ) → suffixed base i ≡ base → ⊥
unfolding suffixed
suffixed-base base i e = dash-ne-nil (itoa i) (
    append_cancel_left base ("-" ++ itoa i) ""
      (sym (append_assoc base "-" (itoa i)) ∙ e ∙ sym (append-nil base)))
