-- ===== src/Prelude/Rows.antt =====
-- The rows of a database table: selection, counting, update and deletion by a condition, as the
-- SQL statements use them, and the equality test on texts.
pub mod Counts
use mathlib.Core.Path.{◌≡◌, refl}
use mathlib.Core.Logic.{ite}
use mathlib.Core.Bool.{Bool, true, false}
use mathlib.Core.Option.{Option, none, some}
use mathlib.Core.List.{List, [], ◌∷◌, ◌++◌}
use Prim.Native.Nat.{ℕ, suc, ◌+◌, ◌≤◌}
use native.Mathlib.Omega.{arith}
use xnc.Prelude.Tests.{if◌then◌else◌}
use xnc.Prelude.Keys.{String, String_discrete}

abbrev pub same : String → String → Bool
same s t = ite (String_discrete s t) true false

module _ {ℓ} {A : Type ℓ} where
  -- SELECT … LIMIT 1
  unfoldable pub first : (A → Bool) → List A → Option A
  first p [] = none
  first p (x ∷ xs) = if p x then some x else first p xs

  -- SELECT count(*)
  unfoldable pub count : (A → Bool) → List A → ℕ
  count p [] = 0
  count p (x ∷ xs) = let n = count p xs in if p x then suc n else n

  -- DELETE … WHERE
  unfoldable pub without : (A → Bool) → List A → List A
  without p [] = []
  without p (x ∷ xs) = let ys = without p xs in if p x then ys else x ∷ ys

  -- UPDATE … WHERE
  unfoldable pub change : (A → Bool) → (A → A) → List A → List A
  change p f [] = []
  change p f (x ∷ xs) = (if p x then f x else x) ∷ change p f xs

  unfoldable pub some_row : (A → Bool) → List A → Bool
  some_row p xs = elim (first p xs) [ none ↦ false | some _ ↦ true ]
