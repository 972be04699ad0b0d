-- ===== src/Prelude/Rows/Counts.antt =====
-- How a count of rows changes when rows are added, deleted or updated.
use xnc.Prelude.Rows.{count, without, change, some_row, first}
use xnc.Prelude.Tests.{if◌then◌else◌}
use xnc.Prelude.Lists.{length}
use mathlib.Core.Path.{◌≡◌, refl}
use mathlib.Core.Bool.{Bool, true, false, ◌&&◌, ◌||◌}
use mathlib.Core.Option.{some}
use mathlib.Core.List.{List, [], ◌∷◌, ◌++◌}
use Prim.Native.Nat.{◌+◌, ◌≤◌, ◌<◌}
use native.Mathlib.Omega.{arith}

module _ {ℓ} {A : Type ℓ} where
  pub count-append : (p : A → Bool) (xs ys : List A) → count p (xs ++ ys) ≡ count p xs + count p ys
  unfolding count
  count-append p [] ys = omega arith
  count-append p (x ∷ xs) ys = ground (arith, count-append p xs ys)

  pub count-none : (p : A → Bool) (xs : List A) → some_row p xs ≡ false → count p xs ≡ 0
  unfolding count some_row first
  count-none p [] h = refl
  count-none p (x ∷ xs) h = ground (arith, count-none p xs)

  pub count_mono :
      (p q : A → Bool) (xs : List A) → ((x : A) → p x ≡ true → q x ≡ true) → count p xs ≤ count q xs
  unfolding count
  count_mono p q [] h = omega arith
  count_mono p q (x ∷ xs) h = ground (arith, count_mono p q xs h, h x)

  pub count-false : (p : A → Bool) (xs : List A) → ((x : A) → p x ≡ false) → count p xs ≡ 0
  unfolding count
  count-false p [] h = refl
  count-false p (x ∷ xs) h = ground (arith, count-false p xs h, h x)

  -- A deletion takes away the rows that it names and that were counted.
  pub count-without :
      (p q : A → Bool) (xs : List A)
      → count p (without q xs) + count (λ x. p x && q x) xs ≡ count p xs
  unfolding count without
  count-without p q [] = omega arith
  count-without p q (x ∷ xs) = ground (arith, count-without p q xs)

  -- An update takes at most the rows that it names out of a count.
  pub count-change-lower :
      (p q : A → Bool) (f : A → A) (xs : List A)
      → count p xs ≤ count p (change q f xs) + count (λ x. p x && q x) xs
  unfolding count change
  count-change-lower p q f [] = omega arith
  count-change-lower p q f (x ∷ xs) = ground (arith, count-change-lower p q f xs)

  -- An update that keeps what is counted keeps the count.
  pub count-change :
      (p q : A → Bool) (f : A → A) (xs : List A)
      → ((x : A) → p (f x) ≡ p x)
      → count p (change q f xs) ≡ count p xs
  unfolding count change
  count-change p q f [] h = refl
  count-change p q f (x ∷ xs) h = ground (arith, count-change p q f xs h, h x)

  -- What an update can count at most: rows of two kinds.
  pub count-change-cover :
      (p q r s : A → Bool) (f : A → A) (xs : List A)
      → ((x : A) → p (if q x then f x else x) ≡ true → (r x || s x) ≡ true)
      → count p (change q f xs) ≤ count r xs + count s xs
  unfolding count change
  count-change-cover p q r s f [] h = omega arith
  count-change-cover p q r s f (x ∷ xs) h = ground (arith, count-change-cover p q r s f xs h, h x)

  -- An update that never takes a row out of the count.
  pub count-change-le :
      (p q : A → Bool) (f : A → A) (xs : List A)
      → ((x : A) → p x ≡ true → p (f x) ≡ true)
      → count p xs ≤ count p (change q f xs)
  unfolding count change
  count-change-le p q f [] h = omega arith
  count-change-le p q f (x ∷ xs) h = ground (arith, count-change-le p q f xs h, h x)

  -- When at most one row is named, what holds of the first one holds of all.
  pub only_row :
      (p f : A → Bool) (xs : List A) (t : A)
      → first p xs ≡ some t
      → f t ≡ false
      → count p xs ≤ 1
      → count (λ x. f x && p x) xs ≡ 0
  unfolding count first
  only_row p f [] t e plain one = refl
  only_row p f (x ∷ xs) t e plain one =
      ground (arith, only_row p f xs t, count_mono (λ y. f y && p y) p xs (λ y h. ground arith))

  pub change-none : (p : A → Bool) (f : A → A) (xs : List A) → count p xs ≡ 0 → change p f xs ≡ xs
  unfolding count change
  change-none p f [] h = refl
  change-none p f (x ∷ xs) h = ground (arith, change-none p f xs)

  -- When at most one row is named, a condition that holds of it may be added.
  pub change-only :
      (p r : A → Bool) (f : A → A) (xs : List A) (t : A)
      → first p xs ≡ some t
      → r t ≡ true
      → count p xs ≤ 1
      → change p f xs ≡ change (λ x. p x && r x) f xs
  unfolding count change first
  change-only p r f [] t e h one = refl
  change-only p r f (x ∷ xs) t e h one = ground (
    arith,
    change-only p r f xs t,
    change-none p f xs,
    change-none (λ y. p y && r y) f xs,
    count_mono (λ y. p y && r y) p xs (λ y k. ground arith),
  )

  pub length-change : (p : A → Bool) (f : A → A) (xs : List A) → length (change p f xs) ≡ length xs
  unfolding change
  length-change p f [] = refl
  length-change p f (x ∷ xs) = ground (arith, length-change p f xs)

  length-without-le : (p : A → Bool) (xs : List A) → length (without p xs) ≤ length xs
  unfolding without
  length-without-le p [] = omega arith
  length-without-le p (x ∷ xs) = ground (arith, length-without-le p xs)

  -- A deletion that names the first row that is looked for makes the list shorter.
  pub length-without :
      (p : A → Bool) (xs : List A) (t : A) → first p xs ≡ some t → length (without p xs) < length xs
  unfolding without first
  length-without p [] t h = cc
  length-without p (x ∷ xs) t h = ground (arith, length-without p xs t, length-without-le p xs)

  -- A deletion that names no row of a selection keeps the selection.
  pub first-holds : (p : A → Bool) (xs : List A) (t : A) → first p xs ≡ some t → p t ≡ true
  unfolding first
  first-holds p [] t e = absurd (ground arith)
  first-holds p (x ∷ xs) t e = ground (arith, first-holds p xs t)

  pub first-without :
      (p q : A → Bool) (xs : List A)
      → ((x : A) → p x ≡ true → q x ≡ false)
      → first p (without q xs) ≡ first p xs
  unfolding without first
  first-without p q [] h = refl
  first-without p q (x ∷ xs) h = ground (arith, first-without p q xs h, h x)
