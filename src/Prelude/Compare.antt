-- ===== src/Prelude/Compare.antt =====
-- Comparisons with three answers, as Go's -1, 0 and 1: their laws, and how they are put together.
use Prim.Native.Nat.{compare, Ordering}
use mathlib.Core.Path.{◌≡◌, refl}
use mathlib.Core.List.{List, [], ◌∷◌}
use native.Mathlib.Omega.{arith}

abbrev pub flip : Ordering → Ordering
flip Ordering.lt = Ordering.gt
flip Ordering.eq = Ordering.eq
flip Ordering.gt = Ordering.lt

-- The second answer where the first is "equal".
abbrev pub then_by : Ordering → Ordering → Ordering
then_by Ordering.eq o = o
then_by Ordering.lt o = Ordering.lt
then_by Ordering.gt o = Ordering.gt

-- A total preorder, as a comparison: it is antisymmetric and transitive, and what compares as equal
-- compares alike with all else.
pub record IsOrder {ℓ} {A : Type ℓ} (cmp : A → A → Ordering) : Type ℓ where
  pub flipped : (a b : A) → cmp b a ≡ flip (cmp a b)
  pub lt_trans : (a b c : A) → cmp a b ≡ Ordering.lt → cmp b c ≡ Ordering.lt → cmp a c ≡ Ordering.lt
  pub eq_left : (a b c : A) → cmp a b ≡ Ordering.eq → cmp a c ≡ cmp b c

pub compare-IsOrder : IsOrder compare
compare-IsOrder = record {
  flipped = λ a b. ground arith;
  lt_trans = λ a b c h k. ground arith;
  eq_left = λ a b c h. ground arith;
}

-- The order by a key.
pub on-IsOrder {ℓ κ} :
    {A : Type ℓ} {B : Type κ} (key : A → B) {cmp : B → B → Ordering}
    → IsOrder cmp
    → IsOrder (λ a b. cmp (key a) (key b))
on-IsOrder key w = record {
  flipped = λ a b. w.flipped (key a) (key b);
  lt_trans = λ a b c. w.lt_trans (key a) (key b) (key c);
  eq_left = λ a b c. w.eq_left (key a) (key b) (key c);
}

-- A comparison with the same answers.
pub IsOrder-ext {ℓ} :
    {A : Type ℓ} {c d : A → A → Ordering} → ((a b : A) → c a b ≡ d a b) → IsOrder d → IsOrder c
IsOrder-ext {c} {d} e w = record {
  flipped = λ a b. rw (e b a, e a b) (w.flipped a b);
  lt_trans = λ x y z h k. rw (e x z) (w.lt_trans x y z (rw (← e x y) h) (rw (← e y z) k));
  eq_left = λ x y z h. rw (e x z, e y z) (w.eq_left x y z (rw (← e x y) h));
}

module _ {ℓ} {A : Type ℓ} {c d : A → A → Ordering} (v : IsOrder c) (w : IsOrder d) where
  -- The order by `c` and then by `d`.
  pub then_by-IsOrder : IsOrder (λ x y. then_by (c x y) (d x y))
  then_by-IsOrder = record {
    flipped = λ x y. ground (arith, v.flipped x y, w.flipped x y);
    lt_trans = λ x y z h k. ground (
      arith,
      v.lt_trans x y z,
      w.lt_trans x y z,
      v.eq_left x y z,
      v.eq_left z y x,
      v.eq_left y z x,
      v.flipped x y,
      v.flipped y z,
      v.flipped x z,
    );
    eq_left = λ x y z h. ground (arith, v.eq_left x y z, w.eq_left x y z);
  }

module _ {ℓ} {A : Type ℓ} (cmp : A → A → Ordering) where
  -- The order of lists by their elements, the shorter list first: strings.Compare on bytes.
  unfoldable pub compare_lists : List A → List A → Ordering
  compare_lists [] [] = Ordering.eq
  compare_lists [] (y ∷ ys) = Ordering.lt
  compare_lists (x ∷ xs) [] = Ordering.gt
  compare_lists (x ∷ xs) (y ∷ ys) = then_by (cmp x y) (compare_lists xs ys)

  module _ (w : IsOrder cmp) where
    lt_step :
        (x y z : A) (p q r : Ordering)
        → (p ≡ Ordering.lt → q ≡ Ordering.lt → r ≡ Ordering.lt)
        → then_by (cmp x y) p ≡ Ordering.lt
        → then_by (cmp y z) q ≡ Ordering.lt
        → then_by (cmp x z) r ≡ Ordering.lt
    lt_step x y z p q r rest h k = ground (
      arith,
      w.lt_trans x y z,
      w.eq_left x y z,
      w.eq_left y z x,
      w.flipped x y,
      w.flipped y z,
      w.flipped x z,
    )

    eq_step :
        (x y z : A) (p q r : Ordering)
        → (p ≡ Ordering.eq → r ≡ q)
        → then_by (cmp x y) p ≡ Ordering.eq
        → then_by (cmp x z) r ≡ then_by (cmp y z) q
    eq_step x y z p q r rest h = ground (arith, w.eq_left x y z)

    flip_step :
        (x y : A) (p q : Ordering) → q ≡ flip p → then_by (cmp y x) q ≡ flip (then_by (cmp x y) p)
    flip_step x y p q h = ground (arith, w.flipped x y)

    lists_flipped : (xs ys : List A) → compare_lists ys xs ≡ flip (compare_lists xs ys)
    unfolding compare_lists
    lists_flipped [] [] = refl
    lists_flipped (x ∷ xs) [] = refl
    lists_flipped [] (y ∷ ys) = refl
    lists_flipped (x ∷ xs) (y ∷ ys) = flip_step x y _ _ (lists_flipped xs ys)

    lists_lt :
        (xs ys zs : List A)
        → compare_lists xs ys ≡ Ordering.lt
        → compare_lists ys zs ≡ Ordering.lt
        → compare_lists xs zs ≡ Ordering.lt
    unfolding compare_lists
    lists_lt [] [] zs h k = k
    lists_lt [] (y ∷ ys) [] h k = cc
    lists_lt [] (y ∷ ys) (z ∷ zs) h k = refl
    lists_lt (x ∷ xs) [] zs h k = cc
    lists_lt (x ∷ xs) (y ∷ ys) [] h k = cc
    lists_lt (x ∷ xs) (y ∷ ys) (z ∷ zs) h k = lt_step x y z _ _ _ (lists_lt xs ys zs) h k

    lists_eq :
        (xs ys zs : List A)
        → compare_lists xs ys ≡ Ordering.eq
        → compare_lists xs zs ≡ compare_lists ys zs
    unfolding compare_lists
    lists_eq [] [] zs h = refl
    lists_eq [] (y ∷ ys) zs h = cc
    lists_eq (x ∷ xs) [] zs h = cc
    lists_eq (x ∷ xs) (y ∷ ys) [] h = refl
    lists_eq (x ∷ xs) (y ∷ ys) (z ∷ zs) h = eq_step x y z _ _ _ (lists_eq xs ys zs) h

    pub compare_lists-IsOrder : IsOrder compare_lists
    compare_lists-IsOrder = record {
      flipped = lists_flipped;
      lt_trans = lists_lt;
      eq_left = lists_eq;
    }

  -- The order of lists by their elements, where `pad` stands for a missing element.
  unfoldable pub compare_padded : A → List A → List A → Ordering
  compare_padded pad [] [] = Ordering.eq
  compare_padded pad (x ∷ xs) [] = then_by (cmp x pad) (compare_padded pad xs [])
  compare_padded pad [] (y ∷ ys) = then_by (cmp pad y) (compare_padded pad [] ys)
  compare_padded pad (x ∷ xs) (y ∷ ys) = then_by (cmp x y) (compare_padded pad xs ys)

  module _ (w : IsOrder cmp) (pad : A) where
    padded_flipped : (xs ys : List A) → compare_padded pad ys xs ≡ flip (compare_padded pad xs ys)
    unfolding compare_padded
    padded_flipped [] [] = refl
    padded_flipped (x ∷ xs) [] = flip_step w x pad _ _ (padded_flipped xs [])
    padded_flipped [] (y ∷ ys) = flip_step w pad y _ _ (padded_flipped [] ys)
    padded_flipped (x ∷ xs) (y ∷ ys) = flip_step w x y _ _ (padded_flipped xs ys)

    padded_lt :
        (xs ys zs : List A)
        → compare_padded pad xs ys ≡ Ordering.lt
        → compare_padded pad ys zs ≡ Ordering.lt
        → compare_padded pad xs zs ≡ Ordering.lt
    unfolding compare_padded
    padded_lt [] [] zs h k = k
    padded_lt (x ∷ xs) [] [] h k = h
    padded_lt (x ∷ xs) [] (z ∷ zs) h k = lt_step w x pad z _ _ _ (padded_lt xs [] zs) h k
    padded_lt [] (y ∷ ys) [] h k = absurd (ground (arith, padded_flipped [] (y ∷ ys)))
    padded_lt [] (y ∷ ys) (z ∷ zs) h k = lt_step w pad y z _ _ _ (padded_lt [] ys zs) h k
    padded_lt (x ∷ xs) (y ∷ ys) [] h k = lt_step w x y pad _ _ _ (padded_lt xs ys []) h k
    padded_lt (x ∷ xs) (y ∷ ys) (z ∷ zs) h k = lt_step w x y z _ _ _ (padded_lt xs ys zs) h k

    padded_eq :
        (xs ys zs : List A)
        → compare_padded pad xs ys ≡ Ordering.eq
        → compare_padded pad xs zs ≡ compare_padded pad ys zs
    unfolding compare_padded
    padded_eq [] [] zs h = refl
    padded_eq (x ∷ xs) [] [] h = h
    padded_eq (x ∷ xs) [] (z ∷ zs) h = eq_step w x pad z _ _ _ (padded_eq xs [] zs) h
    padded_eq [] (y ∷ ys) [] h = ground (arith, padded_flipped [] (y ∷ ys))
    padded_eq [] (y ∷ ys) (z ∷ zs) h = eq_step w pad y z _ _ _ (padded_eq [] ys zs) h
    padded_eq (x ∷ xs) (y ∷ ys) [] h = eq_step w x y pad _ _ _ (padded_eq xs ys []) h
    padded_eq (x ∷ xs) (y ∷ ys) (z ∷ zs) h = eq_step w x y z _ _ _ (padded_eq xs ys zs) h

    pub compare_padded-IsOrder : IsOrder (compare_padded pad)
    compare_padded-IsOrder = record {
      flipped = padded_flipped;
      lt_trans = padded_lt;
      eq_left = padded_eq;
    }
