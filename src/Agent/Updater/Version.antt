-- ===== src/Agent/Updater/Version.antt =====
-- src/agent/updater/updater.go: the order of versions. A version is the list of the bytes of its text;
-- -1, 0 and 1 are the three answers of an `Ordering`. A loop over the runes that looks for a
-- character other than a digit gives the same answer over the bytes.
use Prim.Native.Nat.{compare, Ordering}
use xnc.Prelude.{
  ℕ, ◌≡◌, refl, Bool, true, false, ◌&&◌, List, [], ◌∷◌, length, leb, ◌==◌, if◌then◌else◌, arith,
}
use xnc.Prelude.Compare.{
  then_by, IsOrder, compare-IsOrder, on-IsOrder, then_by-IsOrder, IsOrder-ext, compare_lists,
  compare_lists-IsOrder, compare_padded, compare_padded-IsOrder,
}

abbrev pub Text : Type 0
Text = List ℕ

-- strings.Compare
abbrev pub compare_texts : Text → Text → Ordering
compare_texts = compare_lists compare

abbrev pub is_empty : Text → Bool
is_empty [] = true
is_empty (c ∷ cs) = false

-- The text before the first dash and the text after it.
unfoldable pub cut_dash : Text → Text × Text
cut_dash [] = ([], [])
cut_dash (c ∷ cs) = let rest = cut_dash cs in if c == b'-' then ([], cs) else (c ∷ rest.0, rest.1)

abbrev pub push_first : ℕ → List Text → List Text
push_first c [] = (c ∷ []) ∷ []
push_first c (s ∷ ss) = (c ∷ s) ∷ ss

-- strings.Split(v, ".")
unfoldable pub split_dots : Text → List Text
split_dots [] = [] ∷ []
split_dots (c ∷ cs) = let rest = split_dots cs in if c == b'.' then [] ∷ rest else push_first c rest

unfoldable pub split_version : Text → List Text × Text
unfolding cut_dash split_dots
split_version v = let (nums, suffix) = cut_dash v in (split_dots nums, suffix)

abbrev pub all_digits : Text → Bool
all_digits [] = true
all_digits (c ∷ cs) = leb b'0' c && leb c b'9' && all_digits cs

abbrev pub is_numeric : Text → Bool
is_numeric [] = false
is_numeric (c ∷ cs) = all_digits (c ∷ cs)

-- strings.TrimLeft(a, "0")
unfoldable pub trim_zeros : Text → Text
trim_zeros [] = []
trim_zeros (c ∷ cs) = let rest = trim_zeros cs in if c == b'0' then rest else c ∷ cs

abbrev pub compare_lengths : Text → Text → Ordering
compare_lengths a b = compare (length a) (length b)

unfoldable pub compare_int_strings : Text → Text → Ordering
unfolding trim_zeros
compare_int_strings a b =
    then_by (compare_lengths (trim_zeros a) (trim_zeros b))
      (compare_texts (trim_zeros a) (trim_zeros b))

unfoldable pub compare_numeric_or_lex : Text → Text → Ordering
unfolding compare_int_strings
compare_numeric_or_lex a b =
    if is_numeric a
    then (if is_numeric b then compare_int_strings a b else Ordering.lt)
    else (if is_numeric b then Ordering.gt else compare_texts a b)

abbrev pub zero_segment : Text
zero_segment = b'0' ∷ []

unfoldable pub compare_suffixes : Text → Text → Ordering
compare_suffixes [] [] = Ordering.eq
compare_suffixes [] (b ∷ bs) = Ordering.gt
compare_suffixes (a ∷ as') [] = Ordering.lt
compare_suffixes (a ∷ as') (b ∷ bs) = compare_texts (a ∷ as') (b ∷ bs)

-- CompareVersions: the segments, a missing one read as "0", and then the suffixes.
unfoldable pub compare_versions : Text → Text → Ordering
unfolding split_version compare_padded compare_numeric_or_lex compare_suffixes
compare_versions a b =
    let (an, sa) = split_version a in
    let (bn, sb) = split_version b in
    then_by (compare_padded compare_numeric_or_lex zero_segment an bn) (compare_suffixes sa sb)

compare_texts-IsOrder : IsOrder compare_texts
compare_texts-IsOrder = compare_lists-IsOrder compare compare-IsOrder

compare_int_strings-IsOrder : IsOrder compare_int_strings
unfolding compare_int_strings
compare_int_strings-IsOrder =
    on-IsOrder trim_zeros
      (then_by-IsOrder (on-IsOrder length compare-IsOrder) compare_texts-IsOrder)

-- Numbers stand before all other segments.
compare_numeric_or_lex-IsOrder : IsOrder compare_numeric_or_lex
unfolding compare_numeric_or_lex
compare_numeric_or_lex-IsOrder = record {
  flipped = λ a b.
      ground (arith, compare_int_strings-IsOrder.flipped a b, compare_texts-IsOrder.flipped a b);
  lt_trans = λ a b c h k.
      ground
        (arith, compare_int_strings-IsOrder.lt_trans a b c, compare_texts-IsOrder.lt_trans a b c);
  eq_left = λ a b c h.
      ground
        (arith, compare_int_strings-IsOrder.eq_left a b c, compare_texts-IsOrder.eq_left a b c);
}

-- A version without a suffix stands behind those with one.
release_rank : Text → ℕ
release_rank a = if is_empty a then 1 else 0

compare_suffixes-rank :
    (a b : Text)
    → compare_suffixes a b ≡ then_by (compare (release_rank a) (release_rank b)) (compare_texts a b)
unfolding compare_suffixes release_rank compare_lists
compare_suffixes-rank [] [] = refl
compare_suffixes-rank [] (b ∷ bs) = refl
compare_suffixes-rank (a ∷ as') [] = refl
compare_suffixes-rank (a ∷ as') (b ∷ bs) = refl

compare_suffixes-IsOrder : IsOrder compare_suffixes
compare_suffixes-IsOrder =
    IsOrder-ext compare_suffixes-rank
      (then_by-IsOrder (on-IsOrder release_rank compare-IsOrder) compare_texts-IsOrder)

-- CompareVersions is a total preorder of all texts: exchanging the versions turns the answer round,
-- "older" is transitive, and versions that are equal compare alike with every other.
pub compare_versions-IsOrder : IsOrder compare_versions
unfolding compare_versions
compare_versions-IsOrder =
    then_by-IsOrder
      (on-IsOrder (λ v. (split_version v).0)
        (compare_padded-IsOrder compare_numeric_or_lex compare_numeric_or_lex-IsOrder zero_segment))
      (on-IsOrder (λ v. (split_version v).1) compare_suffixes-IsOrder)
