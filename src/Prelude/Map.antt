-- ===== src/Prelude/Map.antt =====
-- Go maps as association lists. Go fixes no order of iteration: here it is the order of the list.
-- A map never holds a key twice in the code; the laws of `get` need no such hypothesis.
use mathlib.Core.Path.{◌≡◌, refl}
use mathlib.Core.Logic.{ite, ◌≢◌}
use mathlib.Core.Option.{Option, none, some}
use mathlib.Core.List.{List, [], ◌∷◌, ◌++◌}
use Prim.Native.Nat.{suc, ◌≤◌, ◌<◌}
use xnc.Prelude.Lists.{length}
use native.Mathlib.Omega.{arith}
use xnc.Prelude.Keys.{String, String_discrete}

-- The entries of a `map[K]V`, in the order in which a `range` visits them.
abbrev pub Map {ℓ} : Type ℓ → Type ℓ → Type ℓ
Map K V = List (K × V)

module _ {ℓ} {K V : Type ℓ} (dec : Discrete K) where
  unfoldable pub get : K → Map K V → Option V
  get k [] = none
  get k ((j, v) ∷ m) = ite (dec j k) (some v) (get k m)

  unfoldable pub put : K → V → Map K V → Map K V
  put k v [] = (k, v) ∷ []
  put k v ((j, w) ∷ m) = ite (dec j k) ((k, v) ∷ m) ((j, w) ∷ put k v m)

  unfoldable pub del : K → Map K V → Map K V
  del k [] = []
  del k ((j, w) ∷ m) = let rest = del k m in ite (dec j k) rest ((j, w) ∷ rest)

  pub get-put :
      (k j : K) (v : V) (m : Map K V) → get j (put k v m) ≡ ite (dec k j) (some v) (get j m)
  unfolding get put
  get-put k j v [] = refl
  get-put k j v ((i, w) ∷ m) = ground (arith, get-put k j v m)

  pub get-del : (k j : K) (m : Map K V) → get j (del k m) ≡ ite (dec k j) none (get j m)
  unfolding get del
  get-del k j [] = ground arith
  get-del k j ((i, w) ∷ m) = ground (arith, get-del k j m)

  pub put-absent : (k : K) (v : V) (m : Map K V) → get k m ≡ none → put k v m ≡ m ++ ((k, v) ∷ [])
  unfolding get put
  put-absent k v [] e = refl
  put-absent k v ((i, w) ∷ m) e = ground (arith, put-absent k v m)

  pub del-appended : (k : K) (v : V) (m : Map K V) → get k m ≡ none → del k (m ++ ((k, v) ∷ [])) ≡ m
  unfolding get del
  del-appended k v [] e = ground arith
  del-appended k v ((i, w) ∷ m) e = ground (arith, del-appended k v m)

  pub length-put : (k : K) (v : V) (m : Map K V) → length (put k v m) ≤ suc (length m)
  unfolding put
  length-put k v [] = ground arith
  length-put k v ((i, w) ∷ m) = ground (arith, length-put k v m)

  pub length-put_known :
      (k : K) (v : V) (m : Map K V) → get k m ≢ none → length (put k v m) ≡ length m
  unfolding get put
  length-put_known k v [] found = absurd (found refl)
  length-put_known k v ((i, w) ∷ m) found = ground (arith, length-put_known k v m)

  pub length-del_le : (k : K) (m : Map K V) → length (del k m) ≤ length m
  unfolding del
  length-del_le k [] = ground arith
  length-del_le k ((i, w) ∷ m) = ground (arith, length-del_le k m)

  pub length-del : (k : K) (m : Map K V) → get k m ≢ none → length (del k m) < length m
  unfolding get del
  length-del k [] found = absurd (found refl)
  length-del k ((i, w) ∷ m) found = ground (arith, length-del_le k m, length-del k m)

-- Maps keyed by identifiers.
module _ {V : Type 0} where
  abbrev pub lookup : String → Map String V → Option V
  lookup = get String_discrete

  abbrev pub insert : String → V → Map String V → Map String V
  insert = put String_discrete

  abbrev pub delete : String → Map String V → Map String V
  delete = del String_discrete

  pub lookup-insert :
      (k j : String) (v : V) (m : Map String V)
      → lookup j (insert k v m) ≡ ite (String_discrete k j) (some v) (lookup j m)
  lookup-insert = get-put String_discrete

  pub lookup-delete :
      (k j : String) (m : Map String V)
      → lookup j (delete k m) ≡ ite (String_discrete k j) none (lookup j m)
  lookup-delete = get-del String_discrete

  pub lookup-insert_same :
      (k : String) (v : V) (m : Map String V) → lookup k (insert k v m) ≡ some v
  lookup-insert_same k v m = grind (arith, lookup-insert k k v m)

  pub lookup-insert_other :
      (k j : String) (v : V) (m : Map String V) → (k ≡ j → ⊥) → lookup j (insert k v m) ≡ lookup j m
  lookup-insert_other k j v m other = grind (arith, lookup-insert k j v m)

  pub lookup-delete_same : (k : String) (m : Map String V) → lookup k (delete k m) ≡ none
  lookup-delete_same k m = grind (arith, lookup-delete k k m)

  pub lookup-delete_other :
      (k j : String) (m : Map String V) → (k ≡ j → ⊥) → lookup j (delete k m) ≡ lookup j m
  lookup-delete_other k j m other = grind (arith, lookup-delete k j m)
