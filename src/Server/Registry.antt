-- ===== src/Server/Registry.antt =====
-- src/server/internal/registry/registry.go: the control connections of the nodes. A connection is a
-- record with a serial number that stands for its pointer; `Cancel` is an effect.
mod Tests
use xnc.Prelude.{
  ℕ, ◌≡◌, ◌≢◌, String, Bool, true, false, Option, none, some, List, [], ◌∷◌, length, ◌==◌,
  if◌then◌else◌, Option-cases, arith,
}
use xnc.Prelude.Map.{Map, lookup, insert, delete, lookup-insert, lookup-delete}

pub record NodeConn : Type 0 where
  pub serial : ℕ
  pub node_id : String
  pub has_cancel : Bool
  pub last_beat : ℕ
  pub beats : ℕ

-- The connections that `Add` cancels, by their serial numbers.
abbrev pub Cancels : Type 0
Cancels = List ℕ

abbrev pub Registry : Type 0
Registry = Map String NodeConn

unfoldable pub add : Registry → NodeConn → Registry × Cancels
add r c = (
  insert c.node_id c r,
  elim (lookup c.node_id r) [
    | none ↦ []
    | some old ↦ if old.has_cancel then old.serial ∷ [] else []
  ],
)

unfoldable pub remove : Registry → (node : String) → Registry
remove r node = delete node r

unfoldable pub remove_if : Registry → (node : String) → NodeConn → Registry × Bool
remove_if r node c = elim (lookup node r) [
  | none ↦ (r, false)
  | some cur ↦ if cur.serial == c.serial then (delete node r, true) else (r, false)
]

abbrev pub get_conn : Registry → (node : String) → Option NodeConn
get_conn r node = lookup node r

abbrev pub is_online : Registry → (node : String) → Bool
is_online r node = elim (lookup node r) [ none ↦ false | some c ↦ true ]

abbrev pub count : Registry → ℕ
count r = length r

-- A connection that replaced another of its node survives the clean-up of the old one, which
-- reports that it removed nothing; and every other node stays as it was.
pub remove_if-add :
    (r : Registry) (old new : NodeConn) (other : String)
    → old.node_id ≡ new.node_id
    → old.serial ≢ new.serial
    → other ≢ new.node_id
    → let r' = (add r new).0 in
      (remove_if r' old.node_id old ≡ (r', false))
      × (get_conn r' new.node_id ≡ some new)
      × (get_conn r' other ≡ get_conn r other)
unfolding add remove_if
remove_if-add r old new other same apart ne =
    (grind (arith, lookup-insert), grind (arith, lookup-insert), grind (arith, lookup-insert))

-- The clean-up of the current connection takes the node offline and leaves every other node.
pub remove_if-current :
    (r : Registry) (node other : String) (c : NodeConn)
    → get_conn r node ≡ some c
    → other ≢ node
    → let (r', removed) = remove_if r node c in
      (removed ≡ true) × (is_online r' node ≡ false) × (get_conn r' other ≡ get_conn r other)
unfolding remove_if
remove_if-current r node other c e ne =
    (grind (arith, lookup-delete), grind (arith, lookup-delete), grind (arith, lookup-delete))
