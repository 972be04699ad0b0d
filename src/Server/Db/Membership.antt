-- ===== src/Server/Db/Membership.antt =====
-- src/server/internal/db/sqlc/membership.sql.go: the statements on the members of a cluster.
use xnc.Prelude.{
  ℕ, String, Bool, true, false, ◌&&◌, ◌||◌, not, Option, none, some, ◌++◌, ◌∷◌, [], ltb,
  if◌then◌else◌,
}
use xnc.Prelude.Rows.{same, first, count, without, change, some_row}
use xnc.Server.Db.{
  Role, viewer, operator, owner, User, Cluster, ClusterMember, Store, Result, done, unique,
  another_key, failed,
}

abbrev pub is_owner : Role → Bool
is_owner owner = true
is_owner operator = false
is_owner viewer = false

abbrev pub is_member : String → String → ClusterMember → Bool
is_member cluster_id user_id m = same m.cluster_id cluster_id && same m.user_id user_id

abbrev pub owns : String → ClusterMember → Bool
owns cluster_id m = same m.cluster_id cluster_id && is_owner m.role

-- INSERT: the primary key is the pair, and both parts must stand in their tables.
unfoldable pub add_member : String → String → Role → Store → Result Unit
add_member cluster_id user_id role d =
    if some_row (is_member cluster_id user_id) d.members
    then unique another_key
    else if some_row (λ (c : Cluster). same c.id cluster_id) d.clusters
        && some_row (λ (u : User). same u.id user_id) d.users
    then done tt (record d {
      members =
          d.members ++ (record { cluster_id = cluster_id; user_id = user_id; role = role } ∷ []);
    })
    else failed

unfoldable pub count_cluster_owners : String → Store → ℕ
count_cluster_owners cluster_id d = count (owns cluster_id) d.members

unfoldable pub get_member_role : String → String → Store → Option Role
get_member_role cluster_id user_id d = elim (first (is_member cluster_id user_id) d.members) [
  | none ↦ none
  | some m ↦ some m.role
]

-- The condition of the guarded DELETE on a row.
abbrev pub removable : String → String → Store → ClusterMember → Bool
removable cluster_id user_id d m =
    is_member cluster_id user_id m
    && (not (is_owner m.role) || ltb 1 (count (owns cluster_id) d.members))

unfoldable pub remove_member_guarded : String → String → Store → Result ℕ
remove_member_guarded cluster_id user_id d =
    let p = removable cluster_id user_id d in
    done (count p d.members) (record d { members = without p d.members })

-- The condition of the guarded UPDATE on a row.
abbrev pub changeable : String → String → Role → Store → ClusterMember → Bool
changeable cluster_id user_id role d m =
    is_member cluster_id user_id m
    && (not (is_owner m.role) || is_owner role || ltb 1 (count (owns cluster_id) d.members))

unfoldable pub update_member_role : String → String → Role → Store → Result ℕ
update_member_role cluster_id user_id role d =
    let p = changeable cluster_id user_id role d in
    done (count p d.members)
      (record d { members = change p (λ (m : ClusterMember). record m { role = role }) d.members })
