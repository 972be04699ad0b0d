-- ===== src/Server/Db/Clusters.antt =====
-- src/server/internal/db/sqlc/clusters.sql.go: the statements on clusters.
use xnc.Prelude.{
  ℕ, String, Bool, false, ◌&&◌, not, Option, none, some, ◌++◌, ◌∷◌, [], if◌then◌else◌,
}
use xnc.Prelude.Rows.{same, first, count, change, some_row}
use xnc.Server.Db.{
  Role, User, Cluster, ClusterMember, Store, Result, done, unique, another_key, failed,
}
use xnc.Server.Db.Membership.{add_member, is_member, is_owner}

-- ON CONFLICT DO NOTHING
unfoldable pub add_membership : String → String → Role → Store → Result Unit
add_membership cluster_id user_id role d =
    if some_row (is_member cluster_id user_id) d.members
    then done tt d
    else add_member cluster_id user_id role d

-- The join runs over the pairs of a live cluster and a row of its owner `user_id`.
unfoldable pub count_owned_live_clusters : String → Store → ℕ
count_owned_live_clusters user_id d =
    count
      (λ (m : ClusterMember).
        same m.user_id user_id
        && is_owner m.role
        && some_row (λ (c : Cluster). same c.id m.cluster_id && not c.deleted) d.clusters)
      d.members

abbrev pub has_live_name : String → Cluster → Bool
has_live_name name c = not c.deleted && same c.name name

abbrev pub has_cluster_id : String → Cluster → Bool
has_cluster_id id c = same c.id id

abbrev live_cluster : Cluster → Option Cluster
live_cluster c = if c.deleted then none else some c

abbrev new_row : String → String → String → Bool → Cluster
new_row id name owner_id personal = record {
  id = id;
  name = name;
  owner_id = owner_id;
  personal = personal;
  deleted = false;
}

-- INSERT: the name is unique among the live clusters, and the owner is a user.
unfoldable pub create_cluster_row : String → String → String → Bool → Store → Result Cluster
create_cluster_row id name owner_id personal d =
    let c = new_row id name owner_id personal in
    if some_row (has_cluster_id id) d.clusters
    then unique another_key
    else if some_row (has_live_name name) d.clusters
    then unique another_key
    else if some_row (λ (u : User). same u.id owner_id) d.users
    then done c (record d { clusters = d.clusters ++ (c ∷ []) })
    else failed

unfoldable pub get_cluster_by_id : String → Store → Option Cluster
get_cluster_by_id id d = first (λ (c : Cluster). same c.id id && not c.deleted) d.clusters

unfoldable pub get_cluster_by_name : String → Store → Option Cluster
get_cluster_by_name name d = first (has_live_name name) d.clusters

-- UPDATE of a live cluster: its name must be free among the other live clusters.
unfoldable pub rename_cluster_row : String → String → Store → Result Cluster
rename_cluster_row id name d = elim (get_cluster_by_id id d) [
  | none ↦ failed
  | some c ↦
      if some_row (λ (o : Cluster). has_live_name name o && not (same o.id id)) d.clusters
      then unique another_key
      else done (record c { name = name })
          (record d {
            clusters =
                change (λ (o : Cluster). same o.id id && not o.deleted)
                  (λ (o : Cluster). record o { name = name }) d.clusters;
          })
]
