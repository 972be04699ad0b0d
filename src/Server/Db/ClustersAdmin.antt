-- ===== src/Server/Db/ClustersAdmin.antt =====
-- src/server/internal/db/sqlc/clusters_admin.sql.go: the deletion of a cluster.
use xnc.Prelude.{ℕ, String, Bool, true, ◌&&◌, not}
use xnc.Prelude.Rows.{same, count, change}
use xnc.Server.Db.{Cluster, Node, Store, Result, done}

unfoldable pub count_nodes_in_cluster : String → Store → ℕ
count_nodes_in_cluster cluster_id d = count (λ (n : Node). same n.cluster_id cluster_id) d.nodes

abbrev live_with_id : String → Cluster → Bool
live_with_id id c = same c.id id && not c.deleted

unfoldable pub soft_delete_cluster : String → Store → Result ℕ
soft_delete_cluster id d = done (count (live_with_id id) d.clusters) (record d {
  clusters = change (live_with_id id) (λ (c : Cluster). record c { deleted = true }) d.clusters;
})
