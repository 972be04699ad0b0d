-- ===== src/Server/Api/Admin.antt =====
-- src/server/internal/api/admin_handlers.go: disabling and deleting nodes, deleting clusters.
use xnc.Prelude.{String, true, not, some, List, [], ◌∷◌, ltb}
use xnc.Server.Db.{Status, offline, disabled, owner}
use xnc.Server.Db.ClustersAdmin.{count_nodes_in_cluster, soft_delete_cluster}
use xnc.Server.Db.Nodes.{get_node_by_id, delete_node}
use xnc.Server.Db.NodesStatus.{set_node_status_row}
use xnc.Server.Api.{
  Env, Action, Reply, value, query, exec, or_error, error_if, written, audit, reply, err, ◌>>=◌,
  ◌>>◌,
}
use xnc.Server.Api.Roles.{require_min_role_ignore_disabled}
use xnc.Server.Api.Enroll.{authorize_cluster_owner, evict_if}
use xnc.Server.Api.Members.{audit_member}

abbrev pub audit_node : Env → String → String → String → List (String × String) → Action Unit
audit_node e cluster_id node_id action metadata = audit e (record {
  user_id = some e.user.id;
  cluster_id = some cluster_id;
  node_id = some node_id;
  action = action;
  metadata = metadata;
})

unfoldable pub set_node_status : Env → String → Status → String → Action Reply
set_node_status e id status action = do
  node_id ← or_error (err 404 "NODE_NOT_FOUND" "node not found") (e.parse_uuid id)
  node ← require_min_role_ignore_disabled e node_id owner
  w ← exec e "status" (set_node_status_row node.id status)
  written (err 500 "INTERNAL" "update node status") w
  audit_node e node.cluster_id node.id action (("name", node.name) ∷ [])
  reply 204 []

unfoldable pub node_disable : Env → String → Action Reply
node_disable e id = set_node_status e id disabled "node.disable"

unfoldable pub node_enable : Env → String → Action Reply
node_enable e id = set_node_status e id offline "node.enable"

unfoldable pub delete_cluster : Env → String → Action Reply
delete_cluster e id = do
  c ← authorize_cluster_owner e id
  count ← query e "count" (value (count_nodes_in_cluster c.id))
  n ← or_error (err 500 "INTERNAL" "count nodes") count
  error_if (ltb 0 n)
      (err 409 "CLUSTER_NOT_EMPTY" "cluster still has nodes; disable or remove them first")
  w ← exec e "delete" (soft_delete_cluster c.id)
  written (err 500 "INTERNAL" "delete cluster") w
  audit_member e c.id "cluster.delete" (("name", c.name) ∷ [])
  reply 204 []

unfoldable pub admin_delete_node : Env → String → Action Reply
admin_delete_node e id = do
  error_if (not e.user.is_admin) (err 403 "FORBIDDEN" "admin required")
  node_id ← or_error (err 404 "NODE_NOT_FOUND" "node not found") (e.parse_uuid id)
  found ← query e "node" (get_node_by_id node_id)
  node ← or_error (err 404 "NODE_NOT_FOUND" "node not found") found
  w ← exec e "delete" (delete_node node.id)
  written (err 500 "INTERNAL" "delete node") w
  audit_node e node.cluster_id node.id "node_delete" (("name", node.name) ∷ [])
  evict_if true node.id
  reply 200 []
