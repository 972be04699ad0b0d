-- ===== src/Server/Api/RenameNode.antt =====
-- src/server/internal/api/node_rename_handlers.go: the new name of a node.
use xnc.Prelude.{String, Option, [], ◌∷◌}
use xnc.Server.Db.{owner}
use xnc.Server.Db.Nodes.{rename_node_row}
use xnc.Server.Api.{Env, Action, Reply, exec, or_error, written_unique, reply, err, ◌>>=◌, ◌>>◌}
use xnc.Server.Api.Roles.{require_min_role_ignore_disabled}
use xnc.Server.Api.Clusters.{named}
use xnc.Server.Api.Admin.{audit_node}

unfoldable pub rename_node : Env → String → Option String → Action Reply
rename_node e id body = do
  node_id ← or_error (err 404 "NODE_NOT_FOUND" "node not found") (e.parse_uuid id)
  node ← require_min_role_ignore_disabled e node_id owner
  name ← named body
  w ← exec e "rename" (rename_node_row node.id name)
  updated ←
      written_unique (err 409 "INTERNAL" "node name already taken in this cluster")
        (err 500 "INTERNAL" "rename node") w
  audit_node e node.cluster_id node.id "node.rename"
      (("from", node.name) ∷ ("to", updated.name) ∷ [])
  reply 200 (("id", updated.id) ∷ ("name", updated.name) ∷ [])
