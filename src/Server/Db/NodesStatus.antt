-- ===== src/Server/Db/NodesStatus.antt =====
-- src/server/internal/db/sqlc/nodes_status.sql.go: what the control connection and the
-- administration write to a node.
use xnc.Prelude.{ℕ, String, some}
use xnc.Prelude.Rows.{change}
use xnc.Server.Db.{Status, Node, Store, Result, done}
use xnc.Server.Db.Nodes.{has_node_id}

unfoldable pub set_node_status_row : String → Status → Store → Result Unit
set_node_status_row id status d = done tt (record d {
  nodes = change (has_node_id id) (λ (n : Node). record n { status = status }) d.nodes;
})

unfoldable pub touch_node : String → ℕ → Store → Result Unit
touch_node id now d = done tt (record d {
  nodes = change (has_node_id id) (λ (n : Node). record n { last_seen_at = some now }) d.nodes;
})

unfoldable pub update_node_meta : String → String → String → String → Store → Result Unit
update_node_meta hostname shell_type agent_version id d = done tt (record d {
  nodes =
      change (has_node_id id)
        (λ (n : Node). record n {
          hostname = hostname;
          shell_type = shell_type;
          agent_version = agent_version;
        })
        d.nodes;
})

unfoldable pub update_node_platform : String → String → String → Store → Result Unit
update_node_platform id platform os_version d = done tt (record d {
  nodes =
      change (has_node_id id)
        (λ (n : Node). record n { platform = platform; os_version = os_version }) d.nodes;
})
