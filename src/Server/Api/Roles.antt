-- ===== src/Server/Api/Roles.antt =====
-- src/server/internal/api/rbac.go: who may act on a node.
use xnc.Prelude.{ℕ, String, Bool, true, false, ◌&&◌, not, ltb}
use xnc.Server.Db.{Role, viewer, operator, owner, Status, online, offline, disabled, Node}
use xnc.Server.Db.Membership.{get_member_role}
use xnc.Server.Db.Nodes.{get_node_by_id}
use xnc.Server.Api.{Env, Action, pure, query, or_error, error_if, err, ◌>>=◌, ◌>>◌}

abbrev pub role_rank : Role → ℕ
role_rank viewer = 0
role_rank operator = 1
role_rank owner = 2

abbrev pub is_disabled : Status → Bool
is_disabled disabled = true
is_disabled online = false
is_disabled offline = false

unfoldable pub authorize_node_role : Env → String → Role → Bool → Action Node
authorize_node_role e node_id min_role ignore_disabled = do
  found ← query e "node" (get_node_by_id node_id)
  node ← or_error (err 404 "NODE_NOT_FOUND" "node not found") found
  member ← query e "role" (get_member_role node.cluster_id e.user.id)
  role ← or_error (err 404 "NODE_NOT_FOUND" "node not found") member
  error_if (ltb (role_rank role) (role_rank min_role)) (err 403 "FORBIDDEN" "insufficient role")
  error_if (not ignore_disabled && is_disabled node.status)
      (err 403 "NODE_DISABLED" "node is disabled")
  pure node

abbrev pub require_min_role : Env → String → Role → Action Node
require_min_role e node_id min_role = authorize_node_role e node_id min_role false

abbrev pub require_min_role_ignore_disabled : Env → String → Role → Action Node
require_min_role_ignore_disabled e node_id min_role = authorize_node_role e node_id min_role true
