-- ===== src/Server/Api/Move.antt =====
-- src/server/internal/api/node_move_handlers.go: a node moves to another cluster.
use xnc.Prelude.{
  ℕ, zero, suc, ◌+◌, String, Bool, false, not, Option, none, some, [], ◌∷◌, leb, ◌==◌,
  if◌then◌else◌,
}
use xnc.Prelude.Rows.{same}
use xnc.Prelude.Itoa.{suffixed}
use xnc.Server.Db.{
  Role, Cluster, Node, nodes_machine_id_key, nodes_cluster_id_name_key, another_key,
}
use xnc.Server.Db.Membership.{is_owner, get_member_role}
use xnc.Server.Db.Nodes.{get_node_by_id, get_machine_id_conflict_cluster, move_node_cluster}
use xnc.Server.Db.Audit.{insert_audit_log}
use xnc.Server.Api.{
  Env, Action, Reply, Written, wrote, violates, broken, pure, error, query, exec, or_error,
  error_if, written, control, atomically, reply, err, ◌>>=◌, ◌>>◌,
}
use xnc.Server.Api.Enroll.{pick_name}
use xnc.Server.Api.Members.{resolve_cluster}
use xnc.Server.Api.Register.{refuse_conflict}

abbrev pub owns_role : Option Role → Bool
owns_role none = false
owns_role (some role) = is_owner role

-- The user must own a cluster of the move.
abbrev pub require_owner : Env → String → String → Action Unit
require_owner e place cluster_id = do
  role ← query e place (get_member_role cluster_id e.user.id)
  error_if (not (owns_role role)) (err 403 "FORBIDDEN" "owner role required in both clusters")

-- The statement went through: no row means that the node has moved meanwhile.
abbrev pub moved : Env → Node → Cluster → String → ℕ → Action String
moved e node target name n = do
  control e "release" (err 500 "INTERNAL" "release savepoint")
  error_if (n == 0) (err 409 "INTERNAL" "node changed concurrently; retry")
  w ← exec e "audit" (
      insert_audit_log (record {
        user_id = some e.user.id;
        cluster_id = some target.id;
        node_id = some node.id;
        action = "node.move";
        metadata =
            ("from_cluster", node.cluster_id)
            ∷ ("to_cluster", target.id)
            ∷ ("old_name", node.name)
            ∷ ("new_name", name)
            ∷ [];
      }))
  written (err 500 "INTERNAL" "audit") w
  control e "commit" (err 500 "INTERNAL" "commit")
  pure name

-- What follows an attempt: a clash of names leads to `retry`, three times at most.
abbrev pub attempted :
    Env
    → Node
    → Cluster
    → (name : String) → (attempt : ℕ) → (retry : Action String) → Written ℕ
    → Action String
attempted e node target name attempt retry (wrote n) = moved e node target name n
attempted e node target name attempt retry broken = error (err 500 "INTERNAL" "move node")
attempted e node target name attempt retry (violates c) =
    control e "rollback" (err 500 "INTERNAL" "rollback savepoint") >> elim c [
      | nodes_machine_id_key ↦
          error (err 409 "MACHINE_ID_CONFLICT" "machineId already registered in another cluster")
      | nodes_cluster_id_name_key ↦
          if leb 3 attempt then error (err 500 "INTERNAL" "move node name conflict") else retry
      | another_key ↦ error (err 500 "INTERNAL" "move node")
    ]

-- The attempts, each with the next suffix; four rounds of fuel are the attempts 0 to 3.
unfoldable pub attempt_move :
    (fuel : ℕ) → Env → Node → Cluster → (name : String) → (attempt : ℕ) → Action String
attempt_move zero e node target name attempt = error (err 500 "INTERNAL" "move node name conflict")
attempt_move (suc fuel) e node target name attempt =
    let retry = attempt_move fuel e node target (suffixed node.name (attempt + 2)) (suc attempt) in
    do
      control e "savepoint" (err 500 "INTERNAL" "savepoint")
      w ← exec e "move" (move_node_cluster node.id target.id name node.cluster_id)
      attempted e node target name attempt retry w

unfoldable pub move_tx : Env → Node → Cluster → Action String
move_tx e node target = do
  control e "begin" (err 500 "INTERNAL" "tx")
  name ← pick_name e target.id node.name
  attempt_move 4 e node target name 0

-- From the check of the two owners on.
unfoldable pub move_between : Env → Node → Cluster → Action Reply
move_between e node target = do
  require_owner e "source role" node.cluster_id
  require_owner e "target role" target.id
  other ← query e "conflict" (get_machine_id_conflict_cluster node.machine_id node.cluster_id)
  refuse_conflict e other
  name ← atomically (move_tx e node target)
  reply 200 (("nodeId", node.id) ∷ ("clusterId", target.id) ∷ ("name", name) ∷ [])

unfoldable pub move_node : Env → String → Option String → Action Reply
move_node e id body = do
  node_id ← or_error (err 404 "NODE_NOT_FOUND" "node not found") (e.parse_uuid id)
  found ← query e "node" (get_node_by_id node_id)
  node ← or_error (err 404 "NODE_NOT_FOUND" "node not found") found
  to ← or_error (err 400 "INTERNAL" "target required") body
  error_if (same to "") (err 400 "INTERNAL" "target required")
  target ← resolve_cluster e to
  error_if (same target.id node.cluster_id) (err 400 "INTERNAL" "node already in target cluster")
  move_between e node target
