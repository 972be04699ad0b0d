-- ===== src/Server/Api/Register.antt =====
-- src/server/internal/api/node_register_handlers.go: a member registers a node.
use Prim.Native.String.{◌++◌}
use xnc.Prelude.{String, Bool, true, false, ◌||◌, not, Option, none, some}
use xnc.Prelude.Rows.{same}
use xnc.Server.Db.Membership.{get_member_role}
use xnc.Server.Db.Nodes.{get_machine_id_conflict_cluster}
use xnc.Server.Api.{Env, Action, Reply, query, or_error, error_if, pure, error, err, ◌>>=◌, ◌>>◌}
use xnc.Server.Api.Enroll.{EnrollRequest, enroll_node, respond_enrolled, is_key}
use xnc.Server.Api.Members.{resolve_cluster}

pub record RegisterRequest : Type 0 where
  pub token : Option String
  pub hostname : String
  pub machine_id : String
  pub os_version : String
  pub agent_version : String
  pub public_key : String
  pub platform : String

abbrev pub is_some : Option String → Bool
is_some none = false
is_some (some _) = true

-- The machine stands in another cluster, which the message names.
abbrev pub refuse_conflict : Env → Option String → Action Unit
refuse_conflict e none = pure tt
refuse_conflict e (some cluster) =
    error (
      err 409 "MACHINE_ID_CONFLICT" ("machineId already registered in cluster " ++ e.quote cluster))

abbrev pub enroll_request : RegisterRequest → EnrollRequest
enroll_request r = record {
  token = "";
  hostname = r.hostname;
  machine_id = r.machine_id;
  os_version = r.os_version;
  agent_version = r.agent_version;
  public_key = r.public_key;
  platform = r.platform;
}

unfoldable pub user_register_node : Env → String → Option RegisterRequest → Action Reply
user_register_node e id body = do
  c ← resolve_cluster e id
  member ← query e "role" (get_member_role c.id e.user.id)
  or_error (err 403 "FORBIDDEN" "cluster membership required") member
  r ← or_error (err 400 "INTERNAL" "bad request") body
  error_if (is_some r.token) (err 400 "INTERNAL" "token field not accepted")
  error_if (same r.hostname "" || same r.machine_id "")
      (err 400 "INTERNAL" "hostname and machineId required")
  error_if (not (is_key e r.public_key)) (err 400 "INTERNAL" "bad public key")
  other ← query e "conflict" (get_machine_id_conflict_cluster r.machine_id c.id)
  refuse_conflict e other
  node ← enroll_node e c.id (enroll_request r) none true "register" e.user.id
  respond_enrolled node
