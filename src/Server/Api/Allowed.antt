-- ===== src/Server/Api/Allowed.antt =====
-- src/server/internal/api: who may do what. The table of `allowed` is written down apart from the
-- handlers.
pub mod Refusal
pub mod Handlers
use xnc.Prelude.{
  ℕ, zero, suc, ◌≡◌, refl, ap, ◌∙◌, sym, String, Bool, true, false, ◌&&◌, ◌||◌, not, Option, none,
  some, List, [], ◌∷◌, if◌then◌else◌, ltb, String_discrete, ite, arith, Option-cases, Bool-cases,
  inl, inr,
}
use xnc.Prelude.Rows.{same, some_row, first}
use xnc.Server.Db.{
  Role, viewer, operator, owner, Cluster, ClusterMember, Node, Status, EnrollmentToken, Store,
}
use xnc.Server.Db.Membership.{is_member, is_owner, get_member_role}
use xnc.Server.Db.Nodes.{get_node_by_id}
use xnc.Server.Db.Tokens.{get_enrollment_token_by_hash}
use xnc.Server.Api.{Env, Action, Outcome, go, halt, Reply, ◌>>=◌}
use xnc.Server.Api.Roles.{authorize_node_role}
use xnc.Server.Api.Enroll.{
  find_cluster, EnrollRequest, authorize_cluster_owner, create_enroll_token, agent_enroll,
}
use xnc.Server.Api.Clusters.{rename_cluster}
use xnc.Server.Api.Members.{
  resolve_cluster, add_member_request, remove_member, update_member_role_request,
}
use xnc.Server.Api.Admin.{
  node_disable, node_enable, set_node_status, delete_cluster, admin_delete_node,
}
use xnc.Server.Api.RenameNode.{rename_node}
use xnc.Server.Api.Register.{user_register_node}
use xnc.Server.Api.Move.{move_node}
use xnc.Server.Api.Users.{create_user, update_user, delete_user}
use xnc.Server.Api.Writes.{next}
use xnc.Server.Api.Run.{
  Call, adds_member, removes_member, updates_role, creates_cluster, renames_cluster,
  deletes_cluster, creates_token, enrolls, registers, moves, renames_node, disables, enables,
  deletes_node, creates_user, updates_user, deletes_user, serve,
}

-- A row of the user in the cluster, and one that makes it an owner.
abbrev pub belongs : Env → String → Store → Bool
belongs e cluster_id d = some_row (is_member cluster_id e.user.id) d.members

abbrev pub is_owner_of : Env → String → Store → Bool
is_owner_of e cluster_id d =
    some_row (λ (m : ClusterMember). is_member cluster_id e.user.id m && is_owner m.role) d.members

-- The cluster, the node and the token that a request names.
abbrev pub on_cluster : Env → String → Store → (String → Bool) → Bool
on_cluster e id d p = elim (find_cluster e id d) [ none ↦ false | some c ↦ p c.id ]

abbrev pub on_node : Env → String → Store → (String → Bool) → Bool
on_node e id d p = elim (e.parse_uuid id) [
  | none ↦ false
  | some node_id ↦ elim (get_node_by_id node_id d) [ none ↦ false | some n ↦ p n.cluster_id ]
]

abbrev pub holds_token : Env → Option EnrollRequest → Store → Bool
holds_token e none d = false
holds_token e (some r) d = elim (get_enrollment_token_by_hash (e.hash_token r.token) d) [
  | none ↦ false
  | some t ↦ not (ltb t.expires_at e.now)
]

-- Who may do what: owners govern their clusters and the nodes in them, members register nodes, a
-- machine enrolls by a token that has not expired, and administrators govern users and stray nodes.
unfoldable pub allowed : Env → Call → Store → Bool
allowed e (adds_member id body) d = on_cluster e id d (λ c. is_owner_of e c d)
allowed e (removes_member id uid) d = on_cluster e id d (λ c. is_owner_of e c d)
allowed e (updates_role id uid body) d = on_cluster e id d (λ c. is_owner_of e c d)
allowed e (creates_cluster body) d = true
allowed e (renames_cluster id body) d = on_cluster e id d (λ c. is_owner_of e c d)
allowed e (deletes_cluster id) d = on_cluster e id d (λ c. is_owner_of e c d)
allowed e (creates_token id r) d = on_cluster e id d (λ c. is_owner_of e c d)
allowed e (enrolls body) d = holds_token e body d
allowed e (registers id body) d = on_cluster e id d (λ c. belongs e c d)
allowed e (moves id none) d = false
allowed e (moves id (some target)) d =
    on_node e id d (λ c. is_owner_of e c d) && on_cluster e target d (λ c. is_owner_of e c d)
allowed e (renames_node id body) d = on_node e id d (λ c. is_owner_of e c d)
allowed e (disables id) d = on_node e id d (λ c. is_owner_of e c d)
allowed e (enables id) d = on_node e id d (λ c. is_owner_of e c d)
allowed e (deletes_node id) d = e.user.is_admin
allowed e (creates_user body) d = e.user.is_admin
allowed e (updates_user id body) d = e.user.is_admin
allowed e (deletes_user id) d = e.user.is_admin
