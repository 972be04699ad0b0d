-- ===== src/Server/Api/Writes/Handlers.antt =====
-- src/server/internal/api: every handler but `deleteUser` writes by single statements only.
use xnc.Prelude.{String, Bool, true, false, ℕ, Option, none, some}
use xnc.Server.Db.{Store, Role, Status}
use xnc.Server.Api.{Env}
use xnc.Server.Api.Roles.{authorize_node_role}
use xnc.Server.Api.Enroll.{authorize_cluster_owner, TokenRequest, create_enroll_token, evict_if}
use xnc.Server.Api.Clusters.{named, rename_cluster, create_cluster}
use xnc.Server.Api.Members.{
  MemberRequest, member_target, add_member_request, not_removed, removed, remove_member,
  update_member_role_request,
}
use xnc.Server.Api.Admin.{set_node_status, delete_cluster, admin_delete_node}
use xnc.Server.Api.RenameNode.{rename_node}
use xnc.Server.Api.Writes.{
  Reaches, Writes, statements, stays, adds_member, adds_membership, removes_member, updates_role,
  creates_cluster, renames_cluster, deletes_cluster, deletes_node, renames_node, sets_status,
  creates_token, evicts,
}

authorize_cluster_owner-Writes : (e : Env) (id : String) → Writes (authorize_cluster_owner e id)
unfolding authorize_cluster_owner
authorize_cluster_owner-Writes e id = search statements

named-Writes : (body : Option String) → Writes (named body)
named-Writes body = search statements

pub rename_cluster-Writes :
    (e : Env) (id : String) (body : Option String) → Writes (rename_cluster e id body)
unfolding rename_cluster
rename_cluster-Writes e id body =
    search (statements, authorize_cluster_owner-Writes, named-Writes, renames_cluster) depth 40 fits
      3000

pub create_cluster-Writes : (e : Env) (body : Option String) → Writes (create_cluster e body)
unfolding create_cluster
create_cluster-Writes e body =
    search (statements, named-Writes, creates_cluster, adds_membership) depth 40 fits 3000

pub create_enroll_token-Writes :
    (e : Env) (id : String) (r : TokenRequest) → Writes (create_enroll_token e id r)
unfolding create_enroll_token
create_enroll_token-Writes e id r =
    search (statements, authorize_cluster_owner-Writes, creates_token) depth 40 fits 3000

member_target-Writes : (e : Env) (r : MemberRequest) → Writes (member_target e r)
unfolding member_target
member_target-Writes e r = search statements depth 40 fits 3000

pub add_member_request-Writes :
    (e : Env) (id : String) (body : Option MemberRequest) → Writes (add_member_request e id body)
unfolding add_member_request
add_member_request-Writes e id body =
    search (statements, authorize_cluster_owner-Writes, member_target-Writes, adds_member) depth 40
      fits 3000

not_removed-Writes : (o : Option Role) → Writes (not_removed o)
not_removed-Writes none = search statements
not_removed-Writes (some role) = search statements

removed-Writes : (e : Env) (c uid : String) (n : ℕ) → Writes (removed e c uid n)
removed-Writes e c uid n = search (statements, not_removed-Writes)

pub remove_member-Writes : (e : Env) (id user_id : String) → Writes (remove_member e id user_id)
unfolding remove_member
remove_member-Writes e id user_id =
    search (statements, authorize_cluster_owner-Writes, removes_member, removed-Writes) depth 40
      fits 3000

pub update_member_role_request-Writes :
    (e : Env) (id user_id : String) (body : Option String)
    → Writes (update_member_role_request e id user_id body)
unfolding update_member_role_request
update_member_role_request-Writes e id user_id body =
    search (statements, authorize_cluster_owner-Writes, updates_role) depth 40 fits 3000

authorize_node_role-Writes :
    (e : Env) (id : String) (r : Role) (b : Bool) → Writes (authorize_node_role e id r b)
unfolding authorize_node_role
authorize_node_role-Writes e id r b = search statements depth 40 fits 3000

pub set_node_status-Writes :
    (e : Env) (id : String) (s : Status) (action : String) → Writes (set_node_status e id s action)
unfolding set_node_status
set_node_status-Writes e id s action =
    search (statements, authorize_node_role-Writes, sets_status) depth 40 fits 3000

pub delete_cluster-Writes : (e : Env) (id : String) → Writes (delete_cluster e id)
unfolding delete_cluster
delete_cluster-Writes e id =
    search (statements, authorize_cluster_owner-Writes, deletes_cluster) depth 40 fits 3000

evict_if-Reaches : (b : Bool) (id : String) (d : Store) → Reaches d (evict_if b id d).1
evict_if-Reaches true id d = evicts id
evict_if-Reaches false id d = stays

pub evict_if-Writes : (b : Bool) (id : String) → Writes (evict_if b id)
evict_if-Writes b id = record { reaches = evict_if-Reaches b id }

pub admin_delete_node-Writes : (e : Env) (id : String) → Writes (admin_delete_node e id)
unfolding admin_delete_node
admin_delete_node-Writes e id =
    search (statements, deletes_node, evict_if-Writes) depth 40 fits 3000

pub rename_node-Writes :
    (e : Env) (id : String) (body : Option String) → Writes (rename_node e id body)
unfolding rename_node
rename_node-Writes e id body =
    search (statements, authorize_node_role-Writes, named-Writes, renames_node) depth 40 fits 3000
