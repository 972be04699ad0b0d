-- ===== src/Server/Api/Undone/Handlers.antt =====
-- src/server/internal/api: the handlers whose errors change nothing.
use xnc.Prelude.{String, Bool, true, false, Option, none, some}
use xnc.Server.Db.{Role, Status, offline, disabled, User, Node, Cluster, Store}
use xnc.Server.Api.{Env}
use xnc.Server.Api.Roles.{authorize_node_role}
use xnc.Server.Api.Enroll.{
  EnrollRequest, TokenRequest, authorize_cluster_owner, create_enroll_token, evict_if, enroll_node,
  agent_enroll,
}
use xnc.Server.Api.Clusters.{named, rename_cluster}
use xnc.Server.Api.Members.{MemberRequest, resolve_cluster, member_target, add_member_request}
use xnc.Server.Api.Admin.{
  set_node_status, delete_cluster, admin_delete_node, node_disable, node_enable,
}
use xnc.Server.Api.RenameNode.{rename_node}
use xnc.Server.Api.Register.{RegisterRequest, refuse_conflict, user_register_node}
use xnc.Server.Api.Move.{move_between, move_node}
use xnc.Server.Api.Users.{CreateUserRequest, create_user, delete_found, delete_user}
use xnc.Server.Api.Run.{
  Call, adds_member, removes_member, updates_role, creates_cluster, updates_user, renames_cluster,
  deletes_cluster, creates_token, enrolls, registers, moves, renames_node, disables, enables,
  deletes_node, creates_user, deletes_user, serve,
}
use xnc.Server.Api.Undone.{Reads, Total, Undone, Halted, undoing}

authorize_cluster_owner-Reads : (e : Env) (id : String) → Reads (authorize_cluster_owner e id)
unfolding authorize_cluster_owner
authorize_cluster_owner-Reads e id = search undoing depth 40 fits 3000

authorize_node_role-Reads :
    (e : Env) (id : String) (r : Role) (b : Bool) → Reads (authorize_node_role e id r b)
unfolding authorize_node_role
authorize_node_role-Reads e id r b = search undoing depth 40 fits 3000

named-Reads : (body : Option String) → Reads (named body)
named-Reads body = search undoing depth 40 fits 3000

resolve_cluster-Reads : (e : Env) (id : String) → Reads (resolve_cluster e id)
unfolding resolve_cluster
resolve_cluster-Reads e id = search undoing depth 40 fits 3000

refuse_conflict-Reads : (e : Env) (o : Option String) → Reads (refuse_conflict e o)
refuse_conflict-Reads e none = search undoing
refuse_conflict-Reads e (some name) = search undoing

evict_if-Total : (b : Bool) (id : String) → Total (evict_if b id)
evict_if-Total true id = record { total = λ d. tt }
evict_if-Total false id = record { total = λ d. tt }

member_target-Reads : (e : Env) (r : MemberRequest) → Reads (member_target e r)
unfolding member_target
member_target-Reads e r = search undoing depth 40 fits 3000

add_member_request-Undone :
    (e : Env) (id : String) (body : Option MemberRequest) → Undone (add_member_request e id body)
unfolding add_member_request
add_member_request-Undone e id body =
    search (undoing, authorize_cluster_owner-Reads, member_target-Reads) depth 40 fits 3000

rename_cluster-Undone :
    (e : Env) (id : String) (body : Option String) → Undone (rename_cluster e id body)
unfolding rename_cluster
rename_cluster-Undone e id body =
    search (undoing, authorize_cluster_owner-Reads, named-Reads) depth 40 fits 3000

delete_cluster-Undone : (e : Env) (id : String) → Undone (delete_cluster e id)
unfolding delete_cluster
delete_cluster-Undone e id = search (undoing, authorize_cluster_owner-Reads) depth 40 fits 3000

create_enroll_token-Undone :
    (e : Env) (id : String) (r : TokenRequest) → Undone (create_enroll_token e id r)
unfolding create_enroll_token
create_enroll_token-Undone e id r =
    search (undoing, authorize_cluster_owner-Reads) depth 40 fits 3000

set_node_status-Undone :
    (e : Env) (id : String) (s : Status) (action : String) → Undone (set_node_status e id s action)
unfolding set_node_status
set_node_status-Undone e id s action =
    search (undoing, authorize_node_role-Reads) depth 40 fits 3000

rename_node-Undone : (e : Env) (id : String) (body : Option String) → Undone (rename_node e id body)
unfolding rename_node
rename_node-Undone e id body =
    search (undoing, authorize_node_role-Reads, named-Reads) depth 40 fits 3000

admin_delete_node-Undone : (e : Env) (id : String) → Undone (admin_delete_node e id)
unfolding admin_delete_node
admin_delete_node-Undone e id = search (undoing, evict_if-Total) depth 40 fits 3000

enroll_node-Undone :
    (e : Env) (c : String) (r : EnrollRequest) (token : Option String) (b : Bool)
    (action actor : String)
    → Undone (enroll_node e c r token b action actor)
unfolding enroll_node
enroll_node-Undone e c r token b action actor = search (undoing, evict_if-Total) depth 40 fits 3000

agent_enroll-Undone : (e : Env) (body : Option EnrollRequest) → Undone (agent_enroll e body)
unfolding agent_enroll
agent_enroll-Undone e body = search (undoing, enroll_node-Undone) depth 40 fits 3000

user_register_node-Undone :
    (e : Env) (id : String) (body : Option RegisterRequest) → Undone (user_register_node e id body)
unfolding user_register_node
user_register_node-Undone e id body =
    search (undoing, resolve_cluster-Reads, refuse_conflict-Reads, enroll_node-Undone) depth 40 fits
      3000

move_between-Undone : (e : Env) (n : Node) (c : Cluster) → Undone (move_between e n c)
unfolding move_between
move_between-Undone e n c = search (undoing, refuse_conflict-Reads) depth 40 fits 3000

move_node-Undone : (e : Env) (id : String) (body : Option String) → Undone (move_node e id body)
unfolding move_node
move_node-Undone e id body =
    search (undoing, resolve_cluster-Reads, move_between-Undone) depth 40 fits 3000

create_user-Undone : (e : Env) (body : Option CreateUserRequest) → Undone (create_user e body)
unfolding create_user
create_user-Undone e body = search undoing depth 40 fits 3000

delete_found-Undone : (e : Env) (uid : String) (u : User) → Undone (delete_found e uid u)
unfolding delete_found
delete_found-Undone e uid u = search undoing depth 40 fits 3000

delete_user-Undone : (e : Env) (id : String) → Undone (delete_user e id)
unfolding delete_user
delete_user-Undone e id = search (undoing, delete_found-Undone) depth 40 fits 3000

-- The calls that write once, or in one transaction.
abbrev pub WritesOnce : Call → Type 0
WritesOnce (removes_member id uid) = ⊥
WritesOnce (updates_role id uid body) = ⊥
WritesOnce (creates_cluster body) = ⊥
WritesOnce (updates_user id body) = ⊥
WritesOnce _ = Unit

-- A new member, a registration, an enrollment, a move, a renaming, a deletion, a new token, a new status or a new
-- user that ends in an error leaves every table as it was.
pub error-unchanged : (e : Env) (c : Call) (d : Store) → WritesOnce c → Halted (serve e c d) d
unfolding serve node_disable node_enable
error-unchanged e (adds_member id body) d h = (add_member_request-Undone e id body).undone d
error-unchanged e (removes_member id uid) d h = absurd h
error-unchanged e (updates_role id uid body) d h = absurd h
error-unchanged e (creates_cluster body) d h = absurd h
error-unchanged e (updates_user id body) d h = absurd h
error-unchanged e (renames_cluster id body) d h = (rename_cluster-Undone e id body).undone d
error-unchanged e (deletes_cluster id) d h = (delete_cluster-Undone e id).undone d
error-unchanged e (creates_token id r) d h = (create_enroll_token-Undone e id r).undone d
error-unchanged e (enrolls body) d h = (agent_enroll-Undone e body).undone d
error-unchanged e (registers id body) d h = (user_register_node-Undone e id body).undone d
error-unchanged e (moves id body) d h = (move_node-Undone e id body).undone d
error-unchanged e (renames_node id body) d h = (rename_node-Undone e id body).undone d
error-unchanged e (disables id) d h = (set_node_status-Undone e id disabled "node.disable").undone d
error-unchanged e (enables id) d h = (set_node_status-Undone e id offline "node.enable").undone d
error-unchanged e (deletes_node id) d h = (admin_delete_node-Undone e id).undone d
error-unchanged e (creates_user body) d h = (create_user-Undone e body).undone d
error-unchanged e (deletes_user id) d h = (delete_user-Undone e id).undone d
