-- ===== src/Server/Api/Run.antt =====
-- src/server/internal/api: the requests the handlers serve, one after the other.
use xnc.Prelude.{String, Option, List, [], ◌∷◌}
use xnc.Server.Db.{Store}
use xnc.Server.Api.{Env, Action, Reply}
use xnc.Server.Api.Enroll.{TokenRequest, create_enroll_token, EnrollRequest, agent_enroll}
use xnc.Server.Api.Clusters.{rename_cluster, create_cluster}
use xnc.Server.Api.Members.{
  MemberRequest, add_member_request, remove_member, update_member_role_request,
}
use xnc.Server.Api.Admin.{node_disable, node_enable, delete_cluster, admin_delete_node}
use xnc.Server.Api.RenameNode.{rename_node}
use xnc.Server.Api.Register.{RegisterRequest, user_register_node}
use xnc.Server.Api.Move.{move_node}
use xnc.Server.Api.Users.{
  CreateUserRequest, create_user, UpdateUserRequest, update_user, delete_user,
}
use xnc.Server.Api.Writes.{Writes}
use xnc.Server.Api.Writes.Handlers.{
  rename_cluster-Writes, create_cluster-Writes, create_enroll_token-Writes,
  add_member_request-Writes, remove_member-Writes, update_member_role_request-Writes,
  set_node_status-Writes, delete_cluster-Writes, admin_delete_node-Writes, rename_node-Writes,
}
use xnc.Server.Api.Writes.Nodes.{agent_enroll-Writes, user_register_node-Writes, move_node-Writes}
use xnc.Server.Api.Writes.Users.{create_user-Writes, update_user-Writes}

-- The routes of clusters, members, tokens, nodes and users that change the tables, with what a request
-- carries. The routes of the own profile, of sessions, releases and updates are left out, and so is
-- what the connection of an agent writes.
pub data Call : Type 0 where
  adds_member : String → Option MemberRequest → Call
  removes_member : String → String → Call
  updates_role : String → String → Option String → Call
  creates_cluster : Option String → Call
  renames_cluster : String → Option String → Call
  deletes_cluster : String → Call
  creates_token : String → TokenRequest → Call
  enrolls : Option EnrollRequest → Call
  registers : String → Option RegisterRequest → Call
  moves : String → Option String → Call
  renames_node : String → Option String → Call
  disables : String → Call
  enables : String → Call
  deletes_node : String → Call
  creates_user : Option CreateUserRequest → Call
  updates_user : String → Option UpdateUserRequest → Call
  deletes_user : String → Call

unfoldable pub serve : Env → Call → Action Reply
serve e (adds_member id body) = add_member_request e id body
serve e (removes_member id uid) = remove_member e id uid
serve e (updates_role id uid body) = update_member_role_request e id uid body
serve e (creates_cluster body) = create_cluster e body
serve e (renames_cluster id body) = rename_cluster e id body
serve e (deletes_cluster id) = delete_cluster e id
serve e (creates_token id r) = create_enroll_token e id r
serve e (enrolls body) = agent_enroll e body
serve e (registers id body) = user_register_node e id body
serve e (moves id body) = move_node e id body
serve e (renames_node id body) = rename_node e id body
serve e (disables id) = node_disable e id
serve e (enables id) = node_enable e id
serve e (deletes_node id) = admin_delete_node e id
serve e (creates_user body) = create_user e body
serve e (updates_user id body) = update_user e id body
serve e (deletes_user id) = delete_user e id

-- The tables after a list of requests.
unfoldable pub run : List (Env × Call) → Store → Store
run [] d = d
run ((e, c) ∷ cs) d = run cs (serve e c d).1

abbrev pub IsDeletion : Call → Type 0
IsDeletion (deletes_user id) = Unit
IsDeletion _ = ⊥

pub serve-Writes : (e : Env) (c : Call) → (IsDeletion c → ⊥) → Writes (serve e c)
unfolding serve node_disable node_enable
serve-Writes e (adds_member id body) h = add_member_request-Writes e id body
serve-Writes e (removes_member id uid) h = remove_member-Writes e id uid
serve-Writes e (updates_role id uid body) h = update_member_role_request-Writes e id uid body
serve-Writes e (creates_cluster body) h = create_cluster-Writes e body
serve-Writes e (renames_cluster id body) h = rename_cluster-Writes e id body
serve-Writes e (deletes_cluster id) h = delete_cluster-Writes e id
serve-Writes e (creates_token id r) h = create_enroll_token-Writes e id r
serve-Writes e (enrolls body) h = agent_enroll-Writes e body
serve-Writes e (registers id body) h = user_register_node-Writes e id body
serve-Writes e (moves id body) h = move_node-Writes e id body
serve-Writes e (renames_node id body) h = rename_node-Writes e id body
serve-Writes e (disables id) h = set_node_status-Writes e id _ _
serve-Writes e (enables id) h = set_node_status-Writes e id _ _
serve-Writes e (deletes_node id) h = admin_delete_node-Writes e id
serve-Writes e (creates_user body) h = create_user-Writes e body
serve-Writes e (updates_user id body) h = update_user-Writes e id body
serve-Writes e (deletes_user id) h = absurd (h tt)
