-- ===== src/Server/Api/Allowed/Handlers.antt =====
-- src/server/internal/api: a request that the table refuses changes nothing.
use xnc.Prelude.{◌≡◌, String, true, false, ◌&&◌, Option, none, some, arith, Option-cases, inl, inr}
use xnc.Prelude.Rows.{some_row}
use xnc.Server.Db.{offline, disabled, Status, Store}
use xnc.Server.Db.Membership.{get_member_role}
use xnc.Server.Db.Nodes.{get_node_by_id}
use xnc.Server.Api.{Env}
use xnc.Server.Api.Enroll.{
  find_cluster, EnrollRequest, TokenRequest, create_enroll_token, agent_enroll,
}
use xnc.Server.Api.Clusters.{rename_cluster}
use xnc.Server.Api.Members.{
  MemberRequest, resolve_cluster, add_member_request, remove_member, update_member_role_request,
}
use xnc.Server.Api.Admin.{
  node_disable, node_enable, set_node_status, delete_cluster, admin_delete_node,
}
use xnc.Server.Api.RenameNode.{rename_node}
use xnc.Server.Api.Register.{RegisterRequest, user_register_node}
use xnc.Server.Api.Move.{move_node}
use xnc.Server.Api.Users.{
  CreateUserRequest, UpdateUserRequest, create_user, update_user, delete_user,
}
use xnc.Server.Api.Run.{
  Call, adds_member, removes_member, updates_role, creates_cluster, renames_cluster,
  deletes_cluster, creates_token, enrolls, registers, moves, renames_node, disables, enables,
  deletes_node, creates_user, updates_user, deletes_user, serve,
}
use xnc.Server.Api.Allowed.{belongs, is_owner_of, on_cluster, on_node, holds_token, allowed}
use xnc.Server.Api.Allowed.Refusal.{
  Refuses, bind-Refuses, unchanged, authorize_cluster_owner-Refuses, authorize_node_role-Refuses,
  authorize_node_role-Refuses_absent, move_between-Refuses,
}

module _ (e : Env) (d : Store) where
  node-Refused :
      (id : String) (s : Status) (action : String)
      → on_node e id d (λ c. is_owner_of e c d) ≡ false
      → Refuses d (set_node_status e id s action)
  unfolding set_node_status
  node-Refused id s action h = elim (Option-cases (e.parse_uuid id)) [
    | inl bad ↦ record { refused = ground arith }
    | inr (node_id, p) ↦ elim (Option-cases (get_node_by_id node_id d)) [
      | inl absent ↦ record {
        refused =
            ground (arith, (authorize_node_role-Refuses_absent e node_id true d absent).refused);
      }
      | inr (n, found) ↦ record {
        refused =
            ground (
              arith,
              (authorize_node_role-Refuses e node_id true d n found (ground arith)).refused,
            );
      }
    ]
  ]

  renames_node-Refused :
      (id : String) (body : Option String)
      → on_node e id d (λ c. is_owner_of e c d) ≡ false
      → Refuses d (rename_node e id body)
  unfolding rename_node
  renames_node-Refused id body h = elim (Option-cases (e.parse_uuid id)) [
    | inl bad ↦ record { refused = ground arith }
    | inr (node_id, p) ↦ elim (Option-cases (get_node_by_id node_id d)) [
      | inl absent ↦ record {
        refused =
            ground (arith, (authorize_node_role-Refuses_absent e node_id true d absent).refused);
      }
      | inr (n, found) ↦ record {
        refused =
            ground (
              arith,
              (authorize_node_role-Refuses e node_id true d n found (ground arith)).refused,
            );
      }
    ]
  ]

  moves-Refused :
      (id to : String)
      → (on_node e id d (λ c. is_owner_of e c d) && on_cluster e to d (λ c. is_owner_of e c d))
        ≡ false
      → Refuses d (move_node e id (some to))
  unfolding move_node resolve_cluster
  moves-Refused id to h = elim (Option-cases (e.parse_uuid id)) [
    | inl bad ↦ record { refused = ground arith }
    | inr (node_id, p) ↦ elim (Option-cases (get_node_by_id node_id d)) [
      | inl absent ↦ record { refused = ground arith }
      | inr (n, found) ↦ elim (Option-cases (find_cluster e to d)) [
        | inl unknown ↦ record { refused = ground arith }
        | inr (c, known) ↦ record {
          refused = ground (arith, (move_between-Refuses e n c d (ground arith)).refused);
        }
      ]
    ]
  ]

  moves_nowhere-Refused : (id : String) → Refuses d (move_node e id none)
  unfolding move_node
  moves_nowhere-Refused id = record { refused = ground arith }

  registers-Refused :
      (id : String) (body : Option RegisterRequest)
      → on_cluster e id d (λ c. belongs e c d) ≡ false
      → Refuses d (user_register_node e id body)
  unfolding user_register_node resolve_cluster get_member_role some_row
  registers-Refused id body h = record { refused = ground arith }

  enrolls-Refused :
      (body : Option EnrollRequest) → holds_token e body d ≡ false → Refuses d (agent_enroll e body)
  unfolding agent_enroll
  enrolls-Refused body h = record { refused = ground arith }

  deletes_node-Refused :
      (id : String) → e.user.is_admin ≡ false → Refuses d (admin_delete_node e id)
  unfolding admin_delete_node
  deletes_node-Refused id h = record { refused = ground arith }

  creates_user-Refused :
      (body : Option CreateUserRequest) → e.user.is_admin ≡ false → Refuses d (create_user e body)
  unfolding create_user
  creates_user-Refused body h = record { refused = ground arith }

  updates_user-Refused :
      (id : String) (body : Option UpdateUserRequest)
      → e.user.is_admin ≡ false
      → Refuses d (update_user e id body)
  unfolding update_user
  updates_user-Refused id body h = record { refused = ground arith }

  deletes_user-Refused : (id : String) → e.user.is_admin ≡ false → Refuses d (delete_user e id)
  unfolding delete_user
  deletes_user-Refused id h = record { refused = ground arith }

-- The handlers whose first step asks for an owner of the cluster.
module _ (e : Env) (id : String) (d : Store)
    (h : on_cluster e id d (λ c. is_owner_of e c d) ≡ false) where
  adds_member-Refused : (body : Option MemberRequest) → Refuses d (add_member_request e id body)
  unfolding add_member_request
  adds_member-Refused body = search (bind-Refuses, authorize_cluster_owner-Refuses)

  removes_member-Refused : (uid : String) → Refuses d (remove_member e id uid)
  unfolding remove_member
  removes_member-Refused uid = search (bind-Refuses, authorize_cluster_owner-Refuses)

  updates_role-Refused :
      (uid : String) (body : Option String) → Refuses d (update_member_role_request e id uid body)
  unfolding update_member_role_request
  updates_role-Refused uid body = search (bind-Refuses, authorize_cluster_owner-Refuses)

  renames_cluster-Refused : (body : Option String) → Refuses d (rename_cluster e id body)
  unfolding rename_cluster
  renames_cluster-Refused body = search (bind-Refuses, authorize_cluster_owner-Refuses)

  deletes_cluster-Refused : Refuses d (delete_cluster e id)
  unfolding delete_cluster
  deletes_cluster-Refused = search (bind-Refuses, authorize_cluster_owner-Refuses)

  creates_token-Refused : (r : TokenRequest) → Refuses d (create_enroll_token e id r)
  unfolding create_enroll_token
  creates_token-Refused r = search (bind-Refuses, authorize_cluster_owner-Refuses)

-- A request of someone whom the table refuses changes no table.
pub refused-unchanged :
    (e : Env) (c : Call) (d : Store) → allowed e c d ≡ false → (serve e c d).1 ≡ d
unfolding allowed serve node_disable node_enable
refused-unchanged e (adds_member id body) d h = unchanged (adds_member-Refused e id d h body)
refused-unchanged e (removes_member id uid) d h = unchanged (removes_member-Refused e id d h uid)
refused-unchanged e (updates_role id uid body) d h =
    unchanged (updates_role-Refused e id d h uid body)
refused-unchanged e (creates_cluster body) d h = cc
refused-unchanged e (renames_cluster id body) d h =
    unchanged (renames_cluster-Refused e id d h body)
refused-unchanged e (deletes_cluster id) d h = unchanged (deletes_cluster-Refused e id d h)
refused-unchanged e (creates_token id r) d h = unchanged (creates_token-Refused e id d h r)
refused-unchanged e (enrolls body) d h = unchanged (enrolls-Refused e d body h)
refused-unchanged e (registers id body) d h = unchanged (registers-Refused e d id body h)
refused-unchanged e (moves id none) d h = unchanged (moves_nowhere-Refused e d id)
refused-unchanged e (moves id (some to)) d h = unchanged (moves-Refused e d id to h)
refused-unchanged e (renames_node id body) d h = unchanged (renames_node-Refused e d id body h)
refused-unchanged e (disables id) d h = unchanged (node-Refused e d id disabled "node.disable" h)
refused-unchanged e (enables id) d h = unchanged (node-Refused e d id offline "node.enable" h)
refused-unchanged e (deletes_node id) d h = unchanged (deletes_node-Refused e d id h)
refused-unchanged e (creates_user body) d h = unchanged (creates_user-Refused e d body h)
refused-unchanged e (updates_user id body) d h = unchanged (updates_user-Refused e d id body h)
refused-unchanged e (deletes_user id) d h = unchanged (deletes_user-Refused e d id h)
