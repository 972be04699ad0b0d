-- ===== src/Server/Api/Members.antt =====
-- src/server/internal/api/member_handlers.go: the members of a cluster.
use xnc.Prelude.{ℕ, String, Bool, ◌&&◌, not, Option, none, some, List, [], ◌∷◌, ◌==◌, if◌then◌else◌}
use xnc.Prelude.Rows.{same}
use xnc.Server.Db.{Role, viewer, operator, owner, Cluster}
use xnc.Server.Db.Membership.{
  is_owner, add_member, get_member_role, remove_member_guarded, update_member_role,
}
use xnc.Server.Db.Users.{get_user_by_email, get_user_by_id}
use xnc.Server.Api.{
  Env, Action, Reply, ApiError, pure, query, exec, or_error, error_if, written, written_unique,
  control, atomically, audit, reply, err, ◌>>=◌, ◌>>◌,
}
use xnc.Server.Api.Enroll.{find_cluster, authorize_cluster_owner}

unfoldable pub valid_role : String → Option Role
valid_role s =
    if same s "owner"
    then some owner
    else if same s "operator"
    then some operator
    else if same s "viewer"
    then some viewer
    else none

abbrev pub role_name : Role → String
role_name owner = "owner"
role_name operator = "operator"
role_name viewer = "viewer"

unfoldable pub resolve_cluster : Env → String → Action Cluster
resolve_cluster e id_or_name = do
  found ← query e "cluster" (find_cluster e id_or_name)
  or_error (err 404 "CLUSTER_NOT_FOUND" "cluster not found") found

abbrev pub audit_member : Env → String → String → List (String × String) → Action Unit
audit_member e cluster_id action metadata = audit e (record {
  user_id = some e.user.id;
  cluster_id = some cluster_id;
  node_id = none;
  action = action;
  metadata = metadata;
})

pub record MemberRequest : Type 0 where
  pub email : String
  pub user_id : String
  pub role : String

abbrev named_user : MemberRequest → Bool
named_user r = not (same r.email "" && same r.user_id "")

-- The e-mail address comes first; without one the identifier is read.
unfoldable pub member_target : Env → MemberRequest → Action String
member_target e r =
    if not (same r.email "")
    then (do
      found ← query e "user by email" (get_user_by_email r.email)
      target ← or_error (err 404 "USER_NOT_FOUND" "user not found") found
      pure target.id)
    else do
      uid ← or_error (err 400 "INTERNAL" "invalid user_id") (e.parse_uuid r.user_id)
      found ← query e "user by id" (get_user_by_id uid)
      or_error (err 404 "USER_NOT_FOUND" "user not found") found
      pure uid

unfoldable pub add_member_request : Env → String → Option MemberRequest → Action Reply
add_member_request e id body = do
  c ← authorize_cluster_owner e id
  r ← or_error (err 400 "INTERNAL" "email (or user_id) and role required") body
  error_if (not (named_user r)) (err 400 "INTERNAL" "email (or user_id) and role required")
  role ← or_error (err 400 "INTERNAL" "role must be owner, operator or viewer") (valid_role r.role)
  uid ← member_target e r
  w ← exec e "add" (add_member c.id uid role)
  written_unique (err 409 "INTERNAL" "already a member") (err 500 "INTERNAL" "add member") w
  audit_member e c.id "cluster.member.add" (("user_id", uid) ∷ ("role", r.role) ∷ [])
  reply 201 (("user_id", uid) ∷ ("role", r.role) ∷ [])

-- A statement under the cluster's advisory lock, in a transaction: the locked changes of one
-- cluster's members run one after the other.
abbrev pub with_membership_lock : {A : Type 0} → Env → ApiError → Action A → Action A
with_membership_lock e x m =
    atomically do control e "begin" x; control e "lock" x; a ← m; control e "commit" x; pure a

-- No row was deleted: the last owner, or no member at all.
abbrev pub not_removed : Option Role → Action Reply
not_removed none = reply 204 []
not_removed (some role) = do
  error_if (is_owner role) (err 400 "INTERNAL" "cannot remove the last owner")
  reply 204 []

-- The reply by the number of rows deleted.
abbrev pub removed : Env → String → String → ℕ → Action Reply
removed e cluster_id uid n =
    if n == 0
    then query e "role" (get_member_role cluster_id uid) >>= not_removed
    else do audit_member e cluster_id "cluster.member.remove" (("user_id", uid) ∷ []); reply 204 []

unfoldable pub remove_member : Env → String → String → Action Reply
remove_member e id user_id = do
  c ← authorize_cluster_owner e id
  uid ← or_error (err 400 "INTERNAL" "invalid user id") (e.parse_uuid user_id)
  n ← with_membership_lock e (err 500 "INTERNAL" "remove member") do
    w ← exec e "remove" (remove_member_guarded c.id uid)
    written (err 500 "INTERNAL" "remove member") w
  removed e c.id uid n

unfoldable pub update_member_role_request : Env → String → String → Option String → Action Reply
update_member_role_request e id user_id body = do
  c ← authorize_cluster_owner e id
  uid ← or_error (err 400 "INTERNAL" "invalid user id") (e.parse_uuid user_id)
  text ← or_error (err 400 "INTERNAL" "role must be owner, operator or viewer") body
  role ← or_error (err 400 "INTERNAL" "role must be owner, operator or viewer") (valid_role text)
  found ← query e "role" (get_member_role c.id uid)
  old ← or_error (err 404 "CLUSTER_NOT_FOUND" "not a member") found
  n ← with_membership_lock e (err 500 "INTERNAL" "update member role") do
    w ← exec e "update" (update_member_role c.id uid role)
    written (err 500 "INTERNAL" "update member role") w
  error_if (n == 0) (err 400 "INTERNAL" "cannot demote the last owner")
  audit_member e c.id "cluster.member.role"
      (("user_id", uid) ∷ ("from", role_name old) ∷ ("to", text) ∷ [])
  reply 200 (("user_id", uid) ∷ ("role", text) ∷ [])
