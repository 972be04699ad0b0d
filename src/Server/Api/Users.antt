-- ===== src/Server/Api/Users.antt =====
-- src/server/internal/api/user_handlers.go: the administration of users.
use xnc.Prelude.{
  ℕ, String, Bool, true, false, not, ◌||◌, Option, none, some, List, [], ◌∷◌, ltb, leb, ◌==◌,
  if◌then◌else◌,
}
use xnc.Prelude.Rows.{same}
use xnc.Server.Db.{User}
use xnc.Server.Db.Users.{get_user_by_id, update_user_display_name, update_user_password}
use xnc.Server.Db.UsersAdmin.{
  count_users_by_email, create_user_by_email, update_user_is_admin, count_admins,
  count_nodes_in_owned_clusters, delete_owned_clusters, delete_user_row,
}
use xnc.Server.Api.{
  Env, Action, Reply, value, pure, query, exec, or_error, error_if, written, written_unique,
  control, atomically, audit, reply, err, ◌>>=◌, ◌>>◌,
}
use xnc.Server.Api.Personal.{ensure_personal_cluster}

abbrev pub audit_user : Env → String → List (String × String) → Action Unit
audit_user e action metadata = audit e (record {
  user_id = some e.user.id;
  cluster_id = none;
  node_id = none;
  action = action;
  metadata = metadata;
})

pub record CreateUserRequest : Type 0 where
  pub email : String
  pub display_name : String
  pub password : String

-- A count that failed lets the request pass.
abbrev pub counted : Option ℕ → Bool
counted none = false
counted (some n) = ltb 0 n

abbrev create_user_tx : Env → CreateUserRequest → String → Action (User × String)
create_user_tx e r hash = do
  control e "begin" (err 500 "INTERNAL" "tx")
  w ← exec e "create user" (create_user_by_email e.new_uuid r.email r.display_name hash)
  user ←
      written_unique (err 409 "INTERNAL" "email already exists") (err 500 "INTERNAL" "create user")
        w
  c ← ensure_personal_cluster e (err 500 "INTERNAL" "default cluster") user
  control e "commit" (err 500 "INTERNAL" "commit")
  pure (user, c.id)

unfoldable pub create_user : Env → Option CreateUserRequest → Action Reply
create_user e body = do
  error_if (not e.user.is_admin) (err 403 "FORBIDDEN" "admin required")
  r ← or_error (err 400 "INTERNAL" "email and password required") body
  error_if (same r.email "" || same r.password "")
      (err 400 "INTERNAL" "email and password required")
  hash ← or_error (err 500 "INTERNAL" "hash password") (e.hash_password r.password)
  n ← query e "count email" (value (count_users_by_email r.email))
  error_if (counted n) (err 409 "INTERNAL" "email already exists")
  (user, cluster_id) ← atomically (create_user_tx e r hash)
  audit_user e "user.create" (("email", user.email) ∷ ("default_cluster_id", cluster_id) ∷ [])
  reply 201 (("id", user.id) ∷ ("email", user.email) ∷ ("display_name", user.display_name) ∷ [])

pub record UpdateUserRequest : Type 0 where
  pub display_name : Option String
  pub is_admin : Option Bool
  pub password : Option String

abbrev nothing_to_update : UpdateUserRequest → Bool
nothing_to_update r = elim r.display_name [
  | some _ ↦ false
  | none ↦ elim r.is_admin [
    | some _ ↦ false
    | none ↦ elim r.password [ some _ ↦ false | none ↦ true ]
  ]
]

-- The three parts of an update, each with the user it leaves for the reply.
unfoldable pub update_name : Env → String → User → Option String → Action User
update_name e uid target none = pure target
update_name e uid target (some name) = if same name target.display_name then pure target else do
  w ← exec e "name" (update_user_display_name uid name)
  written (err 500 "INTERNAL" "update display name") w
  audit_user e "user.update" (("user_id", uid) ∷ [])
  pure (record target { display_name = name })

unfoldable pub update_password : Env → String → Option String → Action Unit
update_password e uid none = pure tt
update_password e uid (some password) = do
  error_if (same password "") (err 400 "INTERNAL" "password must not be empty")
  hash ← or_error (err 500 "INTERNAL" "hash password") (e.hash_password password)
  w ← exec e "password" (update_user_password uid hash)
  written (err 500 "INTERNAL" "update password") w
  audit_user e "user.password.reset" (("user_id", uid) ∷ [])

abbrev pub same_flag : Bool → Bool → Bool
same_flag true b = b
same_flag false b = not b

-- Under the lock that the deletion of a user takes too.
unfoldable pub admin_tx : Env → String → Bool → Action Unit
admin_tx e uid is_admin = do
  control e "begin" (err 500 "INTERNAL" "update is_admin")
  control e "lock" (err 500 "INTERNAL" "update is_admin")
  w ← exec e "is_admin" (update_user_is_admin uid is_admin)
  n ← written (err 500 "INTERNAL" "update is_admin") w
  error_if (n == 0) (err 400 "LAST_ADMIN" "cannot demote the last admin")
  control e "commit" (err 500 "INTERNAL" "update is_admin")

unfoldable pub update_is_admin : Env → String → User → Option Bool → Action User
update_is_admin e uid target none = pure target
update_is_admin e uid target (some is_admin) =
    if same_flag is_admin target.is_admin then pure target else do
      atomically (admin_tx e uid is_admin)
      audit_user e "user.admin.toggle"
          (("user_id", uid) ∷ ("is_admin", if is_admin then "true" else "false") ∷ [])
      pure (record target { is_admin = is_admin })

unfoldable pub update_user : Env → String → Option UpdateUserRequest → Action Reply
update_user e id body = do
  error_if (not e.user.is_admin) (err 403 "FORBIDDEN" "admin required")
  uid ← or_error (err 404 "USER_NOT_FOUND" "user not found") (e.parse_uuid id)
  found ← query e "user" (get_user_by_id uid)
  target ← or_error (err 404 "USER_NOT_FOUND" "user not found") found
  r ← or_error (err 400 "INTERNAL" "nothing to update") body
  error_if (nothing_to_update r) (err 400 "INTERNAL" "nothing to update")
  named ← update_name e uid target r.display_name
  update_password e uid r.password
  updated ← update_is_admin e uid named r.is_admin
  reply 200 (
      ("id", updated.id)
      ∷ ("email", updated.email)
      ∷ ("display_name", updated.display_name)
      ∷ ("is_admin", if updated.is_admin then "true" else "false")
      ∷ [])

-- The last administrator stays: an administrator goes only when there is another one.
unfoldable pub keep_admin : Env → User → Action Unit
keep_admin e target =
    if target.is_admin
    then (do
      found ← query e "admins" (value count_admins)
      admins ← or_error (err 500 "INTERNAL" "delete user") found
      error_if (leb admins 1) (err 400 "LAST_ADMIN" "cannot delete the last admin"))
    else pure tt

unfoldable pub delete_user_tx : Env → String → User → Action Unit
delete_user_tx e uid target = do
  control e "begin" (err 500 "INTERNAL" "delete user")
  control e "lock" (err 500 "INTERNAL" "delete user")
  keep_admin e target
  found ← query e "nodes" (value (count_nodes_in_owned_clusters uid))
  n ← or_error (err 500 "INTERNAL" "delete user") found
  error_if (ltb 0 n) (
      err 409 "USER_OWNS_NODES"
        "user still owns clusters containing nodes; move or remove those nodes first")
  w ← exec e "clusters" (delete_owned_clusters uid)
  written (err 500 "INTERNAL" "delete user") w
  v ← exec e "delete" (delete_user_row uid)
  written (err 500 "INTERNAL" "delete user") v
  control e "commit" (err 500 "INTERNAL" "delete user")

abbrev pub log_deletion : Env → User → Action Reply
log_deletion e target = do audit_user e "user.delete" (("email", target.email) ∷ []); reply 204 []

unfoldable pub delete_found : Env → String → User → Action Reply
delete_found e uid target = do atomically (delete_user_tx e uid target); log_deletion e target

unfoldable pub delete_user : Env → String → Action Reply
delete_user e id = do
  error_if (not e.user.is_admin) (err 403 "FORBIDDEN" "admin required")
  uid ← or_error (err 404 "USER_NOT_FOUND" "user not found") (e.parse_uuid id)
  found ← query e "user" (get_user_by_id uid)
  target ← or_error (err 404 "USER_NOT_FOUND" "user not found") found
  delete_found e uid target
