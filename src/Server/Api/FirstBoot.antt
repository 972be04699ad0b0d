-- ===== src/Server/Api/FirstBoot.antt =====
-- src/server/internal/bootstrap/bootstrap.go: the administrator of an empty database.
use xnc.Prelude.{zero, suc, String, true, ◌||◌}
use xnc.Prelude.Rows.{same}
use xnc.Server.Db.{owner}
use xnc.Server.Db.Users.{count_users, create_user_row}
use xnc.Server.Db.Clusters.{create_cluster_row}
use xnc.Server.Db.Membership.{add_member}
use xnc.Server.Api.{
  Env, ApiError, Action, value, query, exec, or_error, error_if, written, control, atomically, pure,
  ◌>>=◌, ◌>>◌,
}

abbrev admin_tx : Env → ApiError → String → String → Action Unit
admin_tx e x email hash = do
  control e "begin" x
  w ← exec e "create user" (
      create_user_row (record {
        id = e.new_uuid;
        email = email;
        display_name = "Admin";
        password_hash = hash;
        is_admin = true;
      }))
  u ← written x w
  v ← exec e "create cluster" (create_cluster_row e.default_cluster_uuid "default" u.id true)
  c ← written x v
  m ← exec e "membership" (add_member c.id u.id owner)
  written x m
  control e "commit" x

-- Nothing is done when there is a user.
unfoldable pub ensure_admin : Env → ApiError → String → String → Action Unit
ensure_admin e x email password = do
  found ← query e "count" (value count_users)
  n ← or_error x found
  elim n [
    | suc _ ↦ pure tt
    | zero ↦ do
      error_if (same email "" || same password "") x
      hash ← or_error x (e.hash_password password)
      atomically (admin_tx e x email hash)
  ]
