-- ===== src/Server/Db/UsersAdmin.antt =====
-- src/server/internal/db/sqlc/users_admin.sql.go: the administration of users.
use xnc.Prelude.{ℕ, String, Bool, false, ◌&&◌, ◌||◌, none, some, List, map, ltb, if◌then◌else◌}
use xnc.Prelude.Rows.{same, count, without, change, some_row}
use xnc.Server.Db.{
  User, Cluster, ClusterMember, Node, EnrollmentToken, AuditLog, Store, Result, done, failed,
}
use xnc.Server.Db.Users.{has_user_id, has_email, create_user_row}

unfoldable pub count_users_by_email : String → Store → ℕ
count_users_by_email email d = count (has_email email) d.users

-- INSERT: the identifier `id` is the one the database draws, and is_admin its default, false.
unfoldable pub create_user_by_email : String → String → String → String → Store → Result User
create_user_by_email id email display_name password_hash d =
    create_user_row
      (record {
        id = id;
        email = email;
        display_name = display_name;
        password_hash = password_hash;
        is_admin = false;
      })
      d

abbrev pub is_admin_user : User → Bool
is_admin_user u = u.is_admin

unfoldable pub count_admins : Store → ℕ
count_admins d = count is_admin_user d.users

unfoldable pub update_user_is_admin : String → Bool → Store → Result ℕ
update_user_is_admin id is_admin d =
    let p = λ (u : User). has_user_id id u && (is_admin || ltb 1 (count is_admin_user d.users)) in
    done (count p d.users)
      (record d { users = change p (λ (u : User). record u { is_admin = is_admin }) d.users })

abbrev pub owned_by : String → Cluster → Bool
owned_by owner_id c = same c.owner_id owner_id

-- The clusters, deleted ones too, whose column owner_id names the user.
abbrev pub in_owned : String → List Cluster → String → Bool
in_owned owner_id cs cluster_id =
    some_row (λ (c : Cluster). same c.id cluster_id && owned_by owner_id c) cs

unfoldable pub count_nodes_in_owned_clusters : String → Store → ℕ
count_nodes_in_owned_clusters owner_id d =
    count (λ (n : Node). in_owned owner_id d.clusters n.cluster_id) d.nodes

-- DELETE: members and tokens go with their cluster; a node in it is an error.
unfoldable pub delete_owned_clusters : String → Store → Result ℕ
delete_owned_clusters owner_id d =
    if some_row (λ (n : Node). in_owned owner_id d.clusters n.cluster_id) d.nodes
    then failed
    else done (count (owned_by owner_id) d.clusters) (record d {
      clusters = without (owned_by owner_id) d.clusters;
      members =
          without (λ (m : ClusterMember). in_owned owner_id d.clusters m.cluster_id) d.members;
      tokens =
          without (λ (t : EnrollmentToken). in_owned owner_id d.clusters t.cluster_id) d.tokens;
    })

-- ON DELETE SET NULL
abbrev forget_actor : String → AuditLog → AuditLog
forget_actor id a = elim a.user_id [
  | none ↦ a
  | some u ↦ if same u id then record a { user_id = none } else a
]

abbrev pub of_user : String → ClusterMember → Bool
of_user id m = same m.user_id id

-- DELETE: the memberships go with the user. A cluster that names the user its owner_id, or a token
-- that names it created_by, is an error: these foreign keys have no ON DELETE.
unfoldable pub delete_user_row : String → Store → Result ℕ
delete_user_row id d =
    if some_row (owned_by id) d.clusters
    then failed
    else if some_row (λ (t : EnrollmentToken). same t.created_by id) d.tokens
    then failed
    else done (count (has_user_id id) d.users) (record d {
      users = without (has_user_id id) d.users;
      members = without (of_user id) d.members;
      audits = map (forget_actor id) d.audits;
    })
