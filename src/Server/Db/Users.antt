-- ===== src/Server/Db/Users.antt =====
-- src/server/internal/db/sqlc/users.sql.go: the statements on users.
use xnc.Prelude.{ℕ, String, Bool, Option, ◌++◌, ◌∷◌, [], length, if◌then◌else◌}
use xnc.Prelude.Rows.{same, first, count, change, some_row}
use xnc.Server.Db.{User, Store, Result, done, unique, another_key}

abbrev pub has_user_id : String → User → Bool
has_user_id id u = same u.id id

abbrev pub has_email : String → User → Bool
has_email email u = same u.email email

unfoldable pub count_users : Store → ℕ
count_users d = length d.users

unfoldable pub create_user_row : User → Store → Result User
create_user_row u d =
    if some_row (has_user_id u.id) d.users
    then unique another_key
    else if some_row (has_email u.email) d.users
    then unique another_key
    else done u (record d { users = d.users ++ (u ∷ []) })

unfoldable pub get_user_by_email : String → Store → Option User
get_user_by_email email d = first (has_email email) d.users

unfoldable pub get_user_by_id : String → Store → Option User
get_user_by_id id d = first (has_user_id id) d.users

unfoldable pub update_user_display_name : String → String → Store → Result ℕ
update_user_display_name id display_name d = done (count (has_user_id id) d.users) (record d {
  users = change (has_user_id id) (λ (u : User). record u { display_name = display_name }) d.users;
})

unfoldable pub update_user_password : String → String → Store → Result ℕ
update_user_password id password_hash d = done (count (has_user_id id) d.users) (record d {
  users =
      change (has_user_id id) (λ (u : User). record u { password_hash = password_hash }) d.users;
})
