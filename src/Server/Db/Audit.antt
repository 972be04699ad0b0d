-- ===== src/Server/Db/Audit.antt =====
-- src/server/internal/db/sqlc/audit.sql.go: the insertion of an audit row.
use xnc.Prelude.{String, Bool, true, Option, none, some, ◌++◌, ◌∷◌, [], if◌then◌else◌}
use xnc.Prelude.Rows.{some_row}
use xnc.Server.Db.{AuditLog, Store, Result, done, failed}
use xnc.Server.Db.Users.{has_user_id}

abbrev actor_exists : Option String → Store → Bool
actor_exists none d = true
actor_exists (some id) d = some_row (has_user_id id) d.users

unfoldable pub insert_audit_log : AuditLog → Store → Result Unit
insert_audit_log a d =
    if actor_exists a.user_id d
    then done tt (record d { audits = d.audits ++ (a ∷ []) })
    else failed
