-- ===== src/Server/Db/Tokens.antt =====
-- src/server/internal/db/sqlc/tokens.sql.go: the statements on enrollment tokens.
use xnc.Prelude.{ℕ, suc, String, Bool, ◌&&◌, Option, none, some, ◌++◌, ◌∷◌, [], ltb, if◌then◌else◌}
use xnc.Prelude.Rows.{same, first, change, some_row}
use xnc.Server.Db.{User, Cluster, EnrollmentToken, Store, Result, done, unique, another_key, failed}

-- INSERT: a token starts with no use; its hash is unique.
unfoldable pub create_enrollment_token : EnrollmentToken → Store → Result EnrollmentToken
create_enrollment_token row d =
    let t = record row { used_count = 0 } in
    if some_row (λ (o : EnrollmentToken). same o.id t.id) d.tokens
    then unique another_key
    else if some_row (λ (o : EnrollmentToken). same o.token_hash t.token_hash) d.tokens
    then unique another_key
    else if some_row (λ (c : Cluster). same c.id t.cluster_id) d.clusters
        && some_row (λ (u : User). same u.id t.created_by) d.users
    then done t (record d { tokens = d.tokens ++ (t ∷ []) })
    else failed

unfoldable pub get_enrollment_token_by_hash : String → Store → Option EnrollmentToken
get_enrollment_token_by_hash hash d =
    first (λ (t : EnrollmentToken). same t.token_hash hash) d.tokens

abbrev pub usable : String → EnrollmentToken → Bool
usable id t = same t.id id && ltb t.used_count t.max_uses

abbrev pub used_once : EnrollmentToken → EnrollmentToken
used_once t = record t { used_count = suc t.used_count }

-- UPDATE … RETURNING: no row is an error of the call.
unfoldable pub consume_enrollment_token : String → Store → Result ℕ
consume_enrollment_token id d = elim (first (usable id) d.tokens) [
  | none ↦ failed
  | some t ↦ done (suc t.used_count) (record d { tokens = change (usable id) used_once d.tokens })
]
