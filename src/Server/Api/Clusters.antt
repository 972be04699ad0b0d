-- ===== src/Server/Api/Clusters.antt =====
-- src/server/internal/api/cluster_handlers.go: a user's own clusters.
use xnc.Prelude.{ℕ, String, Bool, false, Option, none, some, [], ◌∷◌, ltb, leb, if◌then◌else◌}
use xnc.Prelude.Rows.{same}
use xnc.Server.Db.{owner}
use xnc.Server.Db.Clusters.{
  count_owned_live_clusters, create_cluster_row, add_membership, rename_cluster_row,
}
use xnc.Server.Api.{
  Env, Action, Reply, pure, value, query, exec, or_error, error_if, written, written_unique, reply,
  err, ◌>>=◌, ◌>>◌,
}
use xnc.Server.Api.Enroll.{authorize_cluster_owner}
use xnc.Server.Api.Members.{audit_member}

-- A name that is missing or empty.
abbrev pub named : Option String → Action String
named body = do
  name ← or_error (err 400 "INTERNAL" "name required") body
  error_if (same name "") (err 400 "INTERNAL" "name required")
  pure name

unfoldable pub rename_cluster : Env → String → Option String → Action Reply
rename_cluster e id body = do
  c ← authorize_cluster_owner e id
  name ← named body
  w ← exec e "rename" (rename_cluster_row c.id name)
  updated ←
      written_unique (err 400 "INTERNAL" "cluster name exists")
        (err 500 "INTERNAL" "rename cluster") w
  audit_member e c.id "cluster.rename" (("from", c.name) ∷ ("to", updated.name) ∷ [])
  reply 200 (("id", updated.id) ∷ ("name", updated.name) ∷ [])

unfoldable pub cluster_limit : Env → ℕ
cluster_limit e = if ltb 0 e.max_clusters_per_user then e.max_clusters_per_user else 20

-- A count that failed lets the request pass.
abbrev pub limit_reached : Env → Option ℕ → Bool
limit_reached e none = false
limit_reached e (some n) = leb (cluster_limit e) n

unfoldable pub create_cluster : Env → Option String → Action Reply
create_cluster e body = do
  name ← named body
  n ← query e "count" (value (count_owned_live_clusters e.user.id))
  error_if (limit_reached e n) (err 400 "INTERNAL" "cluster limit reached")
  w ← exec e "create" (create_cluster_row e.new_uuid name e.user.id false)
  c ←
      written_unique (err 400 "INTERNAL" "cluster name exists")
        (err 500 "INTERNAL" "create cluster") w
  v ← exec e "membership" (add_membership c.id e.user.id owner)
  written (err 500 "INTERNAL" "membership") v
  reply 201 (("id", c.id) ∷ ("name", c.name) ∷ ("personal", "false") ∷ [])
