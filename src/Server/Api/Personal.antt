-- ===== src/Server/Api/Personal.antt =====
-- src/server/internal/bootstrap/personal.go: the cluster every new user gets.
use Prim.Native.Char.{Char, code}
use Prim.Native.String.{String, [], ◌∷◌, ◌++◌, len, find, slice}
use xnc.Prelude.{ℕ, zero, suc, Bool, true, ◌&&◌, ◌||◌, ltb, leb, ◌==◌, if◌then◌else◌}
use xnc.Prelude.Itoa.{suffixed}
use xnc.Server.Db.{User, Cluster, owner}
use xnc.Server.Db.Clusters.{create_cluster_row, add_membership}
use xnc.Server.Api.{
  Env, ApiError, Action, Written, wrote, violates, broken, pure, error, exec, written, control,
  ◌>>=◌, ◌>>◌,
}

-- [a-z0-9._-]
abbrev kept : Char → Bool
kept c =
    (leb 97 (code c) && leb (code c) 122)
    || (leb 48 (code c) && leb (code c) 57)
    || code c == 46
    || code c == 95
    || code c == 45

unfoldable pub clean : String → String
clean [] = ""
clean (c ∷ s) = let rest = clean s in if kept c then c ∷ rest else rest

abbrev pub before_at : String → String
before_at s = if ltb (find s "@") (len s) then slice s 0 (find s "@") else s

abbrev pub at_most_40 : String → String
at_most_40 s = if ltb 40 (len s) then slice s 0 40 else s

unfoldable pub personal_cluster_name : Env → String → String
personal_cluster_name e email =
    let local = clean (before_at (e.to_lower email)) in
    if len local == 0 then "user-default" else at_most_40 local ++ "-default"

-- What follows an attempt: after a clash of names comes `retry`, up to the suffix `-5`. An error of
-- any statement is the one error of the caller.
abbrev pub attempted :
    Env → ApiError → User → (i : ℕ) → (retry : Action Cluster) → Written Cluster → Action Cluster
attempted e x user i retry (wrote c) = do
  control e "release" x
  v ← exec e "membership" (add_membership c.id user.id owner)
  written x v
  pure c
attempted e x user i retry broken = error x
attempted e x user i retry (violates _) =
    if ltb 5 i then error x else (control e "rollback" x >> retry)

-- The attempts, each in a savepoint; five rounds of fuel are the numbers 2 to 6.
unfoldable pub attempt_personal :
    (fuel : ℕ)
    → Env
    → ApiError
    → User
    → (base : String) → (name : String) → (i : ℕ) → Action Cluster
attempt_personal zero e x user base name i = error x
attempt_personal (suc fuel) e x user base name i =
    let shorter = at_most_40 base in
    let retry = attempt_personal fuel e x user shorter (suffixed shorter i) (suc i) in
    do
      control e "savepoint" x
      w ← exec e "create cluster" (create_cluster_row e.default_cluster_uuid name user.id true)
      attempted e x user i retry w

unfoldable pub ensure_personal_cluster : Env → ApiError → User → Action Cluster
ensure_personal_cluster e x user =
    let base = personal_cluster_name e user.email in attempt_personal 5 e x user base base 2
