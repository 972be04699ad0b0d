-- ===== src/Server/Api/Writes/Users.antt =====
-- src/server/internal/api/user_handlers.go: the creation and the change of a user write by single
-- statements only.
use xnc.Prelude.{
  ℕ, zero, suc, ◌≡◌, String, Bool, Option, none, some, [], ◌∷◌, Option-cases, inl, inr, arith,
}
use xnc.Prelude.Itoa.{suffixed}
use xnc.Server.Db.{User, Cluster, AuditLog, Store}
use xnc.Server.Db.Audit.{insert_audit_log}
use xnc.Server.Db.Users.{get_user_by_id}
use xnc.Server.Api.{
  Env, ApiError, Action, Written, wrote, violates, broken, Outcome, go, halt, rolled_back,
  atomically, audit, exec, pure, reply,
}
use xnc.Server.Api.Personal.{
  attempted, attempt_personal, ensure_personal_cluster, personal_cluster_name, at_most_40,
}
use xnc.Server.Api.Users.{
  CreateUserRequest, create_user, UpdateUserRequest, update_name, update_password, admin_tx,
  update_is_admin, update_user, log_deletion, delete_user_tx, delete_found, delete_user,
}
use xnc.Server.Api.Writes.{
  Writes, statements, creates_cluster, adds_membership, creates_user, sets_name, sets_password,
  sets_admin, after, next-keeps, exec-keeps,
}

attempted-Writes :
    (e : Env) (x : ApiError) (user : User) (i : ℕ) (retry : Action Cluster) (w : Written Cluster)
    → Writes retry
    → Writes (attempted e x user i retry w)
attempted-Writes e x user i retry (wrote c) h =
    search (statements, adds_membership) depth 40 fits 3000
attempted-Writes e x user i retry broken h = search statements
attempted-Writes e x user i retry (violates c) h = search statements

attempt_personal-Writes :
    (fuel : ℕ) (e : Env) (x : ApiError) (user : User) (base name : String) (i : ℕ)
    → Writes (attempt_personal fuel e x user base name i)
unfolding attempt_personal
attempt_personal-Writes zero e x user base name i = search statements
attempt_personal-Writes (suc fuel) e x user base name i =
    let h =
      attempt_personal-Writes fuel e x user (at_most_40 base) (suffixed (at_most_40 base) i)
        (suc i) in
    search (statements, creates_cluster, attempted-Writes) depth 40 fits 3000

ensure_personal_cluster-Writes :
    (e : Env) (x : ApiError) (user : User) → Writes (ensure_personal_cluster e x user)
unfolding ensure_personal_cluster
ensure_personal_cluster-Writes e x user =
    let base = personal_cluster_name e user.email in attempt_personal-Writes 5 e x user base base 2

pub create_user-Writes : (e : Env) (body : Option CreateUserRequest) → Writes (create_user e body)
unfolding create_user
create_user-Writes e body =
    search (statements, creates_user, ensure_personal_cluster-Writes) depth 40 fits 3000

update_name-Writes :
    (e : Env) (uid : String) (target : User) (o : Option String)
    → Writes (update_name e uid target o)
unfolding update_name
update_name-Writes e uid target none = search statements
update_name-Writes e uid target (some name) = search (statements, sets_name) depth 40 fits 3000

update_password-Writes :
    (e : Env) (uid : String) (o : Option String) → Writes (update_password e uid o)
unfolding update_password
update_password-Writes e uid none = search statements
update_password-Writes e uid (some password) = search (statements, sets_password) depth 40 fits 3000

admin_tx-Writes : (e : Env) (uid : String) (b : Bool) → Writes (admin_tx e uid b)
unfolding admin_tx
admin_tx-Writes e uid b = search (statements, sets_admin) depth 40 fits 3000

update_is_admin-Writes :
    (e : Env) (uid : String) (target : User) (o : Option Bool)
    → Writes (update_is_admin e uid target o)
unfolding update_is_admin
update_is_admin-Writes e uid target none = search statements
update_is_admin-Writes e uid target (some b) =
    search (statements, admin_tx-Writes) depth 40 fits 3000

pub update_user-Writes :
    (e : Env) (id : String) (body : Option UpdateUserRequest) → Writes (update_user e id body)
unfolding update_user
update_user-Writes e id body =
    search (statements, update_name-Writes, update_password-Writes, update_is_admin-Writes) depth 40
      fits 3000

rolled_back-keeps :
    (P : Store → Type 0) (o : Outcome Unit × Store) (d : Store)
    → P d
    → P o.1
    → P (rolled_back o d).1
rolled_back-keeps P (go a, d') d h k = k
rolled_back-keeps P (halt r, d') d h k = h

log_deletion-keeps :
    (P : Store → Type 0) (e : Env) (target : User) (d : Store)
    → ((a : AuditLog) (d : Store) → P d → P (after (insert_audit_log a d) d))
    → P d
    → P (log_deletion e target d).1
log_deletion-keeps P e target d logged h =
    let a : AuditLog = record {
      user_id = some e.user.id;
      cluster_id = none;
      node_id = none;
      action = "user.delete";
      metadata = ("email", target.email) ∷ [];
    } in
    let m = exec-keeps P e "audit" (insert_audit_log a) d h (logged a d h) in
    next-keeps P (audit e a d) (λ u. reply 204 [])
      (next-keeps P (exec e "audit" (insert_audit_log a) d) (λ w. pure tt) m (λ w d' k. k))
      (λ u d' k. k)

-- What the transaction of a deletion keeps and an audit row keeps, the deletion keeps.
delete_found-keeps :
    (P : Store → Type 0) (e : Env) (uid : String) (target : User) (d : Store)
    → ((a : AuditLog) (d : Store) → P d → P (after (insert_audit_log a d) d))
    → P d
    → P (delete_user_tx e uid target d).1
    → P (delete_found e uid target d).1
unfolding delete_found
delete_found-keeps P e uid target d logged h k =
    next-keeps P (atomically (delete_user_tx e uid target) d) (λ u. log_deletion e target)
      (rolled_back-keeps P (delete_user_tx e uid target d) d h k)
      (λ u d'. log_deletion-keeps P e target d' logged)

pub delete_user-keeps :
    (P : Store → Type 0) (e : Env) (id : String) (d : Store)
    → ((a : AuditLog) (d : Store) → P d → P (after (insert_audit_log a d) d))
    → ((uid : String) (target : User)
        → get_user_by_id uid d ≡ some target
        → P (delete_user_tx e uid target d).1)
    → P d
    → P (delete_user e id d).1
unfolding delete_user
delete_user-keeps P e id d logged tx h = elim (Option-cases (e.parse_uuid id)) [
  | inl bad ↦ ground arith
  | inr (uid, p) ↦ elim (Option-cases (get_user_by_id uid d)) [
    | inl absent ↦ ground arith
    | inr (target, t) ↦
        ground (arith, delete_found-keeps P e uid target d logged h (tx uid target t))
  ]
]
