-- ===== src/Server/Api/Admins.antt =====
-- src/server/internal/api: an administrator remains after every request. UpdateUserIsAdmin and the
-- transaction of `deleteUser` are what guards it.
use xnc.Prelude.{
  ◌≤◌, ◌<◌, ◌≡◌, refl, ap, String, Bool, false, ◌&&◌, ◌||◌, some, List, [], ◌∷◌, ◌++◌, ltb, arith,
  Bool-cases, inl, inr,
}
use xnc.Prelude.Rows.{same, count, without, change, some_row, first}
use xnc.Prelude.Rows.Counts.{
  count-append, count-none, count_mono, count-false, count-without, count-change,
  count-change-lower, count-change-le, only_row,
}
use xnc.Server.Db.{User, AuditLog, Store}
use xnc.Server.Db.Membership.{add_member, remove_member_guarded, update_member_role}
use xnc.Server.Db.Clusters.{add_membership, create_cluster_row, rename_cluster_row}
use xnc.Server.Db.ClustersAdmin.{soft_delete_cluster}
use xnc.Server.Db.Nodes.{
  create_node, adopt_node_identity, delete_node, move_node_cluster, rename_node_row,
}
use xnc.Server.Db.NodesStatus.{set_node_status_row}
use xnc.Server.Db.Tokens.{create_enrollment_token, consume_enrollment_token}
use xnc.Server.Db.Users.{
  has_user_id, get_user_by_id, create_user_row, update_user_display_name, update_user_password,
}
use xnc.Server.Db.UsersAdmin.{
  is_admin_user, count_admins, create_user_by_email, update_user_is_admin, delete_owned_clusters,
  delete_user_row,
}
use xnc.Server.Db.Audit.{insert_audit_log}
use xnc.Server.Api.{Env}
use xnc.Server.Api.Users.{keep_admin, delete_user_tx}
use xnc.Server.Api.Writes.{
  Reaches, after, stays, chain, creates_user, sets_name, sets_password, sets_admin,
}
use xnc.Server.Api.Writes.Users.{delete_user-keeps}
use xnc.Server.Api.Run.{Call, deletes_user, serve, run, serve-Writes}

-- The primary key of users, and an administrator.
pub record IsAdmined (us : List User) : Type 0 where
  pub once : (id : String) → count (has_user_id id) us ≤ 1
  pub admin : 1 ≤ count is_admin_user us

appended :
    (u : User) (us : List User)
    → some_row (has_user_id u.id) us ≡ false
    → IsAdmined us
    → IsAdmined (us ++ (u ∷ []))
unfolding count
appended u us new h = record {
  once = λ i. ground (
    arith,
    count-append (has_user_id i) us (u ∷ []),
    count-none (has_user_id u.id) us new,
    h.once i,
  );
  admin = ground (arith, count-append is_admin_user us (u ∷ []), h.admin);
}

-- The condition of the guarded UPDATE on a row.
abbrev toggled : String → Bool → List User → User → Bool
toggled id b us u = has_user_id id u && (b || ltb 1 (count is_admin_user us))

toggled-IsAdmined :
    (id : String) (b : Bool) (us : List User)
    → IsAdmined us
    → IsAdmined (change (toggled id b us) (λ (u : User). record u { is_admin = b }) us)
toggled-IsAdmined id b us h =
    let q = toggled id b us in
    let f = λ (u : User). record u { is_admin = b } in
    record {
      once = λ i. omega (arith, count-change (has_user_id i) q f us (λ u. refl), h.once i);
      admin = elim (Bool-cases (ltb 1 (count is_admin_user us))) [
        | inl more ↦ ground (
          arith,
          count-change-lower is_admin_user q f us,
          count_mono (λ u. is_admin_user u && q u) (has_user_id id) us (λ u e. ground arith),
          h.once id,
        )
        | inr last ↦ elim (Bool-cases b) [
          | inl up ↦
              ground (arith, count-change-le is_admin_user q f us (λ u e. ground arith), h.admin)
          | inr down ↦ ground (
            arith,
            count-change-lower is_admin_user q f us,
            count-false (λ u. is_admin_user u && q u) us (λ u. ground arith),
            h.admin,
          )
        ]
      ];
    }

-- A change of the columns that are neither the key nor the flag.
changed :
    (id : String) (f : User → User) (us : List User)
    → ((u : User) → (f u).id ≡ u.id)
    → ((u : User) → (f u).is_admin ≡ u.is_admin)
    → IsAdmined us
    → IsAdmined (change (has_user_id id) f us)
changed id f us keeps_id keeps_flag h = record {
  once = λ i. omega (
    arith,
    count-change (has_user_id i) (has_user_id id) f us (λ u. ap (λ x. same x i) (keeps_id u)),
    h.once i,
  );
  admin = omega (arith, count-change is_admin_user (has_user_id id) f us keeps_flag, h.admin);
}

Reaches-IsAdmined : {a b : Store} → Reaches a b → IsAdmined a.users → IsAdmined b.users
unfolding add_member add_membership remove_member_guarded update_member_role create_cluster_row
    rename_cluster_row soft_delete_cluster create_node adopt_node_identity delete_node
    move_node_cluster rename_node_row set_node_status_row create_enrollment_token
    consume_enrollment_token create_user_by_email create_user_row update_user_display_name
    update_user_password update_user_is_admin insert_audit_log
Reaches-IsAdmined stays h = h
Reaches-IsAdmined (chain r s) h = Reaches-IsAdmined s (Reaches-IsAdmined r h)
Reaches-IsAdmined (creates_user i m n p {d}) h = ground (
  arith,
  appended (record { id = i; email = m; display_name = n; password_hash = p; is_admin = false })
      d.users,
)
Reaches-IsAdmined (sets_name i n {d}) h =
    changed i (λ (u : User). record u { display_name = n }) d.users (λ u. refl) (λ u. refl) h
Reaches-IsAdmined (sets_password i n {d}) h =
    changed i (λ (u : User). record u { password_hash = n }) d.users (λ u. refl) (λ u. refl) h
Reaches-IsAdmined (sets_admin i b {d}) h = toggled-IsAdmined i b d.users h
Reaches-IsAdmined _ h = ground arith

-- The deletion of a user who is no administrator, and of one who is not the last.
deleted_plain :
    (id : String) (target : User) (us : List User)
    → IsAdmined us
    → first (has_user_id id) us ≡ some target
    → target.is_admin ≡ false
    → IsAdmined (without (has_user_id id) us)
deleted_plain id target us h found plain = record {
  once = λ i. omega (arith, count-without (has_user_id i) (has_user_id id) us, h.once i);
  admin = omega (
    arith,
    count-without is_admin_user (has_user_id id) us,
    h.admin,
    only_row (has_user_id id) is_admin_user us target found plain (h.once id),
  );
}

deleted_admin :
    (id : String) (us : List User)
    → IsAdmined us
    → 1 < count is_admin_user us
    → IsAdmined (without (has_user_id id) us)
deleted_admin id us h more = record {
  once = λ i. omega (arith, count-without (has_user_id i) (has_user_id id) us, h.once i);
  admin = omega (
    arith,
    count-without is_admin_user (has_user_id id) us,
    count_mono (λ u. is_admin_user u && has_user_id id u) (has_user_id id) us (λ u e. ground arith),
    h.once id,
  );
}

delete_user_tx-IsAdmined :
    (e : Env) (uid : String) (target : User) (d : Store)
    → get_user_by_id uid d ≡ some target
    → IsAdmined d.users
    → IsAdmined (delete_user_tx e uid target d).1.users
unfolding delete_user_tx keep_admin delete_owned_clusters delete_user_row count_admins
    get_user_by_id
delete_user_tx-IsAdmined e uid target d found h =
    ground (arith, deleted_plain uid target d.users h found, deleted_admin uid d.users h)

logged :
    (a : AuditLog) (d : Store)
    → IsAdmined d.users
    → IsAdmined (after (insert_audit_log a d) d).users
unfolding insert_audit_log
logged a d h = ground arith

serve-IsAdmined :
    (e : Env) (c : Call) (d : Store) → IsAdmined d.users → IsAdmined (serve e c d).1.users
unfolding serve
serve-IsAdmined e (deletes_user id) d h =
    delete_user-keeps (λ s. IsAdmined s.users) e id d logged
      (λ uid target found. delete_user_tx-IsAdmined e uid target d found h) h
serve-IsAdmined e c d h = Reaches-IsAdmined ((serve-Writes e c (λ x. x)).reaches d) h

-- Whatever the requests of Run, and whichever statements fail, an administrator remains, and no
-- identifier stands for two users.
pub run-IsAdmined :
    (cs : List (Env × Call)) (d : Store) → IsAdmined d.users → IsAdmined (run cs d).users
unfolding run
run-IsAdmined [] d h = h
run-IsAdmined ((e, c) ∷ cs) d h = run-IsAdmined cs (serve e c d).1 (serve-IsAdmined e c d h)
