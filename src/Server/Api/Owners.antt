-- ===== src/Server/Api/Owners.antt =====
-- src/server/internal/api: a cluster that has an owner keeps one through every request but the
-- deletion of a user. RemoveMemberGuarded and UpdateMemberRole are what guards it.
use xnc.Prelude.{
  ◌≤◌, ◌≡◌, refl, String, false, ◌&&◌, List, [], ◌∷◌, ◌++◌, ltb, arith, Bool-cases, inl, inr, All,
}
use xnc.Prelude.Rows.{count, without, change, some_row}
use xnc.Prelude.Rows.Counts.{
  count-append, count-none, count_mono, count-false, count-without, count-change,
  count-change-lower, count-change-le,
}
use xnc.Server.Db.{Role, ClusterMember, Store}
use xnc.Server.Db.Membership.{
  is_owner, is_member, owns, add_member, remove_member_guarded, update_member_role, removable,
  changeable,
}
use xnc.Server.Db.Clusters.{add_membership, create_cluster_row, rename_cluster_row}
use xnc.Server.Db.ClustersAdmin.{soft_delete_cluster}
use xnc.Server.Db.Nodes.{
  create_node, adopt_node_identity, delete_node, move_node_cluster, rename_node_row,
}
use xnc.Server.Db.NodesStatus.{set_node_status_row}
use xnc.Server.Db.Tokens.{create_enrollment_token, consume_enrollment_token}
use xnc.Server.Db.Users.{create_user_row, update_user_display_name, update_user_password}
use xnc.Server.Db.UsersAdmin.{create_user_by_email, update_user_is_admin}
use xnc.Server.Db.Audit.{insert_audit_log}
use xnc.Server.Api.{Env}
use xnc.Server.Api.Writes.{
  Reaches, stays, chain, adds_member, adds_membership, removes_member, updates_role,
}
use xnc.Server.Api.Run.{Call, IsDeletion, serve, run, serve-Writes}

-- The primary key of cluster_members, and an owner of the cluster `c`.
pub record HasOwner (c : String) (ms : List ClusterMember) : Type 0 where
  pub once : (k u : String) → count (is_member k u) ms ≤ 1
  pub owned : 1 ≤ count (owns c) ms

appended :
    (c k u : String) (r : Role) (ms : List ClusterMember)
    → some_row (is_member k u) ms ≡ false
    → HasOwner c ms
    → HasOwner c (ms ++ (record { cluster_id = k; user_id = u; role = r } ∷ []))
unfolding count
appended c k u r ms new h =
    let m : ClusterMember = record { cluster_id = k; user_id = u; role = r } in
    record {
      once = λ j v. ground (
        arith,
        count-append (is_member j v) ms (m ∷ []),
        count-none (is_member k u) ms new,
        h.once j v,
      );
      owned = ground (arith, count-append (owns c) ms (m ∷ []), h.owned);
    }

removed :
    (c k u : String) (d : Store)
    → HasOwner c d.members
    → HasOwner c (without (removable k u d) d.members)
removed c k u d h =
    let q = removable k u d in
    record {
      once = λ j v. omega (arith, count-without (is_member j v) q d.members, h.once j v);
      owned = elim (Bool-cases (ltb 1 (count (owns c) d.members))) [
        | inl more ↦ ground (
          arith,
          count-without (owns c) q d.members,
          count_mono (λ m. owns c m && q m) (is_member k u) d.members (λ m e. ground arith),
          h.once k u,
        )
        | inr last ↦ ground (
          arith,
          count-without (owns c) q d.members,
          count-false (λ m. owns c m && q m) d.members (λ m. ground arith),
          h.owned,
        )
      ];
    }

updated :
    (c k u : String) (r : Role) (d : Store)
    → HasOwner c d.members
    → HasOwner c
        (change (changeable k u r d) (λ (m : ClusterMember). record m { role = r }) d.members)
updated c k u r d h =
    let q = changeable k u r d in
    let f = λ (m : ClusterMember). record m { role = r } in
    record {
      once =
          λ j v. omega (arith, count-change (is_member j v) q f d.members (λ m. refl), h.once j v);
      owned = elim (Bool-cases (ltb 1 (count (owns c) d.members))) [
        | inl more ↦ ground (
          arith,
          count-change-lower (owns c) q f d.members,
          count_mono (λ m. owns c m && q m) (is_member k u) d.members (λ m e. ground arith),
          h.once k u,
        )
        | inr last ↦ elim (Bool-cases (is_owner r)) [
          | inl up ↦
              ground (arith, count-change-le (owns c) q f d.members (λ m e. ground arith), h.owned)
          | inr down ↦ ground (
            arith,
            count-change-lower (owns c) q f d.members,
            count-false (λ m. owns c m && q m) d.members (λ m. ground arith),
            h.owned,
          )
        ]
      ];
    }

Reaches-HasOwner :
    (c : String) {a b : Store} → Reaches a b → HasOwner c a.members → HasOwner c b.members
unfolding add_member add_membership remove_member_guarded update_member_role create_cluster_row
    rename_cluster_row soft_delete_cluster create_node adopt_node_identity delete_node
    move_node_cluster rename_node_row set_node_status_row create_enrollment_token
    consume_enrollment_token create_user_by_email create_user_row update_user_display_name
    update_user_password update_user_is_admin insert_audit_log
Reaches-HasOwner c stays h = h
Reaches-HasOwner c (chain r s) h = Reaches-HasOwner c s (Reaches-HasOwner c r h)
Reaches-HasOwner c (adds_member k u r {d}) h = ground (arith, appended c k u r d.members)
Reaches-HasOwner c (adds_membership k u r {d}) h = ground (arith, appended c k u r d.members)
Reaches-HasOwner c (removes_member k u {d}) h = removed c k u d h
Reaches-HasOwner c (updates_role k u r {d}) h = updated c k u r d h
Reaches-HasOwner c _ h = ground arith

-- A cluster with an owner still has one after any requests but the deletion of a user: adding,
-- removing and changing its members, its deletion and every other request of Run included,
-- whichever statements fail on the way; and no user is its member twice.
pub run-HasOwner :
    (c : String) (cs : List (Env × Call)) (d : Store)
    → All (λ q. IsDeletion q.1 → ⊥) cs
    → HasOwner c d.members
    → HasOwner c (run cs d).members
unfolding run
run-HasOwner c [] d h w = w
run-HasOwner c ((e, k) ∷ cs) d h w =
    run-HasOwner c cs (serve e k d).1 h.1 (Reaches-HasOwner c ((serve-Writes e k h.0).reaches d) w)
