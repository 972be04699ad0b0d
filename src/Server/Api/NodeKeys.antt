-- ===== src/Server/Api/NodeKeys.antt =====
-- src/server/internal/api: the unique indexes of the nodes through the requests. A machine stands
-- in one cluster and a name once in a cluster.
use xnc.Prelude.{
  ◌≤◌, ◌≡◌, refl, ap, String, Bool, true, false, ◌&&◌, none, some, List, [], ◌∷◌, ◌++◌, arith,
  Bool-cases, Option-cases, inl, inr,
}
use xnc.Prelude.Rows.{same, count, without, change, some_row, first}
use xnc.Prelude.Rows.Counts.{
  count-append, count-none, count-false, count-without, count-change, count-change-cover,
  change-only,
}
use xnc.Server.Db.{Node, User, AuditLog, offline, Store}
use xnc.Server.Db.Membership.{add_member, remove_member_guarded, update_member_role}
use xnc.Server.Db.Clusters.{add_membership, create_cluster_row, rename_cluster_row}
use xnc.Server.Db.ClustersAdmin.{soft_delete_cluster}
use xnc.Server.Db.Nodes.{
  has_node_id, has_machine, is_named, name_taken, rebound, get_node_by_id, create_node,
  adopt_node_identity, delete_node, move_node_cluster, rename_node_row,
}
use xnc.Server.Db.NodesStatus.{set_node_status_row}
use xnc.Server.Db.Tokens.{create_enrollment_token, consume_enrollment_token}
use xnc.Server.Db.Users.{create_user_row, update_user_display_name, update_user_password}
use xnc.Server.Db.UsersAdmin.{
  create_user_by_email, update_user_is_admin, delete_owned_clusters, delete_user_row,
}
use xnc.Server.Db.Audit.{insert_audit_log}
use xnc.Server.Api.{Env}
use xnc.Server.Api.Users.{keep_admin, delete_user_tx}
use xnc.Server.Api.Writes.{
  Reaches, after, stays, chain, creates_node, adopts, deletes_node, moves, renames_node,
  sets_status,
}
use xnc.Server.Api.Writes.Users.{delete_user-keeps}
use xnc.Server.Api.Run.{Call, deletes_user, serve, run, serve-Writes}

pub record IsKeyed (ns : List Node) : Type 0 where
  pub id_once : (id : String) → count (has_node_id id) ns ≤ 1
  pub machine_once : (machine_id : String) → count (has_machine machine_id) ns ≤ 1
  pub name_once : (cluster_id name : String) → count (is_named cluster_id name) ns ≤ 1

appended :
    (n : Node) (ns : List Node)
    → some_row (has_node_id n.id) ns ≡ false
    → some_row (has_machine n.machine_id) ns ≡ false
    → some_row (is_named n.cluster_id n.name) ns ≡ false
    → IsKeyed ns
    → IsKeyed (ns ++ (n ∷ []))
unfolding count
appended n ns new_id new_machine new_name h = record {
  id_once = λ i. ground (
    arith,
    count-append (has_node_id i) ns (n ∷ []),
    count-none (has_node_id n.id) ns new_id,
    h.id_once i,
  );
  machine_once = λ i. ground (
    arith,
    count-append (has_machine i) ns (n ∷ []),
    count-none (has_machine n.machine_id) ns new_machine,
    h.machine_once i,
  );
  name_once = λ c i. ground (
    arith,
    count-append (is_named c i) ns (n ∷ []),
    count-none (is_named n.cluster_id n.name) ns new_name,
    h.name_once c i,
  );
}

deleted : (id : String) (ns : List Node) → IsKeyed ns → IsKeyed (without (has_node_id id) ns)
deleted id ns h = record {
  id_once = λ i. omega (arith, count-without (has_node_id i) (has_node_id id) ns, h.id_once i);
  machine_once =
      λ i. omega (arith, count-without (has_machine i) (has_node_id id) ns, h.machine_once i);
  name_once =
      λ c i. omega (arith, count-without (is_named c i) (has_node_id id) ns, h.name_once c i);
}

-- A change that keeps the identifier, the machine, the cluster and the name.
changed :
    (q : Node → Bool) (f : Node → Node) (ns : List Node)
    → ((n : Node)
        → ((f n).id ≡ n.id)
          × ((f n).machine_id ≡ n.machine_id)
          × ((f n).cluster_id ≡ n.cluster_id)
          × ((f n).name ≡ n.name))
    → IsKeyed ns
    → IsKeyed (change q f ns)
changed q f ns keeps h = record {
  id_once = λ i. omega (
    arith,
    count-change (has_node_id i) q f ns (λ n. ap (λ x. same x i) (keeps n).0),
    h.id_once i,
  );
  machine_once = λ i. omega (
    arith,
    count-change (has_machine i) q f ns (λ n. ap (λ x. same x i) (keeps n).1),
    h.machine_once i,
  );
  name_once = λ c i. omega (
    arith,
    count-change (is_named c i) q f ns (λ n. rw ((keeps n).2, (keeps n).3) refl),
    h.name_once c i,
  );
}

-- A change of one node's cluster and name to a name that no other node has there.
renamed :
    (id c name : String) (q : Node → Bool) (f : Node → Node) (ns : List Node)
    → ((n : Node) → q n ≡ true → has_node_id id n ≡ true)
    → ((n : Node) → ((f n).id ≡ n.id) × ((f n).machine_id ≡ n.machine_id))
    → ((n : Node) → q n ≡ true → ((f n).cluster_id ≡ c) × ((f n).name ≡ name))
    → some_row (name_taken id c name) ns ≡ false
    → IsKeyed ns
    → IsKeyed (change q f ns)
renamed id c name q f ns one keeps to free h = record {
  id_once = λ i. omega (
    arith,
    count-change (has_node_id i) q f ns (λ n. ap (λ x. same x i) (keeps n).0),
    h.id_once i,
  );
  machine_once = λ i. omega (
    arith,
    count-change (has_machine i) q f ns (λ n. ap (λ x. same x i) (keeps n).1),
    h.machine_once i,
  );
  name_once = λ k i. elim (Bool-cases (same c k && same name i)) [
    | inl here ↦ ground (
      arith,
      count-change-cover (is_named k i) q (has_node_id id) (name_taken id c name) f ns
          (λ n. ground (arith, one n, to n)),
      count-none (name_taken id c name) ns free,
      h.id_once id,
    )
    | inr elsewhere ↦ ground (
      arith,
      count-change-cover (is_named k i) q (is_named k i) (λ n. false) f ns
          (λ n. ground (arith, to n)),
      count-false (λ n. false) ns (λ n. refl),
      h.name_once k i,
    )
  ];
}

renamed_row :
    (id name : String) (t : Node) (ns : List Node)
    → first (has_node_id id) ns ≡ some t
    → some_row (name_taken id t.cluster_id name) ns ≡ false
    → IsKeyed ns
    → IsKeyed (change (has_node_id id) (λ (o : Node). record o { name = name }) ns)
renamed_row id name t ns found free h =
    rw
      (change-only (has_node_id id) (λ n. same n.cluster_id t.cluster_id)
        (λ (o : Node). record o { name = name }) ns t found (ground arith) (h.id_once id))
      (renamed id t.cluster_id name (λ n. has_node_id id n && same n.cluster_id t.cluster_id)
        (λ (o : Node). record o { name = name }) ns (λ n e. ground arith) (λ n. (refl, refl))
        (λ n e. ground arith) free h)

Reaches-IsKeyed : {a b : Store} → Reaches a b → IsKeyed a.nodes → IsKeyed b.nodes
unfolding get_node_by_id add_member add_membership remove_member_guarded update_member_role
    create_cluster_row rename_cluster_row soft_delete_cluster create_node adopt_node_identity
    delete_node move_node_cluster rename_node_row set_node_status_row create_enrollment_token
    consume_enrollment_token create_user_by_email create_user_row update_user_display_name
    update_user_password update_user_is_admin insert_audit_log
Reaches-IsKeyed stays h = h
Reaches-IsKeyed (chain r s) h = Reaches-IsKeyed s (Reaches-IsKeyed r h)
Reaches-IsKeyed (creates_node n {d}) h =
    ground (arith, appended (record n { status = offline; last_seen_at = none }) d.nodes)
Reaches-IsKeyed (adopts k o v w p i {d}) h =
    ground
      (arith, changed (has_node_id i) (rebound k o v w p) d.nodes (λ n. (refl, refl, refl, refl)))
Reaches-IsKeyed (deletes_node i {d}) h = deleted i d.nodes h
Reaches-IsKeyed (moves i c n f {d}) h = ground (
  arith,
  renamed i c n (λ m. has_node_id i m && same m.cluster_id f)
      (λ (m : Node). record m { cluster_id = c; name = n }) d.nodes (λ m e. ground arith)
      (λ m. (refl, refl)) (λ m e. (refl, refl)),
)
Reaches-IsKeyed (renames_node i n {d}) h = elim (Option-cases (get_node_by_id i d)) [
  | inl absent ↦ ground arith
  | inr (t, found) ↦ ground (arith, renamed_row i n t d.nodes found)
]
Reaches-IsKeyed (sets_status i s {d}) h =
    changed (has_node_id i) (λ (n : Node). record n { status = s }) d.nodes
      (λ n. (refl, refl, refl, refl)) h
Reaches-IsKeyed _ h = ground arith

delete_user_tx-nodes :
    (e : Env) (uid : String) (target : User) (d : Store)
    → (delete_user_tx e uid target d).1.nodes ≡ d.nodes
unfolding delete_user_tx keep_admin delete_owned_clusters delete_user_row
delete_user_tx-nodes e uid target d = ground arith

logged :
    (a : AuditLog) (d : Store) → IsKeyed d.nodes → IsKeyed (after (insert_audit_log a d) d).nodes
unfolding insert_audit_log
logged a d h = ground arith

serve-IsKeyed : (e : Env) (c : Call) (d : Store) → IsKeyed d.nodes → IsKeyed (serve e c d).1.nodes
unfolding serve
serve-IsKeyed e (deletes_user id) d h =
    delete_user-keeps (λ s. IsKeyed s.nodes) e id d logged
      (λ uid target found. rw (delete_user_tx-nodes e uid target d) h) h
serve-IsKeyed e c d h = Reaches-IsKeyed ((serve-Writes e c (λ x. x)).reaches d) h

-- Whatever the requests of Run, no machine stands twice in the table of nodes, and no name twice in a
-- cluster: enrolling, adopting, moving and renaming included.
pub run-IsKeyed : (cs : List (Env × Call)) (d : Store) → IsKeyed d.nodes → IsKeyed (run cs d).nodes
unfolding run
run-IsKeyed [] d h = h
run-IsKeyed ((e, c) ∷ cs) d h = run-IsKeyed cs (serve e c d).1 (serve-IsKeyed e c d h)
