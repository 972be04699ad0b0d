-- ===== src/Server/Db/Nodes.antt =====
-- src/server/internal/db/sqlc/nodes.sql.go: the statements on nodes. Two unique indexes: a machine
-- stands in one cluster, and a name stands once in a cluster.
use xnc.Prelude.{ℕ, String, Bool, ◌&&◌, not, Option, none, some, List, ◌++◌, ◌∷◌, [], if◌then◌else◌}
use xnc.Prelude.Rows.{same, first, count, without, change, some_row}
use xnc.Server.Db.{
  offline, Cluster, Node, Store, Result, done, unique, failed, nodes_machine_id_key,
  nodes_cluster_id_name_key, another_key,
}

abbrev pub has_node_id : String → Node → Bool
has_node_id id n = same n.id id

abbrev pub has_machine : String → Node → Bool
has_machine machine_id n = same n.machine_id machine_id

abbrev pub is_named : String → String → Node → Bool
is_named cluster_id name n = same n.cluster_id cluster_id && same n.name name

unfoldable pub get_node_by_id : String → Store → Option Node
get_node_by_id id d = first (has_node_id id) d.nodes

unfoldable pub get_node_by_identity : String → String → Store → Option Node
get_node_by_identity cluster_id machine_id d =
    first (λ (n : Node). same n.cluster_id cluster_id && has_machine machine_id n) d.nodes

unfoldable pub get_node_by_name_in_cluster : String → String → Store → Option Node
get_node_by_name_in_cluster cluster_id name d = first (is_named cluster_id name) d.nodes

-- The name of a live cluster other than `cluster_id` that holds the machine.
abbrev conflicting : String → String → List Node → List Cluster → Option String
conflicting machine_id cluster_id [] cs = none
conflicting machine_id cluster_id (n ∷ ns) cs =
    let rest = conflicting machine_id cluster_id ns cs in
    if has_machine machine_id n && not (same n.cluster_id cluster_id)
    then elim (first (λ (c : Cluster). same c.id n.cluster_id && not c.deleted) cs) [
      | none ↦ rest
      | some c ↦ some c.name
    ]
    else rest

unfoldable pub get_machine_id_conflict_cluster : String → String → Store → Option String
get_machine_id_conflict_cluster machine_id cluster_id d =
    conflicting machine_id cluster_id d.nodes d.clusters

-- INSERT with every column but the status, which is offline, and the time it was last seen.
unfoldable pub create_node : Node → Store → Result Node
create_node row d =
    let n = record row { status = offline; last_seen_at = none } in
    if some_row (has_node_id n.id) d.nodes
    then unique another_key
    else if some_row (has_machine n.machine_id) d.nodes
    then unique nodes_machine_id_key
    else if some_row (is_named n.cluster_id n.name) d.nodes
    then unique nodes_cluster_id_name_key
    else if some_row (λ (c : Cluster). same c.id n.cluster_id) d.clusters
    then done n (record d { nodes = d.nodes ++ (n ∷ []) })
    else failed

-- The columns a machine's new key overwrites; its name and status stay.
abbrev pub rebound : String → String → String → String → String → Node → Node
rebound public_key hostname os_version agent_version platform n = record n {
  public_key = public_key;
  hostname = hostname;
  os_version = os_version;
  agent_version = agent_version;
  shell_type = "";
  last_seen_at = none;
  platform = platform;
}

unfoldable pub adopt_node_identity :
    String → String → String → String → String → String → Store → Result Node
adopt_node_identity public_key hostname os_version agent_version platform id d =
    let f = rebound public_key hostname os_version agent_version platform in
    elim (get_node_by_id id d) [
      | none ↦ failed
      | some n ↦ done (f n) (record d { nodes = change (has_node_id id) f d.nodes })
    ]

unfoldable pub delete_node : String → Store → Result ℕ
delete_node id d =
    done (count (has_node_id id) d.nodes) (record d { nodes = without (has_node_id id) d.nodes })

-- A node other than `id` that has the name in the cluster.
abbrev pub name_taken : String → String → String → Node → Bool
name_taken id cluster_id name n = is_named cluster_id name n && not (has_node_id id n)

-- UPDATE on the condition that the node still stands in the cluster `from`.
unfoldable pub move_node_cluster : String → String → String → String → Store → Result ℕ
move_node_cluster id cluster_id name from d =
    let p = λ (n : Node). has_node_id id n && same n.cluster_id from in
    if some_row p d.nodes
    then if some_row (name_taken id cluster_id name) d.nodes
      then unique nodes_cluster_id_name_key
      else done (count p d.nodes) (record d {
        nodes = change p (λ (n : Node). record n { cluster_id = cluster_id; name = name }) d.nodes;
      })
    else done 0 d

unfoldable pub rename_node_row : String → String → Store → Result Node
rename_node_row id name d = elim (get_node_by_id id d) [
  | none ↦ failed
  | some n ↦
      if some_row (name_taken id n.cluster_id name) d.nodes
      then unique nodes_cluster_id_name_key
      else done (record n { name = name })
          (record d {
            nodes = change (has_node_id id) (λ (o : Node). record o { name = name }) d.nodes;
          })
]
