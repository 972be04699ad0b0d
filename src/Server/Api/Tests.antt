-- ===== src/Server/Api/Tests.antt =====
-- src/server/internal/api: the theorems at concrete tables and requests, and runs of the handlers.
use xnc.Prelude.{
  ℕ, ◌≡◌, ◌⊎◌, refl, String, true, false, none, some, List, [], ◌∷◌, apart, arith, String_discrete,
  ◌≤◌,
}
use xnc.Prelude.Rows.{count, some_row, first, without}
use xnc.Server.Db.{
  Role, viewer, operator, owner, online, disabled, offline, User, Cluster, ClusterMember, Node,
  EnrollmentToken, Store,
}
use xnc.Server.Db.Membership.{owns, get_member_role}
use xnc.Server.Db.Nodes.{get_node_by_id, get_node_by_name_in_cluster}
use xnc.Server.Api.{Env, site, go, halt, respond, respond_error, err}
use xnc.Server.Api.Roles.{authorize_node_role, role_rank}
use xnc.Server.Api.Enroll.{EnrollRequest, enroll_node, pick_name}
use xnc.Server.Api.Users.{delete_user_tx}
use xnc.Server.Api.Run.{Call, removes_member, enrolls, deletes_user, serve, run}
use xnc.Server.Api.Owners.{HasOwner, run-HasOwner}
use xnc.Server.Api.Admins.{IsAdmined, run-IsAdmined}
use xnc.Server.Api.NodeKeys.{IsKeyed, run-IsKeyed}
use xnc.Server.Api.Pays.{Pays, enroll_node-Pays}
use xnc.Server.Api.Names.{pick_name-finds}
use xnc.Server.Api.Allowed.{allowed}
use xnc.Server.Api.Allowed.Handlers.{refused-unchanged}
use xnc.Server.Api.Undone.{Halted}
use xnc.Server.Api.Undone.Handlers.{error-unchanged}
use xnc.Server.Api.Orphans.{of_another, other_owner, delete_user_tx-orphans}
use xnc.Server.Api.Sound.{IsAtLeast, authorize_node_role_sound}

abbrev ann : User
ann = record {
  id = "ann";
  email = "ann@x";
  display_name = "Ann";
  password_hash = "h";
  is_admin = true;
}

abbrev bob : User
bob = record {
  id = "bob";
  email = "bob@x";
  display_name = "Bob";
  password_hash = "h";
  is_admin = true;
}

abbrev eve : User
eve = record {
  id = "eve";
  email = "eve@x";
  display_name = "Eve";
  password_hash = "h";
  is_admin = false;
}

-- Requests of a user on a healthy database.
abbrev env : User → Env
env u = record {
  user = u;
  fails = λ s. false;
  parse_uuid = λ s. some s;
  new_uuid = "new";
  default_cluster_uuid = "home";
  now = 5;
  hash_password = λ s. some s;
  generate_token = some ("plain", "hash");
  hash_token = λ s. s;
  parse_duration = λ s. none;
  key_size = λ s. some 32;
  max_clusters_per_user = 0;
  enroll_token_ttl = 60;
  to_lower = λ s. s;
  quote = λ s. s;
}

abbrev lab : Cluster
lab = record { id = "lab"; name = "Lab"; owner_id = "ann"; personal = false; deleted = false }

abbrev pc : Node
pc = record {
  id = "pc";
  cluster_id = "lab";
  name = "pc";
  machine_id = "m1";
  hostname = "pc";
  os_version = "";
  agent_version = "";
  shell_type = "";
  public_key = "k1";
  status = offline;
  last_seen_at = none;
  platform = "windows";
}

abbrev ticket : EnrollmentToken
ticket = record {
  id = "t1";
  cluster_id = "lab";
  token_hash = "secret";
  expires_at = 9;
  max_uses = 1;
  used_count = 0;
  created_by = "ann";
}

abbrev ann_owner : ClusterMember
ann_owner = record { cluster_id = "lab"; user_id = "ann"; role = owner }

abbrev bob_owner : ClusterMember
bob_owner = record { cluster_id = "lab"; user_id = "bob"; role = owner }

abbrev tables : Store
tables = record {
  users = ann ∷ bob ∷ eve ∷ [];
  clusters = lab ∷ [];
  members = ann_owner ∷ bob_owner ∷ [];
  nodes = pc ∷ [];
  tokens = ticket ∷ [];
  audits = [];
  evicted = [];
}

abbrev request : EnrollRequest
request = record {
  token = "secret";
  hostname = "pc";
  machine_id = "m2";
  os_version = "";
  agent_version = "";
  public_key = "k2";
  platform = "";
}

-- The second owner cannot be removed after the first.
abbrev both_removed : List (Env × Call)
both_removed = (env bob, removes_member "lab" "ann") ∷ (env bob, removes_member "lab" "bob") ∷ []

tables-HasOwner : HasOwner "lab" tables.members
unfolding count String_discrete
tables-HasOwner = record {
  once = λ k u. ground (arith, apart "ann" "bob" refl);
  owned = omega arith;
}

run-HasOwner_example : HasOwner "lab" (run both_removed tables).members
run-HasOwner_example = run-HasOwner "lab" both_removed tables (λ x. x, (λ x. x, tt)) tables-HasOwner

-- Of two administrators one goes, and the other stays.
abbrev both_deleted : List (Env × Call)
both_deleted = (env ann, deletes_user "bob") ∷ (env ann, deletes_user "ann") ∷ []

tables-IsAdmined : IsAdmined tables.users
unfolding count
tables-IsAdmined = record {
  once =
      λ i. ground (arith, apart "ann" "bob" refl, apart "ann" "eve" refl, apart "bob" "eve" refl);
  admin = omega arith;
}

run-IsAdmined_example : IsAdmined (run both_deleted tables).users
run-IsAdmined_example = run-IsAdmined both_deleted tables tables-IsAdmined

abbrev machines : List (Env × Call)
machines = (env eve, enrolls (some request)) ∷ (env eve, enrolls (some request)) ∷ []

tables-IsKeyed : IsKeyed tables.nodes
unfolding count
tables-IsKeyed = record {
  id_once = λ i. ground arith;
  machine_once = λ i. ground arith;
  name_once = λ c i. ground arith;
}

run-IsKeyed_example : IsKeyed (run machines tables).nodes
run-IsKeyed_example = run-IsKeyed machines tables tables-IsKeyed

enroll_node-Pays_example :
    Pays
      (some "t1")
      tables
      (enroll_node (env eve) "lab" request (some "t1") false "node.enroll" "ann" tables).1
enroll_node-Pays_example =
    enroll_node-Pays (env eve) "lab" request (some "t1") false "node.enroll" "ann" tables

pick_name-finds_example :
    (name : String) × (pick_name (env ann) "lab" "pc" tables ≡ (go name, tables))
    × ((get_node_by_name_in_cluster "lab" name tables ≡ none)
        ⊎ ((j : ℕ) × (2 ≤ j) × ((env ann).fails (site "name" j) ≡ true)))
pick_name-finds_example = pick_name-finds (env ann) "lab" "pc" tables

eve_refused : allowed (env eve) (removes_member "lab" "ann") tables ≡ false
unfolding allowed some_row first xnc.Server.Db.Clusters.get_cluster_by_id String_discrete
eve_refused = refl

refused-unchanged_example : (serve (env eve) (removes_member "lab" "ann") tables).1 ≡ tables
refused-unchanged_example =
    refused-unchanged (env eve) (removes_member "lab" "ann") tables eve_refused

error-unchanged_example : Halted (serve (env ann) (deletes_user "ann") tables) tables
error-unchanged_example = error-unchanged (env ann) (deletes_user "ann") tables tt

-- Bob, the only owner of the cluster that Ann made.
abbrev bobs : Store
bobs = record tables { members = bob_owner ∷ [] }

bob_deleted : (delete_user_tx (env ann) "bob" bob bobs).0 ≡ go tt
unfolding delete_user_tx xnc.Server.Api.Users.keep_admin xnc.Server.Db.UsersAdmin.count_admins
    xnc.Server.Db.UsersAdmin.count_nodes_in_owned_clusters
    xnc.Server.Db.UsersAdmin.delete_owned_clusters xnc.Server.Db.UsersAdmin.delete_user_row count
    some_row first without String_discrete
bob_deleted = refl

lab_there : some_row (of_another "bob" "lab") bobs.clusters ≡ true
unfolding some_row first String_discrete
lab_there = refl

bob_alone : count (other_owner "bob" "lab") bobs.members ≡ 0
unfolding count String_discrete
bob_alone = refl

delete_user_tx-orphans_example :
    (some_row (of_another "bob" "lab") (delete_user_tx (env ann) "bob" bob bobs).1.clusters ≡ true)
    × (count (owns "lab") (delete_user_tx (env ann) "bob" bob bobs).1.members ≡ 0)
delete_user_tx-orphans_example =
    delete_user_tx-orphans (env ann) "bob" "lab" bob bobs bob_deleted lab_there bob_alone

ann_checked : authorize_node_role (env ann) "pc" operator false tables ≡ (go pc, tables)
unfolding authorize_node_role get_node_by_id get_member_role first String_discrete
ann_checked = refl

authorize_node_role_sound_example :
    (get_node_by_id "pc" tables ≡ some pc)
    × (tables ≡ tables)
    × (false ≡ false)
    × ((r : Role) × (get_member_role "lab" "ann" tables ≡ some r)
        × (role_rank operator ≤ role_rank r)
        × IsAtLeast r operator)
authorize_node_role_sound_example =
    authorize_node_role_sound (env ann) "pc" operator false tables tables pc ann_checked
