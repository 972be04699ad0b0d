-- ===== src/Server/Api/Enroll.antt =====
-- src/server/internal/api/enroll_handlers.go: enrollment tokens, and the transaction that
-- registers a node.
use xnc.Prelude.{
  ℕ, zero, suc, ◌+◌, String, Bool, true, false, not, ◌&&◌, Option, none, some, [], ◌∷◌, length, ltb,
  ◌==◌, if◌then◌else◌,
}
use xnc.Prelude.Rows.{same, some_row}
use xnc.Prelude.Itoa.{suffixed}
use xnc.Server.Db.{
  offline, Cluster, ClusterMember, Node, Store, nodes_machine_id_key, nodes_cluster_id_name_key,
  another_key,
}
use xnc.Server.Db.Membership.{is_member, is_owner}
use xnc.Server.Db.Clusters.{get_cluster_by_id, get_cluster_by_name}
use xnc.Server.Db.Nodes.{
  get_node_by_identity, get_node_by_name_in_cluster, create_node, adopt_node_identity,
}
use xnc.Server.Db.Tokens.{
  create_enrollment_token, consume_enrollment_token, get_enrollment_token_by_hash,
}
use xnc.Server.Db.Audit.{insert_audit_log}
use xnc.Server.Api.{
  Env, site, Action, go, Reply, Written, wrote, violates, broken, pure, error, query, exec,
  or_error, error_if, written, control, atomically, reply, err, ◌>>=◌, ◌>>◌,
}

-- A cluster by its identifier or by its name.
abbrev pub find_cluster : Env → String → Store → Option Cluster
find_cluster e id_or_name d = elim (e.parse_uuid id_or_name) [
  | some id ↦ get_cluster_by_id id d
  | none ↦ get_cluster_by_name id_or_name d
]

-- SELECT 1 FROM cluster_members WHERE … AND role = 'owner'
abbrev pub owner_row : String → String → Store → Option Bool
owner_row cluster_id user_id d =
    if some_row (λ (m : ClusterMember). is_member cluster_id user_id m && is_owner m.role) d.members
    then some true
    else none

unfoldable pub authorize_cluster_owner : Env → String → Action Cluster
authorize_cluster_owner e id_or_name = do
  found ← query e "cluster" (find_cluster e id_or_name)
  c ← or_error (err 404 "CLUSTER_NOT_FOUND" "cluster not found") found
  member ← query e "owner" (owner_row c.id e.user.id)
  or_error (err 403 "FORBIDDEN" "owner role required") member
  pure c

pub record TokenRequest : Type 0 where
  pub ttl : String
  pub max_uses : ℕ

-- A duration that does not parse leaves the default.
abbrev ttl_of : Env → TokenRequest → ℕ
ttl_of e r =
    if same r.ttl ""
    then e.enroll_token_ttl
    else elim (e.parse_duration r.ttl) [ none ↦ e.enroll_token_ttl | some t ↦ t ]

unfoldable pub create_enroll_token : Env → String → TokenRequest → Action Reply
create_enroll_token e id r = do
  c ← authorize_cluster_owner e id
  (plain, hash) ← or_error (err 500 "INTERNAL" "token gen") e.generate_token
  w ← exec e "token" (
      create_enrollment_token (record {
        id = e.new_uuid;
        cluster_id = c.id;
        token_hash = hash;
        expires_at = e.now + ttl_of e r;
        max_uses = if ltb 0 r.max_uses then r.max_uses else 1;
        used_count = 0;
        created_by = e.user.id;
      }))
  t ← written (err 500 "INTERNAL" "token save") w
  reply 201 (("id", t.id) ∷ ("token", plain) ∷ [])

pub record EnrollRequest : Type 0 where
  pub token : String
  pub hostname : String
  pub machine_id : String
  pub os_version : String
  pub agent_version : String
  pub public_key : String
  pub platform : String

unfoldable pub normalize_platform : String → String
normalize_platform p = if same p "linux" then "linux" else "windows"

-- The loop that looks for a free name: `name` is the candidate, `i` the next suffix. A query that
-- fails ends it like a free name.
unfoldable pub unique_name :
    (fuel : ℕ) → Env → String → String → (name : String) → (i : ℕ) → Store → Option String
unique_name zero e cluster_id base name i d = none
unique_name (suc fuel) e cluster_id base name i d =
    let rest = unique_name fuel e cluster_id base (suffixed base i) (suc i) d in
    if e.fails (site "name" i)
    then some name
    else elim (get_node_by_name_in_cluster cluster_id name d) [ none ↦ some name | some _ ↦ rest ]

-- One round more than there are nodes is enough.
abbrev pub pick_name : Env → String → String → Action String
pick_name e cluster_id base d =
    elim (unique_name (suc (length d.nodes)) e cluster_id base base 2 d) [
      | none ↦ error (err 500 "INTERNAL" "no name") d
      | some name ↦ (go name, d)
    ]

abbrev pub audit_in_tx : Env → String → String → String → String → String → Action Unit
audit_in_tx e place actor cluster_id node_id action = do
  w ← exec e place (
      insert_audit_log (record {
        user_id = some actor;
        cluster_id = some cluster_id;
        node_id = some node_id;
        action = action;
        metadata = [];
      }))
  written (err 500 "INTERNAL" "audit") w

-- Error 23505 by the name of the index.
abbrev pub created : Written Node → Action Node
created (wrote n) = pure n
created (violates nodes_machine_id_key) =
    error (err 409 "MACHINE_ID_CONFLICT" "machineId already registered in another cluster")
created (violates nodes_cluster_id_name_key) =
    error (err 409 "INTERNAL" "node name conflict; retry")
created (violates another_key) = error (err 500 "INTERNAL" "create node")
created broken = error (err 500 "INTERNAL" "create node")

-- The machine is known in the cluster: the same key reuses the node, another one takes it over
-- where that is allowed. The flag says whether the node changed its key.
unfoldable pub reuse_node :
    Env → Node → EnrollRequest → Bool → String → String → Action (Node × Bool)
reuse_node e existing r allow_adopt action actor =
    if same existing.public_key r.public_key then pure (existing, false) else do
      error_if (not allow_adopt)
          (err 409 "NODE_ALREADY_ENROLLED" "machine already enrolled with a different key")
      w ← exec e "adopt" (
          adopt_node_identity r.public_key r.hostname r.os_version r.agent_version
            (normalize_platform r.platform) existing.id)
      node ← written (err 500 "INTERNAL" "adopt node") w
      audit_in_tx e "audit" actor existing.cluster_id node.id action
      audit_in_tx e "audit adopt" actor existing.cluster_id node.id "node_adopt"
      control e "commit" (err 500 "INTERNAL" "commit")
      pure (node, true)

-- A token is used up only by a machine the cluster does not know.
abbrev pub consume : Env → Option String → Action Unit
consume e none = pure tt
consume e (some token_id) = do
  w ← exec e "consume" (consume_enrollment_token token_id)
  written (err 401 "ENROLLMENT_TOKEN_INVALID" "token exhausted") w
  pure tt

unfoldable pub insert_node :
    Env → String → EnrollRequest → String → String → (name : String) → Action (Node × Bool)
insert_node e cluster_id r action actor name = do
  w ← exec e "create" (
      create_node (record {
        id = e.new_uuid;
        cluster_id = cluster_id;
        name = name;
        machine_id = r.machine_id;
        hostname = r.hostname;
        os_version = r.os_version;
        agent_version = r.agent_version;
        shell_type = "";
        public_key = r.public_key;
        status = offline;
        last_seen_at = none;
        platform = normalize_platform r.platform;
      }))
  node ← created w
  audit_in_tx e "audit" actor cluster_id node.id action
  control e "commit" (err 500 "INTERNAL" "commit")
  pure (node, false)

unfoldable pub add_node :
    Env → String → EnrollRequest → Option String → String → String → Action (Node × Bool)
add_node e cluster_id r token_id action actor =
    consume e token_id
    >> (pick_name e cluster_id r.hostname >>= insert_node e cluster_id r action actor)

abbrev pub evict_if : Bool → String → Action Unit
evict_if b id d = (go tt, if b then record d { evicted = id ∷ d.evicted } else d)

abbrev pub reuse_or_add :
    Env
    → String
    → EnrollRequest
    → Option String
    → Bool
    → String
    → String
    → Option Node
    → Action (Node × Bool)
reuse_or_add e cluster_id r token_id allow_adopt action actor none =
    add_node e cluster_id r token_id action actor
reuse_or_add e cluster_id r token_id allow_adopt action actor (some existing) =
    reuse_node e existing r allow_adopt action actor

unfoldable pub enroll_tx :
    Env → String → EnrollRequest → Option String → Bool → String → String → Action (Node × Bool)
enroll_tx e cluster_id r token_id allow_adopt action actor = do
  control e "begin" (err 500 "INTERNAL" "tx")
  alive ← query e "alive" (get_cluster_by_id cluster_id)
  or_error (err 404 "CLUSTER_NOT_FOUND" "cluster not found") alive
  known ← query e "identity" (get_node_by_identity cluster_id r.machine_id)
  reuse_or_add e cluster_id r token_id allow_adopt action actor known

-- The connection of a node that changed its key is cut after the commit.
unfoldable pub enroll_node :
    Env → String → EnrollRequest → Option String → Bool → String → String → Action Node
enroll_node e cluster_id r token_id allow_adopt action actor = do
  (node, adopted) ← atomically (enroll_tx e cluster_id r token_id allow_adopt action actor)
  evict_if adopted node.id
  pure node

abbrev pub respond_enrolled : Node → Action Reply
respond_enrolled n =
    reply 201 (("nodeId", n.id) ∷ ("clusterId", n.cluster_id) ∷ ("name", n.name) ∷ [])

abbrev pub is_key : Env → String → Bool
is_key e s = elim (e.key_size s) [ none ↦ false | some n ↦ n == 32 ]

unfoldable pub agent_enroll : Env → Option EnrollRequest → Action Reply
agent_enroll e body = do
  r ← or_error (err 400 "INTERNAL" "bad request") body
  found ← query e "token" (get_enrollment_token_by_hash (e.hash_token r.token))
  tok ← or_error (err 401 "ENROLLMENT_TOKEN_INVALID" "invalid token") found
  error_if (ltb tok.expires_at e.now) (err 410 "ENROLLMENT_TOKEN_EXPIRED" "token expired")
  alive ← query e "token cluster" (get_cluster_by_id tok.cluster_id)
  or_error (err 410 "ENROLLMENT_TOKEN_INVALID" "cluster no longer exists") alive
  error_if (not (is_key e r.public_key)) (err 400 "INTERNAL" "bad public key")
  node ← enroll_node e tok.cluster_id r (some tok.id) false "node.enroll" tok.created_by
  respond_enrolled node
