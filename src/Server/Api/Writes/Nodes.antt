-- ===== src/Server/Api/Writes/Nodes.antt =====
-- src/server/internal/api: the registration and the move of a node write by single statements only.
use xnc.Prelude.{ℕ, zero, ◌+◌, suc, length, String, Bool, Option, none, some}
use xnc.Prelude.Itoa.{suffixed}
use xnc.Server.Db.{
  Store, Cluster, Node, nodes_machine_id_key, nodes_cluster_id_name_key, another_key,
}
use xnc.Server.Api.{Env, Action, Outcome, go, Written, wrote, violates, broken, error, err}
use xnc.Server.Api.Enroll.{
  EnrollRequest, pick_name, created, consume, audit_in_tx, reuse_node, insert_node, add_node,
  enroll_tx, reuse_or_add, enroll_node, agent_enroll, unique_name,
}
use xnc.Server.Api.Members.{resolve_cluster}
use xnc.Server.Api.Register.{RegisterRequest, refuse_conflict, user_register_node}
use xnc.Server.Api.Move.{attempt_move, attempted, moved, move_tx, move_between, move_node}
use xnc.Server.Api.Writes.{
  Reaches, Writes, stays, creates_node, adopts, moves, consumes, audits, statements,
}
use xnc.Server.Api.Writes.Handlers.{evict_if-Writes}

picked-Reaches :
    (o : Option String) (d : Store)
    → Reaches d
        (elim o as (λ x. Outcome String × Store) [
          | none ↦ error (err 500 "INTERNAL" "no name") d
          | some name ↦ (go name, d)
        ]).1
picked-Reaches none d = stays
picked-Reaches (some name) d = stays

pick_name-Writes : (e : Env) (cluster_id base : String) → Writes (pick_name e cluster_id base)
pick_name-Writes e cluster_id base = record {
  reaches = λ d. picked-Reaches (unique_name (suc (length d.nodes)) e cluster_id base base 2 d) d;
}

audit_in_tx-Writes :
    (e : Env) (place actor cluster_id node_id action : String)
    → Writes (audit_in_tx e place actor cluster_id node_id action)
audit_in_tx-Writes e place actor cluster_id node_id action = search (statements, audits)

created-Writes : (w : Written Node) → Writes (created w)
created-Writes (wrote n) = search statements
created-Writes (violates nodes_machine_id_key) = search statements
created-Writes (violates nodes_cluster_id_name_key) = search statements
created-Writes (violates another_key) = search statements
created-Writes broken = search statements

consume-Writes : (e : Env) (token_id : Option String) → Writes (consume e token_id)
consume-Writes e none = search statements
consume-Writes e (some token_id) = search (statements, consumes)

reuse_node-Writes :
    (e : Env) (n : Node) (r : EnrollRequest) (b : Bool) (action actor : String)
    → Writes (reuse_node e n r b action actor)
unfolding reuse_node
reuse_node-Writes e n r b action actor =
    search (statements, adopts, audit_in_tx-Writes) depth 40 fits 3000

insert_node-Writes :
    (e : Env) (cluster_id : String) (r : EnrollRequest) (action actor name : String)
    → Writes (insert_node e cluster_id r action actor name)
unfolding insert_node
insert_node-Writes e cluster_id r action actor name =
    search (statements, creates_node, created-Writes, audit_in_tx-Writes) depth 40 fits 3000

add_node-Writes :
    (e : Env) (cluster_id : String) (r : EnrollRequest) (token_id : Option String)
    (action actor : String)
    → Writes (add_node e cluster_id r token_id action actor)
unfolding add_node
add_node-Writes e cluster_id r token_id action actor =
    search (statements, consume-Writes, pick_name-Writes, insert_node-Writes)

reuse_or_add-Writes :
    (e : Env) (cluster_id : String) (r : EnrollRequest) (token_id : Option String) (b : Bool)
    (action actor : String) (o : Option Node)
    → Writes (reuse_or_add e cluster_id r token_id b action actor o)
reuse_or_add-Writes e cluster_id r token_id b action actor none =
    add_node-Writes e cluster_id r token_id action actor
reuse_or_add-Writes e cluster_id r token_id b action actor (some n) =
    reuse_node-Writes e n r b action actor

enroll_tx-Writes :
    (e : Env) (cluster_id : String) (r : EnrollRequest) (token_id : Option String) (b : Bool)
    (action actor : String)
    → Writes (enroll_tx e cluster_id r token_id b action actor)
unfolding enroll_tx
enroll_tx-Writes e cluster_id r token_id b action actor =
    search (statements, reuse_or_add-Writes) depth 40 fits 3000

enroll_node-Writes :
    (e : Env) (cluster_id : String) (r : EnrollRequest) (token_id : Option String) (b : Bool)
    (action actor : String)
    → Writes (enroll_node e cluster_id r token_id b action actor)
unfolding enroll_node
enroll_node-Writes e cluster_id r token_id b action actor =
    search (statements, enroll_tx-Writes, evict_if-Writes) depth 40 fits 3000

pub agent_enroll-Writes : (e : Env) (body : Option EnrollRequest) → Writes (agent_enroll e body)
unfolding agent_enroll
agent_enroll-Writes e body = search (statements, enroll_node-Writes) depth 40 fits 3000

refuse_conflict-Writes : (e : Env) (o : Option String) → Writes (refuse_conflict e o)
refuse_conflict-Writes e none = search statements
refuse_conflict-Writes e (some name) = search statements

resolve_cluster-Writes : (e : Env) (id : String) → Writes (resolve_cluster e id)
unfolding resolve_cluster
resolve_cluster-Writes e id = search statements

pub user_register_node-Writes :
    (e : Env) (id : String) (body : Option RegisterRequest) → Writes (user_register_node e id body)
unfolding user_register_node
user_register_node-Writes e id body =
    search (statements, resolve_cluster-Writes, refuse_conflict-Writes, enroll_node-Writes) depth 40
      fits 3000

moved-Writes :
    (e : Env) (n : Node) (c : Cluster) (name : String) (k : ℕ) → Writes (moved e n c name k)
moved-Writes e n c name k = search (statements, audits) depth 40 fits 3000

attempted-Writes :
    (e : Env) (n : Node) (c : Cluster) (name : String) (attempt : ℕ) (retry : Action String)
    (w : Written ℕ)
    → Writes retry
    → Writes (attempted e n c name attempt retry w)
attempted-Writes e n c name attempt retry (wrote k) h = moved-Writes e n c name k
attempted-Writes e n c name attempt retry broken h = search statements
attempted-Writes e n c name attempt retry (violates nodes_machine_id_key) h = search statements
attempted-Writes e n c name attempt retry (violates nodes_cluster_id_name_key) h = search statements
attempted-Writes e n c name attempt retry (violates another_key) h = search statements

attempt_move-Writes :
    (fuel : ℕ) (e : Env) (n : Node) (c : Cluster) (name : String) (attempt : ℕ)
    → Writes (attempt_move fuel e n c name attempt)
unfolding attempt_move
attempt_move-Writes zero e n c name attempt = search statements
attempt_move-Writes (suc fuel) e n c name attempt =
    let h = attempt_move-Writes fuel e n c (suffixed n.name (attempt + 2)) (suc attempt) in
    search (statements, moves, attempted-Writes) depth 40 fits 3000

move_tx-Writes : (e : Env) (n : Node) (c : Cluster) → Writes (move_tx e n c)
unfolding move_tx
move_tx-Writes e n c = search (statements, pick_name-Writes, attempt_move-Writes)

move_between-Writes : (e : Env) (n : Node) (c : Cluster) → Writes (move_between e n c)
unfolding move_between
move_between-Writes e n c =
    search (statements, refuse_conflict-Writes, move_tx-Writes) depth 40 fits 3000

pub move_node-Writes : (e : Env) (id : String) (body : Option String) → Writes (move_node e id body)
unfolding move_node
move_node-Writes e id body =
    search (statements, resolve_cluster-Writes, move_between-Writes) depth 40 fits 3000
