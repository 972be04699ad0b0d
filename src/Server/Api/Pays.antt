-- ===== src/Server/Api/Pays.antt =====
-- src/server/internal/api/enroll_handlers.go: a token pays for a node that is new, and for no other.
use xnc.Prelude.{
  ℕ, suc, ◌<◌, Option-cases, ◌≡◌, ◌⊎◌, inl, inr, refl, ap, ◌∙◌, String, Bool, true, false, Option,
  none, some, List, [], ◌∷◌, length, length-append, if◌then◌else◌, arith,
}
use xnc.Prelude.Rows.{first, change}
use xnc.Prelude.Rows.Counts.{length-change, first-holds}
use xnc.Server.Db.{
  Node, offline, EnrollmentToken, AuditLog, Store, nodes_machine_id_key, nodes_cluster_id_name_key,
  another_key,
}
use xnc.Server.Db.Nodes.{
  has_node_id, get_node_by_identity, rebound, create_node, adopt_node_identity,
}
use xnc.Server.Db.Tokens.{usable, used_once, consume_enrollment_token}
use xnc.Server.Db.Audit.{insert_audit_log}
use xnc.Server.Api.{
  Env, ApiError, written, Action, Outcome, go, halt, Written, wrote, violates, broken, exec, pure,
  control, site, error, err, ◌>>◌, ◌>>=◌, rolled_back,
}
use xnc.Server.Api.Enroll.{
  EnrollRequest, normalize_platform, pick_name, unique_name, insert_node, created, audit_in_tx,
  add_node, reuse_node, reuse_or_add, enroll_tx, enroll_node, consume, evict_if,
}
use xnc.Server.Api.Writes.{after, next}
use xnc.Server.Api.Keeps.{Keeps, keeping}

-- The tokens before and after the use of one: the token of the identifier was there with a use left,
-- and has that use no more. Without a token nothing changes.
abbrev pub UsedUp : Option String → List EnrollmentToken → List EnrollmentToken → Type 0
UsedUp none ts ts' = ts' ≡ ts
UsedUp (some id) ts ts' =
    (t : EnrollmentToken) × (first (usable id) ts ≡ some t)
    × (t.id ≡ id)
    × (t.used_count < t.max_uses)
    × (ts' ≡ change (usable id) used_once ts)

-- Nothing new, or one new node for one use of the token.
abbrev pub Pays : Option String → Store → Store → Type 0
Pays token d d' =
    ((d'.tokens ≡ d.tokens) × (length d'.nodes ≡ length d.nodes))
    ⊎ (UsedUp token d.tokens d'.tokens × (length d'.nodes ≡ suc (length d.nodes)))

abbrev Reused : {A : Type 0} → Store → Outcome A × Store → Type 0
Reused d (go a, d') = (d'.tokens ≡ d.tokens) × (length d'.nodes ≡ length d.nodes)
Reused d (halt r, d') = Unit

abbrev Added : {A : Type 0} → Option String → Store → Outcome A × Store → Type 0
Added token d (go a, d') =
    UsedUp token d.tokens d'.tokens × (length d'.nodes ≡ suc (length d.nodes))
Added token d (halt r, d') = Unit

reuse_node-Reused :
    (e : Env) (n : Node) (r : EnrollRequest) (b : Bool) (action actor : String) (d : Store)
    → Reused d (reuse_node e n r b action actor d)
unfolding reuse_node adopt_node_identity insert_audit_log
reuse_node-Reused e n r b action actor d = ground (
  arith,
  length-change (has_node_id n.id)
      (rebound r.public_key r.hostname r.os_version r.agent_version (normalize_platform r.platform))
      d.nodes,
)

-- The same tokens and nodes.
abbrev Same : Store → Store → Type 0
Same d d' = (d'.tokens ≡ d.tokens) × (d'.nodes ≡ d.nodes)

logged : (b d : Store) (a : AuditLog) → Same b d → Same b (after (insert_audit_log a d) d)
unfolding insert_audit_log
logged b d a h = ground arith

-- What comes after the insertion.
abbrev finish : Env → String → String → String → Node → Action (Node × Bool)
finish e c action actor node =
    audit_in_tx e "audit" actor c node.id action
    >> (control e "commit" (err 500 "INTERNAL" "commit") >> pure (node, false))

finish-Same :
    (b : Store) (e : Env) (c action actor : String) (node : Node)
    → Keeps (Same b) (finish e c action actor node)
finish-Same b e c action actor node = search (keeping, logged) depth 40 fits 3000

Inserted : Store → Outcome (Written Node) × Store → Type 0
Inserted d o = elim o.0 [
  | halt r ↦ Unit
  | go w ↦ elim w [
    | wrote n ↦ (o.1.tokens ≡ d.tokens) × (length o.1.nodes ≡ suc (length d.nodes))
    | violates c ↦ Unit
    | broken ↦ Unit
  ]
]

create-Inserted : (e : Env) (n : Node) (d : Store) → Inserted d (exec e "create" (create_node n) d)
unfolding create_node Inserted
create-Inserted e n d =
    ground (arith, length-append d.nodes (record n { status = offline; last_seen_at = none } ∷ []))

after-Added :
    (d : Store) (o : Outcome (Written Node) × Store) (f : Node → Action (Node × Bool))
    → Inserted d o
    → ((b : Store) (n : Node) → Keeps (Same b) (f n))
    → Added none d (next o (λ w. created w >>= f))
unfolding Inserted
after-Added d (halt r, d') f h k = tt
after-Added d (go broken, d') f h k = tt
after-Added d (go (violates nodes_machine_id_key), d') f h k = tt
after-Added d (go (violates nodes_cluster_id_name_key), d') f h k = tt
after-Added d (go (violates another_key), d') f h k = tt
after-Added d (go (wrote n), d') f h k = same_store (f n d') ((k d' n).keeps d' (refl, refl))
  where
    same_store : (o : Outcome (Node × Bool) × Store) → Same d' o.1 → Added none d o
    same_store (halt r, d'') g = tt
    same_store (go a, d'') g = (g.0 ∙ h.0, ap length g.1 ∙ h.1)

insert_node-Added :
    (e : Env) (c : String) (r : EnrollRequest) (action actor name : String) (d : Store)
    → Added none d (insert_node e c r action actor name d)
unfolding insert_node
insert_node-Added e c r action actor name d =
    let n : Node = record {
      id = e.new_uuid;
      cluster_id = c;
      name = name;
      machine_id = r.machine_id;
      hostname = r.hostname;
      os_version = r.os_version;
      agent_version = r.agent_version;
      shell_type = "";
      public_key = r.public_key;
      status = offline;
      last_seen_at = none;
      platform = normalize_platform r.platform;
    } in
    after-Added d (exec e "create" (create_node n) d) (finish e c action actor)
      (create-Inserted e n d) (λ b node. finish-Same b e c action actor node)

picked-Added :
    (o : Option String) (f : String → Action (Node × Bool)) (d : Store)
    → ((name : String) → Added none d (f name d))
    → Added none d (
        next
          (elim o as (λ x. Outcome String × Store) [
            | none ↦ error (err 500 "INTERNAL" "no name") d
            | some name ↦ (go name, d)
          ])
          f)
picked-Added none f d h = tt
picked-Added (some name) f d h = h name

named-Added :
    (e : Env) (c : String) (r : EnrollRequest) (action actor : String) (d : Store)
    → Added none d ((pick_name e c r.hostname >>= insert_node e c r action actor) d)
named-Added e c r action actor d =
    picked-Added (unique_name (suc (length d.nodes)) e c r.hostname r.hostname 2 d)
      (insert_node e c r action actor) d (λ name. insert_node-Added e c r action actor name d)

Consumed : String → Store → Outcome Unit × Store → Type 0
Consumed id d o = elim o.0 [
  | halt r ↦ Unit
  | go u ↦ UsedUp (some id) d.tokens o.1.tokens × (o.1.nodes ≡ d.nodes)
]

Eaten : String → Store → Outcome (Written ℕ) × Store → Type 0
Eaten id d o = elim o.0 [
  | halt r ↦ Unit
  | go w ↦ elim w [
    | wrote n ↦ UsedUp (some id) d.tokens o.1.tokens × (o.1.nodes ≡ d.nodes)
    | violates c ↦ Unit
    | broken ↦ Unit
  ]
]

exec-Eaten :
    (e : Env) (id : String) (d : Store)
    → Eaten id d (exec e "consume" (consume_enrollment_token id) d)
unfolding consume_enrollment_token Eaten
exec-Eaten e id d = elim (Option-cases (first (usable id) d.tokens)) [
  | inl gone ↦ ground arith
  | inr (t, found) ↦ let fit = first-holds (usable id) d.tokens t found in ground arith
]

Eaten-Consumed :
    (id : String) (d : Store) (x : ApiError) (o : Outcome (Written ℕ) × Store)
    → Eaten id d o
    → Consumed id d (next o (λ w. written x w >> pure tt))
unfolding Eaten Consumed
Eaten-Consumed id d x (halt r, d') h = tt
Eaten-Consumed id d x (go broken, d') h = tt
Eaten-Consumed id d x (go (violates c), d') h = tt
Eaten-Consumed id d x (go (wrote n), d') h = h

consume-Consumed : (e : Env) (id : String) (d : Store) → Consumed id d (consume e (some id) d)
consume-Consumed e id d =
    Eaten-Consumed id d (err 401 "ENROLLMENT_TOKEN_INVALID" "token exhausted")
      (exec e "consume" (consume_enrollment_token id) d) (exec-Eaten e id d)

-- A token that was used before the node was added.
paid :
    (id : String) (d : Store) (o : Outcome Unit × Store) (m : Action (Node × Bool))
    → Consumed id d o
    → ((b : Store) → Added none b (m b))
    → Added (some id) d (next o (λ u. m))
unfolding Consumed
paid id d (halt r, b) m h k = tt
paid id d (go u, b) m h k = used (m b) (k b)
  where
    used : (o : Outcome (Node × Bool) × Store) → Added none b o → Added (some id) d o
    used (halt r, d') g = tt
    used (go a, d') g =
        let (t, found, same_id, left, taken) = h.0 in
        ((t, found, same_id, left, g.0 ∙ taken), g.1 ∙ ap (λ ns. suc (length ns)) h.1)

add_node-Added :
    (e : Env) (c : String) (r : EnrollRequest) (token : Option String) (action actor : String)
    (d : Store)
    → Added token d (add_node e c r token action actor d)
unfolding add_node
add_node-Added e c r none action actor d = named-Added e c r action actor d
add_node-Added e c r (some id) action actor d =
    paid id d (consume e (some id) d) (pick_name e c r.hostname >>= insert_node e c r action actor)
      (consume-Consumed e id d) (λ b. named-Added e c r action actor b)

-- A transaction that went through.
abbrev Enrolled : {A : Type 0} → Option String → Store → Outcome A × Store → Type 0
Enrolled token d (go a, d') = Pays token d d'
Enrolled token d (halt r, d') = Unit

reuse_or_add-Enrolled :
    (e : Env) (c : String) (r : EnrollRequest) (token : Option String) (b : Bool)
    (action actor : String) (o : Option Node) (d : Store)
    → Enrolled token d (reuse_or_add e c r token b action actor o d)
reuse_or_add-Enrolled e c r token b action actor none d =
    new (add_node e c r token action actor d) (add_node-Added e c r token action actor d)
  where
    new : (o : Outcome (Node × Bool) × Store) → Added token d o → Enrolled token d o
    new (halt x, d') h = tt
    new (go a, d') h = inr h
reuse_or_add-Enrolled e c r token b action actor (some n) d =
    known (reuse_node e n r b action actor d) (reuse_node-Reused e n r b action actor d)
  where
    known : (o : Outcome (Node × Bool) × Store) → Reused d o → Enrolled token d o
    known (halt x, d') h = tt
    known (go a, d') h = inl h

enroll_tx-Enrolled :
    (e : Env) (c : String) (r : EnrollRequest) (token : Option String) (b : Bool)
    (action actor : String) (d : Store)
    → Enrolled token d (enroll_tx e c r token b action actor d)
unfolding enroll_tx
enroll_tx-Enrolled e c r token b action actor d = ground (
  arith,
  reuse_or_add-Enrolled e c r token b action actor
      (if e.fails (site "identity" 0) then none else get_node_by_identity c r.machine_id d) d,
)

-- Enrolling a machine, whatever fails on the way, either leaves the tokens and the number of nodes
-- as they were, or adds one node: then the given token, where one is given, was there with a use left,
-- and that use is taken.
pub enroll_node-Pays :
    (e : Env) (c : String) (r : EnrollRequest) (token : Option String) (b : Bool)
    (action actor : String) (d : Store)
    → Pays token d (enroll_node e c r token b action actor d).1
unfolding enroll_node
enroll_node-Pays e c r token b action actor d =
    kept (enroll_tx e c r token b action actor d) (enroll_tx-Enrolled e c r token b action actor d)
  where
    kept :
        (o : Outcome (Node × Bool) × Store)
        → Enrolled token d o
        → Pays token d (next (rolled_back o d) (λ a. evict_if a.1 a.0.id >> pure a.0)).1
    kept (halt x, d') h = inl (refl, refl)
    kept (go (n, true), d') h = h
    kept (go (n, false), d') h = h
