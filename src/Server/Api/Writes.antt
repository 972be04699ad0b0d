-- ===== src/Server/Api/Writes.antt =====
-- src/server/internal/api: the writes of the handlers to the tables, one statement at a time, and
-- that a handler is a sequence of them, whatever fails. `deleteUser` stands apart: its transaction
-- is one step.
pub mod Handlers
pub mod Nodes
pub mod Users
use xnc.Prelude.{String, Bool, true, false, Option, none, some, List, ◌∷◌, if◌then◌else◌, ◌≡◌}
use xnc.Server.Db.{
  Role, Status, User, Node, EnrollmentToken, AuditLog, Store, Result, done, unique, failed,
}
use xnc.Server.Db.Membership.{add_member, remove_member_guarded, update_member_role}
use xnc.Server.Db.Clusters.{add_membership, create_cluster_row, rename_cluster_row}
use xnc.Server.Db.ClustersAdmin.{soft_delete_cluster}
use xnc.Server.Db.Nodes.{
  create_node, adopt_node_identity, delete_node, move_node_cluster, rename_node_row,
}
use xnc.Server.Db.NodesStatus.{set_node_status_row}
use xnc.Server.Db.Tokens.{create_enrollment_token, consume_enrollment_token}
use xnc.Server.Db.Users.{create_user_row, update_user_display_name, update_user_password}
use xnc.Server.Db.UsersAdmin.{create_user_by_email, update_user_is_admin}
use xnc.Server.Db.Audit.{insert_audit_log}
use xnc.Server.Api.{
  Env, Site, site, ApiError, Action, Outcome, go, halt, Written, wrote, violates, broken, pure,
  error, query, exec, or_error, error_if, written, written_unique, control, atomically, audit,
  rolled_back, settle, ◌>>=◌, ◌>>◌,
}

-- The tables after a statement: an error leaves them alone.
abbrev pub after : {A : Type 0} → Result A → Store → Store
after (done a d') d = d'
after (unique c) d = d
after failed d = d

pub data Reaches : Store → Store → Type 0 where
  stays : {d : Store} → Reaches d d
  chain : {a b c : Store} → Reaches a b → Reaches b c → Reaches a c
  adds_member : (c u : String) (r : Role) {d : Store} → Reaches d (after (add_member c u r d) d)
  adds_membership :
      (c u : String) (r : Role) {d : Store} → Reaches d (after (add_membership c u r d) d)
  removes_member : (c u : String) {d : Store} → Reaches d (after (remove_member_guarded c u d) d)
  updates_role :
      (c u : String) (r : Role) {d : Store} → Reaches d (after (update_member_role c u r d) d)
  creates_cluster :
      (i n o : String) (p : Bool) {d : Store} → Reaches d (after (create_cluster_row i n o p d) d)
  renames_cluster : (i n : String) {d : Store} → Reaches d (after (rename_cluster_row i n d) d)
  deletes_cluster : (i : String) {d : Store} → Reaches d (after (soft_delete_cluster i d) d)
  creates_node : (n : Node) {d : Store} → Reaches d (after (create_node n d) d)
  adopts :
      (k h o v p i : String) {d : Store} → Reaches d (after (adopt_node_identity k h o v p i d) d)
  deletes_node : (i : String) {d : Store} → Reaches d (after (delete_node i d) d)
  moves : (i c n f : String) {d : Store} → Reaches d (after (move_node_cluster i c n f d) d)
  renames_node : (i n : String) {d : Store} → Reaches d (after (rename_node_row i n d) d)
  sets_status :
      (i : String) (s : Status) {d : Store} → Reaches d (after (set_node_status_row i s d) d)
  creates_token :
      (t : EnrollmentToken) {d : Store} → Reaches d (after (create_enrollment_token t d) d)
  consumes : (i : String) {d : Store} → Reaches d (after (consume_enrollment_token i d) d)
  creates_user :
      (i m n h : String) {d : Store} → Reaches d (after (create_user_by_email i m n h d) d)
  sets_name : (i n : String) {d : Store} → Reaches d (after (update_user_display_name i n d) d)
  sets_password : (i h : String) {d : Store} → Reaches d (after (update_user_password i h d) d)
  sets_admin :
      (i : String) (b : Bool) {d : Store} → Reaches d (after (update_user_is_admin i b d) d)
  audits : (a : AuditLog) {d : Store} → Reaches d (after (insert_audit_log a d) d)
  evicts : (i : String) {d : Store} → Reaches d (record d { evicted = i ∷ d.evicted })

-- A handler, or a part of one, that only writes by these statements.
pub record Writes {A : Type 0} (m : Action A) : Type 0 where
  pub reaches : (d : Store) → Reaches d (m d).1

module _ {A B : Type 0} where
  abbrev pub next : Outcome A × Store → (A → Action B) → Outcome B × Store
  next o f = elim o.0 [ go a ↦ f a o.1 | halt r ↦ (halt r, o.1) ]

  next-Reaches :
      (d : Store) (o : Outcome A × Store) (f : A → Action B)
      → Reaches d o.1
      → ((a : A) → Writes (f a))
      → Reaches d (next o f).1
  next-Reaches d (go a, d') f h k = chain h ((k a).reaches d')
  next-Reaches d (halt r, d') f h k = h

  pub bind-Writes :
      {m : Action A} {f : A → Action B} → Writes m → ((a : A) → Writes (f a)) → Writes (m >>= f)
  bind-Writes {m} {f} h k = record { reaches = λ d. next-Reaches d (m d) f (h.reaches d) k }

-- What holds of the tables after a part and is kept by the rest holds after both.
pub next-keeps {ℓ} :
    {A B : Type 0} (P : Store → Type ℓ) (o : Outcome A × Store) (f : A → Action B)
    → P o.1
    → ((a : A) (d : Store) → P d → P (f a d).1)
    → P (next o f).1
next-keeps P (go a, d) f h k = k a d h
next-keeps P (halt r, d) f h k = h

module _ {A : Type 0} where
  pub pure-Writes : (a : A) → Writes (pure a)
  pure-Writes a = record { reaches = λ d. stays }

  pub query-Writes : (e : Env) (place : String) (q : Store → Option A) → Writes (query e place q)
  query-Writes e place q = record { reaches = λ d. stays }

  or_error-Reaches : (x : ApiError) (o : Option A) (d : Store) → Reaches d (or_error x o d).1
  or_error-Reaches x none d = stays
  or_error-Reaches x (some a) d = stays

  pub or_error-Writes : (x : ApiError) (o : Option A) → Writes (or_error x o)
  or_error-Writes x o = record { reaches = or_error-Reaches x o }

  settle-Reaches : (r : Result A) (d : Store) → Reaches d (after r d) → Reaches d (settle r d).1
  settle-Reaches (done a d') d h = h
  settle-Reaches (unique c) d h = stays
  settle-Reaches failed d h = stays

  exec-Reaches :
      (b : Bool) (r : Result A) (d : Store)
      → Reaches d (after r d)
      → Reaches d (if b then (go broken, d) else settle r d).1
  exec-Reaches true r d h = stays
  exec-Reaches false r d h = settle-Reaches r d h

  pub exec-Writes :
      (e : Env) (place : String) (w : Store → Result A)
      → ((d : Store) → Reaches d (after (w d) d))
      → Writes (exec e place w)
  exec-Writes e place w h = record {
    reaches = λ d. exec-Reaches (e.fails (site place 0)) (w d) d (h d);
  }

  written-Reaches : (x : ApiError) (w : Written A) (d : Store) → Reaches d (written x w d).1
  written-Reaches x (wrote a) d = stays
  written-Reaches x (violates c) d = stays
  written-Reaches x broken d = stays

  pub exec-keeps {ℓ} :
      (P : Store → Type ℓ) (e : Env) (place : String) (w : Store → Result A) (d : Store)
      → P d
      → P (after (w d) d)
      → P (exec e place w d).1
  exec-keeps P e place w d h k = tested (e.fails (site place 0)) (w d) k
    where
      settled : (r : Result A) → P (after r d) → P (settle r d).1
      settled (done a d') k = k
      settled (unique c) k = h
      settled failed k = h

      tested :
          (b : Bool) (r : Result A) → P (after r d) → P (if b then (go broken, d) else settle r d).1
      tested true r k = h
      tested false r k = settled r k

  pub written-Writes : (x : ApiError) (w : Written A) → Writes (written x w)
  written-Writes x w = record { reaches = written-Reaches x w }

  written_unique-Reaches :
      (x y : ApiError) (w : Written A) (d : Store) → Reaches d (written_unique x y w d).1
  written_unique-Reaches x y (wrote a) d = stays
  written_unique-Reaches x y (violates c) d = stays
  written_unique-Reaches x y broken d = stays

  pub written_unique-Writes : (x y : ApiError) (w : Written A) → Writes (written_unique x y w)
  written_unique-Writes x y w = record { reaches = written_unique-Reaches x y w }

  rolled_back-Reaches :
      (d : Store) (o : Outcome A × Store) → Reaches d o.1 → Reaches d (rolled_back o d).1
  rolled_back-Reaches d (go a, d') h = h
  rolled_back-Reaches d (halt r, d') h = stays

  pub atomically-Writes : {m : Action A} → Writes m → Writes (atomically m)
  atomically-Writes {m} h = record { reaches = λ d. rolled_back-Reaches d (m d) (h.reaches d) }

pub if-Writes :
    {A : Type 0} (b : Bool) {m k : Action A} → Writes m → Writes k → Writes (if b then m else k)
if-Writes true h g = h
if-Writes false h g = g

pub error-Writes : {A : Type 0} (x : ApiError) → Writes {A = A} (error x)
error-Writes x = record { reaches = λ d. stays }

error_if-Reaches : (b : Bool) (x : ApiError) (d : Store) → Reaches d (error_if b x d).1
error_if-Reaches true x d = stays
error_if-Reaches false x d = stays

pub error_if-Writes : (b : Bool) (x : ApiError) → Writes (error_if b x)
error_if-Writes b x = record { reaches = error_if-Reaches b x }

pub audit-Writes : (e : Env) (a : AuditLog) → Writes (audit e a)
audit-Writes e a =
    bind-Writes (exec-Writes e "audit" (insert_audit_log a) (λ d. audits a)) λ w. pure-Writes tt

-- The rules that take a handler apart into its statements.
pub ruleset statements = (
  bind-Writes, pure-Writes, error-Writes, query-Writes, or_error-Writes, exec-Writes,
  written-Writes, written_unique-Writes, error_if-Writes, if-Writes, atomically-Writes,
  audit-Writes,
)
