-- ===== src/Server/Api.antt =====
-- src/server/internal/api: the REST handlers over the database. A handler is a chain of statements
-- that ends in a reply; `error` ends it early, as `respondError` and `return` do.
pub mod Roles
pub mod Members
pub mod Clusters
pub mod Admin
pub mod Enroll
pub mod Register
pub mod Move
pub mod RenameNode
pub mod Users
pub mod Personal
pub mod FirstBoot
pub mod Writes
pub mod Keeps
pub mod Run
pub mod Owners
pub mod Admins
pub mod NodeKeys
pub mod Uses
pub mod Pays
pub mod Names
pub mod Allowed
pub mod Orphans
pub mod Undone
pub mod Sound
pub mod Tests
use xnc.Prelude.{ℕ, String, Bool, true, false, not, Option, none, some, List, [], if◌then◌else◌}
use xnc.Server.Db.{Role, User, AuditLog, Store, Result, Constraint, done, unique, failed}
use xnc.Server.Db.Audit.{insert_audit_log}

pub record ApiError : Type 0 where
  pub status : ℕ
  pub code : String
  pub message : String

abbrev pub err : ℕ → String → String → ApiError
err status code message = record { status = status; code = code; message = message }

-- The body of a reply: named texts, or nothing.
pub data Reply : Type 0 where
  respond_error : ApiError → Reply
  respond : ℕ → List (String × String) → Reply

-- A statement of a request, by the place where the handler issues it; the number tells the rounds
-- of a loop apart.
pub data Site : Type 0 where
  site : String → ℕ → Site

-- What a request meets outside the code: the user the middleware authenticated, which statements
-- the database fails to carry out, and the library functions the handlers call.
pub record Env : Type 0 where
  pub user : User
  pub fails : Site → Bool
  pub parse_uuid : String → Option String
  pub new_uuid : String
  pub default_cluster_uuid : String
  pub now : ℕ
  pub hash_password : String → Option String
  pub generate_token : Option (String × String)
  pub hash_token : String → String
  pub parse_duration : String → Option ℕ
  pub key_size : String → Option ℕ
  pub max_clusters_per_user : ℕ
  pub enroll_token_ttl : ℕ
  pub to_lower : String → String
  pub quote : String → String

pub data Outcome (A : Type 0) : Type 0 where
  go : A → Outcome A
  halt : Reply → Outcome A

abbrev pub Action : Type 0 → Type 0
Action A = Store → Outcome A × Store

abbrev pub pure : {A : Type 0} → A → Action A
pure a d = (go a, d)

abbrev pub error : {A : Type 0} → ApiError → Action A
error e d = (halt (respond_error e), d)

infixl 5 ◌>>=◌ ◌>>◌
abbrev pub ◌>>=◌ : {A B : Type 0} → Action A → (A → Action B) → Action B
◌>>=◌ m f d = let (r, d') = m d in elim r [ go a ↦ f a d' | halt e ↦ (halt e, d') ]

abbrev pub ◌>>◌ : {A B : Type 0} → Action A → Action B → Action B
m >> k = m >>= λ _. k

-- A query whose error and whose missing row the handler does not tell apart.
abbrev pub query : {A : Type 0} → Env → String → (Store → Option A) → Action (Option A)
query e place q d = (go (if e.fails (site place 0) then none else q d), d)

abbrev pub or_error : {A : Type 0} → ApiError → Option A → Action A
or_error x none = error x
or_error x (some a) = pure a

abbrev pub error_if : Bool → ApiError → Action Unit
error_if true x = error x
error_if false x = pure tt

abbrev pub value : {A : Type 0} → (Store → A) → Store → Option A
value q d = some (q d)

-- How a statement that writes ended.
pub data Written (A : Type 0) : Type 0 where
  wrote : A → Written A
  violates : Constraint → Written A
  broken : Written A

abbrev settle : {A : Type 0} → Result A → Store → Outcome (Written A) × Store
settle (done a d') d = (go (wrote a), d')
settle (unique c) d = (go (violates c), d)
settle failed d = (go broken, d)

abbrev pub exec : {A : Type 0} → Env → String → (Store → Result A) → Action (Written A)
exec e place w d = if e.fails (site place 0) then (go broken, d) else settle (w d) d

-- The value of a write, or one error for whatever went wrong.
abbrev pub written : {A : Type 0} → ApiError → Written A → Action A
written x (wrote a) = pure a
written x (violates _) = error x
written x broken = error x

-- The value of a write, or an error for a violated unique index and another for the rest.
abbrev pub written_unique : {A : Type 0} → ApiError → ApiError → Written A → Action A
written_unique x y (wrote a) = pure a
written_unique x y (violates _) = error x
written_unique x y broken = error y

-- The body of a transaction: `defer tx.Rollback` undoes what a body wrote that ended early.
abbrev pub rolled_back : {A : Type 0} → Outcome A × Store → Store → Outcome A × Store
rolled_back (go a, d') d = (go a, d')
rolled_back (halt r, d') d = (halt r, d)

abbrev pub atomically : {A : Type 0} → Action A → Action A
atomically m d = rolled_back (m d) d

-- Begin, lock, savepoint and commit: they can fail, and write nothing of their own.
abbrev pub control : Env → String → ApiError → Action Unit
control e place x = error_if (e.fails (site place 0)) x

-- The audit row of a finished change: a failure to write it is dropped.
abbrev pub audit : Env → AuditLog → Action Unit
audit e a = exec e "audit" (insert_audit_log a) >> pure tt

abbrev pub reply : ℕ → List (String × String) → Action Reply
reply status body = pure (respond status body)

-- What the client sees.
abbrev pub answer : Outcome Reply → Reply
answer (go r) = r
answer (halt r) = r
