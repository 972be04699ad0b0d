-- ===== src/Server/Db.antt =====
-- src/server/internal/db: the tables of the server's database, as sqlc/models.go and the
-- migrations declare them. The children are the statements of sqlc/*.sql.go.
pub mod Membership
pub mod Clusters
pub mod ClustersAdmin
pub mod Nodes
pub mod NodesStatus
pub mod Tokens
pub mod Users
pub mod UsersAdmin
pub mod Audit
use xnc.Prelude.{ℕ, String, Bool, Option, List}

-- cluster_members.role: the CHECK constraint admits these three texts.
pub data Role : Type 0 where
  viewer operator owner : Role

-- nodes.status: the CHECK constraint admits these three texts.
pub data Status : Type 0 where
  online offline disabled : Status

pub record User : Type 0 where
  pub id : String
  pub email : String
  pub display_name : String
  pub password_hash : String
  pub is_admin : Bool

pub record Cluster : Type 0 where
  pub id : String
  pub name : String
  pub owner_id : String
  pub personal : Bool
  pub deleted : Bool

pub record ClusterMember : Type 0 where
  pub cluster_id : String
  pub user_id : String
  pub role : Role

pub record Node : Type 0 where
  pub id : String
  pub cluster_id : String
  pub name : String
  pub machine_id : String
  pub hostname : String
  pub os_version : String
  pub agent_version : String
  pub shell_type : String
  pub public_key : String
  pub status : Status
  pub last_seen_at : Option ℕ
  pub platform : String

pub record EnrollmentToken : Type 0 where
  pub id : String
  pub cluster_id : String
  pub token_hash : String
  pub expires_at : ℕ
  pub max_uses : ℕ
  pub used_count : ℕ
  pub created_by : String

pub record AuditLog : Type 0 where
  pub user_id : Option String
  pub cluster_id : Option String
  pub node_id : Option String
  pub action : String
  pub metadata : List (String × String)

-- The tables, and the nodes whose connection the server was told to cut.
pub record Store : Type 0 where
  pub users : List User
  pub clusters : List Cluster
  pub members : List ClusterMember
  pub nodes : List Node
  pub tokens : List EnrollmentToken
  pub audits : List AuditLog
  pub evicted : List String

-- The unique indexes a handler tells apart by name, and the others.
pub data Constraint : Type 0 where
  nodes_machine_id_key nodes_cluster_id_name_key another_key : Constraint

-- What a statement that writes returns: its value and the tables after it, the unique index it
-- violates (error 23505), or another error.
pub data Result (A : Type 0) : Type 0 where
  done : A → Store → Result A
  unique : Constraint → Result A
  failed : Result A
