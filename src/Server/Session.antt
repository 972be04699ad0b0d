-- ===== src/Server/Session.antt =====
-- src/server/internal/session/manager.go: the table of sessions and the input leases of the nodes.
-- A method holds the mutex while it reads and writes the table, so it is one step on the manager;
-- it takes the clock's reading as `now`. Identifiers, tokens and uuids are texts. A time is a
-- number of nanoseconds since Go's zero time, and a test of `now.Sub(t)` is written as a sum.
-- A session that left the table is closed for good (`closeOnce`), so the table is the whole store.
pub mod Create
pub mod Attach
pub mod Control
pub mod Close
pub mod Sweep
pub mod Table
pub mod Evolves
pub mod Run
pub mod Limits
pub mod Tokens
pub mod Leases
pub mod Closing
mod Tests
use xnc.Prelude.{
  ℕ, suc, ◌+◌, ◌*◌, ◌≡◌, String, Bool, true, false, ◌&&◌, Option, none, some, [], ◌∷◌, ltb, leb,
  if◌then◌else◌, ite, String_discrete,
}
use xnc.Prelude.Map.{Map, lookup, insert, delete}

-- The constants of src/proto/session.go; `Create` takes any text.
pub data Kind : Type 0 where
  exec shell file tunnel screen desktop : Kind
  other : String → Kind

pub Kind-discrete : Discrete Kind
Kind-discrete = hlevel String_discrete

abbrev pub is_kind : Kind → Kind → Bool
is_kind exec exec = true
is_kind shell shell = true
is_kind file file = true
is_kind tunnel tunnel = true
is_kind screen screen = true
is_kind desktop desktop = true
is_kind (other s) (other t) = ite (String_discrete s t) true false
is_kind _ _ = false

-- A WebSocket connection is a number; a callback is there or not.
pub record Session : Type 0 where
  pub id : String
  pub kind : Kind
  pub node_id : String
  pub user_id : String
  pub params : String
  pub agent_token : String
  pub client_token : String
  pub used_agent_token : String
  pub used_client_token : String
  pub expires_at : ℕ
  pub agent_ws : Option ℕ
  pub client_ws : Option ℕ
  pub glued : Bool
  pub ttl_armed : Bool
  pub relay_routed : Bool
  pub has_finish : Bool
  pub has_notify : Bool
  pub closed : Bool
  pub started_at : ℕ
  pub last_activity : ℕ
  pub idle_timeout : ℕ
  pub max_lifetime : ℕ

pub record DesktopLease : Type 0 where
  pub session_id : String
  pub lease_id : String
  pub user_id : String
  pub taken_at : ℕ
  pub last_steal_at : ℕ

pub record Manager : Type 0 where
  pub sessions : Map String Session
  pub desktop_leases : Map String DesktopLease
  pub shell_per_node : ℕ
  pub shell_idle_timeout : ℕ
  pub shell_max_lifetime : ℕ
  pub desktop_per_node : ℕ
  pub desktop_idle_timeout : ℕ
  pub desktop_lease_ttl : ℕ
  pub desktop_steal_cooldown : ℕ

-- proto.APIError: the status and the code; the message is left out.
pub record ApiError : Type 0 where
  pub status : ℕ
  pub code : String

-- What a method does outside the table.
pub data Effect : Type 0 where
  start_pump : (session_id : String) → Effect
  close_ws : (ws : ℕ) → Effect
  notify_agent : (session_id reason : String) → Effect
  call_finish : (session_id reason : String) → Effect

abbrev pub second : ℕ
second = 1000000000

abbrev pub opening_ttl : ℕ
opening_ttl = 60 * second

abbrev pub expired_retention : ℕ
expired_retention = 300 * second

abbrev pub new_manager : Manager
new_manager = record {
  sessions = [];
  desktop_leases = [];
  shell_per_node = 10;
  shell_idle_timeout = 1800 * second;
  shell_max_lifetime = 28800 * second;
  desktop_per_node = 8;
  desktop_idle_timeout = 300 * second;
  desktop_lease_ttl = 60 * second;
  desktop_steal_cooldown = 3 * second;
}

abbrev pub set_session : Manager → Session → Manager
set_session m s = record m { sessions = insert s.id s m.sessions }

abbrev pub matches : String → Kind → Session → Bool
matches node kind s = ite (String_discrete s.node_id node) (is_kind s.kind kind) false

-- The loop that the counts share.
unfoldable pub count_where : (Session → Bool) → Map String Session → ℕ
count_where p [] = 0
count_where p ((id, s) ∷ m) = let rest = count_where p m in if p s then suc rest else rest

abbrev pub count_by_node : Map String Session → (node : String) → Kind → ℕ
count_by_node m node kind = count_where (matches node kind) m

abbrev pub count_active : Map String Session → Kind → ℕ
count_active m kind = count_where (λ s. is_kind s.kind kind) m

unfoldable pub sessions_of : Map String Session → (node : String) → Kind → Map String Session
sessions_of [] node kind = []
sessions_of ((id, s) ∷ m) node kind =
    let rest = sessions_of m node kind in if matches node kind s then (id, s) ∷ rest else rest

-- The session of a lease is in the table and had activity within the TTL.
abbrev pub holder_fresh : Manager → ℕ → DesktopLease → Bool
holder_fresh m now l = elim (lookup l.session_id m.sessions) [
  | none ↦ false
  | some holder ↦
      ite (String_discrete holder.id l.session_id)
        (leb now (holder.last_activity + m.desktop_lease_ttl)) false
]
