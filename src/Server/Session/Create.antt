-- ===== src/Server/Session/Create.antt =====
-- `Create` of src/server/internal/session/manager.go. The random values are arguments: the uuid,
-- the two session tokens and the lease id; so is the answer of `Registry.Online`. The readings of
-- the clock within the call are one reading.
use xnc.Prelude.{ℕ, ◌+◌, String, Bool, true, false, ◌&&◌, none, some, ltb, leb, if◌then◌else◌}
use xnc.Prelude.Map.{lookup, insert}
use xnc.Server.Session.{
  Session, Manager, DesktopLease, ApiError, Kind, shell, desktop, opening_ttl, count_by_node,
  holder_fresh,
}

pub record Fresh : Type 0 where
  pub id : String
  pub agent_token : String
  pub client_token : String
  pub lease_id : String

pub record CreateResult : Type 0 where
  pub session : Session
  pub agent_token : String
  pub client_token : String
  pub expires_at : ℕ
  pub lease_granted : Bool
  pub lease_id : String

pub data Created : Type 0 where
  created : CreateResult → Created
  refused : ApiError → Created

abbrev pub base_session : Fresh → (node user : String) → Kind → (params : String) → ℕ → Session
base_session f node user kind params now = record {
  id = f.id;
  kind = kind;
  node_id = node;
  user_id = user;
  params = params;
  agent_token = f.agent_token;
  client_token = f.client_token;
  used_agent_token = "";
  used_client_token = "";
  expires_at = now + opening_ttl;
  agent_ws = none;
  client_ws = none;
  glued = false;
  ttl_armed = true;
  relay_routed = false;
  has_finish = false;
  has_notify = false;
  closed = false;
  started_at = 0;
  last_activity = 0;
  idle_timeout = 0;
  max_lifetime = 0;
}

-- The `switch kind` that copies the limits into the session.
abbrev pub governed : Manager → Kind → ℕ → Session → Session
governed m shell now s = record s {
  started_at = now;
  last_activity = now;
  idle_timeout = m.shell_idle_timeout;
  max_lifetime = m.shell_max_lifetime;
}
governed m desktop now s = record s {
  started_at = now;
  last_activity = now;
  idle_timeout = m.desktop_idle_timeout;
}
governed m _ now s = s

abbrev pub over_limit : Manager → String → Kind → Bool
over_limit m node shell =
    ltb 0 m.shell_per_node && leb m.shell_per_node (count_by_node m.sessions node shell)
over_limit m node desktop =
    ltb 0 m.desktop_per_node && leb m.desktop_per_node (count_by_node m.sessions node desktop)
over_limit m node _ = false

-- grantDesktopLeaseLocked, with the lease id that it would draw.
unfoldable pub grant_desktop_lease : Manager → Session → (lease_id : String) → ℕ → Manager × Bool
grant_desktop_lease m s lease_id now =
    let lease : DesktopLease = record {
      session_id = s.id;
      lease_id = lease_id;
      user_id = s.user_id;
      taken_at = now;
      last_steal_at = 0;
    } in
    let granted : Manager × Bool =
      (record m { desktop_leases = insert s.node_id lease m.desktop_leases }, true) in
    elim (lookup s.node_id m.desktop_leases) [
      | none ↦ granted
      | some old ↦ if holder_fresh m now old then (m, false) else granted
    ]

abbrev pub with_lease : Kind → Manager → Session → (lease_id : String) → ℕ → Manager × Bool
with_lease desktop m s lease_id now = grant_desktop_lease m s lease_id now
with_lease _ m s lease_id now = (m, false)

abbrev pub result_of : Session → (lease_id : String) → Bool → CreateResult
result_of s lease_id granted = record {
  session = s;
  agent_token = s.agent_token;
  client_token = s.client_token;
  expires_at = s.expires_at;
  lease_granted = granted;
  lease_id = if granted then lease_id else "";
}

-- What `Create` adds once the limits are passed.
unfoldable pub admit : Manager → Fresh → Session → ℕ → Manager × Created
unfolding grant_desktop_lease
admit m f s now =
    let listed = record m { sessions = insert s.id s m.sessions } in
    let (m', granted) = with_lease s.kind listed s f.lease_id now in
    (m', created (result_of s f.lease_id granted))

unfoldable pub create :
    Manager
    → (online : Bool) → Fresh
    → (node user : String) → Kind
    → (params : String) → ℕ
    → Manager × Created
create m online f node user kind params now =
    if online
    then (if over_limit m node kind
        then (m, refused (record { status = 409; code = "SESSION_LIMIT_EXCEEDED" }))
        else admit m f (governed m kind now (base_session f node user kind params now)) now)
    else (m, refused (record { status = 409; code = "NODE_OFFLINE" }))
