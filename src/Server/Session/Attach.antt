-- ===== src/Server/Session/Attach.antt =====
-- The attaching of connections in src/server/internal/session/manager.go, and what counts as
-- activity of a session. The search by token and the attach that follows are one step here.
use xnc.Prelude.{
  ℕ, String, Bool, true, false, not, ◌&&◌, Option, none, some, List, [], ◌∷◌, ltb, if◌then◌else◌,
  ite, String_discrete,
}
use xnc.Prelude.Map.{Map, lookup}
use xnc.Server.Session.{
  Session, Manager, ApiError, Effect, start_pump, desktop, is_kind, set_session,
}

pub data Side : Type 0 where
  agent client : Side
  unknown : String → Side

abbrev pub str_eq : String → String → Bool
str_eq a b = ite (String_discrete a b) true false

unfoldable pub session_by_agent_token : Map String Session → (token : String) → String
session_by_agent_token [] token = ""
session_by_agent_token ((id, s) ∷ m) token =
    let rest = session_by_agent_token m token in
    if not (str_eq s.agent_token "") && str_eq token s.agent_token then id else rest

abbrev pub api_err : ℕ → String → Option ApiError
api_err status code = some (record { status = status; code = code })

abbrev pub not_found : Option ApiError
not_found = api_err 404 "SESSION_NOT_FOUND"

-- `*want` and `*used` of a side.
abbrev pub want : Side → Session → String
want agent s = s.agent_token
want client s = s.client_token
want (unknown x) s = ""

abbrev pub used : Side → Session → String
used agent s = s.used_agent_token
used client s = s.used_client_token
used (unknown x) s = ""

abbrev pub is_known : Side → Bool
is_known agent = true
is_known client = true
is_known (unknown x) = false

-- The token of the side is used up and its connection is stored.
abbrev pub with_ws : Side → ℕ → Session → Session
with_ws agent ws s = record s {
  used_agent_token = s.agent_token;
  agent_token = "";
  agent_ws = some ws;
}
with_ws client ws s = record s {
  used_client_token = s.client_token;
  client_token = "";
  client_ws = some ws;
}
with_ws (unknown x) ws s = s

abbrev pub is_some {ℓ} : {A : Type ℓ} → Option A → Bool
is_some none = false
is_some (some a) = true

abbrev pub both_sides : Session → Bool
both_sides s = is_some s.agent_ws && is_some s.client_ws

abbrev pub glue : Session → Session
glue s = if both_sides s && not s.glued then record s { glued = true; ttl_armed = false } else s

abbrev pub pumps : Session → List Effect
pumps s = if both_sides s then start_pump s.id ∷ [] else []

-- `attach` once the session is found in the table.
unfoldable pub attach_to :
    Manager
    → Side
    → (token : String) → (ws : ℕ) → (now : ℕ) → Session
    → Manager × Option ApiError × List Effect
attach_to m side token ws now s =
    if ltb s.expires_at now
    then (m, api_err 410 "SESSION_EXPIRED", [])
    else if is_known side
    then (if str_eq (want side s) ""
        then (if not (str_eq token "") && str_eq token (used side s)
            then (m, api_err 401 "UNAUTHORIZED", [])
            else (m, not_found, []))
        else if str_eq token (want side s)
        then (set_session m (glue (with_ws side ws s)), none, pumps (with_ws side ws s))
        else (m, api_err 401 "UNAUTHORIZED", []))
    else (m, api_err 500 "INTERNAL", [])

unfoldable pub attach_id :
    Manager
    → Side
    → (id token : String) → (ws : ℕ) → (now : ℕ) → Manager × Option ApiError × List Effect
unfolding attach_to
attach_id m side id token ws now = elim (lookup id m.sessions) [
  | none ↦ (m, not_found, [])
  | some s ↦ attach_to m side token ws now s
]

-- An empty id stands for the agent's endpoint, which knows the token alone.
unfoldable pub attach :
    Manager
    → Side
    → (id token : String) → (ws : ℕ) → (now : ℕ) → Manager × Option ApiError × List Effect
unfolding session_by_agent_token
attach m side id token ws now =
    let found = session_by_agent_token m.sessions token in
    if str_eq id ""
    then (if str_eq found "" then (m, not_found, []) else attach_id m side found token ws now)
    else attach_id m side id token ws now

-- The two loops of sessionByClientToken.
unfoldable pub with_client_token : Map String Session → (token : String) → Option Session
with_client_token [] token = none
with_client_token ((id, s) ∷ m) token =
    let rest = with_client_token m token in
    if not (str_eq s.client_token "") && str_eq token s.client_token then some s else rest

unfoldable pub with_used_client_token : Map String Session → (token : String) → Option Session
with_used_client_token [] token = none
with_used_client_token ((id, s) ∷ m) token =
    let rest = with_used_client_token m token in
    if str_eq s.client_token "" && str_eq s.used_client_token token then some s else rest

unfoldable pub session_by_client_token : Map String Session → (token : String) → Option Session
unfolding with_client_token with_used_client_token
session_by_client_token sessions token = elim (with_client_token sessions token) [
  | some s ↦ some s
  | none ↦ if str_eq token "" then none else with_used_client_token sessions token
]

abbrev pub glue_rtv : ℕ → Session → Session
glue_rtv now s =
    if s.glued
    then record s { last_activity = now }
    else record s { glued = true; ttl_armed = false; last_activity = now }

pub data RtvAttached : Type 0 where
  attached : (node session : String) → RtvAttached
  denied : Option ApiError → RtvAttached

unfoldable pub attach_client_rtv : Manager → (token : String) → (now : ℕ) → Manager × RtvAttached
unfolding session_by_client_token
attach_client_rtv m token now =
    if str_eq token ""
    then (m, denied (api_err 401 "UNAUTHORIZED"))
    else elim (session_by_client_token m.sessions token) [
      | none ↦ (m, denied not_found)
      | some s ↦
          if ltb s.expires_at now
          then (m, denied (api_err 410 "SESSION_EXPIRED"))
          else (set_session m (glue_rtv now s), attached s.node_id s.id)
    ]

unfoldable pub touch_activity : Manager → (id : String) → (now : ℕ) → Manager
touch_activity m id now = elim (lookup id m.sessions) [
  | none ↦ m
  | some s ↦ set_session m (
      if not s.glued && is_kind s.kind desktop
      then record s { glued = true; last_activity = now }
      else record s { last_activity = now })
]

unfoldable pub mark_relay_routed : Manager → (id : String) → Manager
mark_relay_routed m id = elim (lookup id m.sessions) [
  | none ↦ m
  | some s ↦ set_session m (record s { relay_routed = true; glued = true; ttl_armed = false })
]
