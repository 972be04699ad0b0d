-- ===== src/Server/Session/Close.antt =====
-- The end of a session in src/server/internal/session/manager.go: `close`, `NotifyClose`, the
-- expiry of the opening TTL and the callbacks. The effects of a close come in the order of the code.
use xnc.Prelude.{
  ℕ, String, Bool, true, false, Option, none, some, List, [], ◌∷◌, ◌++◌, if◌then◌else◌, ite,
  String_discrete,
}
use xnc.Prelude.Map.{Map, lookup, insert, delete}
use xnc.Server.Session.{
  Session, Manager, DesktopLease, Effect, close_ws, notify_agent, call_finish, set_session,
}

abbrev pub close_of : Option ℕ → List Effect
close_of none = []
close_of (some ws) = close_ws ws ∷ []

abbrev pub close_effects : Session → (reason : String) → List Effect
close_effects s reason =
    close_of s.agent_ws
    ++ (close_of s.client_ws
        ++ ((if s.has_notify then notify_agent s.id reason ∷ [] else [])
            ++ (if s.has_finish then call_finish s.id reason ∷ [] else [])))

-- The lease of the session's node, if the session holds it, is freed.
abbrev pub free_lease : Session → Map String DesktopLease → Map String DesktopLease
free_lease s leases = elim (lookup s.node_id leases) [
  | none ↦ leases
  | some l ↦ ite (String_discrete l.session_id s.id) (delete s.node_id leases) leases
]

abbrev pub shut : Session → Session
shut s = record s { closed = true; ttl_armed = false }

-- `s` is in the table; only the first close does anything.
unfoldable pub close :
    Manager → Session → (reason : String) → (remove : Bool) → Manager × List Effect
close m s reason remove = if s.closed then (m, []) else (
  record m {
    sessions = if remove then delete s.id m.sessions else insert s.id (shut s) m.sessions;
    desktop_leases = free_lease s m.desktop_leases;
  },
  close_effects s reason,
)

unfoldable pub notify_close : Manager → (id reason : String) → Manager × List Effect
unfolding close
notify_close m id reason = elim (lookup id m.sessions) [
  | none ↦ (m, [])
  | some s ↦ close m s reason true
]

-- The opening timer of the session fires.
unfoldable pub expire : Manager → (id : String) → (now : ℕ) → Manager × List Effect
unfolding close
expire m id now = elim (lookup id m.sessions) [
  | none ↦ (m, [])
  | some s ↦
      if s.glued
      then (m, [])
      else close (set_session m (record s { expires_at = now })) (record s { expires_at = now })
          "opening-timeout" false
]

-- What `expire` schedules for the end of the retention.
unfoldable pub reclaim : Manager → (id : String) → Manager
reclaim m id = record m { sessions = delete id m.sessions }

unfoldable pub set_finish_fn : Manager → (id : String) → Manager
set_finish_fn m id = elim (lookup id m.sessions) [
  | none ↦ m
  | some s ↦ set_session m (record s { has_finish = true })
]

unfoldable pub set_notify_fn : Manager → (id : String) → Manager
set_notify_fn m id = elim (lookup id m.sessions) [
  | none ↦ m
  | some s ↦ set_session m (record s { has_notify = true })
]
