-- ===== src/Server/Session/Sweep.antt =====
-- One round of the janitor in src/server/internal/session/manager.go.
use xnc.Prelude.{
  ℕ, ◌+◌, String, Bool, true, ◌&&◌, Option, none, some, List, [], ◌∷◌, ◌++◌, ltb, if◌then◌else◌,
}
use xnc.Prelude.Map.{Map, lookup}
use xnc.Server.Session.{Session, Manager, DesktopLease, Effect, Kind, shell, desktop}
use xnc.Server.Session.Close.{notify_close}

-- `!ok || now.Sub(lastActivity) > DesktopLeaseTTL`
abbrev pub lease_lapsed : Manager → ℕ → DesktopLease → Bool
lease_lapsed m now l = elim (lookup l.session_id m.sessions) [
  | none ↦ true
  | some holder ↦ ltb (holder.last_activity + m.desktop_lease_ttl) now
]

-- The first loop: deleting from a map within its `range` is defined in Go.
unfoldable pub sweep_leases : Manager → ℕ → Map String DesktopLease → Map String DesktopLease
sweep_leases m now [] = []
sweep_leases m now ((node, l) ∷ ls) =
    let rest = sweep_leases m now ls in if lease_lapsed m now l then rest else (node, l) ∷ rest

abbrev pub idle_reason : ℕ → Session → Option String
idle_reason now s =
    if ltb 0 s.idle_timeout && ltb (s.last_activity + s.idle_timeout) now
    then some "idle-timeout"
    else none

-- The `switch s.Kind` of the second loop.
abbrev pub expiry_by_kind : Kind → ℕ → Session → Option String
expiry_by_kind shell now s =
    if ltb 0 s.max_lifetime && ltb (s.started_at + s.max_lifetime) now
    then some "max-lifetime"
    else idle_reason now s
expiry_by_kind desktop now s = idle_reason now s
expiry_by_kind _ now s = none

abbrev pub expiry : ℕ → Session → Option String
expiry now s = expiry_by_kind s.kind now s

unfoldable pub expirations : ℕ → Map String Session → List (String × String)
expirations now [] = []
expirations now ((id, s) ∷ m) =
    let rest = expirations now m in
    elim (expiry now s) [ none ↦ rest | some reason ↦ (id, reason) ∷ rest ]

unfoldable pub close_all : Manager → List (String × String) → Manager × List Effect
close_all m [] = (m, [])
close_all m ((id, reason) ∷ es) =
    let (m', out) = notify_close m id reason in
    let (m'', outs) = close_all m' es in (m'', out ++ outs)

unfoldable pub sweep : Manager → ℕ → Manager × List Effect
sweep m now =
    close_all (record m { desktop_leases = sweep_leases m now m.desktop_leases })
      (expirations now m.sessions)
