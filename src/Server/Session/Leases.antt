-- ===== src/Server/Session/Leases.antt =====
-- src/server/internal/session/manager.go: who gets the input lease of a node, and how the take of
-- the manager agrees with that of the relay's arbiter, src/rtv/arbiter.go.
use xnc.Prelude.{ℕ, ◌≡◌, ◌⊎◌, String, true, false, Option, none, some, arith}
use xnc.Prelude.Map.{lookup, lookup-insert}
use xnc.Rtv.Arbiter.{
  Arbiter, CtrlLease, lease_alive, Reason as RelayReason, capability, granted as relay_granted,
  held as relay_held, cooldown as relay_cooldown, taken as relay_taken,
}
use xnc.Server.Session.{Session, Manager, DesktopLease, holder_fresh}
use xnc.Server.Session.Create.{grant_desktop_lease}
use xnc.Server.Session.Control
use xnc.Server.Session.Control.{
  Reason, no_session, granted, held, cooldown, taken, take_desktop_control, release_desktop_control,
  desktop_control_of,
}

-- After a take that succeeds the node is controlled by the session that took; one that fails
-- changes nothing, and its reason is a missing session or the cooldown.
pub take_desktop_control_lem :
    (m : Manager) (node session lease_id : String) (now : ℕ)
    → let (m', ok, reason) = take_desktop_control m node session lease_id now in
      ((ok ≡ true) × ((desktop_control_of m' node).0 ≡ session))
      ⊎ ((ok ≡ false) × (m' ≡ m) × ((reason ≡ no_session) ⊎ (reason ≡ cooldown)))
unfolding take_desktop_control desktop_control_of
take_desktop_control_lem m node session lease_id now = grind (arith, lookup-insert)

-- The passive grant at the creation of a session never takes a lease from a live holder, and it
-- gives the node to the new session otherwise.
pub grant_desktop_lease_lem :
    (m : Manager) (s : Session) (lease_id : String) (now : ℕ)
    → let (m', ok) = grant_desktop_lease m s lease_id now in
      ((ok ≡ true)
        × (Control.holder_alive m s.node_id now ≡ false)
        × ((desktop_control_of m' s.node_id).0 ≡ s.id))
      ⊎ ((ok ≡ false) × (Control.holder_alive m s.node_id now ≡ true) × (m' ≡ m))
unfolding grant_desktop_lease desktop_control_of
grant_desktop_lease_lem m s lease_id now = grind (arith, lookup-insert)

-- The two leases of a node stand for the same state: nobody holds it, or the same session does,
-- stolen at the same time and alive on both sides.
abbrev pub SameLease : Manager → ℕ → Option DesktopLease → ℕ → Option CtrlLease → Type 0
SameLease m now none ttl none = Unit
SameLease m now (some l) ttl (some c) =
    (l.session_id ≡ c.session_id)
    × (l.last_steal_at ≡ c.last_steal_at)
    × (holder_fresh m now l ≡ lease_alive ttl c now)
SameLease m now _ ttl _ = ⊥

abbrev pub Agree : Manager → Arbiter → String → ℕ → Type 0
Agree m a node now =
    (m.desktop_steal_cooldown ≡ a.cooldown)
    × SameLease m now (lookup node m.desktop_leases) a.ttl (lookup node a.leases)

abbrev pub relay_reason : Reason → RelayReason
relay_reason no_session = capability
relay_reason granted = relay_granted
relay_reason held = relay_held
relay_reason cooldown = relay_cooldown
relay_reason taken = relay_taken
