-- ===== src/Server/Session/Control.antt =====
-- The control of a desktop in src/server/internal/session/manager.go: take, release, who holds it.
use xnc.Prelude.{
  ℕ, ◌+◌, String, Bool, true, false, Option, none, some, ltb, if◌then◌else◌, ite, String_discrete,
}
use xnc.Prelude.Map.{lookup, insert, delete}
use xnc.Server.Session.{Session, Manager, DesktopLease, holder_fresh}

-- The reasons that `TakeDesktopControl` returns.
pub data Reason : Type 0 where
  no_session granted held cooldown taken : Reason

-- holderAliveLocked
abbrev pub holder_alive : Manager → (node : String) → ℕ → Bool
holder_alive m node now = elim (lookup node m.desktop_leases) [
  | none ↦ false
  | some l ↦ holder_fresh m now l
]

abbrev pub set_lease : Manager → String → DesktopLease → Manager
set_lease m node l = record m { desktop_leases = insert node l m.desktop_leases }

-- The last assignment, to the lease `l` as it stands then; the lease id stays.
abbrev pub hand_to : DesktopLease → Session → String → ℕ → DesktopLease
hand_to l s session now = record l { session_id = session; user_id = s.user_id; taken_at = now }

unfoldable pub take_lease :
    Manager
    → (node : String) → Session
    → (session lease_id : String) → ℕ
    → Option DesktopLease
    → Manager × Bool × Reason
take_lease m node s session lease_id now none = (
  set_lease m node (record {
    session_id = session;
    lease_id = lease_id;
    user_id = s.user_id;
    taken_at = now;
    last_steal_at = 0;
  }),
  true,
  granted,
)
take_lease m node s session lease_id now (some l) =
    ite (String_discrete l.session_id session) (m, true, held)
      (if holder_alive m node now
        then (if ltb now (l.last_steal_at + m.desktop_steal_cooldown)
            then (m, false, cooldown)
            else (
              set_lease m node (hand_to (record l { last_steal_at = now }) s session now),
              true,
              taken,
            ))
        else (set_lease m node (hand_to l s session now), true, taken))

-- The lease id that a first grant would draw is an argument.
unfoldable pub take_desktop_control :
    Manager → (node session lease_id : String) → ℕ → Manager × Bool × Reason
unfolding take_lease
take_desktop_control m node session lease_id now = elim (lookup session m.sessions) [
  | none ↦ (m, false, no_session)
  | some s ↦
      ite (String_discrete s.id session)
        (take_lease m node s session lease_id now (lookup node m.desktop_leases))
        (m, false, no_session)
]

unfoldable pub release_desktop_control : Manager → (node session : String) → Manager
release_desktop_control m node session = elim (lookup node m.desktop_leases) [
  | none ↦ m
  | some l ↦
      ite (String_discrete l.session_id session)
        (record m { desktop_leases = delete node m.desktop_leases }) m
]

-- The session and its user; two empty texts stand for the zero values of an idle node.
unfoldable pub desktop_control_of : Manager → (node : String) → String × String
desktop_control_of m node = elim (lookup node m.desktop_leases) [
  | none ↦ ("", "")
  | some l ↦ (l.session_id, l.user_id)
]

unfoldable pub desktop_lease_of : Manager → (node : String) → String × String
desktop_lease_of m node = elim (lookup node m.desktop_leases) [
  | none ↦ ("", "")
  | some l ↦ (l.session_id, l.lease_id)
]
