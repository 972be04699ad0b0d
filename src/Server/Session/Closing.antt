-- ===== src/Server/Session/Closing.antt =====
-- src/server/internal/session/manager.go: what a close leaves behind, and what the janitor closes.
use xnc.Prelude.{
  ℕ, ◌≡◌, ◌≢◌, ◌⊎◌, ◌+◌, ◌<◌, refl, inl, inr, String, Bool, true, false, Option, none, some, List,
  [], ◌∷◌, if◌then◌else◌, ite, String_discrete, Option-cases, Bool-cases, arith,
}
use xnc.Prelude.Map.{Map, lookup, get, lookup-insert, lookup-delete}
use xnc.Server.Session.{
  Session, Manager, DesktopLease, Kind, exec, shell, file, tunnel, screen, desktop, other,
}
use xnc.Server.Session.Close.{notify_close, expire}
use xnc.Server.Session.Sweep.{sweep, sweep_leases, expiry, expiry_by_kind, expirations, close_all}
use xnc.Server.Session.Evolves.Methods.{notify_close-Evolves}
use xnc.Server.Session.Limits.{Evolves-IsKeyed}
use xnc.Server.Session.Table.{IsKeyed, lookup-id}

-- In a table keyed by the ids of its sessions, a session that was not closed before is gone
-- after `NotifyClose`, and it controls its node no more.
pub notify_close_lem :
    (m : Manager) (id reason : String) (s : Session)
    → IsKeyed m.sessions
    → lookup id m.sessions ≡ some s
    → s.closed ≡ false
    → let m' = (notify_close m id reason).0 in
      (lookup id m'.sessions ≡ none)
      × ((l : DesktopLease) → lookup s.node_id m'.desktop_leases ≡ some l → l.session_id ≢ id)
unfolding notify_close
notify_close_lem m id reason s w e fresh =
    let eid = lookup-id m.sessions id s w e in
    (grind (arith, lookup-delete), λ l el. grind (arith, lookup-delete))

-- What is left of an entry of the table that `NotifyClose` is called for.
abbrev drop_open : Option Session → Option Session
drop_open none = none
drop_open (some s) = if s.closed then some s else none

notify_close-lookup :
    (m : Manager) (id reason k : String)
    → IsKeyed m.sessions
    → lookup k (notify_close m id reason).0.sessions
      ≡ ite (String_discrete id k) (drop_open (lookup k m.sessions)) (lookup k m.sessions)
unfolding notify_close
notify_close-lookup m id reason k w = elim (Option-cases (lookup id m.sessions)) [
  | inl e ↦ grind (arith, lookup-delete)
  | inr (s, e) ↦
      let eid = lookup-id m.sessions id s w e in ground (arith, lookup-delete s.id k m.sessions)
]

notify_close-IsKeyed :
    (m : Manager) (id reason : String)
    → IsKeyed m.sessions
    → IsKeyed (notify_close m id reason).0.sessions
notify_close-IsKeyed m id reason w = Evolves-IsKeyed w (notify_close-Evolves m id reason)

-- An entry for which a close does nothing: there is none, or it is closed.
abbrev IsSilent : Option Session → Type 0
IsSilent none = Unit
IsSilent (some s) = s.closed ≡ true

silent :
    (m : Manager) (id again : String)
    → IsSilent (lookup id m.sessions)
    → notify_close m id again ≡ (m, [])
unfolding notify_close
silent m id again h = ground arith

drop_open-IsSilent : (o : Option Session) → IsSilent (drop_open o)
drop_open-IsSilent none = tt
drop_open-IsSilent (some s) = elim (Bool-cases s.closed) [
  | inl e ↦ ground arith
  | inr e ↦ ground arith
]

notify_close-IsSilent :
    (m : Manager) (id reason : String)
    → IsKeyed m.sessions
    → IsSilent (lookup id (notify_close m id reason).0.sessions)
notify_close-IsSilent m id reason w =
    rw (notify_close-lookup m id reason id w)
      (ground (arith, drop_open-IsSilent (lookup id m.sessions)))

expire-IsSilent :
    (m : Manager) (id : String) (now : ℕ) (s : Session)
    → IsKeyed m.sessions
    → lookup id m.sessions ≡ some s
    → s.glued ≡ false
    → IsSilent (lookup id (expire m id now).0.sessions)
unfolding expire
expire-IsSilent m id now s w e open_yet =
    let eid = lookup-id m.sessions id s w e in grind (arith, lookup-insert)

-- In a table keyed by the ids of its sessions a session is closed once: after a close by
-- `NotifyClose`, or by the end of the opening TTL while it is not glued, a further close sends
-- nothing, calls nothing and changes nothing.
pub notify_close_once :
    (m : Manager) (id reason again : String) (now : ℕ) (s : Session)
    → IsKeyed m.sessions
    → lookup id m.sessions ≡ some s
    → let closed = (notify_close m id reason).0 in
      let timed_out = (expire m id now).0 in
      (notify_close closed id again ≡ (closed, []))
      × (s.glued ≡ false → notify_close timed_out id again ≡ (timed_out, []))
notify_close_once m id reason again now s w e = (
  silent _ id again (notify_close-IsSilent m id reason w),
  λ open_yet. silent _ id again (expire-IsSilent m id now s w e open_yet),
)

-- The entry `k` after the janitor closed the listed sessions.
has_key : String → List (String × String) → Bool
has_key k [] = false
has_key k ((id, reason) ∷ es) = ite (String_discrete id k) true (has_key k es)

close_all-lookup :
    (m : Manager) (es : List (String × String)) (k : String)
    → IsKeyed m.sessions
    → lookup k (close_all m es).0.sessions
      ≡ (if has_key k es then drop_open (lookup k m.sessions) else lookup k m.sessions)
unfolding close_all has_key
close_all-lookup m [] k w = refl
close_all-lookup m ((id, reason) ∷ es) k w = ground (
  arith,
  notify_close-lookup m id reason k w,
  close_all-lookup (notify_close m id reason).0 es k (notify_close-IsKeyed m id reason w),
)

is_due : ℕ → Option Session → Bool
is_due now none = false
is_due now (some s) = elim (expiry now s) [ none ↦ false | some reason ↦ true ]

has_key-expirations :
    (now : ℕ) (m : Map String Session) (k : String)
    → IsKeyed m
    → has_key k (expirations now m) ≡ is_due now (lookup k m)
unfolding has_key expirations is_due get
has_key-expirations now [] k w = refl
has_key-expirations now ((j, s) ∷ m) k w = elim (Option-cases (expiry now s)) [
  | inl e ↦ ground (arith, has_key-expirations now m k w.2, has_key-expirations now m j w.2)
  | inr (r, e) ↦ ground (arith, has_key-expirations now m k w.2)
]

abbrev after_sweep : ℕ → Option Session → Option Session
after_sweep now none = none
after_sweep now (some s) = elim (expiry now s) [
  | none ↦ some s
  | some reason ↦ if s.closed then some s else none
]

due_entry :
    (now : ℕ) (o : Option Session) → (if is_due now o then drop_open o else o) ≡ after_sweep now o
unfolding is_due
due_entry now none = refl
due_entry now (some s) = elim (Option-cases (expiry now s)) [
  | inl e ↦ ground arith
  | inr (r, e) ↦ ground arith
]

entry-sweep :
    (m : Manager) (now : ℕ) (k : String)
    → IsKeyed m.sessions
    → lookup k (sweep m now).0.sessions ≡ after_sweep now (lookup k m.sessions)
unfolding sweep
entry-sweep m now k w =
    rw
      (
        close_all-lookup (record m { desktop_leases = sweep_leases m now m.desktop_leases })
            (expirations now m.sessions) k w,
        has_key-expirations now m.sessions k w,
      )
      (due_entry now (lookup k m.sessions))

-- A time limit of 0 is no limit.
abbrev pub IsIdle : ℕ → Session → Type 0
IsIdle now s = (0 < s.idle_timeout) × (s.last_activity + s.idle_timeout < now)

abbrev pub IsOld : ℕ → Session → Type 0
IsOld now s = (0 < s.max_lifetime) × (s.started_at + s.max_lifetime < now)

-- The policy by the kind of the session.
abbrev pub IsDue : ℕ → Kind → Session → Type 0
IsDue now shell s = IsOld now s ⊎ IsIdle now s
IsDue now desktop s = IsIdle now s
IsDue now _ s = ⊥

-- An entry before and after a round.
abbrev pub Swept : ℕ → Option Session → Option Session → Type 0
Swept now none o = o ≡ none
Swept now (some s) o =
    (IsDue now s.kind s × (s.closed ≡ false) × (o ≡ none))
    ⊎ (((IsDue now s.kind s → ⊥) ⊎ (s.closed ≡ true)) × (o ≡ some s))

expiry-IsDue :
    (now : ℕ) (k : Kind) (s : Session)
    → ((expiry_by_kind k now s ≡ none) × (IsDue now k s → ⊥))
      ⊎ ((why : String) × (expiry_by_kind k now s ≡ some why) × IsDue now k s)
expiry-IsDue now shell s = ground arith
expiry-IsDue now desktop s = ground arith
expiry-IsDue now exec s = inl (refl, λ x. x)
expiry-IsDue now file s = inl (refl, λ x. x)
expiry-IsDue now tunnel s = inl (refl, λ x. x)
expiry-IsDue now screen s = inl (refl, λ x. x)
expiry-IsDue now (other n) s = inl (refl, λ x. x)

Swept-after_sweep : (now : ℕ) (o : Option Session) → Swept now o (after_sweep now o)
Swept-after_sweep now none = refl
Swept-after_sweep now (some s) = elim (expiry-IsDue now s.kind s) [
  | inl (e, fine) ↦ inr (inl fine, ground arith)
  | inr (why, e, due) ↦ elim (Bool-cases s.closed) [
    | inl closed ↦ inr (inr closed, ground arith)
    | inr open_yet ↦ inl (due, open_yet, ground arith)
  ]
]

-- A round of the janitor, on a table keyed by the ids of its sessions, removes exactly the open
-- sessions that are due: a shell session past its lifetime or idle too long, and a desktop session idle
-- too long, where a limit of 0 is none. Every other entry stays as it is.
pub lookup-sweep :
    (m : Manager) (now : ℕ) (k : String)
    → IsKeyed m.sessions
    → Swept now (lookup k m.sessions) (lookup k (sweep m now).0.sessions)
lookup-sweep m now k w = rw (entry-sweep m now k w) (Swept-after_sweep now (lookup k m.sessions))
