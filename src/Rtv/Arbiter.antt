-- ===== src/Rtv/Arbiter.antt =====
-- src/rtv/arbiter.go: the control leases of a relay, one at most for each node.
-- A time is the number of nanoseconds since Go's zero time, so 0 is the zero `time.Time`.
-- `now.Sub(t) <= d` is written `now ≤ t + d` and `now.Sub(t) < d` is `now < t + d`: the same
-- tests, also for `t` after `now`, as long as no difference reaches the 292 years at which
-- `Sub` saturates. A method runs under the mutex, so it is one step; it takes the clock's
-- reading as `now`, and one that changes the arbiter returns the new one.
pub mod Moves
pub mod Away
pub mod Control
mod Tests
use xnc.Prelude.{
  ℕ, ◌+◌, ◌*◌, String, Bool, true, false, Option, none, some, [], ltb, leb, if◌then◌else◌, ite,
  String_discrete,
}
use xnc.Prelude.Map.{Map, lookup, insert, delete}

pub record CtrlLease : Type 0 where
  pub session_id : String
  pub name : String
  pub taken_at : ℕ
  pub last_activity : ℕ
  pub last_steal_at : ℕ

pub record Arbiter : Type 0 where
  pub leases : Map String CtrlLease
  pub ttl : ℕ
  pub cooldown : ℕ

-- The reasons that `Take` returns.
pub data Reason : Type 0 where
  capability granted held cooldown taken : Reason

abbrev pub second : ℕ
second = 1000000000

abbrev pub new_arbiter : Arbiter
new_arbiter = record { leases = []; ttl = 60 * second; cooldown = 3 * second }

abbrev pub lease_alive : ℕ → CtrlLease → ℕ → Bool
lease_alive ttl l now = leb now (l.last_activity + ttl)

-- aliveLocked
unfoldable pub is_alive : Arbiter → String → ℕ → Bool
is_alive a node now = elim (lookup node a.leases) [
  | none ↦ false
  | some l ↦ lease_alive a.ttl l now
]

abbrev pub new_lease : String → String → ℕ → CtrlLease
new_lease session name now = record {
  session_id = session;
  name = name;
  taken_at = now;
  last_activity = now;
  last_steal_at = 0;
}

abbrev pub set_lease : Arbiter → String → CtrlLease → Arbiter
set_lease a node l = record a { leases = insert node l a.leases }

unfoldable pub grant : Arbiter → (node session name : String) (now : ℕ) → Arbiter × Bool
unfolding is_alive
grant a node session name now =
    if is_alive a node now
    then (a, false)
    else (set_lease a node (new_lease session name now), true)

-- The last assignment of `Take`, to the lease `l` as it stands then.
abbrev pub hand_to : CtrlLease → String → String → ℕ → CtrlLease
hand_to l session name now = record l {
  session_id = session;
  name = name;
  taken_at = now;
  last_activity = now;
}

-- `Take` once the lease of the node is read.
unfoldable pub take_lease :
    Arbiter → (node session name : String) (now : ℕ) → Option CtrlLease → Arbiter × Bool × Reason
take_lease a node session name now none =
    (set_lease a node (new_lease session name now), true, granted)
take_lease a node session name now (some l) =
    ite (String_discrete l.session_id session)
      (set_lease a node (record l { last_activity = now }), true, held)
      (if lease_alive a.ttl l now
        then (if ltb now (l.last_steal_at + a.cooldown) then (a, false, cooldown) else (
          set_lease a node (hand_to (record l { last_steal_at = now }) session name now),
          true,
          taken,
        ))
        else (set_lease a node (hand_to l session name now), true, taken))

unfoldable pub take :
    Arbiter → (node session name : String) (can_control : Bool) (now : ℕ) → Arbiter × Bool × Reason
unfolding take_lease
take a node session name can_control now =
    if can_control
    then take_lease a node session name now (lookup node a.leases)
    else (a, false, capability)

unfoldable pub release : Arbiter → (node session : String) → Arbiter
release a node session = elim (lookup node a.leases) [
  | none ↦ a
  | some l ↦
      ite (String_discrete l.session_id session) (record a { leases = delete node a.leases }) a
]

-- The session and the name; two empty texts stand for "idle".
unfoldable pub holder : Arbiter → (node : String) (now : ℕ) → String × String
holder a node now = elim (lookup node a.leases) [
  | none ↦ ("", "")
  | some l ↦ if lease_alive a.ttl l now then (l.session_id, l.name) else ("", "")
]

unfoldable pub touch : Arbiter → (node session : String) (now : ℕ) → Arbiter
touch a node session now = elim (lookup node a.leases) [
  | none ↦ a
  | some l ↦
      ite (String_discrete l.session_id session)
        (set_lease a node (record l { last_activity = now })) a
]

unfoldable pub drop_session : Arbiter → (node session : String) → Arbiter
drop_session a node session = elim (lookup node a.leases) [
  | none ↦ a
  | some l ↦
      ite (String_discrete l.session_id session) (record a { leases = delete node a.leases }) a
]
