-- ===== src/Rtv/Arbiter/Moves.antt =====
-- src/rtv/arbiter.go, seen from outside: who holds the control of a node, and how a call moves it.
use xnc.Prelude.{
  ℕ, String, ◌≡◌, ◌≢◌, Bool, true, Option, none, some, if◌then◌else◌, arith, Option-cases, inl, inr,
  String_discrete,
}
use xnc.Prelude.Map.{lookup, lookup-insert, lookup-delete}
use xnc.Rtv.Arbiter.{Arbiter, CtrlLease, lease_alive, grant, take, release, touch, drop_session}

-- The session whose lease of the node is alive.
abbrev pub live_session : ℕ → Option CtrlLease → ℕ → Option String
live_session ttl none now = none
live_session ttl (some l) now = if lease_alive ttl l now then some l.session_id else none

abbrev pub owner : Arbiter → String → ℕ → Option String
owner a node now = live_session a.ttl (lookup node a.leases) now

-- The calls of the methods that change the arbiter.
pub data Call : Type 0 where
  grants : (session name : String) → Call
  takes : (session name : String) (can_control : Bool) → Call
  releases : (session : String) → Call
  touches : (session : String) → Call
  drops : (session : String) → Call

unfoldable pub apply : Arbiter → String → ℕ → Call → Arbiter
unfolding grant take release touch drop_session
apply a node now (grants s n) = (grant a node s n now).0
apply a node now (takes s n can) = (take a node s n can now).0
apply a node now (releases s) = release a node s
apply a node now (touches s) = touch a node s now
apply a node now (drops s) = drop_session a node s

abbrev pub caller : Call → String
caller (grants s n) = s
caller (takes s n can) = s
caller (releases s) = s
caller (touches s) = s
caller (drops s) = s

-- The lease of the node, alive or lapsed, names the session.
abbrev pub Leases : Arbiter → (node session : String) → Type 0
Leases a node s = (l : CtrlLease) × (lookup node a.leases ≡ some l) × (l.session_id ≡ s)

abbrev pub MayGain : Arbiter → (node : String) → (now : ℕ) → Call → Type 0
MayGain a node now (grants s n) = owner a node now ≡ none
MayGain a node now (takes s n can) = can ≡ true
MayGain a node now (releases s) = ⊥
MayGain a node now (touches s) = (owner a node now ≡ none) × Leases a node s
MayGain a node now (drops s) = ⊥

abbrev pub MayLose : String → Call → Type 0
MayLose s (grants u n) = ⊥
MayLose s (takes u n can) = (u ≢ s) × (can ≡ true)
MayLose s (releases u) = u ≡ s
MayLose s (touches u) = ⊥
MayLose s (drops u) = u ≡ s

-- A call for one node leaves the leases of every other node as they are.
pub apply-other_nodes :
    (a : Arbiter) (node other : String) (now : ℕ) (c : Call)
    → node ≢ other
    → lookup other (apply a node now c).leases ≡ lookup other a.leases
unfolding apply
apply-other_nodes a node other now (grants s n) h = grind (arith, lookup-insert)
apply-other_nodes a node other now (takes s n can) h = grind (arith, lookup-insert)
apply-other_nodes a node other now (releases s) h = grind (arith, lookup-delete)
apply-other_nodes a node other now (touches s) h = grind (arith, lookup-insert)
apply-other_nodes a node other now (drops s) h = grind (arith, lookup-delete)

-- A session gains the control of a node by its own call alone: a grant while nobody holds it, a
-- take with the capability, or a touch of its own lapsed lease.
pub owner-apply_gain :
    (a : Arbiter) (node s : String) (now : ℕ) (c : Call)
    → owner a node now ≢ some s
    → owner (apply a node now c) node now ≡ some s
    → (caller c ≡ s) × MayGain a node now c
unfolding apply
owner-apply_gain a node s now (grants u n) h e = grind (arith, lookup-insert)
owner-apply_gain a node s now (takes u n can) h e = grind (arith, lookup-insert)
owner-apply_gain a node s now (releases u) h e = grind (arith, lookup-delete)
owner-apply_gain a node s now (touches u) h e = elim (Option-cases (lookup node a.leases)) [
  | inl gone ↦ absurd (ground arith)
  | inr (l, found) ↦ elim (String_discrete l.session_id u) [
    | yes same ↦ (grind (arith, lookup-insert), (grind (arith, lookup-insert), (l, found, same)))
    | no other ↦ absurd (ground arith)
  ]
]
owner-apply_gain a node s now (drops u) h e = grind (arith, lookup-delete)

-- The holder loses the control of a node within a call only if it gives the control up itself or
-- another session with the capability takes it.
pub owner-apply_loss :
    (a : Arbiter) (node s : String) (now : ℕ) (c : Call)
    → owner a node now ≡ some s
    → owner (apply a node now c) node now ≢ some s
    → MayLose s c
unfolding apply
owner-apply_loss a node s now (grants u n) h e = grind (arith, lookup-insert)
owner-apply_loss a node s now (takes u n can) h e = grind (arith, lookup-insert)
owner-apply_loss a node s now (releases u) h e = grind (arith, lookup-delete)
owner-apply_loss a node s now (touches u) h e = grind (arith, lookup-insert)
owner-apply_loss a node s now (drops u) h e = grind (arith, lookup-delete)
