-- ===== src/Rtv/Arbiter/Away.antt =====
-- src/rtv/arbiter.go: a session without the lease of a node stays without it until it is granted or
-- takes it.
use mathlib.Core.Path.{subst}
use xnc.Prelude.{
  ℕ, ◌≡◌, ◌≢◌, ◌⊎◌, inl, inr, sym, ◌∙◌, String, some, List, [], ◌∷◌, All, String_discrete,
  Option-cases, arith,
}
use xnc.Prelude.Map.{lookup, lookup-insert, lookup-delete}
use xnc.Rtv.Arbiter.{Arbiter, CtrlLease, holder, drop_session}
use xnc.Rtv.Arbiter.Moves.{Call, grants, takes, releases, touches, drops, apply, apply-other_nodes}

-- The lease of the node, if there is one, is of another session.
abbrev pub IsAway : (node session : String) → Arbiter → Type 0
IsAway node s a = (l : CtrlLease) → lookup node a.leases ≡ some l → l.session_id ≢ s

-- Calls on any nodes at any times, one after the other.
abbrev pub run_calls : List (String × ℕ × Call) → Arbiter → Arbiter
run_calls [] a = a
run_calls ((n, now, c) ∷ cs) a = run_calls cs (apply a n now c)

-- A call that neither grants the node to the session nor takes it for the session.
abbrev pub Abstains : (node session : String) → String × ℕ × Call → Type 0
Abstains node s (n, now, grants u name) = (n ≢ node) ⊎ (u ≢ s)
Abstains node s (n, now, takes u name can) = (n ≢ node) ⊎ (u ≢ s)
Abstains node s (n, now, _) = Unit

apply-IsAway_other :
    (a : Arbiter) (node s n : String) (now : ℕ) (c : Call)
    → n ≢ node
    → IsAway node s a
    → IsAway node s (apply a n now c)
apply-IsAway_other a node s n now c other w l found =
    w l (sym (apply-other_nodes a n node now c other) ∙ found)

apply-IsAway_same :
    (a : Arbiter) (node s : String) (now : ℕ) (c : Call)
    → Abstains node s (node, now, c)
    → IsAway node s a
    → IsAway node s (apply a node now c)
unfolding apply
apply-IsAway_same a node s now (grants u name) h w l found = grind (arith, lookup-insert, w l)
apply-IsAway_same a node s now (takes u name can) h w l found = grind (arith, lookup-insert, w l)
apply-IsAway_same a node s now (releases u) h w l found = grind (arith, lookup-delete, w l)
apply-IsAway_same a node s now (touches u) h w l found = grind (arith, lookup-insert, w)
apply-IsAway_same a node s now (drops u) h w l found = grind (arith, lookup-delete, w l)

apply-IsAway :
    (a : Arbiter) (node s n : String) (now : ℕ) (c : Call)
    → Abstains node s (n, now, c)
    → IsAway node s a
    → IsAway node s (apply a n now c)
apply-IsAway a node s n now c h w = elim (String_discrete n node) [
  | yes same ↦
      rw (same)
        (apply-IsAway_same a node s now c (subst (λ m. Abstains node s (m, now, c)) same h) w)
  | no other ↦ apply-IsAway_other a node s n now c other w
]

pub run_calls-IsAway :
    (node s : String) (cs : List (String × ℕ × Call)) (a : Arbiter)
    → All (Abstains node s) cs
    → IsAway node s a
    → IsAway node s (run_calls cs a)
run_calls-IsAway node s [] a h w = w
run_calls-IsAway node s ((n, now, c) ∷ cs) a (one, more) w =
    run_calls-IsAway node s cs (apply a n now c) more (apply-IsAway a node s n now c one w)

pub drop_session-IsAway : (node s : String) (a : Arbiter) → IsAway node s (drop_session a node s)
unfolding drop_session
drop_session-IsAway node s a l found = grind (arith, lookup-delete)

-- A session that is away is no holder.
pub holder-IsAway :
    (node s : String) (a : Arbiter) (now : ℕ) → IsAway node s a → (holder a node now).0 ≡ s → s ≡ ""
unfolding holder
holder-IsAway node s a now w e = elim (Option-cases (lookup node a.leases)) [
  | inl gone ↦ ground arith
  | inr (l, found) ↦ let apart = w l found in ground arith
]
