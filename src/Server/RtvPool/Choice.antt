-- ===== src/Server/RtvPool/Choice.antt =====
-- src/server/internal/rtvpool/pool.go: which relay a node is given, by `Assign` and `AssignData`.
mod Best
use native.Mathlib.Nat.{mul-le-mul_right, le_of_mul-le-mul_left}
use mathlib.Core.Path.{subst}
use xnc.Prelude.{
  ℕ, ◌*◌, ◌≤◌, ◌<◌, ◌≡◌, ◌⊎◌, ◌↔◌, refl, sym, ap, ◌∙◌, inl, inr, String, Bool, true, Option, none,
  some, List, [], ◌∷◌, if◌then◌else◌, String_discrete, Option-cases, Bool-cases, All, arith,
}
use xnc.Prelude.Map.{Map, lookup, insert, lookup-insert}
use xnc.Server.RtvPool.{
  RelayConn, Pool, Assignment, assignment_of, eligible, has_sdata, data_eligible, load_num,
  load_den, load_lt, keep, find_id, least_loaded, sticky_conn, pick, assign, assign_data,
}
use xnc.Server.RtvPool.Choice.Best.{LoadLe, In, least_loaded-le, least_loaded-In, find_id-In}

-- The choice among the eligible relays `cs`, for a node with the sticky relay `rid` if there is one.
abbrev pub Chosen : Map String String → String → List RelayConn → RelayConn → Type 0
Chosen sticky node cs c =
    In c cs
    × ((lookup node sticky ≡ some c.id) ⊎ ((sticky_conn sticky node cs ≡ none) × All (LoadLe c) cs))

sticky_conn-In :
    (sticky : Map String String) (node : String) (cs : List RelayConn) (f : RelayConn)
    → sticky_conn sticky node cs ≡ some f
    → In f cs × (lookup node sticky ≡ some f.id)
unfolding sticky_conn
sticky_conn-In sticky node cs f e = elim (Option-cases (lookup node sticky)) [
  | inl h ↦ absurd (ground arith)
  | inr (rid, h) ↦
      let (there, same) = find_id-In rid cs f (ground arith) in (there, h ∙ ap some (sym same))
]

same_some : {A : Type 0} {o : Option A} {x r : A} → o ≡ some x → o ≡ some r → x ≡ r
same_some h e = cc

pick_stuck :
    (sticky : Map String String) (node : String) (d : RelayConn) (ds : List RelayConn)
    (f : RelayConn)
    → sticky_conn sticky node (d ∷ ds) ≡ some f
    → pick sticky node (d ∷ ds) ≡ some (f, sticky)
unfolding pick
pick_stuck sticky node d ds f e = rw (e, pick) refl

pick_fresh :
    (sticky : Map String String) (node : String) (d : RelayConn) (ds : List RelayConn)
    → sticky_conn sticky node (d ∷ ds) ≡ none
    → let best = least_loaded d ds in
      pick sticky node (d ∷ ds) ≡ some (best, insert node best.id sticky)
unfolding pick
pick_fresh sticky node d ds e = rw (e, pick) refl

-- What a choice gives: the relay, and the sticky table in which the node has it.
abbrev pub Picked :
    Map String String → String → List RelayConn → RelayConn × Map String String → Type 0
Picked sticky node cs r = Chosen sticky node cs r.0 × (lookup node r.1 ≡ some r.0.id)

pick-Picked :
    (sticky : Map String String) (node : String) (cs : List RelayConn)
    (r : RelayConn × Map String String)
    → pick sticky node cs ≡ some r
    → Picked sticky node cs r
pick-Picked sticky node [] r e = unfold pick in cc
pick-Picked sticky node (d ∷ ds) r e = elim (Option-cases (sticky_conn sticky node (d ∷ ds))) [
  | inl h ↦
      let best = least_loaded d ds in
      let all = least_loaded-le d ds in
      subst (Picked sticky node (d ∷ ds)) (same_some (pick_fresh sticky node d ds h) e) (
        (least_loaded-In d ds, inr (h, (all.0, all.1))),
        ground (arith, lookup-insert node node best.id sticky),
      )
  | inr (f, h) ↦
      let (there, same) = sticky_conn-In sticky node (d ∷ ds) f h in
      subst (Picked sticky node (d ∷ ds)) (same_some (pick_stuck sticky node d ds f h) e)
        ((there, inl same), same)
]

first_or :
    (p : RelayConn → Bool) (cs : List RelayConn) (c d : RelayConn)
    → p d ≡ true
    → (In c cs → p c ≡ true)
    → In c (d ∷ cs)
    → p c ≡ true
first_or p cs c d e later (inl h) = ap p h ∙ e
first_or p cs c d e later (inr h) = later h

-- A relay that passed the first loop passed its test.
keep-In :
    (p : RelayConn → Bool) (m : Map String RelayConn) (c : RelayConn) → In c (keep p m) → p c ≡ true
unfolding keep
keep-In p [] c h = absurd h
keep-In p ((id, d) ∷ m) c h = elim (Bool-cases (p d)) [
  | inl e ↦ first_or p (keep p m) c d e (keep-In p m c) (rw e at h)
  | inr e ↦ keep-In p m c (rw e at h)
]

pick-none :
    (sticky : Map String String) (node : String) (cs : List RelayConn)
    → pick sticky node cs ≡ none
    → cs ≡ []
pick-none sticky node [] e = refl
pick-none sticky node (d ∷ ds) e = elim (Option-cases (sticky_conn sticky node (d ∷ ds))) [
  | inl h ↦ absurd (cc (pick_fresh sticky node d ds h))
  | inr (f, h) ↦ absurd (cc (pick_stuck sticky node d ds f h))
]

-- A relay that `Assign` hands out is eligible, it is the node's sticky relay or else one of the
-- least loaded of the eligible, and the node sticks to it from then on.
pub assign_lem :
    (m : Pool) (node : String) (now : ℕ) (a : Assignment)
    → (assign m node now).1 ≡ some a
    → (c : RelayConn) × (a ≡ assignment_of c)
      × (eligible now c ≡ true)
      × Chosen m.sticky node (keep (eligible now) m.conns) c
      × (lookup node (assign m node now).0.sticky ≡ some c.id)
assign_lem m node now a e = elim (Option-cases (pick m.sticky node (keep (eligible now) m.conns))) [
  | inl h ↦ absurd (unfold assign in ground arith)
  | inr (r, h) ↦
      let picked = pick-Picked m.sticky node (keep (eligible now) m.conns) r h in
      (
        r.0,
        unfold assign in ground arith,
        keep-In (eligible now) m.conns r.0 picked.0.0,
        picked.0,
        unfold assign in ground arith,
      )
]

-- The same for `AssignData`: the relay also has an endpoint for session data, and the table of
-- the media relays is left alone.
pub assign_data_lem :
    (m : Pool) (node : String) (now : ℕ) (a : Assignment)
    → (assign_data m node now).1 ≡ some a
    → (c : RelayConn) × (a ≡ assignment_of c)
      × (eligible now c ≡ true)
      × (has_sdata c.endpoints ≡ true)
      × Chosen m.data_sticky node (keep (data_eligible now) m.conns) c
      × (lookup node (assign_data m node now).0.data_sticky ≡ some c.id)
      × ((assign_data m node now).0.sticky ≡ m.sticky)
assign_data_lem m node now a e =
    elim (Option-cases (pick m.data_sticky node (keep (data_eligible now) m.conns))) [
      | inl h ↦ absurd (unfold assign_data in ground arith)
      | inr (r, h) ↦
          let picked = pick-Picked m.data_sticky node (keep (data_eligible now) m.conns) r h in
          let passed = keep-In (data_eligible now) m.conns r.0 picked.0.0 in
          (
            r.0,
            unfold assign_data in ground arith,
            ground arith,
            ground arith,
            picked.0,
            unfold assign_data in ground arith,
            unfold assign_data in ground arith,
          )
    ]

-- `Assign` finds no relay exactly if no connected relay is eligible, and then changes nothing.
pub assign-none_iff :
    (m : Pool) (node : String) (now : ℕ)
    → (((assign m node now).1 ≡ none) ↔ (keep (eligible now) m.conns ≡ []))
      × ((assign m node now).1 ≡ none → (assign m node now).0 ≡ m)
unfolding assign
assign-none_iff m node now = (
  (
    λ h. pick-none m.sticky node (keep (eligible now) m.conns) (ground arith),
    λ h. unfold pick in ground arith,
  ),
  λ h. ground arith,
)

pick_sticky :
    (sticky : Map String String) (node rid : String) (cs : List RelayConn) (c : RelayConn)
    → lookup node sticky ≡ some rid
    → find_id rid cs ≡ some c
    → pick sticky node cs ≡ some (c, sticky)
pick_sticky sticky node rid [] c e f = unfold find_id in cc
pick_sticky sticky node rid (d ∷ ds) c e f =
    pick_stuck sticky node d ds c (unfold sticky_conn in ground arith)

-- A node keeps its relay, whatever the loads, as long as the relay is eligible.
pub assign_sticky :
    (m : Pool) (node rid : String) (now : ℕ) (c : RelayConn)
    → lookup node m.sticky ≡ some rid
    → find_id rid (keep (eligible now) m.conns) ≡ some c
    → assign m node now ≡ (m, some (assignment_of c))
assign_sticky m node rid now c e f =
    let kept = pick_sticky m.sticky node rid (keep (eligible now) m.conns) c e f in
    unfold assign in ground arith
