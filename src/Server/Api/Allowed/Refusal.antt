-- ===== src/Server/Api/Allowed/Refusal.antt =====
-- src/server/internal/api: the steps at which a handler refuses, with every table as it was.
use xnc.Prelude.{
  ◌≡◌, String, Bool, true, false, ◌&&◌, none, some, List, [], ◌∷◌, arith, Option-cases, Bool-cases,
  inl, inr,
}
use xnc.Prelude.Rows.{some_row, first}
use xnc.Server.Db.{Role, owner, Cluster, ClusterMember, Node, Store}
use xnc.Server.Db.Membership.{is_member, is_owner, get_member_role}
use xnc.Server.Db.Nodes.{get_node_by_id}
use xnc.Server.Api.{Env, Action, Outcome, go, halt, ◌>>=◌}
use xnc.Server.Api.Roles.{authorize_node_role}
use xnc.Server.Api.Enroll.{authorize_cluster_owner}
use xnc.Server.Api.Move.{require_owner, move_between}
use xnc.Server.Api.Writes.{next}
use xnc.Server.Api.Allowed.{is_owner_of, on_cluster}

-- A handler that ended early and changed nothing.
abbrev pub Refused : {A : Type 0} → Outcome A × Store → Store → Type 0
Refused (go a, d') d = ⊥
Refused (halt r, d') d = d' ≡ d

pub record Refuses {A : Type 0} (d : Store) (m : Action A) : Type 0 where
  pub refused : Refused (m d) d

module _ {A B : Type 0} where
  first_step :
      (o : Outcome A × Store) (f : A → Action B) (d : Store) → Refused o d → Refused (next o f) d
  first_step (go a, d') f d h = absurd h
  first_step (halt r, d') f d h = h

module _ {A B : Type 0} {d : Store} where
  -- What refuses at its first step refuses.
  pub bind-Refuses : (m : Action A) (f : A → Action B) → Refuses d m → Refuses d (m >>= f)
  bind-Refuses m f h = record { refused = first_step (m d) f d h.refused }

module _ {A B : Type 0} where
  read_step :
      (o : Outcome A × Store) (f : A → Action B) (d : Store)
      → o.1 ≡ d
      → ((a : A) → Refuses d (f a))
      → Refused (next o f) d
  read_step (go a, d') f d e h = rw e (h a).refused
  read_step (halt r, d') f d e h = e

  -- After a step that changes nothing the rest has to refuse.
  pub reads-Refuses :
      {d : Store} (m : Action A) (f : A → Action B)
      → (m d).1 ≡ d
      → ((a : A) → Refuses d (f a))
      → Refuses d (m >>= f)
  reads-Refuses {d} m f e h = record { refused = read_step (m d) f d e h }

outcome_unchanged : {A : Type 0} (o : Outcome A × Store) (d : Store) → Refused o d → o.1 ≡ d
outcome_unchanged (go a, d') d h = absurd h
outcome_unchanged (halt r, d') d h = h

pub unchanged : {A : Type 0} {d : Store} {m : Action A} → Refuses d m → (m d).1 ≡ d
unchanged {d} {m} h = outcome_unchanged (m d) d h.refused

-- The first row of an owner is a row.
first-some_row :
    (p : ClusterMember → Bool) (ms : List ClusterMember) (m : ClusterMember)
    → first p ms ≡ some m
    → is_owner m.role ≡ true
    → some_row (λ x. p x && is_owner x.role) ms ≡ true
unfolding first some_row
first-some_row p [] m h o = cc
first-some_row p (x ∷ ms) m h o = ground (arith, first-some_row p ms m)

pub authorize_cluster_owner-Refuses :
    (e : Env) (id : String) (d : Store)
    → on_cluster e id d (λ c. is_owner_of e c d) ≡ false
    → Refuses d (authorize_cluster_owner e id)
unfolding authorize_cluster_owner
authorize_cluster_owner-Refuses e id d h = record { refused = ground arith }

pub authorize_node_role-Refuses :
    (e : Env) (id : String) (b : Bool) (d : Store) (n : Node)
    → get_node_by_id id d ≡ some n
    → is_owner_of e n.cluster_id d ≡ false
    → Refuses d (authorize_node_role e id owner b)
unfolding authorize_node_role get_member_role
authorize_node_role-Refuses e id b d n found other =
    elim (Option-cases (first (is_member n.cluster_id e.user.id) d.members)) [
      | inl absent ↦ record { refused = ground arith }
      | inr (m, row) ↦ record {
        refused = ground (arith, first-some_row (is_member n.cluster_id e.user.id) d.members m row);
      }
    ]

pub authorize_node_role-Refuses_absent :
    (e : Env) (id : String) (b : Bool) (d : Store)
    → get_node_by_id id d ≡ none
    → Refuses d (authorize_node_role e id owner b)
unfolding authorize_node_role
authorize_node_role-Refuses_absent e id b d absent = record { refused = ground arith }

-- The role that a move asks for.
role-some_row :
    (c u : String) (d : Store) (r : Role)
    → get_member_role c u d ≡ some r
    → is_owner r ≡ true
    → some_row (λ m. is_member c u m && is_owner m.role) d.members ≡ true
unfolding get_member_role
role-some_row c u d r h o = elim (Option-cases (first (is_member c u) d.members)) [
  | inl absent ↦ ground arith
  | inr (m, row) ↦ ground (arith, first-some_row (is_member c u) d.members m row)
]

pub require_owner-Refuses :
    (e : Env) (place c : String) (d : Store)
    → is_owner_of e c d ≡ false
    → Refuses d (require_owner e place c)
require_owner-Refuses e place c d h = elim (Option-cases (get_member_role c e.user.id d)) [
  | inl absent ↦ record { refused = ground arith }
  | inr (r, row) ↦ record { refused = ground (arith, role-some_row c e.user.id d r row) }
]

require_owner-reads : (e : Env) (place c : String) (d : Store) → (require_owner e place c d).1 ≡ d
unfolding get_member_role
require_owner-reads e place c d = ground arith

pub move_between-Refuses :
    (e : Env) (n : Node) (c : Cluster) (d : Store)
    → (is_owner_of e n.cluster_id d && is_owner_of e c.id d) ≡ false
    → Refuses d (move_between e n c)
unfolding move_between
move_between-Refuses e n c d h = elim (Bool-cases (is_owner_of e n.cluster_id d)) [
  | inr other ↦
      let first = require_owner-Refuses e "source role" n.cluster_id d other in
      search (bind-Refuses, first)
  | inl here ↦
      let second = require_owner-Refuses e "target role" c.id d (ground arith) in
      search (reads-Refuses, bind-Refuses, require_owner-reads, second)
]
