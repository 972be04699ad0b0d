-- ===== src/Server/Api/Sound.antt =====
-- src/server/internal/api/rbac.go: what a passed check of a role says.
use xnc.Prelude.{
  ◌≤◌, ◌≡◌, String, Bool, false, ◌&&◌, not, none, some, arith, Option-cases, inl, inr,
}
use xnc.Server.Db.{Role, viewer, operator, owner, Node, Store}
use xnc.Server.Db.Membership.{get_member_role}
use xnc.Server.Db.Nodes.{get_node_by_id}
use xnc.Server.Api.{Env, go}
use xnc.Server.Api.Roles.{role_rank, is_disabled, authorize_node_role}

-- A viewer stands below an operator, who stands below an owner.
abbrev pub IsAtLeast : (role min_role : Role) → Type 0
IsAtLeast viewer viewer = Unit
IsAtLeast viewer _ = ⊥
IsAtLeast operator owner = ⊥
IsAtLeast operator _ = Unit
IsAtLeast owner _ = Unit

ranked : (r min_role : Role) → role_rank min_role ≤ role_rank r → IsAtLeast r min_role
ranked viewer viewer h = tt
ranked viewer operator h = omega arith
ranked viewer owner h = omega arith
ranked operator viewer h = tt
ranked operator operator h = tt
ranked operator owner h = omega arith
ranked owner viewer h = tt
ranked owner operator h = tt
ranked owner owner h = tt

-- A check that passes gives the node of the identifier and changes nothing; the user is a member of
-- its cluster with at least the role asked for; and the node is enabled unless that is ignored.
pub authorize_node_role_sound :
    (e : Env) (id : String) (min_role : Role) (ignore : Bool) (d d' : Store) (n : Node)
    → authorize_node_role e id min_role ignore d ≡ (go n, d')
    → (get_node_by_id id d ≡ some n)
      × (d' ≡ d)
      × ((not ignore && is_disabled n.status) ≡ false)
      × ((r : Role) × (get_member_role n.cluster_id e.user.id d ≡ some r)
          × (role_rank min_role ≤ role_rank r)
          × IsAtLeast r min_role)
unfolding authorize_node_role
authorize_node_role_sound e id min_role ignore d d' n h =
    elim (Option-cases (get_node_by_id id d)) [
      | inl absent ↦ absurd (ground arith)
      | inr (m, found) ↦ elim (Option-cases (get_member_role m.cluster_id e.user.id d)) [
        | inl stranger ↦ absurd (ground arith)
        | inr (r, row) ↦
            let enough : role_rank min_role ≤ role_rank r = ground arith in
            (
              ground arith,
              ground arith,
              ground arith,
              (r, ground arith, enough, ranked r min_role enough),
            )
      ]
    ]

-- A node that is there but whose cluster the user does not belong to answers as a node that is not
-- there.
pub authorize_node_role-hides :
    (e : Env) (id other : String) (min_role : Role) (ignore : Bool) (d : Store) (n : Node)
    → get_node_by_id id d ≡ some n
    → get_member_role n.cluster_id e.user.id d ≡ none
    → get_node_by_id other d ≡ none
    → authorize_node_role e id min_role ignore d ≡ authorize_node_role e other min_role ignore d
unfolding authorize_node_role
authorize_node_role-hides e id other min_role ignore d n found stranger absent = ground arith
