-- ===== src/Server/Api/Names.antt =====
-- src/server/internal/api/enroll_handlers.go, node_move_handlers.go: the loop that looks for a name
-- ends, and with a name that is free.
use xnc.Prelude.{
  ℕ, zero, suc, ◌≤◌, ◌<◌, ◌≡◌, ◌⊎◌, refl, String, true, Bool-cases, none, some, length, arith,
  Option-cases, inl, inr,
}
use xnc.Prelude.Itoa.{suffixed, suffixed_inj, suffixed-base}
use xnc.Prelude.Rows.{without, first}
use xnc.Prelude.Rows.Counts.{length-without, first-without}
use xnc.Server.Db.{Store}
use xnc.Server.Db.Nodes.{is_named, get_node_by_name_in_cluster}
use xnc.Server.Api.{Env, site, go}
use xnc.Server.Api.Enroll.{unique_name, pick_name}

-- The tables without the nodes of a name in a cluster.
abbrev forget : String → String → Store → Store
forget c name d = record d { nodes = without (is_named c name) d.nodes }

forget_other :
    (c name other : String) (d : Store)
    → (name ≡ other → ⊥)
    → get_node_by_name_in_cluster c name (forget c other d) ≡ get_node_by_name_in_cluster c name d
unfolding get_node_by_name_in_cluster
forget_other c name other d apart =
    first-without (is_named c name) (is_named c other) d.nodes (λ n. ground arith)

-- A name that is no candidate does not matter.
unique_name-forget :
    (fuel : ℕ) (e : Env) (c base name other : String) (i : ℕ) (d : Store)
    → (name ≡ other → ⊥)
    → ((j : ℕ) → i ≤ j → suffixed base j ≡ other → ⊥)
    → unique_name fuel e c base name i (forget c other d) ≡ unique_name fuel e c base name i d
unfolding unique_name
unique_name-forget zero e c base name other i d apart later = refl
unique_name-forget (suc fuel) e c base name other i d apart later = ground (
  arith,
  forget_other c name other d apart,
  unique_name-forget fuel e c base (suffixed base i) other (suc i) d (later i (omega arith))
      (λ j h. later j (omega arith)),
)

unique_name-total :
    (fuel : ℕ) (e : Env) (c base name : String) (i : ℕ) (d : Store)
    → length d.nodes < fuel
    → ((j : ℕ) → i ≤ j → suffixed base j ≡ name → ⊥)
    → unique_name fuel e c base name i d ≡ none
    → ⊥
unfolding unique_name get_node_by_name_in_cluster
unique_name-total zero e c base name i d enough later h = omega arith
unique_name-total (suc fuel) e c base name i d enough later h =
    elim (Option-cases (first (is_named c name) d.nodes)) [
      | inl free ↦ ground arith
      | inr (t, taken) ↦ ground (
        arith,
        unique_name-forget fuel e c base (suffixed base i) name (suc i) d (later i (omega arith))
            (λ j k. later j (omega arith)),
        unique_name-total fuel e c base (suffixed base i) (suc i) (forget c name d)
            (omega (arith, length-without (is_named c name) d.nodes t taken))
            (λ j k eq. omega (arith, suffixed_inj base j i eq)),
      )
    ]

unique_name-free :
    (fuel : ℕ) (e : Env) (c base name : String) (i : ℕ) (d : Store) (found : String)
    → unique_name fuel e c base name i d ≡ some found
    → (get_node_by_name_in_cluster c found d ≡ none)
      ⊎ ((j : ℕ) × (i ≤ j) × (e.fails (site "name" j) ≡ true))
unfolding unique_name
unique_name-free zero e c base name i d found h = absurd (ground arith)
unique_name-free (suc fuel) e c base name i d found h =
    elim (Bool-cases (e.fails (site "name" i))) [
      | inl down ↦ inr (i, omega arith, down)
      | inr up ↦ elim (Option-cases (get_node_by_name_in_cluster c name d)) [
        | inl free ↦ inl (ground arith)
        | inr (n, taken) ↦
            elim (unique_name-free fuel e c base (suffixed base i) (suc i) d found (ground arith)) [
              | inl free ↦ inl free
              | inr (j, le, down) ↦ inr (j, omega arith, down)
            ]
      ]
    ]

-- The loop always ends with a name and changes no table, whichever queries fail; the name is free in
-- the cluster, unless a query for a name failed.
pub pick_name-finds :
    (e : Env) (c base : String) (d : Store)
    → (name : String) × (pick_name e c base d ≡ (go name, d))
      × ((get_node_by_name_in_cluster c name d ≡ none)
          ⊎ ((j : ℕ) × (2 ≤ j) × (e.fails (site "name" j) ≡ true)))
pick_name-finds e c base d =
    let fuel = suc (length d.nodes) in
    elim (Option-cases (unique_name fuel e c base base 2 d)) [
      | inl stuck ↦ absurd (
          unique_name-total fuel e c base base 2 d (omega arith) (λ j k. suffixed-base base j)
            stuck)
      | inr (name, h) ↦ (name, ground arith, unique_name-free fuel e c base base 2 d name h)
    ]
