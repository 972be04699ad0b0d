-- ===== src/Server/RtvPool/Choice/Best.antt =====
-- src/server/internal/rtvpool/pool.go: the least loaded of a list of relays.
use native.Mathlib.Nat.{mul-le-mul_right, le_of_mul-le-mul_left}
use xnc.Prelude.{
  ◌*◌, ◌≤◌, ◌<◌, ◌≡◌, ◌⊎◌, refl, ◌∙◌, inl, inr, String, some, List, [], ◌∷◌, if◌then◌else◌,
  String_discrete, Bool-cases, All, arith,
}
use xnc.Server.RtvPool.{RelayConn, load_num, load_den, load_lt, find_id, least_loaded}

-- The load of `c` is at most that of `d`.
abbrev pub LoadLe : RelayConn → RelayConn → Type 0
LoadLe c d = load_num c * load_den d ≤ load_num d * load_den c

load_den_pos : (c : RelayConn) → 0 < load_den c
unfolding load_den
load_den_pos c = ground arith

LoadLe-trans : (b c d : RelayConn) → LoadLe b c → LoadLe c d → LoadLe b d
LoadLe-trans b c d h k =
    le_of_mul-le-mul_left {k = load_den c}
      (omega (arith, mul-le-mul_right (load_den d) h, mul-le-mul_right (load_den b) k))
      (load_den_pos c)

-- The better of two relays, as the loop chooses it.
abbrev better : RelayConn → RelayConn → RelayConn
better best c = if load_lt c best then c else best

better-le : (best c : RelayConn) → LoadLe (better best c) best × LoadLe (better best c) c
better-le best c = elim (Bool-cases (load_lt c best)) [
  | inl e ↦ rw e (ground arith, omega arith)
  | inr e ↦ rw e (omega arith, ground arith)
]

pub least_loaded-le :
    (best : RelayConn) (cs : List RelayConn)
    → LoadLe (least_loaded best cs) best × All (LoadLe (least_loaded best cs)) cs
unfolding least_loaded
least_loaded-le best [] = (omega arith, tt)
least_loaded-le best (c ∷ cs) =
    let next = better best c in
    let (le, all) = least_loaded-le next cs in
    let r = least_loaded next cs in
    let (le_best, le_c) = better-le best c in
    (LoadLe-trans r next best le le_best, (LoadLe-trans r next c le le_c, all))

-- The relay is one of the list.
abbrev pub In : RelayConn → List RelayConn → Type 0
In c [] = ⊥
In c (d ∷ ds) = (c ≡ d) ⊎ In c ds

In-better :
    (r next best c : RelayConn) (cs : List RelayConn)
    → (next ≡ best) ⊎ (next ≡ c)
    → In r (next ∷ cs)
    → In r (best ∷ c ∷ cs)
In-better r next best c cs (inl e) (inl h) = inl (h ∙ e)
In-better r next best c cs (inr e) (inl h) = inr (inl (h ∙ e))
In-better r next best c cs e (inr h) = inr (inr h)

better-cases : (best c : RelayConn) → (better best c ≡ best) ⊎ (better best c ≡ c)
better-cases best c = elim (Bool-cases (load_lt c best)) [ inl e ↦ inr (rw e) | inr e ↦ inl (rw e) ]

pub least_loaded-In :
    (best : RelayConn) (cs : List RelayConn) → In (least_loaded best cs) (best ∷ cs)
unfolding least_loaded
least_loaded-In best [] = inl refl
least_loaded-In best (c ∷ cs) =
    In-better _ (better best c) best c cs (better-cases best c) (least_loaded-In (better best c) cs)

pub find_id-In :
    (id : String) (cs : List RelayConn) (c : RelayConn)
    → find_id id cs ≡ some c
    → In c cs × (c.id ≡ id)
unfolding find_id
find_id-In id [] c e = cc
find_id-In id (d ∷ ds) c e = elim (String_discrete d.id id) [
  | yes h ↦ (inl (ground arith), ground arith)
  | no h ↦ let (there, same) = find_id-In id ds c (ground arith) in (inr there, same)
]
