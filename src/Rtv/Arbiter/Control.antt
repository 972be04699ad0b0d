-- ===== src/Rtv/Arbiter/Control.antt =====
-- src/rtv/arbiter.go: what `Take`, `Grant`, `Release` and `Holder` promise to a viewer.
use xnc.Prelude.{
  ℕ, ◌+◌, ◌≤◌, ◌<◌, String, ◌≡◌, ◌≢◌, ◌⊎◌, ◌↔◌, refl, Bool, true, false, Option, none, some, List,
  [], ◌∷◌, All, arith,
}
use xnc.Prelude.Map.{lookup, lookup-insert, lookup-delete}
use xnc.Rtv.Arbiter.{Arbiter, CtrlLease, lease_alive, grant, take, release, holder}
use xnc.Rtv.Arbiter.Moves.{owner}

-- After a take that succeeds, `Holder` at that moment names the session that took.
pub holder-take :
    (a : Arbiter) (node s name : String) (can : Bool) (now : ℕ)
    → (take a node s name can now).1 ≡ true
    → (holder (take a node s name can now).0 node now).0 ≡ s
unfolding take holder
holder-take a node s name can now h = grind (arith, lookup-insert)

-- Why a take by `s` is refused: no capability, or the live lease of another session that was
-- stolen less than the cooldown ago.
abbrev pub Refusal : Arbiter → String → String → Bool → ℕ → Type 0
Refusal a node s can now =
    (can ≡ false)
    ⊎ ((l : CtrlLease) × (lookup node a.leases ≡ some l)
        × (l.session_id ≢ s)
        × (lease_alive a.ttl l now ≡ true)
        × (now < l.last_steal_at + a.cooldown))

-- A take is refused exactly for one of these reasons, and a refused take changes nothing.
pub take_refused :
    (a : Arbiter) (node s name : String) (can : Bool) (now : ℕ)
    → (((take a node s name can now).1 ≡ false) ↔ Refusal a node s can now)
      × ((take a node s name can now).1 ≡ false → (take a node s name can now).0 ≡ a)
unfolding take
take_refused a node s name can now = (((λ h. grind arith), (λ h. grind arith)), λ h. grind arith)

-- `Grant` hands out the control exactly when nobody holds it; otherwise it changes nothing.
pub grant-owner :
    (a : Arbiter) (node s name : String) (now : ℕ)
    → let (b, ok) = grant a node s name now in
      ((owner a node now ≡ none) × (ok ≡ true) × (owner b node now ≡ some s))
      ⊎ ((owner a node now ≢ none) × (ok ≡ false) × (b ≡ a))
unfolding grant
grant-owner a node s name now = grind (arith, lookup-insert)

-- The release of the holder leaves the node idle; a release by any other session is a no-op.
pub release_lem :
    (a : Arbiter) (node s : String) (now : ℕ)
    → ((owner a node now ≡ some s) → owner (release a node s) node now ≡ none)
      × ((owner a node now ≢ some s) → owner (release a node s) node now ≡ owner a node now)
unfolding release
release_lem a node s now = grind (arith, lookup-delete)

-- An attempt to take the control of a node: session, name, capability and time.
pub record Attempt : Type 0 where
  pub session : String
  pub shown_name : String
  pub capable : Bool
  pub at : ℕ

pub attempts : Arbiter → String → List Attempt → Arbiter
attempts a node [] = a
attempts a node (t ∷ ts) = attempts (take a node t.session t.shown_name t.capable t.at).0 node ts

-- An attempt of another session within the cooldown.
abbrev pub InWindow : String → ℕ → ℕ → Attempt → Type 0
InWindow s from limit t = (t.session ≢ s) × (from ≤ t.at) × (t.at < limit)

-- The lease after a steal at `from`.
abbrev pub StolenAt : String → ℕ → Option CtrlLease → Type 0
StolenAt s from none = ⊥
StolenAt s from (some l) = (l.session_id ≡ s) × (l.last_activity ≡ from) × (l.last_steal_at ≡ from)

abbrev pub JustStolen : Arbiter → String → String → ℕ → Type 0
JustStolen a node s from = StolenAt s from (lookup node a.leases)

take-InWindow :
    (a : Arbiter) (node s : String) (from : ℕ) (t : Attempt)
    → JustStolen a node s from
    → a.cooldown ≤ a.ttl
    → InWindow s from (from + a.cooldown) t
    → (take a node t.session t.shown_name t.capable t.at).0 ≡ a
unfolding take
take-InWindow a node s from t st le w = grind arith

take-JustStolen :
    (a : Arbiter) (node s name u : String) (now : ℕ)
    → owner a node now ≡ some u
    → u ≢ s
    → (take a node s name true now).1 ≡ true
    → JustStolen (take a node s name true now).0 node s now
      × ((take a node s name true now).0.cooldown ≡ a.cooldown)
      × ((take a node s name true now).0.ttl ≡ a.ttl)
unfolding take
take-JustStolen a node s name u now o ne ok = grind (arith, lookup-insert)

attempts-InWindow :
    (a : Arbiter) (node s : String) (from : ℕ) (ts : List Attempt)
    → JustStolen a node s from
    → a.cooldown ≤ a.ttl
    → All (InWindow s from (from + a.cooldown)) ts
    → attempts a node ts ≡ a
unfolding attempts
attempts-InWindow a node s from [] st le w = refl
attempts-InWindow a node s from (t ∷ ts) st le w =
    rw (take-InWindow a node s from t st le w.0) (attempts-InWindow a node s from ts st le w.1)

-- A session that stole a live lease keeps the control against every attempt of other sessions
-- until the cooldown is over: those attempts change nothing. The cooldown is at most the TTL.
pub attempts-take_stolen :
    (a : Arbiter) (node s name u : String) (now : ℕ) (ts : List Attempt)
    → a.cooldown ≤ a.ttl
    → owner a node now ≡ some u
    → u ≢ s
    → (take a node s name true now).1 ≡ true
    → All (InWindow s now (now + a.cooldown)) ts
    → attempts (take a node s name true now).0 node ts ≡ (take a node s name true now).0
attempts-take_stolen a node s name u now ts le o ne ok w =
    let (st, c, t) = take-JustStolen a node s name u now o ne ok in
    attempts-InWindow _ node s now ts st (rw (c, t) le) (rw c w)
