-- ===== src/Server/Session/Tokens.antt =====
-- src/server/internal/session/manager.go: the token of a side attaches one connection, once.
use xnc.Prelude.{
  ℕ, ◌≤◌, ◌≡◌, ◌≢◌, ◌⊎◌, ◌↔◌, refl, ap, sym, ◌∙◌, inl, inr, String, Option, none, some, List, [],
  Option-cases, arith,
}
use xnc.Prelude.Map.{lookup, lookup-insert}
use xnc.Server.Session.{Session, Manager, ApiError, Effect, set_session}
use xnc.Server.Session.Attach.{
  Side, agent, client, unknown, want, with_ws, glue, attach_to, attach_id, api_err, not_found,
}
use xnc.Server.Session.Table.{IsKeyed, lookup-id}

-- A live session, and the side's own token while it is not used up; an unknown side has no token.
abbrev pub Accepts : Side → String → ℕ → Session → Type 0
Accepts side token now s = (now ≤ s.expires_at) × (token ≡ want side s) × (token ≢ "")

-- An attach is accepted exactly for a live session, with the token that the side has and that is
-- not used up; with no token, or on a side other than the agent and the client, it never is.
pub attach_to-Accepts :
    (m : Manager) (side : Side) (token : String) (ws now : ℕ) (s : Session)
    → ((attach_to m side token ws now s).1 ≡ none) ↔ Accepts side token now s
unfolding attach_to
attach_to-Accepts m agent token ws now s = ((λ h. ground arith), (λ h. ground arith))
attach_to-Accepts m client token ws now s = ((λ h. ground arith), (λ h. ground arith))
attach_to-Accepts m (unknown x) token ws now s = ((λ h. ground arith), (λ h. ground arith))

-- A refused attach changes nothing and starts nothing.
pub attach_id_refused :
    (m : Manager) (side : Side) (id token : String) (ws now : ℕ)
    → (attach_id m side id token ws now).1 ≢ none
    → ((attach_id m side id token ws now).0 ≡ m) × ((attach_id m side id token ws now).2 ≡ [])
unfolding attach_id
attach_id_refused m side id token ws now h = ground arith

attach_to-accepted :
    (m : Manager) (side : Side) (token : String) (ws now : ℕ) (s : Session)
    → (attach_to m side token ws now s).1 ≡ none
    → (attach_to m side token ws now s).0 ≡ set_session m (glue (with_ws side ws s))
unfolding attach_to
attach_to-accepted m side token ws now s h = ground arith

-- A used token on the session that it attached: 401, or 410 once the session is expired.
abbrev pub Replayed : Manager → ℕ → Session → Manager × Option ApiError × List Effect → Type 0
Replayed m later s r =
    (r ≡ (m, api_err 401 "UNAUTHORIZED", [])) ⊎ (r ≡ (m, api_err 410 "SESSION_EXPIRED", []))

attach_to-replay :
    (m : Manager) (side : Side) (token : String) (ws ws' now later : ℕ) (s : Session)
    → Accepts side token now s
    → Replayed m later s (attach_to m side token ws' later (glue (with_ws side ws s)))
unfolding attach_to
attach_to-replay m agent token ws ws' now later s h = ground arith
attach_to-replay m client token ws ws' now later s h = ground arith
attach_to-replay m (unknown x) token ws ws' now later s h = ground arith

glue-id : (side : Side) (ws : ℕ) (s : Session) → (glue (with_ws side ws s)).id ≡ s.id
glue-id agent ws s = ground arith
glue-id client ws s = ground arith
glue-id (unknown x) ws s = ground arith

attach_id-found :
    (m : Manager) (side : Side) (id token : String) (ws now : ℕ) (s : Session)
    → lookup id m.sessions ≡ some s
    → attach_id m side id token ws now ≡ attach_to m side token ws now s
unfolding attach_id
attach_id-found m side id token ws now s e = rw (e, attach_id) refl

attach_id-absent :
    (m : Manager) (side : Side) (id token : String) (ws now : ℕ)
    → lookup id m.sessions ≡ none
    → (attach_id m side id token ws now).1 ≡ not_found
unfolding attach_id
attach_id-absent m side id token ws now e = ground arith

-- In a table keyed by the ids of its sessions: after an attach that was accepted, the next
-- attach to the session with the same token and on the same side, at any time and with any
-- connection, is refused with 401, or with 410 once the session is expired, and changes nothing.
pub attach_id-replay :
    (m : Manager) (side : Side) (id token : String) (ws ws' now later : ℕ)
    → IsKeyed m.sessions
    → (attach_id m side id token ws now).1 ≡ none
    → let m' = (attach_id m side id token ws now).0 in
      let again = attach_id m' side id token ws' later in
      (again ≡ (m', api_err 401 "UNAUTHORIZED", []))
      ⊎ (again ≡ (m', api_err 410 "SESSION_EXPIRED", []))
attach_id-replay m side id token ws ws' now later w ok =
    elim (Option-cases (lookup id m.sessions)) [
      | inl e ↦ absurd (ground (arith, attach_id-absent m side id token ws now e))
      | inr (s, e) ↦
          let found = attach_id-found m side id token ws now s e in
          let fine = ap (λ r. r.1) (sym found) ∙ ok in
          let s' : Session = glue (with_ws side ws s) in
          let after = attach_to-accepted m side token ws now s fine in
          let here : s'.id ≡ id = glue-id side ws s ∙ lookup-id m.sessions id s w e in
          let m' = set_session m s' in
          let stored : lookup id m'.sessions ≡ some s' =
            ground (arith, lookup-insert s'.id id s' m.sessions) in
          rw (ap (λ r. r.0) found ∙ after, attach_id-found m' side id token ws' later s' stored)
            (attach_to-replay m' side token ws ws' now later s
              ((attach_to-Accepts m side token ws now s).0 fine))
    ]
