-- ===== src/Relay/Router/Once.antt =====
-- src/relay/cmd/xnc-relay/sessions.go: each side of a session attaches once, and both sides meet.
use xnc.Prelude.{ℕ, ◌≡◌, inl, inr, refl, sym, ap, ◌∙◌, true, some, List, [], ◌∷◌, Option-cases}
use xnc.Prelude.Map.{lookup, lookup-insert_same}
use xnc.Rtv.Ticket.Verifier.{Ticket}
use xnc.Relay.Router.{
  DataSession, SessionRouter, Side, agent_side, client_side, Effect, leg_refused,
  new_session_router, is_present, leg, set_leg, put_session, fresh_session, enter_session, join,
  attach,
}
use xnc.Relay.Router.Runs.{Runs}
use xnc.Relay.Router.Sound.{IsSound, glue, join-cases, attach-found, attach-fresh, set_leg-sid}
use xnc.Relay.Router.Closing.{Runs-IsSound, new_session_router-IsSound}

leg-set_leg :
    (side : Side) (c : ℕ) (s : DataSession) → is_present (leg side (set_leg side c s)) ≡ true
leg-set_leg agent_side c s = refl
leg-set_leg client_side c s = refl

leg-glue : (side : Side) (c : ℕ) (s : DataSession) → is_present (leg side (glue side c s)) ≡ true
leg-glue agent_side c s = refl
leg-glue client_side c s = refl

lookup-put_session :
    (s t : DataSession) (r : SessionRouter)
    → t.sid ≡ s.sid
    → lookup s.sid (put_session t r).sessions ≡ some t
lookup-put_session s t r e =
    ap (λ k. lookup k (put_session t r).sessions) (sym e) ∙ lookup-insert_same t.sid t r.sessions

join-leg :
    (side : Side) (c : ℕ) (s : DataSession) (r : SessionRouter)
    → lookup s.sid r.sessions ≡ some s
    → (t : DataSession) × (lookup s.sid (join side c s r).0.sessions ≡ some t)
      × (is_present (leg side t) ≡ true)
join-leg side c s r found = elim (join-cases side c s r) [
  | inl (present, e) ↦ (s, rw (e) found, present)
  | inr (missing, inl e) ↦ (
    set_leg side c s,
    rw (e) (lookup-put_session s (set_leg side c s) r (set_leg-sid side c s)),
    leg-set_leg side c s,
  )
  | inr (missing, inr (joined, waiting, e)) ↦ (
    glue side c s,
    rw (e) (lookup-put_session s (glue side c s) r (set_leg-sid side c s)),
    leg-glue side c s,
  )
]

join-refused :
    (side : Side) (c : ℕ) (s : DataSession) (r : SessionRouter)
    → is_present (leg side s) ≡ true
    → join side c s r ≡ (r, leg_refused c ∷ [])
unfolding join
join-refused side c s r e = rw (join, e) refl

attach-leg :
    (side : Side) (tk : Ticket) (c : ℕ) (r : SessionRouter)
    → IsSound r
    → (t : DataSession) × (lookup tk.session_id (attach side tk c r).0.sessions ≡ some t)
      × (is_present (leg side t) ≡ true)
attach-leg side tk c r w = elim (Option-cases (lookup tk.session_id r.sessions)) [
  | inl e ↦
      let s = fresh_session tk r in
      rw (attach-fresh side tk c r e)
        (join-leg side c s (enter_session s r) (lookup-insert_same s.sid s r.sessions))
  | inr (s, e) ↦
      let same = w.keyed tk.session_id s e in
      let (t, found, present) = join-leg side c s r (ap (λ k. lookup k r.sessions) same ∙ e) in
      rw (attach-found side tk c r s e)
        (t, ap (λ k. lookup k (join side c s r).0.sessions) (sym same) ∙ found, present)
]

-- Once a side has attached, any other connection of that side for that session is refused and
-- changes nothing.
pub attach-again :
    (before : List Effect) (r : SessionRouter) (side : Side) (tk tk' : Ticket) (c c' : ℕ)
    → Runs new_session_router before r
    → tk'.session_id ≡ tk.session_id
    → let r' = (attach side tk c r).0 in attach side tk' c' r' ≡ (r', leg_refused c' ∷ [])
attach-again before r side tk tk' c c' start_up same =
    let r' = (attach side tk c r).0 in
    let (t, found, present) =
      attach-leg side tk c r (Runs-IsSound new_session_router-IsSound start_up) in
    attach-found side tk' c' r' t (ap (λ k. lookup k r'.sessions) same ∙ found)
    ∙ join-refused side c' t r' present
