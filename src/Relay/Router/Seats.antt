-- ===== src/Relay/Router/Seats.antt =====
-- src/relay/cmd/xnc-relay/sessions.go: what an attach makes of a connection, seen from outside.
use xnc.Prelude.{
  ℕ, ◌≡◌, ◌⊎◌, refl, sym, ap, ◌∙◌, inl, inr, String, not, ◌&&◌, Option, none, some, List, [], ◌∷◌,
  Option-cases, Bool-cases, arith,
}
use xnc.Prelude.Map.{lookup, lookup-insert_same}
use xnc.Rtv.Ticket.Verifier.{Ticket}
use xnc.Relay.Router.{
  DataSession, SessionRouter, Side, agent_side, client_side, Effect, leg_refused, is_present, leg,
  set_leg, fresh_session, enter_session, join, attach,
}
use xnc.Relay.Router.Sound.{attach-fresh, attach-found, glue}

abbrev pub opposite : Side → Side
opposite agent_side = client_side
opposite client_side = agent_side

-- The leg of a side of an entry of the table; where there is no entry, no leg.
abbrev pub standing : Side → Option DataSession → Option ℕ
standing side none = none
standing side (some s) = leg side s

-- The connection is the leg of its side, which was free, and the other leg is as before; or another
-- connection is that leg, and this one is refused, which changes nothing.
abbrev pub Seated :
    Side → (session : String) → (c : ℕ) → (r r' : SessionRouter) → List Effect → Type 0
Seated side session c r r' effects =
    ((standing side (lookup session r.sessions) ≡ none)
      × (standing side (lookup session r'.sessions) ≡ some c)
      × (standing (opposite side) (lookup session r'.sessions)
          ≡ standing (opposite side) (lookup session r.sessions)))
    ⊎ ((taken : ℕ) × (standing side (lookup session r.sessions) ≡ some taken)
        × (r' ≡ r)
        × (effects ≡ leg_refused c ∷ []))

-- The same of a join to a session.
abbrev Joined : Side → (c : ℕ) → DataSession → SessionRouter → Type 0
Joined side c s r =
    ((leg side s ≡ none)
      × ((s' : DataSession) × (lookup s.sid (join side c s r).0.sessions ≡ some s')
          × (leg side s' ≡ some c)
          × (leg (opposite side) s' ≡ leg (opposite side) s)))
    ⊎ ((taken : ℕ) × (leg side s ≡ some taken) × (join side c s r ≡ (r, leg_refused c ∷ [])))

join-Joined : (side : Side) (c : ℕ) (s : DataSession) (r : SessionRouter) → Joined side c s r
unfolding join
join-Joined agent_side c s r = elim (Option-cases s.agent) [
  | inr (taken, e) ↦ inr (taken, e, ground arith)
  | inl free ↦ inl (
    free,
    elim (Bool-cases (is_present s.clnt && not s.glued)) [
      | inl both ↦ (
        glue agent_side c s,
        ground (arith, lookup-insert_same s.sid (glue agent_side c s) r.sessions),
        refl,
        refl,
      )
      | inr waits ↦ (
        set_leg agent_side c s,
        ground (arith, lookup-insert_same s.sid (set_leg agent_side c s) r.sessions),
        refl,
        refl,
      )
    ],
  )
]
join-Joined client_side c s r = elim (Option-cases s.clnt) [
  | inr (taken, e) ↦ inr (taken, e, ground arith)
  | inl free ↦ inl (
    free,
    elim (Bool-cases (is_present s.agent && not s.glued)) [
      | inl both ↦ (
        glue client_side c s,
        ground (arith, lookup-insert_same s.sid (glue client_side c s) r.sessions),
        refl,
        refl,
      )
      | inr waits ↦ (
        set_leg client_side c s,
        ground (arith, lookup-insert_same s.sid (set_leg client_side c s) r.sessions),
        refl,
        refl,
      )
    ],
  )
]

no_leg : (side : Side) (tk : Ticket) (r : SessionRouter) → leg side (fresh_session tk r) ≡ none
no_leg agent_side tk r = refl
no_leg client_side tk r = refl

standing-some :
    (side : Side) (o : Option DataSession) (s : DataSession)
    → o ≡ some s
    → standing side o ≡ leg side s
standing-some side o s e = ap (standing side) e

standing-none : (side : Side) (o : Option DataSession) → o ≡ none → standing side o ≡ none
standing-none side o e = ap (standing side) e

-- In a router whose entries stand under their own identifiers.
pub attach-Seated :
    (side : Side) (tk : Ticket) (c : ℕ) (r : SessionRouter)
    → ((s : DataSession) → lookup tk.session_id r.sessions ≡ some s → s.sid ≡ tk.session_id)
    → Seated side tk.session_id c r (attach side tk c r).0 (attach side tk c r).1
attach-Seated side tk c r keyed = elim (Option-cases (lookup tk.session_id r.sessions)) [
  | inl absent ↦
      let s = fresh_session tk r in
      elim (join-Joined side c s (enter_session s r)) [
        | inr (taken, e, same) ↦ absurd (ground (arith, no_leg side tk r))
        | inl (free, (s', found, mine, other)) ↦
            let entry =
              ap (λ o. lookup tk.session_id o.0.sessions) (attach-fresh side tk c r absent)
              ∙ found in
            inl (
              standing-none side _ absent,
              standing-some side _ s' entry ∙ mine,
              standing-some (opposite side) _ s' entry
                  ∙ other
                  ∙ no_leg (opposite side) tk r
                  ∙ sym (standing-none (opposite side) _ absent),
            )
      ]
  | inr (s, before) ↦ elim (join-Joined side c s r) [
    | inr (taken, e, same) ↦
        let made = attach-found side tk c r s before ∙ same in
        inr (taken, standing-some side _ s before ∙ e, ap (λ o. o.0) made, ap (λ o. o.1) made)
    | inl (free, (s', found, mine, other)) ↦
        let entry =
          ap (λ o. lookup tk.session_id o.0.sessions) (attach-found side tk c r s before)
          ∙ ap (λ k. lookup k (join side c s r).0.sessions) (sym (keyed s before))
          ∙ found in
        inl (
          standing-some side _ s before ∙ free,
          standing-some side _ s' entry ∙ mine,
          standing-some (opposite side) _ s' entry
              ∙ other
              ∙ sym (standing-some (opposite side) _ s before),
        )
  ]
]
