-- ===== src/Relay/Router/Phases.antt =====
-- src/relay/cmd/xnc-relay/sessions.go: what the router promises for one session, as a machine of three
-- phases.
use xnc.Prelude.{
  ℕ, ◌≡◌, inl, inr, refl, sym, ap, ◌∙◌, String, true, false, Option, none, some, List, ◌∷◌,
  String_discrete, arith, Option-cases, Bool-cases, if◌then◌else◌,
}
use xnc.Prelude.Map.{
  lookup, delete, lookup-insert_same, lookup-insert_other, lookup-delete_same, lookup-delete_other,
}
use xnc.Rtv.Ticket.Verifier.{Ticket}
use xnc.Relay.Router.{
  DataSession, SessionRouter, Side, agent_side, client_side, Effect, new_session_router, is_present,
  leg, set_leg, put_session, fresh_session, enter_session, join, attach, expire_unjoined, has_ended,
  pump_end, kill,
}
use xnc.Relay.Router.Runs.{Step, Runs, attaches, expires, pump_ends, kills, reconnects}
use xnc.Relay.Router.Sound.{
  IsJoined, IsSettled, IsSound, glue, join-cases, attach-found, attach-fresh, set_leg-sid,
  set_leg-glued,
}
use xnc.Relay.Router.Closing.{
  Runs-IsSound, new_session_router-IsSound, pump_end-found, pump_end-over, pump_end-cases,
}

-- Not in the table, with a leg that waits for the other, or with both and a pump.
pub data Phase : Type 0 where
  absent waiting joined : Phase

pub data PhaseStep : Phase → Phase → Type 0 where
  stays : (p : Phase) → PhaseStep p p
  opens : PhaseStep absent waiting
  meets : PhaseStep waiting joined
  gives_up : PhaseStep waiting absent
  ends : PhaseStep joined absent

abbrev pub session_phase : Option DataSession → Phase
session_phase none = absent
session_phase (some s) = if s.glued then joined else waiting

abbrev pub phase : String → SessionRouter → Phase
phase k r = session_phase (lookup k r.sessions)

stays-same : (p q : Phase) → q ≡ p → PhaseStep p q
stays-same p q e = rw (e) (stays p)

leaves : (p : Phase) → PhaseStep p absent
leaves absent = stays absent
leaves waiting = gives_up
leaves joined = ends

phase-delete :
    (k sid : String) (r : SessionRouter) (done : List ℕ)
    → PhaseStep (phase k r) (phase k (record r { sessions = delete sid r.sessions; ended = done }))
phase-delete k sid r done = elim (String_discrete sid k) [
  | yes same ↦
      rw (ap (λ j. lookup k (delete j r.sessions)) same ∙ lookup-delete_same k r.sessions)
        (leaves (phase k r))
  | no other ↦ rw (lookup-delete_other sid k r.sessions other) (stays (phase k r))
]

phase-put_session :
    (k : String) (s t : DataSession) (r : SessionRouter)
    → t.sid ≡ s.sid
    → lookup s.sid r.sessions ≡ some s
    → PhaseStep (session_phase (some s)) (session_phase (some t))
    → PhaseStep (phase k r) (phase k (put_session t r))
phase-put_session k s t r e found step = elim (String_discrete t.sid k) [
  | yes same ↦
      rw
        (
          ap (λ j. lookup j (put_session t r).sessions) (sym same)
              ∙ lookup-insert_same t.sid t r.sessions,
          ap (λ j. lookup j r.sessions) (sym same ∙ e) ∙ found,
        )
        step
  | no other ↦ rw (lookup-insert_other t.sid k t r.sessions other) (stays (phase k r))
]

glued-joined : (s : DataSession) → s.glued ≡ true → session_phase (some s) ≡ joined
glued-joined s e = rw (e) refl

glued-waiting : (s : DataSession) → s.glued ≡ false → session_phase (some s) ≡ waiting
glued-waiting s e = rw (e) refl

join-PhaseStep :
    (k : String) (side : Side) (c : ℕ) (s : DataSession) (r : SessionRouter)
    → lookup s.sid r.sessions ≡ some s
    → PhaseStep (phase k r) (phase k (join side c s r).0)
join-PhaseStep k side c s r found = elim (join-cases side c s r) [
  | inl (present, e) ↦ rw (e) (stays (phase k r))
  | inr (missing, inl e) ↦ rw (e) (
      phase-put_session k s (set_leg side c s) r (set_leg-sid side c s) found (
        stays-same (session_phase (some s)) (session_phase (some (set_leg side c s)))
          (rw (set_leg-glued side c s) refl)))
  | inr (missing, inr (both, single, e)) ↦ rw (e) (
      phase-put_session k s (glue side c s) r (set_leg-sid side c s) found
        (rw (glued-waiting s single, glued-joined (glue side c s) refl) meets))
]

-- The first leg of a session cannot be its second.
fresh-alone :
    (side : Side) (c : ℕ) (tk : Ticket) (r : SessionRouter)
    → IsJoined (glue side c (fresh_session tk r))
    → ⊥
fresh-alone agent_side c tk r both = ground arith
fresh-alone client_side c tk r both = ground arith

fresh-legless :
    (side : Side) (tk : Ticket) (r : SessionRouter)
    → is_present (leg side (fresh_session tk r)) ≡ true
    → ⊥
fresh-legless agent_side tk r present = ground arith
fresh-legless client_side tk r present = ground arith

join-fresh :
    (side : Side) (c : ℕ) (tk : Ticket) (r : SessionRouter)
    → let s = fresh_session tk r in
      (join side c s (enter_session s r)).0 ≡ put_session (set_leg side c s) (enter_session s r)
join-fresh side c tk r =
    let s = fresh_session tk r in
    elim (join-cases side c s (enter_session s r)) [
      | inl (present, e) ↦ absurd (fresh-legless side tk r present)
      | inr (missing, inl e) ↦ ap (λ o. o.0) e
      | inr (missing, inr (both, single, e)) ↦ absurd (fresh-alone side c tk r both)
    ]

-- The session of the ticket starts to wait, and no other changes.
fresh-PhaseStep :
    (k : String) (side : Side) (tk : Ticket) (c : ℕ) (r : SessionRouter)
    → lookup tk.session_id r.sessions ≡ none
    → let s = fresh_session tk r in
      PhaseStep (phase k r) (phase k (put_session (set_leg side c s) (enter_session s r)))
fresh-PhaseStep k side tk c r e =
    let s = fresh_session tk r in
    let t = set_leg side c s in
    let r' = put_session t (enter_session s r) in
    let sid : t.sid ≡ tk.session_id = set_leg-sid side c s in
    elim (String_discrete tk.session_id k) [
      | yes same ↦
          let before = ap session_phase (ap (λ j. lookup j r.sessions) (sym same) ∙ e) in
          let after =
            ap session_phase (
              ap (λ j. lookup j r'.sessions) (sym (sid ∙ same))
              ∙ lookup-insert_same t.sid t (enter_session s r).sessions)
            ∙ glued-waiting t (set_leg-glued side c s) in
          rw (before, after) opens
      | no other ↦ stays-same (phase k r) (phase k r') (
          ap session_phase (
            lookup-insert_other t.sid k t (enter_session s r).sessions
              (λ same. other (sym sid ∙ same))
            ∙ lookup-insert_other tk.session_id k s r.sessions other))
    ]

attach-PhaseStep :
    (k : String) (side : Side) (tk : Ticket) (c : ℕ) (r : SessionRouter)
    → IsSound r
    → PhaseStep (phase k r) (phase k (attach side tk c r).0)
attach-PhaseStep k side tk c r w = elim (Option-cases (lookup tk.session_id r.sessions)) [
  | inr (s, e) ↦
      rw (attach-found side tk c r s e) (
        join-PhaseStep k side c s r (ap (λ j. lookup j r.sessions) (w.keyed tk.session_id s e) ∙ e))
  | inl e ↦
      rw (attach-fresh side tk c r e, join-fresh side c tk r) (fresh-PhaseStep k side tk c r e)
]

expire_unjoined-PhaseStep :
    (k sid : String) (r : SessionRouter) → PhaseStep (phase k r) (phase k (expire_unjoined sid r).0)
unfolding expire_unjoined
expire_unjoined-PhaseStep k sid r = elim (Option-cases (lookup sid r.sessions)) [
  | inl e ↦ rw (expire_unjoined, e) (stays (phase k r))
  | inr (s, e) ↦ elim (Bool-cases s.glued) [
    | inl both ↦ rw (expire_unjoined, e, both) (stays (phase k r))
    | inr single ↦ rw (expire_unjoined, e, single) (phase-delete k sid r r.ended)
  ]
]

kill-PhaseStep :
    (k sid : String) (r : SessionRouter) → PhaseStep (phase k r) (phase k (kill sid r).0)
unfolding kill
kill-PhaseStep k sid r = elim (Option-cases (lookup sid r.sessions)) [
  | inl e ↦ rw (kill, e) (stays (phase k r))
  | inr (s, e) ↦ elim (Bool-cases (has_ended s.serial r.ended)) [
    | inl over ↦ rw (kill, e, over) (phase-delete k sid r r.ended)
    | inr open_yet ↦ rw (kill, e, open_yet) (phase-delete k sid r (s.serial ∷ r.ended))
  ]
]

pump_end-PhaseStep :
    (k : String) (s : DataSession) (r : SessionRouter)
    → IsSettled r s
    → PhaseStep (phase k r) (phase k (pump_end s r).0)
pump_end-PhaseStep k s r settled = elim (pump_end-cases s r settled) [
  | inl over ↦ rw (pump_end-over s r over) (stays (phase k r))
  | inr (open_yet, e) ↦
      rw (pump_end-found s r open_yet e) (phase-delete k s.sid r (s.serial ∷ r.ended))
]

Step-of-sound :
    {r u : SessionRouter} {es : List Effect} (k : String)
    → Step r es u
    → IsSound r
    → PhaseStep (phase k r) (phase k u)
Step-of-sound k (attaches side tk c r) w = attach-PhaseStep k side tk c r w
Step-of-sound k (expires sid r) w = expire_unjoined-PhaseStep k sid r
Step-of-sound k (pump_ends s r among) w = pump_end-PhaseStep k s r (w.settled s among)
Step-of-sound k (kills sid r) w = kill-PhaseStep k sid r
Step-of-sound k (reconnects on r) w = stays (phase k r)

-- The router refines the machine of phases: whatever step it takes, each session makes at most one
-- step there. No session is joined that did not wait before, and none that was joined waits again.
pub Step-PhaseStep :
    (before es : List Effect) (r u : SessionRouter) (k : String)
    → Runs new_session_router before r
    → Step r es u
    → PhaseStep (phase k r) (phase k u)
Step-PhaseStep before es r u k runs step =
    Step-of-sound k step (Runs-IsSound new_session_router-IsSound runs)
