-- ===== src/Relay/Router/Sound.antt =====
-- src/relay/cmd/xnc-relay/sessions.go: what holds of the router after any sequence of its steps.
use xnc.Prelude.{
  ℕ, ◌≡◌, ◌⊎◌, inl, inr, refl, sym, ap, ◌∙◌, String, true, false, not, ◌&&◌, Option, none, some, [],
  ◌∷◌, ◌++◌, String_discrete, arith, Option-cases, Bool-cases,
}
use xnc.Prelude.Map.{
  Map, lookup, insert, delete, lookup-insert_same, lookup-insert_other, lookup-delete,
}
use xnc.Rtv.Ticket.Verifier.{Ticket}
use xnc.Relay.Router.{
  DataSession, SessionRouter, Side, agent_side, client_side, timer_started, leg_refused,
  pump_started, is_present, leg, set_leg, put_session, fresh_session, enter_session, open_session,
  join, attach, has_ended,
}
use xnc.Relay.Router.Runs.{Among}

abbrev pub IsJoined : DataSession → Type 0
IsJoined p = (p.glued ≡ true) × (is_present p.agent ≡ true) × (is_present p.clnt ≡ true)

-- A session whose pump was started has both legs, and has ended or is still in the table.
abbrev pub IsSettled : SessionRouter → DataSession → Type 0
IsSettled r p =
    IsJoined p × ((has_ended p.serial r.ended ≡ true) ⊎ (lookup p.sid r.sessions ≡ some p))

pub record IsSound (r : SessionRouter) : Type 0 where
  pub keyed : (k : String) (s : DataSession) → lookup k r.sessions ≡ some s → s.sid ≡ k
  pub settled : (p : DataSession) → Among p r.pumps → IsSettled r p

pub same_entry :
    (m : Map String DataSession) (k : String) (s p : DataSession)
    → lookup k m ≡ some s
    → lookup p.sid m ≡ some p
    → p.sid ≡ k
    → s ≡ p
same_entry m k s p f g e = cc

same_value :
    (m : Map String DataSession) (j k : String) (s t : DataSession)
    → lookup j m ≡ some s
    → lookup k m ≡ some t
    → j ≡ k
    → t ≡ s
same_value m j k s t f g e = cc

insert-keyed :
    (k : String) (s : DataSession) (m : Map String DataSession)
    → s.sid ≡ k
    → ((j : String) (t : DataSession) → lookup j m ≡ some t → t.sid ≡ j)
    → (j : String) (t : DataSession) → lookup j (insert k s m) ≡ some t
    → t.sid ≡ j
insert-keyed k s m e keyed j t found = elim (String_discrete k j) [
  | yes same ↦
      rw (same_value (insert k s m) k j s t (lookup-insert_same k s m) found same) (e ∙ same)
  | no other ↦ keyed j t (sym (lookup-insert_other k j s m other) ∙ found)
]

pub delete-keyed :
    (k : String) (m : Map String DataSession)
    → ((j : String) (t : DataSession) → lookup j m ≡ some t → t.sid ≡ j)
    → (j : String) (t : DataSession) → lookup j (delete k m) ≡ some t
    → t.sid ≡ j
delete-keyed k m keyed j t found = grind (arith, lookup-delete k j m, keyed j t)

-- A session that misses a leg, put back with another leg.
put_session-IsSound :
    (s s' : DataSession) (r : SessionRouter)
    → (IsJoined s → ⊥)
    → s'.sid ≡ s.sid
    → lookup s.sid r.sessions ≡ some s
    → IsSound r
    → IsSound (put_session s' r)
put_session-IsSound s s' r open_yet e found w = record {
  keyed = insert-keyed s'.sid s' r.sessions refl w.keyed;
  settled = λ p among.
      let (joined, where_now) = w.settled p among in
      (
        joined,
        elim where_now [
          | inl done ↦ inl done
          | inr here ↦ elim (String_discrete s'.sid p.sid) [
            | yes same ↦
                absurd
                  (open_yet (rw (same_entry r.sessions s.sid s p found here (sym same ∙ e)) joined))
            | no other ↦ inr (lookup-insert_other s'.sid p.sid s' r.sessions other ∙ here)
          ]
        ],
      );
}

pub open_session-found :
    (tk : Ticket) (r : SessionRouter) (s : DataSession)
    → lookup tk.session_id r.sessions ≡ some s
    → open_session tk r ≡ (r, s, [])
unfolding open_session
open_session-found tk r s e = ground arith

pub open_session-fresh :
    (tk : Ticket) (r : SessionRouter)
    → lookup tk.session_id r.sessions ≡ none
    → open_session tk r
      ≡ (enter_session (fresh_session tk r) r, fresh_session tk r, timer_started tk.session_id ∷ [])
unfolding open_session
open_session-fresh tk r e = ground arith

-- A leg of a new session, and a leg of one in the table.
pub attach-fresh :
    (side : Side) (tk : Ticket) (c : ℕ) (r : SessionRouter)
    → lookup tk.session_id r.sessions ≡ none
    → let s = fresh_session tk r in
      let joined = join side c s (enter_session s r) in
      attach side tk c r ≡ (joined.0, timer_started tk.session_id ∷ joined.1)
unfolding attach
attach-fresh side tk c r e =
    ap (λ o. ((join side c o.1 o.0).0, o.2 ++ (join side c o.1 o.0).1)) (open_session-fresh tk r e)

pub attach-found :
    (side : Side) (tk : Ticket) (c : ℕ) (r : SessionRouter) (s : DataSession)
    → lookup tk.session_id r.sessions ≡ some s
    → attach side tk c r ≡ join side c s r
unfolding attach
attach-found side tk c r s e =
    ap (λ o. ((join side c o.1 o.0).0, o.2 ++ (join side c o.1 o.0).1))
      (open_session-found tk r s e)

pub none_ne_some : {A : Type 0} {o : Option A} {a : A} → o ≡ none → o ≡ some a → ⊥
none_ne_some e f = ground arith

pub enter_session-IsSound :
    (s : DataSession) (r : SessionRouter)
    → lookup s.sid r.sessions ≡ none
    → IsSound r
    → IsSound (enter_session s r)
enter_session-IsSound s r absent w = record {
  keyed = insert-keyed s.sid s r.sessions refl w.keyed;
  settled = λ p among.
      let (joined, where_now) = w.settled p among in
      (
        joined,
        elim where_now [
          | inl done ↦ inl done
          | inr here ↦ elim (String_discrete s.sid p.sid) [
            | yes same ↦ absurd (none_ne_some absent (ap (λ k. lookup k r.sessions) same ∙ here))
            | no other ↦ inr (lookup-insert_other s.sid p.sid s r.sessions other ∙ here)
          ]
        ],
      );
}

-- A new joined session in the place of one that missed a leg.
abbrev pub start_pump : DataSession → SessionRouter → SessionRouter
start_pump g r = record (put_session g r) { pumps = g ∷ r.pumps }

start_pump-IsSound :
    (s g : DataSession) (r : SessionRouter)
    → (IsJoined s → ⊥)
    → IsJoined g
    → g.sid ≡ s.sid
    → lookup s.sid r.sessions ≡ some s
    → IsSound r
    → IsSound (start_pump g r)
start_pump-IsSound s g r open_yet joined e found w =
    let put_back = put_session-IsSound s g r open_yet e found w in
    record {
      keyed = put_back.keyed;
      settled = λ p among. elim among [
        | inl same ↦ rw (same) (joined, inr (lookup-insert_same g.sid g r.sessions))
        | inr before ↦ put_back.settled p before
      ];
    }

missing_leg : (side : Side) (s : DataSession) → is_present (leg side s) ≡ false → IsJoined s → ⊥
missing_leg agent_side s e joined = ground arith
missing_leg client_side s e joined = ground arith

pub set_leg-sid : (side : Side) (c : ℕ) (s : DataSession) → (set_leg side c s).sid ≡ s.sid
set_leg-sid agent_side c s = refl
set_leg-sid client_side c s = refl

pub set_leg-glued : (side : Side) (c : ℕ) (s : DataSession) → (set_leg side c s).glued ≡ s.glued
set_leg-glued agent_side c s = refl
set_leg-glued client_side c s = refl

abbrev pub glue : Side → ℕ → DataSession → DataSession
glue side c s = record (set_leg side c s) { glued = true }

-- What a leg does: it is refused, waits, or starts the pump.
pub join-cases :
    (side : Side) (c : ℕ) (s : DataSession) (r : SessionRouter)
    → ((is_present (leg side s) ≡ true) × (join side c s r ≡ (r, leg_refused c ∷ [])))
      ⊎ ((is_present (leg side s) ≡ false)
          × ((join side c s r ≡ (put_session (set_leg side c s) r, []))
              ⊎ (IsJoined (glue side c s)
                  × (s.glued ≡ false)
                  × (join side c s r
                      ≡ (start_pump (glue side c s) r, pump_started (glue side c s) ∷ [])))))
unfolding join
join-cases side c s r = elim (Bool-cases (is_present (leg side s))) [
  | inl e ↦ inl (e, ground arith)
  | inr e ↦
      let s' = set_leg side c s in
      let same = set_leg-glued side c s in
      elim (Bool-cases (is_present s'.agent && is_present s'.clnt && not s'.glued)) [
        | inl both ↦ inr (e, inr ((refl, ground arith, ground arith), ground arith, ground arith))
        | inr single ↦ inr (e, inl (ground arith))
      ]
]

join-IsSound :
    (side : Side) (c : ℕ) (s : DataSession) (r : SessionRouter)
    → lookup s.sid r.sessions ≡ some s
    → IsSound r
    → IsSound (join side c s r).0
join-IsSound side c s r found w = elim (join-cases side c s r) [
  | inl (present, e) ↦ rw (e) w
  | inr (missing, inl e) ↦ rw (e) (
      put_session-IsSound s (set_leg side c s) r (missing_leg side s missing) (set_leg-sid side c s)
        found w)
  | inr (missing, inr (joined, waiting, e)) ↦ rw (e) (
      start_pump-IsSound s (glue side c s) r (missing_leg side s missing) joined
        (set_leg-sid side c s) found w)
]

pub attach-IsSound :
    (side : Side) (tk : Ticket) (c : ℕ) (r : SessionRouter)
    → IsSound r
    → IsSound (attach side tk c r).0
unfolding attach
attach-IsSound side tk c r w = elim (Option-cases (lookup tk.session_id r.sessions)) [
  | inl e ↦
      let s = fresh_session tk r in
      rw (open_session-fresh tk r e) (
        join-IsSound side c s (enter_session s r) (lookup-insert_same s.sid s r.sessions)
          (enter_session-IsSound s r e w))
  | inr (s, e) ↦
      rw (open_session-found tk r s e)
        (join-IsSound side c s r (ap (λ k. lookup k r.sessions) (w.keyed tk.session_id s e) ∙ e) w)
]
