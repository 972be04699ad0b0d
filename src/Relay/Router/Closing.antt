-- ===== src/Relay/Router/Closing.antt =====
-- src/relay/cmd/xnc-relay/sessions.go: the ends of sessions keep the router sound, and so do all runs.
use xnc.Prelude.{
  ℕ, ◌≡◌, ◌⊎◌, inl, inr, sym, ap, ◌∙◌, String, true, false, Option, some, List, [], ◌∷◌, ◌++◌,
  String_discrete, arith, Option-cases, Bool-cases,
}
use xnc.Prelude.Map.{get, lookup, delete, lookup-delete_other}
use xnc.Relay.Router.{
  DataSession, SessionRouter, Effect, peer_disconnect, new_session_router, close_legs,
  report_closed, expire_unjoined, has_ended, pump_end, kill,
}
use xnc.Relay.Router.Runs.{
  Step, Runs, attaches, expires, pump_ends, kills, reconnects, start, then_step,
}
use xnc.Relay.Router.Sound.{IsSettled, IsSound, delete-keyed, attach-IsSound}

-- Without a session, and with more sessions ended.
forget-IsSound :
    (k : String) (r : SessionRouter) (done : List ℕ)
    → ((p : DataSession)
        → IsSettled r p
        → lookup k r.sessions ≡ some p
        → has_ended p.serial done ≡ true)
    → ((n : ℕ) → has_ended n r.ended ≡ true → has_ended n done ≡ true)
    → IsSound r
    → IsSound (record r { sessions = delete k r.sessions; ended = done })
forget-IsSound k r done all_done more w = record {
  keyed = delete-keyed k r.sessions w.keyed;
  settled = λ p among.
      let settled = w.settled p among in
      (
        settled.0,
        elim settled.1 [
          | inl over ↦ inl (more p.serial over)
          | inr here ↦ elim (String_discrete k p.sid) [
            | yes same ↦ inl (all_done p settled (ap (λ j. lookup j r.sessions) same ∙ here))
            | no other ↦ inr (lookup-delete_other k p.sid r.sessions other ∙ here)
          ]
        ],
      );
}

has_ended-more : (n m : ℕ) (ms : List ℕ) → has_ended n ms ≡ true → has_ended n (m ∷ ms) ≡ true
has_ended-more n m ms e = ground arith

has_ended-head : (n : ℕ) (ms : List ℕ) → has_ended n (n ∷ ms) ≡ true
has_ended-head n ms = ground arith

has_ended-same :
    {s p : DataSession} (ms : List ℕ)
    → s ≡ p
    → has_ended s.serial ms ≡ true
    → has_ended p.serial ms ≡ true
has_ended-same ms e over = sym (ap (λ q. has_ended q.serial ms) e) ∙ over

pub some_same : {A : Type 0} {o : Option A} {a b : A} → o ≡ some a → o ≡ some b → a ≡ b
some_same e f = cc

expire_unjoined-IsSound :
    (sid : String) (r : SessionRouter) → IsSound r → IsSound (expire_unjoined sid r).0
unfolding expire_unjoined
expire_unjoined-IsSound sid r w = elim (Option-cases (lookup sid r.sessions)) [
  | inl e ↦ rw (expire_unjoined, e) w
  | inr (s, e) ↦ elim (Bool-cases s.glued) [
    | inl joined ↦ rw (expire_unjoined, e, joined) w
    | inr waiting ↦
        rw (expire_unjoined, e, waiting)
          (forget-IsSound sid r r.ended
            (λ p settled found. absurd (
              let same = ap (λ q. q.glued) (some_same e found) in
              let glued = settled.0.0 in ground arith))
            (λ n over. over) w)
  ]
]

pub kill-IsSound : (sid : String) (r : SessionRouter) → IsSound r → IsSound (kill sid r).0
unfolding kill
kill-IsSound sid r w = elim (Option-cases (lookup sid r.sessions)) [
  | inl e ↦ rw (kill, e) w
  | inr (s, e) ↦ elim (Bool-cases (has_ended s.serial r.ended)) [
    | inl over ↦
        rw (kill, e, over)
          (forget-IsSound sid r r.ended
            (λ p settled found. has_ended-same r.ended (some_same e found) over) (λ n over. over) w)
    | inr open_yet ↦
        rw (kill, e, open_yet)
          (forget-IsSound sid r (s.serial ∷ r.ended)
            (λ p settled found.
              has_ended-same (s.serial ∷ r.ended) (some_same e found)
                (has_ended-head s.serial r.ended))
            (λ n. has_ended-more n s.serial r.ended) w)
  ]
]

-- The end of the pump of a session that has not ended.
pub pump_end-found :
    (s : DataSession) (r : SessionRouter)
    → has_ended s.serial r.ended ≡ false
    → lookup s.sid r.sessions ≡ some s
    → pump_end s r ≡ (
      record r { sessions = delete s.sid r.sessions; ended = s.serial ∷ r.ended },
      report_closed r s peer_disconnect ++ close_legs s,
    )
unfolding pump_end
pump_end-found s r open_yet found = ground arith

pub pump_end-over :
    (s : DataSession) (r : SessionRouter)
    → has_ended s.serial r.ended ≡ true
    → pump_end s r ≡ (r, [])
unfolding pump_end
pump_end-over s r over = ground arith

-- The end of a pump that was started finds its own session in the table, or finds it ended.
pub pump_end-cases :
    (s : DataSession) (r : SessionRouter)
    → IsSettled r s
    → (has_ended s.serial r.ended ≡ true)
      ⊎ ((has_ended s.serial r.ended ≡ false) × (lookup s.sid r.sessions ≡ some s))
pump_end-cases s r settled = elim (Bool-cases (has_ended s.serial r.ended)) [
  | inl over ↦ inl over
  | inr open_yet ↦
      inr (open_yet, elim settled.1 [ inl over ↦ absurd (ground arith) | inr found ↦ found ])
]

pump_end-IsSound :
    (s : DataSession) (r : SessionRouter) → IsSettled r s → IsSound r → IsSound (pump_end s r).0
pump_end-IsSound s r settled w = elim (pump_end-cases s r settled) [
  | inl over ↦ rw (pump_end-over s r over) w
  | inr (open_yet, e) ↦ rw (pump_end-found s r open_yet e) (
      forget-IsSound s.sid r (s.serial ∷ r.ended)
        (λ p settled found.
          has_ended-same (s.serial ∷ r.ended) (some_same e found) (has_ended-head s.serial r.ended))
        (λ n. has_ended-more n s.serial r.ended) w)
]

pub Step-IsSound : {r u : SessionRouter} {es : List Effect} → Step r es u → IsSound r → IsSound u
Step-IsSound (attaches side tk c r) w = attach-IsSound side tk c r w
Step-IsSound (expires sid r) w = expire_unjoined-IsSound sid r w
Step-IsSound (pump_ends s r among) w = pump_end-IsSound s r (w.settled s among) w
Step-IsSound (kills sid r) w = kill-IsSound sid r w
Step-IsSound (reconnects on r) w = record { keyed = w.keyed; settled = w.settled }

pub Runs-IsSound : {r u : SessionRouter} {es : List Effect} → IsSound r → Runs r es u → IsSound u
Runs-IsSound w start = w
Runs-IsSound w (then_step runs step) = Step-IsSound step (Runs-IsSound w runs)

pub new_session_router-IsSound : IsSound new_session_router
unfolding get
new_session_router-IsSound = record {
  keyed = λ k s e. absurd (ground arith);
  settled = λ p among. absurd among;
}
