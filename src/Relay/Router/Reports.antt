-- ===== src/Relay/Router/Reports.antt =====
-- src/relay/cmd/xnc-relay/sessions.go: how often the end of a session is reported to the server.
use xnc.Prelude.{
  ℕ, ◌+◌, ◌≤◌, ◌≡◌, inl, inr, refl, ap, ◌∙◌, String, none, some, List, [], ◌∷◌, ◌++◌, arith,
  Option-cases, Bool-cases, if◌then◌else◌,
}
use xnc.Prelude.Map.{
  get, lookup, delete, lookup-insert, lookup-insert_same, lookup-delete_same, lookup-delete,
}
use xnc.Rtv.Ticket.Verifier.{Ticket}
use xnc.Relay.Router.{
  DataSession, SessionRouter, Side, CloseReason, Effect, timer_started, session_closed,
  opening_timeout, peer_disconnect, new_session_router, set_leg, put_session, fresh_session,
  enter_session, join, attach, close_legs, report_closed, expire_unjoined, has_ended, pump_end,
  kill,
}
use xnc.Relay.Router.Legs.{same_name}
use xnc.Relay.Router.Runs.{
  Step, Runs, attaches, expires, pump_ends, kills, reconnects, start, then_step,
}
use xnc.Relay.Router.Sound.{
  IsSettled, IsSound, glue, join-cases, attach-found, attach-fresh, set_leg-sid,
}
use xnc.Relay.Router.Closing.{
  kill-IsSound, Runs-IsSound, new_session_router-IsSound, pump_end-found, pump_end-over,
  pump_end-cases,
}

-- One, if the effect reports the end of the session; one, if it starts the session's timer.
abbrev pub closes : String → Effect → ℕ
closes k (session_closed sid node why) = if same_name sid k then 1 else 0
closes k e = 0

abbrev pub opens : String → Effect → ℕ
opens k (timer_started sid) = if same_name sid k then 1 else 0
opens k e = 0

abbrev pub total : (Effect → ℕ) → List Effect → ℕ
total f [] = 0
total f (e ∷ es) = f e + total f es

-- One, if the session is in the table.
abbrev pub live : String → SessionRouter → ℕ
live k r = elim (lookup k r.sessions) [ none ↦ 0 | some s ↦ 1 ]

total-append : (f : Effect → ℕ) (es fs : List Effect) → total f (es ++ fs) ≡ total f es + total f fs
total-append f [] fs = omega arith
total-append f (e ∷ es) fs = ground (arith, total-append f es fs)

-- A step that reports no more than it opens and removes.
abbrev Balances : String → SessionRouter → SessionRouter × List Effect → Type 0
Balances k r (u, es) = total (closes k) es + live k u ≤ total (opens k) es + live k r

live-put_session :
    (k : String) (s s' : DataSession) (r : SessionRouter)
    → s'.sid ≡ s.sid
    → lookup s.sid r.sessions ≡ some s
    → live k (put_session s' r) ≤ live k r
live-put_session k s s' r e found = grind (arith, lookup-insert s'.sid k s' r.sessions)

live-enter_session :
    (k : String) (s : DataSession) (r : SessionRouter)
    → live k (enter_session s r) ≤ (if same_name s.sid k then 1 else 0) + live k r
live-enter_session k s r = grind (arith, lookup-insert s.sid k s r.sessions)

live-delete :
    (k sid : String) (s : DataSession) (r : SessionRouter)
    → lookup sid r.sessions ≡ some s
    → (if same_name sid k then 1 else 0) + live k (record r { sessions = delete sid r.sessions })
      ≤ live k r
live-delete k sid s r found = grind (arith, lookup-delete sid k r.sessions)

closes-report :
    (k : String) (s : DataSession) (r : SessionRouter) (why : CloseReason)
    → (total (closes k) (report_closed r s why ++ close_legs s)
        ≤ (if same_name s.sid k then 1 else 0))
closes-report k s r why = ground arith

closes-close_legs : (k : String) (s : DataSession) → total (closes k) (close_legs s) ≡ 0
closes-close_legs k s = ground arith

join-Balances :
    (k : String) (side : Side) (c : ℕ) (s : DataSession) (r : SessionRouter)
    → lookup s.sid r.sessions ≡ some s
    → Balances k r (join side c s r)
join-Balances k side c s r found = elim (join-cases side c s r) [
  | inl (present, e) ↦ rw (e) (omega arith)
  | inr (missing, inl e) ↦
      let kept = live-put_session k s (set_leg side c s) r (set_leg-sid side c s) found in
      rw (e) (omega arith)
  | inr (missing, inr (joined, waiting, e)) ↦
      let kept = live-put_session k s (glue side c s) r (set_leg-sid side c s) found in
      rw (e) (omega arith)
]

attach-Balances :
    (k : String) (side : Side) (tk : Ticket) (c : ℕ) (r : SessionRouter)
    → IsSound r
    → Balances k r (attach side tk c r)
attach-Balances k side tk c r w = elim (Option-cases (lookup tk.session_id r.sessions)) [
  | inl e ↦
      let s = fresh_session tk r in
      let opened = live-enter_session k s r in
      let joined =
        join-Balances k side c s (enter_session s r) (lookup-insert_same s.sid s r.sessions) in
      rw (attach-fresh side tk c r e) (omega arith)
  | inr (s, e) ↦
      rw (attach-found side tk c r s e)
        (join-Balances k side c s r (ap (λ k. lookup k r.sessions) (w.keyed tk.session_id s e) ∙ e))
]

expire_unjoined-Balances :
    (k sid : String) (r : SessionRouter) → IsSound r → Balances k r (expire_unjoined sid r)
unfolding expire_unjoined
expire_unjoined-Balances k sid r w = elim (Option-cases (lookup sid r.sessions)) [
  | inl e ↦ rw (expire_unjoined, e) (omega arith)
  | inr (s, e) ↦ elim (Bool-cases s.glued) [
    | inl joined ↦ rw (expire_unjoined, e, joined) (omega arith)
    | inr waiting ↦
        let same = w.keyed sid s e in
        let gone = live-delete k sid s r e in
        let reports = closes-report k s r opening_timeout in
        rw (expire_unjoined, e, waiting) (ground arith)
  ]
]

kill-Balances : (k sid : String) (r : SessionRouter) → Balances k r (kill sid r)
unfolding kill
kill-Balances k sid r = elim (Option-cases (lookup sid r.sessions)) [
  | inl e ↦ rw (kill, e) (omega arith)
  | inr (s, e) ↦
      let gone = live-delete k sid s r e in
      let silent = closes-close_legs k s in
      elim (Bool-cases (has_ended s.serial r.ended)) [
        | inl over ↦ rw (kill, e, over) (omega arith)
        | inr open_yet ↦ rw (kill, e, open_yet) (ground arith)
      ]
]

pump_end-Balances :
    (k : String) (s : DataSession) (r : SessionRouter) → IsSettled r s → Balances k r (pump_end s r)
pump_end-Balances k s r settled = elim (pump_end-cases s r settled) [
  | inl over ↦ rw (pump_end-over s r over) (omega arith)
  | inr (open_yet, e) ↦
      let gone = live-delete k s.sid s r e in
      let reports = closes-report k s r peer_disconnect in
      rw (pump_end-found s r open_yet e) (ground arith)
]

Step-Balances :
    {r u : SessionRouter} {es : List Effect} (k : String)
    → Step r es u
    → IsSound r
    → Balances k r (u, es)
Step-Balances k (attaches side tk c r) w = attach-Balances k side tk c r w
Step-Balances k (expires sid r) w = expire_unjoined-Balances k sid r w
Step-Balances k (pump_ends s r among) w = pump_end-Balances k s r (w.settled s among)
Step-Balances k (kills sid r) w = kill-Balances k sid r
Step-Balances k (reconnects on r) w = omega arith

Runs-Balances :
    {r u : SessionRouter} {es : List Effect} (k : String)
    → Runs r es u
    → IsSound r
    → Balances k r (u, es)
Runs-Balances k start w = omega arith
Runs-Balances k (then_step {es} {fs} runs step) w =
    let before = Runs-Balances k runs w in
    let now = Step-Balances k step (Runs-IsSound w runs) in
    let reported = total-append (closes k) es fs in
    let opened = total-append (opens k) es fs in omega arith

-- From the start of the router on, whatever happens, the end of a session is reported no more often
-- than the session was opened, and once less while it is in the table.
pub closes_le_opens :
    (k : String) (es : List Effect) (u : SessionRouter)
    → Runs new_session_router es u
    → total (closes k) es + live k u ≤ total (opens k) es
unfolding get
closes_le_opens k es u runs =
    let balance = Runs-Balances k runs new_session_router-IsSound in
    let empty : live k new_session_router ≡ 0 = refl in omega arith

live-kill : (k : String) (r : SessionRouter) → live k (kill k r).0 ≡ 0
unfolding kill
live-kill k r = grind (arith, lookup-delete_same k r.sessions)

-- After the server kills a session, its end is not reported, and it is not in the table, in any run
-- that does not open it again.
pub kill-closes :
    (k : String) (before es : List Effect) (r u : SessionRouter)
    → Runs new_session_router before r
    → Runs (kill k r).0 es u
    → total (opens k) es ≡ 0
    → (total (closes k) es ≡ 0) × (live k u ≡ 0)
kill-closes k before es r u start_up runs quiet =
    let w = kill-IsSound k r (Runs-IsSound new_session_router-IsSound start_up) in
    let balance = Runs-Balances k runs w in let gone = live-kill k r in (omega arith, omega arith)
