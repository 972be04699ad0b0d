-- ===== src/Relay/Router.antt =====
-- src/relay/cmd/xnc-relay/sessions.go: the router that joins the two legs of a session. A connection is
-- a number, and so is the identity of a session object, its `serial`: both legs of a joined session stay as they
-- are, so that its pump can hold the record. `closeOnce` of a session has run when its serial is in
-- `ended`.
pub mod Legs
pub mod Runs
pub mod Sound
pub mod Closing
pub mod Reports
pub mod Once
pub mod Phases
pub mod Seats
pub mod Admission
mod Tests
use xnc.Prelude.{
  ℕ, suc, ◌+◌, String, Bool, true, false, not, ◌&&◌, Option, none, some, List, [], ◌∷◌, ◌++◌, map,
  ◌==◌, if◌then◌else◌,
}
use xnc.Prelude.Map.{Map, lookup, insert, delete}
use xnc.Rtv.Ticket.Verifier.{Ticket}

pub record DataSession : Type 0 where
  pub serial : ℕ
  pub sid : String
  pub node_id : String
  pub agent : Option ℕ
  pub clnt : Option ℕ
  pub glued : Bool

pub record SessionRouter : Type 0 where
  pub sessions : Map String DataSession
  -- The sessions whose pump was started, and those whose closeOnce has run.
  pub pumps : List DataSession
  pub ended : List ℕ
  pub next_serial : ℕ
  -- The callback `closed` is set.
  pub reports_closed : Bool

pub data Side : Type 0 where
  agent_side client_side : Side

pub data CloseReason : Type 0 where
  opening_timeout peer_disconnect : CloseReason

pub data Effect : Type 0 where
  timer_started : (sid : String) → Effect
  leg_refused : ℕ → Effect
  leg_closed : ℕ → Effect
  pump_started : DataSession → Effect
  session_closed : (sid node : String) → CloseReason → Effect

-- newSessionRouter
abbrev pub new_session_router : SessionRouter
new_session_router = record {
  sessions = [];
  pumps = [];
  ended = [];
  next_serial = 0;
  reports_closed = false;
}

abbrev pub is_present : Option ℕ → Bool
is_present none = false
is_present (some c) = true

abbrev pub leg : Side → DataSession → Option ℕ
leg agent_side s = s.agent
leg client_side s = s.clnt

abbrev pub set_leg : Side → ℕ → DataSession → DataSession
set_leg agent_side c s = record s { agent = some c }
set_leg client_side c s = record s { clnt = some c }

abbrev pub put_session : DataSession → SessionRouter → SessionRouter
put_session s r = record r { sessions = insert s.sid s r.sessions }

abbrev pub fresh_session : Ticket → SessionRouter → DataSession
fresh_session tk r = record {
  serial = r.next_serial;
  sid = tk.session_id;
  node_id = tk.node_id;
  agent = none;
  clnt = none;
  glued = false;
}

abbrev pub enter_session : DataSession → SessionRouter → SessionRouter
enter_session s r = record r {
  sessions = insert s.sid s r.sessions;
  next_serial = suc r.next_serial;
}

-- The session of a ticket; a new one is entered in the table, with a timer for its opening.
unfoldable pub open_session : Ticket → SessionRouter → SessionRouter × DataSession × List Effect
open_session tk r = elim (lookup tk.session_id r.sessions) [
  | some s ↦ (r, s, [])
  | none ↦ let s = fresh_session tk r in (enter_session s r, s, timer_started tk.session_id ∷ [])
]

-- The leg joins its session, and starts the pump if it is the second.
unfoldable pub join : Side → ℕ → DataSession → SessionRouter → SessionRouter × List Effect
join side c s r =
    if is_present (leg side s)
    then (r, leg_refused c ∷ [])
    else (let s' = set_leg side c s in
        if is_present s'.agent && is_present s'.clnt && not s'.glued
        then (let g : DataSession = record s' { glued = true } in
            (record (put_session g r) { pumps = g ∷ r.pumps }, pump_started g ∷ []))
        else (put_session s' r, []))

unfoldable pub attach : Side → Ticket → ℕ → SessionRouter → SessionRouter × List Effect
unfolding open_session join
attach side tk c r =
    let (r1, s, opened) = open_session tk r in
    let (r2, joined) = join side c s r1 in (r2, opened ++ joined)

abbrev pub close_leg : Option ℕ → List Effect
close_leg none = []
close_leg (some c) = leg_closed c ∷ []

abbrev pub close_legs : DataSession → List Effect
close_legs s = close_leg s.agent ++ close_leg s.clnt

abbrev pub report_closed : SessionRouter → DataSession → CloseReason → List Effect
report_closed r s why = if r.reports_closed then session_closed s.sid s.node_id why ∷ [] else []

unfoldable pub expire_unjoined : String → SessionRouter → SessionRouter × List Effect
expire_unjoined sid r = elim (lookup sid r.sessions) [
  | none ↦ (r, [])
  | some s ↦ if s.glued then (r, []) else (
    record r { sessions = delete sid r.sessions },
    report_closed r s opening_timeout ++ close_legs s,
  )
]

abbrev pub has_ended : ℕ → List ℕ → Bool
has_ended n [] = false
has_ended n (m ∷ ms) = if m == n then true else has_ended n ms

abbrev pub drop_same : DataSession → Option DataSession → SessionRouter → SessionRouter
drop_same s none r = r
drop_same s (some cur) r =
    if cur.serial == s.serial then record r { sessions = delete s.sid r.sessions } else r

-- What `pump` does once one direction has ended.
unfoldable pub pump_end : DataSession → SessionRouter → SessionRouter × List Effect
pump_end s r = if has_ended s.serial r.ended then (r, []) else (
  drop_same s (lookup s.sid r.sessions) (record r { ended = s.serial ∷ r.ended }),
  report_closed r s peer_disconnect ++ close_legs s,
)

-- `Kill` in one step: the code takes the entry out under the mutex and runs closeOnce after that, and a
-- pump that ends between the two, which then runs closeOnce itself and reports, is left out.
unfoldable pub kill : String → SessionRouter → SessionRouter × List Effect
kill sid r = elim (lookup sid r.sessions) [
  | none ↦ (r, [])
  | some s ↦
      let r' = record r { sessions = delete sid r.sessions } in
      if has_ended s.serial r.ended
      then (r', [])
      else (record r' { ended = s.serial ∷ r.ended }, close_legs s)
]

unfoldable pub active_sids : SessionRouter → List String
active_sids r = map (λ e. e.0) r.sessions
