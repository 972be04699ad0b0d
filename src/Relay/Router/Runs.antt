-- ===== src/Relay/Router/Runs.antt =====
-- src/relay/cmd/xnc-relay/sessions.go: any sequence of calls of the router, of its timers and of the
-- ends of its pumps.
use xnc.Prelude.{ℕ, ◌≡◌, ◌⊎◌, String, Bool, List, [], ◌∷◌, ◌++◌}
use xnc.Rtv.Ticket.Verifier.{Ticket}
use xnc.Relay.Router.{
  DataSession, SessionRouter, Side, Effect, attach, expire_unjoined, pump_end, kill,
}

abbrev pub Among : DataSession → List DataSession → Type 0
Among x [] = ⊥
Among x (y ∷ ys) = (x ≡ y) ⊎ Among x ys

-- One critical section of the router: an attach, a timer, the end of a pump that was started, a kill,
-- or a change of the callback.
pub data Step : SessionRouter → List Effect → SessionRouter → Type 0 where
  attaches :
      (side : Side) (tk : Ticket) (c : ℕ) (r : SessionRouter)
      → Step r (attach side tk c r).1 (attach side tk c r).0
  expires :
      (sid : String) (r : SessionRouter)
      → Step r (expire_unjoined sid r).1 (expire_unjoined sid r).0
  pump_ends :
      (s : DataSession) (r : SessionRouter)
      → Among s r.pumps
      → Step r (pump_end s r).1 (pump_end s r).0
  kills : (sid : String) (r : SessionRouter) → Step r (kill sid r).1 (kill sid r).0
  reconnects : (on : Bool) (r : SessionRouter) → Step r [] (record r { reports_closed = on })

pub data Runs (r : SessionRouter) : List Effect → SessionRouter → Type 0 where
  start : Runs r [] r
  then_step :
      {es fs : List Effect} {t u : SessionRouter} → Runs r es t → Step t fs u → Runs r (es ++ fs) u
