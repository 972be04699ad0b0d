-- ===== src/Server/Session/Tests.antt =====
-- src/server/internal/session/manager.go at concrete calls.
use xnc.Prelude.{◌*◌, ◌≡◌, ◌⊎◌, refl, true, List, [], ◌∷◌, String_discrete, arith}
use xnc.Prelude.Map.{lookup, get}
use xnc.Rtv.Arbiter.{Arbiter, new_arbiter, new_lease}
use xnc.Server.Session.{Session, Manager, count_where, desktop, second, new_manager}
use xnc.Server.Session.Create.{Fresh, base_session, governed}
use xnc.Server.Session.Attach.{agent, client, attach_id, api_err}
use xnc.Server.Session.Sweep.{sweep}
use xnc.Server.Session.Table.{IsKeyed}
use xnc.Server.Session.Run.{Call, creates, attaches, sweeps, run}
use xnc.Server.Session.Limits.{WithinLimits}
use xnc.Server.Session.Limits.Calls.{run-WithinLimits}
use xnc.Server.Session.Tokens.{attach_id-replay}
use xnc.Server.Session.Closing.{Swept, lookup-sweep}

abbrev fresh : Fresh
fresh = record { id = "s1"; agent_token = "at"; client_token = "ct"; lease_id = "l1" }

-- A desktop session that was created at second 10.
abbrev viewer : Session
viewer =
    governed new_manager desktop (10 * second)
      (base_session fresh "node" "alice" desktop "{}" (10 * second))

-- It holds the lease of its node.
abbrev serving : Manager
serving = record new_manager {
  sessions = ("s1", viewer) ∷ [];
  desktop_leases =
      (
        "node",
        record {
          session_id = "s1";
          lease_id = "l1";
          user_id = "alice";
          taken_at = 10 * second;
          last_steal_at = 0;
        },
      )
      ∷ [];
}

abbrev relay_side : Arbiter
relay_side = record new_arbiter { leases = ("node", new_lease "s1" "Alice" (10 * second)) ∷ [] }

serving-IsKeyed : IsKeyed serving.sessions
unfolding get String_discrete
serving-IsKeyed = ground arith

abbrev day : List Call
day =
    creates true fresh "node" "alice" desktop "{}" (10 * second)
    ∷ attaches agent "s1" "at" 1 (11 * second)
    ∷ attaches client "s1" "ct" 2 (12 * second)
    ∷ sweeps (1000 * second)
    ∷ []

run-WithinLimits_example : WithinLimits (run new_manager day)
unfolding count_where
run-WithinLimits_example = run-WithinLimits new_manager day (ground arith)

attach_id-replay_example :
    let m' = (attach_id serving agent "s1" "at" 1 (11 * second)).0 in
    let again = attach_id m' agent "s1" "at" 5 (12 * second) in
    (again ≡ (m', api_err 401 "UNAUTHORIZED", []))
    ⊎ (again ≡ (m', api_err 410 "SESSION_EXPIRED", []))
unfolding attach_id get String_discrete
attach_id-replay_example =
    attach_id-replay serving agent "s1" "at" 1 5 (11 * second) (12 * second) serving-IsKeyed refl

lookup-sweep_example :
    Swept
      (1000 * second)
      (lookup "s1" serving.sessions)
      (lookup "s1" (sweep serving (1000 * second)).0.sessions)
lookup-sweep_example = lookup-sweep serving (1000 * second) "s1" serving-IsKeyed
