-- ===== src/Server/RtvPool/Control.antt =====
-- src/server/internal/rtvpool/pool.go: the admission of a relay, its control messages, the table of
-- connections and the results of the health probes.
use xnc.Prelude.{
  ℕ, ◌+◌, ◌-◌, ◌*◌, String, Bool, none, some, List, [], ◌∷◌, map, leb, ◌==◌, length, if◌then◌else◌,
  ite, String_discrete,
}
use xnc.Prelude.Int.{ℤ, pos, negsuc}
use xnc.Prelude.Map.{Map, lookup, insert, delete}
use xnc.Server.RtvPool.{RelayConn, Pool, second, same_text}

-- What the pool sends and calls.
pub data Effect : Type 0 where
  send_heartbeat_ack : (relay : String) → Effect
  send_error : (relay code : String) → Effect
  send_session_kill : (relay session node reason : String) → Effect
  send_session_grant : (relay session node holder : String) → Effect
  touch_session : (session : String) → Effect
  notify_close : (session reason : String) → Effect
  touch_db : (relay : String) → Effect

-- The status of a relay that registers: a new one is active if its key is on the allowlist.
unfoldable pub admission_status : (fresh allowed : Bool) → (row_status : String) → String
admission_status fresh allowed row_status =
    if fresh then (if allowed then "active" else "pending") else row_status

-- The messages of the service loop that it decodes.
pub data Message : Type 0 where
  heartbeat : (clock_unix : ℕ) → Message
  stats : (sessions : ℕ) (active_sids : List String) → Message
  reconcile : (live : List String) → Message
  session_closed : (session reason : String) → Message
  unknown : Message

-- `time.Since(time.Unix(clock, 0))` at `now`, both counted from the same zero.
abbrev pub since_unix : ℕ → ℕ → ℤ
since_unix now clock =
    if leb (clock * second) now
    then pos (now - clock * second)
    else negsuc (clock * second - now - 1)

abbrev pub or_default : String → String → String
or_default s d = if same_text s "" then d else s

-- One turn of the loop of `serveRelay` for the connection `c`.
unfoldable pub handle_message : RelayConn → Message → (now : ℕ) → RelayConn × List Effect
handle_message c (heartbeat clock_unix) now = (
  record c { drift = since_unix now clock_unix; last_beat = now },
  touch_db c.id ∷ send_heartbeat_ack c.id ∷ [],
)
handle_message c (stats sessions active_sids) now =
    (record c { sessions = sessions; last_beat = now }, map touch_session active_sids)
handle_message c (reconcile live) now = (record c { live_sess = length live; last_beat = now }, [])
handle_message c (session_closed session reason) now = if same_text session "" then (c, []) else (
  record c { last_beat = now },
  notify_close session (or_default reason "peer-disconnect") ∷ [],
)
handle_message c unknown now = (c, [])

unfoldable pub attach : Pool → RelayConn → Pool × List Effect
attach m c = (
  record m { conns = insert c.id c m.conns },
  elim (lookup c.id m.conns) [ none ↦ [] | some old ↦ send_error old.id "REPLACED" ∷ [] ],
)

unfoldable pub detach : Pool → RelayConn → Pool
detach m c = elim (lookup c.id m.conns) [
  | none ↦ m
  | some cur ↦ if cur.serial == c.serial then record m { conns = delete c.id m.conns } else m
]

-- The entries of the sticky table that name the relay are removed.
unfoldable pub drop_relay : String → Map String String → Map String String
drop_relay id [] = []
drop_relay id ((node, rid) ∷ m) =
    let rest = drop_relay id m in ite (String_discrete rid id) rest ((node, rid) ∷ rest)

unfoldable pub relay_status_changed : Pool → (id status : String) → Pool × List Effect
relay_status_changed m id status =
    let retired = same_text status "retired" in
    let m' = if retired then record m { sticky = drop_relay id m.sticky } else m in
    elim (lookup id m'.conns) [
      | none ↦ (m', [])
      | some c ↦ (
        record m' { conns = insert id (record c { status = status }) m'.conns },
        if retired then send_error id "RETIRED" ∷ [] else [],
      )
    ]

unfoldable pub session_kill : Pool → (relay node session reason : String) → List Effect
session_kill m relay node session reason = elim (lookup relay m.conns) [
  | none ↦ []
  | some c ↦ send_session_kill relay session node reason ∷ []
]

unfoldable pub session_grant : Pool → (relay node session holder : String) → List Effect
session_grant m relay node session holder = elim (lookup relay m.conns) [
  | none ↦ []
  | some c ↦ send_session_grant relay session node holder ∷ []
]

-- The result of one probe of a relay's host leg, as `probeOnce` stores it.
unfoldable pub probed : Pool → (id : String) → (ok : Bool) → Pool
probed m id ok = elim (lookup id m.conns) [
  | none ↦ m
  | some c ↦ record m {
    conns = insert id (record c { probe_fails = if ok then 0 else c.probe_fails + 1 }) m.conns;
  }
]
