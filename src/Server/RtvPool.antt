-- ===== src/Server/RtvPool.antt =====
-- src/server/internal/rtvpool/pool.go: the pool of external relays. The control connections, the
-- health of the relays and the choice of a relay for a node are modelled; the database, the
-- sockets and the messages' text form are not. A control connection is a record with a serial
-- number that stands for its pointer. Times are nanoseconds since Go's zero time and `drift` is a
-- signed number of them. The float64 load of a relay is kept as the fraction that it rounds, and
-- two loads are compared by cross multiplication: the same order as long as both counts of a
-- fraction are below 2 ^ 25, where different fractions have different floats.
pub mod Control
pub mod Choice
pub mod Health
mod Tests
use xnc.Prelude.{
  ℕ, ◌+◌, ◌*◌, String, Bool, true, false, not, ◌&&◌, ◌||◌, Option, none, some, List, [], ◌∷◌, ltb,
  leb, if◌then◌else◌, ite, String_discrete,
}
use xnc.Prelude.Int.{ℤ, pos_part, neg_part}
use xnc.Prelude.Map.{Map, lookup, insert}

abbrev pub second : ℕ
second = 1000000000

abbrev pub heartbeat_wait : ℕ
heartbeat_wait = 90 * second

abbrev pub drift_limit : ℕ
drift_limit = 300 * second

-- proto.EndpointDesc
pub record Endpoint : Type 0 where
  pub transport : String
  pub host : String
  pub port : ℕ

pub record RelayConn : Type 0 where
  pub serial : ℕ
  pub id : String
  pub status : String
  pub region : String
  pub max_sess : ℕ
  pub max_mbps : ℕ
  pub endpoints : List Endpoint
  pub last_beat : ℕ
  pub sessions : ℕ
  pub live_sess : ℕ
  pub probe_fails : ℕ
  pub drift : ℤ

pub record Assignment : Type 0 where
  pub relay_id : String
  pub assigned_region : String
  pub assigned_endpoints : List Endpoint

pub record Pool : Type 0 where
  pub conns : Map String RelayConn
  pub sticky : Map String String
  pub data_sticky : Map String String

abbrev pub same_text : String → String → Bool
same_text a b = ite (String_discrete a b) true false

unfoldable pub has_sdata : List Endpoint → Bool
has_sdata [] = false
has_sdata (e ∷ es) =
    let rest = has_sdata es in
    same_text e.transport "sdata" && (not (same_text e.host "") && ltb 0 e.port) || rest

abbrev pub assignment_of : RelayConn → Assignment
assignment_of c = record {
  relay_id = c.id;
  assigned_region = c.region;
  assigned_endpoints = c.endpoints;
}

-- eligibleLocked
unfoldable pub eligible : ℕ → RelayConn → Bool
eligible now c =
    if not (same_text c.status "active") || leb 2 c.probe_fails
    then false
    else if ltb drift_limit (pos_part c.drift) || ltb drift_limit (neg_part c.drift)
    then false
    else ltb now (c.last_beat + heartbeat_wait)

-- loadNormLocked, as a fraction; a relay that declares no capacity has the load 0.
unfoldable pub load_num : RelayConn → ℕ
load_num c = if ltb 0 c.max_sess then c.sessions else 0

unfoldable pub load_den : RelayConn → ℕ
load_den c = if ltb 0 c.max_sess then c.max_sess else 1

abbrev pub load_lt : RelayConn → RelayConn → Bool
load_lt c d = ltb (load_num c * load_den d) (load_num d * load_den c)

-- The first loop of `Assign`: the entries that pass a test, in the order of the map.
unfoldable pub keep : (RelayConn → Bool) → Map String RelayConn → List RelayConn
keep p [] = []
keep p ((id, c) ∷ m) = let rest = keep p m in if p c then c ∷ rest else rest

unfoldable pub find_id : String → List RelayConn → Option RelayConn
find_id id [] = none
find_id id (c ∷ cs) = ite (String_discrete c.id id) (some c) (find_id id cs)

-- The last loop: the first of the least loaded.
unfoldable pub least_loaded : RelayConn → List RelayConn → RelayConn
least_loaded best [] = best
least_loaded best (c ∷ cs) = least_loaded (if load_lt c best then c else best) cs

unfoldable pub sticky_conn : Map String String → (node : String) → List RelayConn → Option RelayConn
sticky_conn sticky node cs = elim (lookup node sticky) [ none ↦ none | some rid ↦ find_id rid cs ]

-- What `Assign` and `AssignData` do with the eligible relays and their own table of sticky nodes.
unfoldable pub pick :
    Map String String → (node : String) → List RelayConn → Option (RelayConn × Map String String)
pick sticky node [] = none
pick sticky node (c ∷ cs) = elim (sticky_conn sticky node (c ∷ cs)) [
  | some found ↦ some (found, sticky)
  | none ↦ let best = least_loaded c cs in some (best, insert node best.id sticky)
]

unfoldable pub assign : Pool → (node : String) → (now : ℕ) → Pool × Option Assignment
assign m node now = elim (pick m.sticky node (keep (eligible now) m.conns)) [
  | none ↦ (m, none)
  | some (c, sticky) ↦ (record m { sticky = sticky }, some (assignment_of c))
]

abbrev pub data_eligible : ℕ → RelayConn → Bool
data_eligible now c = eligible now c && has_sdata c.endpoints

unfoldable pub assign_data : Pool → (node : String) → (now : ℕ) → Pool × Option Assignment
assign_data m node now = elim (pick m.data_sticky node (keep (data_eligible now) m.conns)) [
  | none ↦ (m, none)
  | some (c, sticky) ↦ (record m { data_sticky = sticky }, some (assignment_of c))
]
