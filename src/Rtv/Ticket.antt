-- ===== src/Rtv/Ticket.antt =====
-- src/rtv/ticket.go: the relay tickets, their issue on the server and their check on a relay.
-- json, base64, hex and ed25519 are not code of the repository: they are the fields of a record
-- `Codec`, and what the code relies on are the laws of `IsCodec`. Times are nanoseconds since the
-- Unix epoch, from which the clock and the `exp` of a ticket are counted; `exp` is in seconds, and
-- one before the epoch is not modelled. A method runs under its mutex; `Verify` is one step, for
-- its one access to the tombstones. A token is the list of its bytes.
pub mod Verifier
pub mod Check
pub mod Issue
pub mod Life
pub mod Tests
use xnc.Prelude.{
  ℕ, ◌+◌, ◌*◌, ◌/◌, ◌<◌, ◌≡◌, ◌≢◌, String, Bool, true, false, Option, none, some, List, [], ◌∷◌,
  ◌++◌, All, ltb, if◌then◌else◌, String_discrete,
}
use xnc.Prelude.Map.{Map, get, put}

abbrev pub Bytes : Type 0
Bytes = List ℕ

pub record Cap : Type 0 where
  pub may_control : Bool
  pub may_input : Bool

pub record Claims : Type 0 where
  pub v : ℕ
  pub typ : String
  pub nid : String
  pub sid : String
  pub rid : String
  pub gen : ℕ
  pub cap : Option Cap
  pub nm : String
  pub iat : ℕ
  pub exp : ℕ

pub record Codec : Type 0 where
  pub marshal : Claims → Option Bytes
  pub unmarshal : Bytes → Option Claims
  pub encode : Bytes → Bytes
  pub decode : Bytes → Option Bytes
  pub sign : (priv payload : Bytes) → Bytes
  pub signed_by : (key payload sig : Bytes) → Bool
  pub public_of : (priv : Bytes) → Bytes
  -- hex.DecodeString of the trimmed text, with the test of the length of the key.
  pub private_key_of : String → Option Bytes
  pub public_key_of : String → Option Bytes

abbrev pub dot : ℕ
dot = b'.'

-- What the code relies on: json gives back what it wrote and never writes the empty text; base64
-- too, and its alphabet has no dot; ed25519 accepts its own signatures.
pub record IsCodec (x : Codec) : Type 0 where
  pub unmarshal-marshal : (c : Claims) {p : Bytes} → x.marshal c ≡ some p → x.unmarshal p ≡ some c
  pub marshal-nonempty : (c : Claims) → x.marshal c ≢ some []
  pub decode-encode : (p : Bytes) → x.decode (x.encode p) ≡ some p
  pub encode-dotless : (p : Bytes) → All (λ b. b ≢ dot) (x.encode p)
  pub encode-nonempty : (p : Bytes) → p ≢ [] → x.encode p ≢ []
  pub sign-signed_by : (priv p : Bytes) → x.signed_by (x.public_of priv) p (x.sign priv p) ≡ true

abbrev pub second : ℕ
second = 1000000000

abbrev pub ticket_v1 : ℕ
ticket_v1 = 1

abbrev pub ticket_host : String
ticket_host = "host"

abbrev pub ticket_viewer : String
ticket_viewer = "viewer"

abbrev pub ticket_session_data : String
ticket_session_data = "sdata"

-- In seconds, as `now.Unix()` is compared with it, and as a duration.
abbrev pub leeway_seconds : ℕ
leeway_seconds = 120

abbrev pub ticket_leeway : ℕ
ticket_leeway = leeway_seconds * second

abbrev pub host_ticket_life : ℕ
host_ticket_life = 86400 * second

abbrev pub unix : ℕ → ℕ
unix now = now / second

unfoldable pub mint : Codec → Claims → (priv : Bytes) → Option Bytes
mint x c priv = elim (x.marshal c) [
  | none ↦ none
  | some payload ↦ some (x.encode payload ++ (dot ∷ dot ∷ x.encode (x.sign priv payload)))
]

pub record HostTicket : Type 0 where
  pub tok : Bytes
  pub exp_unix : ℕ

-- The key of the cache is the node and the relay; the code joins them with a NUL byte, which no
-- identifier holds.
abbrev pub HostKey : Type 0
HostKey = String × String

unfoldable pub HostKey-discrete : Discrete HostKey
HostKey-discrete = hlevel String_discrete

pub record Signer : Type 0 where
  pub priv : Bytes
  pub host_cache : Map HostKey HostTicket

abbrev pub new_signer_from_key : Bytes → Signer
new_signer_from_key priv = record { priv = priv; host_cache = [] }

unfoldable pub new_signer_from_hex : Codec → String → Option Signer
new_signer_from_hex x hex = elim (x.private_key_of hex) [
  | none ↦ none
  | some priv ↦ some (new_signer_from_key priv)
]

abbrev pub host_claims : (node relay : String) → (now : ℕ) → Claims
host_claims node relay now = record {
  v = ticket_v1;
  typ = ticket_host;
  nid = node;
  sid = "";
  rid = relay;
  gen = 1;
  cap = none;
  nm = "";
  iat = unix now;
  exp = unix (now + host_ticket_life);
}

abbrev pub cached : Signer → (node relay : String) → Option HostTicket
cached s node relay = get HostKey-discrete (node, relay) s.host_cache

-- A new host ticket, put into the cache; `none` is the panic.
unfoldable pub renew : Codec → Signer → (node relay : String) → (now : ℕ) → Option (Signer × Bytes)
renew x s node relay now = elim (mint x (host_claims node relay now) s.priv) [
  | none ↦ none
  | some tok ↦
      let entry : HostTicket = record { tok = tok; exp_unix = unix (now + host_ticket_life) } in
      some (record s { host_cache = put HostKey-discrete (node, relay) entry s.host_cache }, tok)
]

unfoldable pub host_ticket_for :
    Codec → Signer → (node relay : String) → (now : ℕ) → Option (Signer × Bytes)
unfolding renew
host_ticket_for x s node relay now = elim (cached s node relay) [
  | none ↦ renew x s node relay now
  | some t ↦
      if ltb (unix now + leeway_seconds) t.exp_unix
      then some (s, t.tok)
      else renew x s node relay now
]

abbrev pub viewer_claims :
    (session node relay name : String) → (control input : Bool) → (ttl now : ℕ) → Claims
viewer_claims session node relay name control input ttl now = record {
  v = ticket_v1;
  typ = ticket_viewer;
  nid = node;
  sid = session;
  rid = relay;
  gen = 1;
  cap = some (record { may_control = control; may_input = input });
  nm = name;
  iat = unix now;
  exp = unix (now + ttl);
}

unfoldable pub viewer_ticket :
    Codec
    → Signer
    → (session node relay name : String) → (control input : Bool) → (ttl now : ℕ) → Option Bytes
viewer_ticket x s session node relay name control input ttl now =
    mint x (viewer_claims session node relay name control input ttl now) s.priv

abbrev pub session_data_claims : (session node relay sub : String) → (ttl now : ℕ) → Claims
session_data_claims session node relay sub ttl now = record {
  v = ticket_v1;
  typ = ticket_session_data;
  nid = node;
  sid = session;
  rid = relay;
  gen = 1;
  cap = none;
  nm = sub;
  iat = unix now;
  exp = unix (now + ttl);
}

unfoldable pub session_data_ticket :
    Codec → Signer → (session node relay sub : String) → (ttl now : ℕ) → Option Bytes
session_data_ticket x s session node relay sub ttl now =
    mint x (session_data_claims session node relay sub ttl now) s.priv
