-- ===== src/Rtv/Ticket/Verifier.antt =====
-- src/rtv/ticket.go: the offline check of a ticket, and the local tombstones that revoke one.
use xnc.Prelude.{
  ℕ, suc, ◌+◌, ◌*◌, String, Bool, true, false, ◌&&◌, Option, none, some, List, [], ◌∷◌, take, drop,
  ltb, ◌==◌, if◌then◌else◌, ite, String_discrete,
}
use xnc.Prelude.Map.{Map, get, put, del}
use xnc.Rtv.Ticket.{Bytes, Cap, Claims, Codec, dot, second, ticket_v1, ticket_host, ticket_leeway}

infixl 5 ◌>>=◌
abbrev pub ◌>>=◌ {ℓ κ} : {A : Type ℓ} {B : Type κ} → Option A → (A → Option B) → Option B
none >>= f = none
some a >>= f = f a

pub record Ticket : Type 0 where
  pub ticket_typ : String
  pub node_id : String
  pub session_id : String
  pub relay_id : String
  pub ticket_gen : ℕ
  pub control : Bool
  pub input : Bool
  pub name : String
  pub expires_at : ℕ

pub data Checked : Type 0 where
  valid : Ticket → Checked
  bad_token expired killed : Checked

-- The keys "s:" and "n:" of the tombstones.
pub data TombKey : Type 0 where
  session_key node_key : String → TombKey

unfoldable pub TombKey-discrete : Discrete TombKey
TombKey-discrete = hlevel String_discrete

pub record Verifier : Type 0 where
  pub keys : List Bytes
  pub tomb : Map TombKey ℕ

abbrev pub tombstone_horizon : ℕ
tombstone_horizon = 90000 * second

-- The loop of NewVerifier; `none` is its error.
unfoldable pub read_keys : Codec → List String → Option (List Bytes)
read_keys x [] = some []
read_keys x (h ∷ hs) = do key ← x.public_key_of h; rest ← read_keys x hs; some (key ∷ rest)

unfoldable pub new_verifier : Codec → List String → Option Verifier
unfolding read_keys
new_verifier x hexes = elim (read_keys x hexes) [
  | none ↦ none
  | some keys ↦ some (record { keys = keys; tomb = [] })
]

-- SetKeys; the flag tells that the list was accepted.
unfoldable pub set_keys : Codec → Verifier → List String → Verifier × Bool
unfolding new_verifier
set_keys x v hexes = elim (new_verifier x hexes) [
  | none ↦ (v, false)
  | some nv ↦ (record v { keys = nv.keys }, true)
]

-- strings.Index(token, "..")
unfoldable pub index_dots : Bytes → Option ℕ
index_dots [] = none
index_dots (b ∷ []) = none
index_dots (b ∷ c ∷ bs) =
    let rest = index_dots (c ∷ bs) in
    if b == dot && c == dot then some 0 else elim rest [ none ↦ none | some i ↦ some (suc i) ]

unfoldable pub signed_by_any : Codec → List Bytes → (payload sig : Bytes) → Bool
signed_by_any x [] payload sig = false
signed_by_any x (k ∷ ks) payload sig =
    let rest = signed_by_any x ks payload sig in if x.signed_by k payload sig then true else rest

abbrev pub tomb_key : Claims → TombKey
tomb_key c = ite (String_discrete c.typ ticket_host) (node_key c.nid) (session_key c.sid)

unfoldable pub check_tomb : Verifier → TombKey → (now : ℕ) → Verifier × Bool
check_tomb v key now = elim (get TombKey-discrete key v.tomb) [
  | none ↦ (v, false)
  | some until ↦
      if ltb until now
      then (record v { tomb = del TombKey-discrete key v.tomb }, false)
      else (v, true)
]

abbrev pub allows : (Cap → Bool) → Option Cap → Bool
allows f none = false
allows f (some cap) = f cap

abbrev pub ticket_of : Claims → Ticket
ticket_of c = record {
  ticket_typ = c.typ;
  node_id = c.nid;
  session_id = c.sid;
  relay_id = c.rid;
  ticket_gen = c.gen;
  control = allows (λ k. k.may_control) c.cap;
  input = allows (λ k. k.may_input) c.cap;
  name = c.nm;
  expires_at = c.exp * second;
}

-- `Verify` once the signature is accepted.
unfoldable pub judge : Verifier → Claims → (now : ℕ) → Verifier × Checked
unfolding check_tomb
judge v c now =
    if ltb (c.exp * second + ticket_leeway) now
    then (v, expired)
    else (let (v', dead) = check_tomb v (tomb_key c) now in
        if dead then (v', killed) else (v', valid (ticket_of c)))

-- `Verify` once the two halves of the token are decoded.
unfoldable pub verify_signed :
    Codec → Verifier → (payload sig : Bytes) → (now : ℕ) → Verifier × Checked
unfolding judge signed_by_any
verify_signed x v payload sig now = elim (x.unmarshal payload) [
  | none ↦ (v, bad_token)
  | some c ↦
      if c.v == ticket_v1
      then (if signed_by_any x v.keys payload sig then judge v c now else (v, bad_token))
      else (v, bad_token)
]

-- The two halves of a token, decoded.
unfoldable pub halves : Codec → Bytes → Option (Bytes × Bytes)
unfolding index_dots
halves x token = elim (index_dots token) [
  | none ↦ none
  | some i ↦ if i == 0 then none else (do
    payload ← x.decode (take i token)
    sig ← x.decode (drop (i + 2) token)
    some (payload, sig))
]

unfoldable pub verify : Codec → Verifier → (token : Bytes) → (now : ℕ) → Verifier × Checked
unfolding halves verify_signed
verify x v token now = elim (halves x token) [
  | none ↦ (v, bad_token)
  | some (payload, sig) ↦ verify_signed x v payload sig now
]

unfoldable pub kill : Verifier → (node session : String) → (now : ℕ) → Verifier
kill v node session now =
    let bury : TombKey → Verifier =
      λ key. record v { tomb = put TombKey-discrete key (now + tombstone_horizon) v.tomb } in
    ite (String_discrete session "") (ite (String_discrete node "") v (bury (node_key node)))
      (bury (session_key session))
