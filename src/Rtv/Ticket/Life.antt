-- ===== src/Rtv/Ticket/Life.antt =====
-- src/rtv/ticket.go: how long a host ticket is taken, and what a tombstone stops.
use xnc.Prelude.{
  ℕ, ◌+◌, ◌*◌, ◌≤◌, ◌≡◌, ◌≢◌, refl, ◌∙◌, inl, inr, String, Option, some, List, ite, arith,
}
use mathlib.Core.Path.{subst}
use xnc.Prelude.Map.{get, get-put}
use xnc.Rtv.Ticket.{
  Bytes, Claims, Codec, IsCodec, Signer, new_signer_from_key, second, unix, ticket_leeway,
  host_ticket_life, ticket_host, mint, host_claims, host_ticket_for,
}
use xnc.Rtv.Ticket.Verifier.{
  Verifier, Checked, valid, TombKey, TombKey-discrete, node_key, session_key, Ticket, ticket_of,
  tomb_key, tombstone_horizon, verify, kill,
}
use xnc.Rtv.Ticket.Check.{HasKey, IsDead, Verdict, verify-mint}
use xnc.Rtv.Ticket.Issue.{
  Request, requests, requests-IsCache, requests-priv, host_ticket_for-IsFresh, host_ticket_for-priv,
}

tomb_key-host : (c : Claims) → c.typ ≡ ticket_host → tomb_key c ≡ node_key c.nid
tomb_key-host c e = ground arith

pub tomb_key-session : (c : Claims) → c.typ ≢ ticket_host → tomb_key c ≡ session_key c.sid
tomb_key-session c e = ground arith

pub judged :
    (v : Verifier) (c : Claims) (now : ℕ) {r : Checked}
    → Verdict v c now r
    → now ≤ c.exp * second + ticket_leeway
    → (IsDead v (tomb_key c) now → ⊥)
    → r ≡ valid (ticket_of c)
judged v c now (inl (e, late)) soon alive = absurd (omega arith)
judged v c now (inr (inl (e, h, dead))) soon alive = absurd (alive dead)
judged v c now (inr (inr (e, h, rest))) soon alive = e

-- A relay that knows the key of the server, and has no tombstone for the node, takes every host
-- ticket that a signer hands out, after any requests since it was new: for at least twice the
-- leeway from then on.
pub host_ticket_for-verify :
    (x : Codec) (priv : Bytes) (rs : List Request) (s' : Signer) (node relay : String)
    (now later : ℕ) (tok : Bytes) (v : Verifier)
    → IsCodec x
    → host_ticket_for x (requests x (new_signer_from_key priv) rs) node relay now ≡ some (s', tok)
    → HasKey (x.public_of priv) v.keys
    → later ≤ now + 2 * ticket_leeway
    → (IsDead v (node_key node) later → ⊥)
    → (then_ : ℕ) × ((verify x v tok later).1 ≡ valid (ticket_of (host_claims node relay then_)))
unfolding get
host_ticket_for-verify x priv rs s' node relay now later tok v w e known soon alive =
    let s = requests x (new_signer_from_key priv) rs in
    let kept =
      host_ticket_for-priv x s s' node relay now tok e
      ∙ requests-priv x (new_signer_from_key priv) rs in
    let cache = requests-IsCache x (new_signer_from_key priv) rs (λ n r. tt) in
    let fresh = (host_ticket_for-IsFresh x s s' node relay now tok cache e).1 in
    let minted : mint x (host_claims node relay fresh.0) priv ≡ some tok = rw (← kept) fresh.1 in
    let verdict =
      verify-mint x v (host_claims node relay fresh.0) priv tok later w known refl minted in
    let limit : later ≤ unix (fresh.0 + host_ticket_life) * second + ticket_leeway =
      omega (arith, fresh.2) in
    let c = host_claims node relay fresh.0 in
    (
      fresh.0,
      judged v c later verdict limit
          (λ dead. alive (subst (λ k. IsDead v k later) (tomb_key-host c refl) dead)),
    )

-- The tombstone that `Kill` sets, and the others.
get-kill_session :
    (v : Verifier) (node session : String) (now : ℕ) (key : TombKey)
    → session ≢ ""
    → get TombKey-discrete key (kill v node session now).tomb
      ≡ ite
          (TombKey-discrete (session_key session) key)
          (some (now + tombstone_horizon))
          (get TombKey-discrete key v.tomb)
unfolding kill
get-kill_session v node session now key some_session =
    ground
      (arith, get-put TombKey-discrete (session_key session) key (now + tombstone_horizon) v.tomb)

kill-keys :
    (v : Verifier) (node session : String) (now : ℕ) → (kill v node session now).keys ≡ v.keys
unfolding kill
kill-keys v node session now = ground arith

other_key :
    (j k : TombKey) (d : Dec (Path TombKey j k)) (until : ℕ) (o : Option ℕ)
    → (Path TombKey j k → ⊥)
    → ite d (some until) o ≡ o
other_key j k (yes e) until o n = absurd (n e)
other_key j k (no e) until o n = refl

-- Two verdicts on one ticket agree if the tombstone of its key is the same.
same-Verdict :
    (v v' : Verifier) (c : Claims) (now : ℕ) {r r' : Checked}
    → get TombKey-discrete (tomb_key c) v.tomb ≡ get TombKey-discrete (tomb_key c) v'.tomb
    → Verdict v c now r
    → Verdict v' c now r'
    → r ≡ r'
same-Verdict v v' c now e a b = ground arith

-- The end of a session does not touch a node: on a host ticket of any node, minted with a key
-- that it knows, a verifier gives the same answer after the kill of a session as without it.
pub verify-kill_other :
    (x : Codec) (v : Verifier) (node session owner relay : String) (priv tok : Bytes)
    (minted now later : ℕ)
    → IsCodec x
    → HasKey (x.public_of priv) v.keys
    → session ≢ ""
    → mint x (host_claims owner relay minted) priv ≡ some tok
    → (verify x (kill v node session now) tok later).1 ≡ (verify x v tok later).1
verify-kill_other x v node session owner relay priv tok minted now later w known some_session e =
    let c = host_claims owner relay minted in
    same-Verdict (kill v node session now) v c later
      (rw (tomb_key-host c refl, get-kill_session v node session now (node_key owner) some_session)
        (other_key (session_key session) (node_key owner) (TombKey-discrete _ _) _ _
          (λ same. ground arith)))
      (verify-mint x (kill v node session now) c priv tok later w
        (rw (kill-keys v node session now) known) refl e)
      (verify-mint x v c priv tok later w known refl e)
