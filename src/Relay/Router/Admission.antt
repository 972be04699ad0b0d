-- ===== src/Relay/Router/Admission.antt =====
-- src/relay/cmd/xnc-relay/sessions.go and src/rtv/ticket.go: which connections become legs, and that
-- the tickets of the server's signer open the way to them.
use xnc.Prelude.{
  ℕ, ◌≡◌, ◌≢◌, ◌⊎◌, refl, inl, inr, String, true, false, Option, some, List, [], apart, arith,
  Option-cases, Bool-cases, ◌+◌, ◌*◌, ◌≤◌,
}
use xnc.Rtv.Ticket.{
  Bytes, Codec, IsCodec, Signer, session_data_claims, session_data_ticket, ticket_session_data,
  ticket_host, ticket_leeway, second,
}
use xnc.Rtv.Ticket.Verifier.{
  Verifier, Ticket, session_key, Checked, valid, bad_token, expired, killed, verify, ticket_of,
}
use xnc.Rtv.Ticket.Check.{HasKey, IsDead, verify-mint}
use xnc.Rtv.Ticket.Life.{judged, tomb_key-session}
use xnc.Relay.Router.{SessionRouter, Side, Effect, new_session_router, attach}
use xnc.Relay.Router.Runs.{Runs}
use xnc.Relay.Router.Closing.{Runs-IsSound, new_session_router-IsSound}
use xnc.Relay.Router.Seats.{Seated, attach-Seated}
use xnc.Relay.Router.Legs.{
  LegCheck, admitted, denied, connected, side_name, same_name, check_ticket, check_verified,
  verify_leg, leg_handler,
}

-- The ticket is for a session leg of this side on this relay, and for the session of the path, if any.
abbrev pub Fits : (relay path_sid sub : String) → Ticket → Type 0
Fits relay path_sid sub t =
    (t.ticket_typ ≡ ticket_session_data)
    × (t.relay_id ≡ relay)
    × (t.session_id ≢ "")
    × (t.node_id ≢ "")
    × (t.name ≡ sub)
    × ((path_sid ≡ "") ⊎ (path_sid ≡ t.session_id))

same_name-yes : (a b : String) → same_name a b ≡ true → a ≡ b
same_name-yes a b e = ground arith

same_name-no : (a b : String) → same_name a b ≡ false → a ≢ b
same_name-no a b e = ground arith

check_ticket-Fits :
    (relay path_sid sub : String) (t t' : Ticket)
    → check_ticket relay path_sid sub t ≡ admitted t'
    → (t' ≡ t) × Fits relay path_sid sub t
check_ticket-Fits relay path_sid sub t t' e = ground arith

check_ticket-admitted :
    (relay path_sid sub : String) (t : Ticket)
    → Fits relay path_sid sub t
    → check_ticket relay path_sid sub t ≡ admitted t
check_ticket-admitted relay path_sid sub t (typ, rel, sid, nid, nm, inl e) = ground arith
check_ticket-admitted relay path_sid sub t (typ, rel, sid, nid, nm, inr e) = ground arith

check_verified-Fits :
    (relay path_sid sub : String) (q : Checked) (t : Ticket)
    → check_verified relay path_sid sub q ≡ admitted t
    → (q ≡ valid t) × Fits relay path_sid sub t
check_verified-Fits relay path_sid sub (valid t') t e =
    let (same, fits) = check_ticket-Fits relay path_sid sub t' t e in rw (same) (refl, fits)
check_verified-Fits relay path_sid sub bad_token t e = absurd (ground arith)
check_verified-Fits relay path_sid sub expired t e = absurd (ground arith)
check_verified-Fits relay path_sid sub killed t e = absurd (ground arith)

LegCheck-cases :
    (q : LegCheck) → ((status : ℕ) × (q ≡ denied status)) ⊎ ((t : Ticket) × (q ≡ admitted t))
LegCheck-cases (denied status) = inl (status, refl)
LegCheck-cases (admitted t) = inr (t, refl)

verify_leg-valid :
    (x : Codec) (v : Verifier) (relay : String) (token : Bytes) (path_sid sub : String) (now : ℕ)
    (t : Ticket)
    → (verify_leg x v relay token path_sid sub now).1 ≡ admitted t
    → (relay ≢ "") × ((verify x v token now).1 ≡ valid t) × Fits relay path_sid sub t
unfolding verify_leg
verify_leg-valid x v relay token path_sid sub now t e = elim (Bool-cases (same_name relay "")) [
  | inl empty ↦ absurd (ground arith)
  | inr some_name ↦
      let (accepted, fits) =
        check_verified-Fits relay path_sid sub (verify x v token now).1 t (ground arith) in
      (same_name-no relay "" some_name, accepted, fits)
]

verify_leg-admitted :
    (x : Codec) (v : Verifier) (relay : String) (token : Bytes) (path_sid sub : String) (now : ℕ)
    (t : Ticket)
    → relay ≢ ""
    → (verify x v token now).1 ≡ valid t
    → Fits relay path_sid sub t
    → (verify_leg x v relay token path_sid sub now).1 ≡ admitted t
unfolding verify_leg
verify_leg-admitted x v relay token path_sid sub now t some_name e fits =
    let fine = check_ticket-admitted relay path_sid sub t fits in ground arith

-- A connection reaches the router only with a ticket that the verifier accepts, for a session leg of
-- this side on this relay, whose session is that of the path where there is one; the router then
-- attaches it with that ticket. A request that gets any other reply leaves the router as it is.
pub leg_handler-Fits :
    (x : Codec) (relay : String) (side : Side) (token : Bytes) (path_sid : String)
    (accepted : Option ℕ) (now : ℕ) (v : Verifier) (r : SessionRouter)
    → let ((v', r'), reply, effects) =
        leg_handler x relay side token path_sid accepted now (v, r) in
      ((reply ≢ connected) × (r' ≡ r) × (effects ≡ []))
      ⊎ ((t : Ticket) × (c : ℕ) × (accepted ≡ some c)
          × (relay ≢ "")
          × ((verify x v token now).1 ≡ valid t)
          × Fits relay path_sid (side_name side) t
          × (r' ≡ (attach side t c r).0)
          × (effects ≡ (attach side t c r).1))
unfolding leg_handler
leg_handler-Fits x relay side token path_sid accepted now v r =
    elim (LegCheck-cases (verify_leg x v relay token path_sid (side_name side) now).1) [
      | inl (status, e) ↦ inl (ground arith, ground arith, ground arith)
      | inr (t, e) ↦ elim (Option-cases accepted) [
        | inl none_yet ↦ inl (ground arith, ground arith, ground arith)
        | inr (c, got) ↦
            let (some_name, ok, fits) =
              verify_leg-valid x v relay token path_sid (side_name side) now t e in
            inr (t, c, got, some_name, ok, fits, ground arith, ground arith)
      ]
    ]

-- On a relay that knows the key, until the leeway after its expiry, but for a standing tombstone of the
-- session, a ticket that the server's signer mints for a side of a session on this relay lets its
-- connection in, whatever the path says but another session, where session, node and relay have names:
-- after any run of the router, the connection becomes that leg of the session and the other leg stays as
-- it was, or the side has its leg already, and then the connection is refused and the router stays as
-- it was.
pub leg_handler-session_data_ticket :
    (x : Codec) (s : Signer) (session node relay : String) (side : Side) (ttl minted now : ℕ)
    (token : Bytes) (path_sid : String) (c : ℕ) (v : Verifier) (es : List Effect)
    (r : SessionRouter)
    → IsCodec x
    → Runs new_session_router es r
    → session_data_ticket x s session node relay (side_name side) ttl minted ≡ some token
    → HasKey (x.public_of s.priv) v.keys
    → session ≢ ""
    → node ≢ ""
    → relay ≢ ""
    → (path_sid ≡ "") ⊎ (path_sid ≡ session)
    → let claims = session_data_claims session node relay (side_name side) ttl minted in
      now ≤ claims.exp * second + ticket_leeway
      → (IsDead v (session_key session) now → ⊥)
      → let result = leg_handler x relay side token path_sid (some c) now (v, r) in
        (result.1 ≡ connected) × Seated side session c r result.0.1 result.2
unfolding leg_handler session_data_ticket
leg_handler-session_data_ticket x s session node relay side ttl minted now token path_sid c v es r w
      runs e known sid nid rid path soon alive =
    let claims = session_data_claims session node relay (side_name side) ttl minted in
    let checked =
      judged v claims now (verify-mint x v claims s.priv token now w known refl e) soon (λ dead.
        alive (rw⁻¹ (tomb_key-session claims (apart ticket_session_data ticket_host refl)) dead)) in
    let opened =
      verify_leg-admitted x v relay token path_sid (side_name side) now (ticket_of claims) rid
        checked (refl, refl, sid, nid, refl, path) in
    let sound = Runs-IsSound new_session_router-IsSound runs in
    let attached = attach side (ticket_of claims) c r in
    let result = leg_handler x relay side token path_sid (some c) now (v, r) in
    let router : result.0.1 ≡ attached.0 = ground arith in
    let effects : result.2 ≡ attached.1 = ground arith in
    let seated =
      attach-Seated side (ticket_of claims) c r (λ s found. sound.keyed session s found) in
    (ground arith, rw (router, effects) seated)
