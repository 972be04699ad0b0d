-- ===== src/Relay/Router/Legs.antt =====
-- src/relay/cmd/xnc-relay/sessions.go: the handlers of the two legs, with the check of the ticket by
-- src/rtv/ticket.go. What websocket.Accept answers is an argument, `none` for its error.
use xnc.Prelude.{
  ℕ, String, Bool, true, false, not, ◌&&◌, ◌||◌, Option, none, some, List, [], String_discrete, ite,
  if◌then◌else◌,
}
use xnc.Rtv.Ticket.{Bytes, Codec, ticket_session_data}
use xnc.Rtv.Ticket.Verifier.{Verifier, Ticket, Checked, valid, bad_token, expired, killed, verify}
use xnc.Relay.Router.{SessionRouter, Side, agent_side, client_side, Effect, attach}

abbrev pub same_name : String → String → Bool
same_name a b = ite (String_discrete a b) true false

-- The answer of verifyLeg: the ticket, or the status of its error.
pub data LegCheck : Type 0 where
  admitted : Ticket → LegCheck
  denied : (status : ℕ) → LegCheck

-- `sub` of a side.
abbrev pub side_name : Side → String
side_name agent_side = "agent"
side_name client_side = "client"

-- The tests on a valid ticket, in order.
abbrev pub check_ticket : (relay path_sid sub : String) → Ticket → LegCheck
check_ticket relay path_sid sub tk =
    if not (same_name tk.ticket_typ ticket_session_data)
      || (not (same_name tk.relay_id relay)
          || (same_name tk.session_id "" || same_name tk.node_id ""))
    then denied 401
    else if not (same_name tk.name sub)
    then denied 401
    else if not (same_name path_sid "") && not (same_name path_sid tk.session_id)
    then denied 401
    else admitted tk

abbrev pub check_verified : (relay path_sid sub : String) → Checked → LegCheck
check_verified relay path_sid sub (valid tk) = check_ticket relay path_sid sub tk
check_verified relay path_sid sub bad_token = denied 401
check_verified relay path_sid sub expired = denied 401
check_verified relay path_sid sub killed = denied 401

unfoldable pub verify_leg :
    Codec
    → Verifier
    → (relay : String) → (token : Bytes) → (path_sid sub : String) → (now : ℕ) → Verifier × LegCheck
verify_leg x v relay token path_sid sub now =
    if same_name relay ""
    then (v, denied 503)
    else (let (v', checked) = verify x v token now in
        (v', check_verified relay path_sid sub checked))

-- What a request gets: an HTTP error, or a connection, if websocket.Accept gave one.
pub data Reply : Type 0 where
  http_error : (status : ℕ) → Reply
  connected not_accepted : Reply

-- AgentLegHandler with the path "", and ClientLegHandler.
unfoldable pub leg_handler :
    Codec
    → (relay : String) → Side
    → (token : Bytes) → (path_sid : String) → (accepted : Option ℕ) → (now : ℕ)
    → Verifier × SessionRouter
    → (Verifier × SessionRouter) × Reply × List Effect
leg_handler x relay side token path_sid accepted now (v, r) =
    let (v', checked) = verify_leg x v relay token path_sid (side_name side) now in
    elim checked [
      | denied status ↦ ((v', r), http_error status, [])
      | admitted tk ↦ elim accepted [
        | none ↦ ((v', r), not_accepted, [])
        | some c ↦ let (r', effects) = attach side tk c r in ((v', r'), connected, effects)
      ]
    ]
