-- ===== src/Relay/Router/Tests.antt =====
-- src/relay/cmd/xnc-relay/sessions.go on one session with two legs.
use xnc.Prelude.{
  ℕ, ◌+◌, ◌*◌, ◌≤◌, ◌≡◌, ◌≢◌, ◌⊎◌, inl, refl, String, some, List, [], ◌∷◌, ◌++◌, String_discrete,
  apart, arith,
}
use xnc.Prelude.Map.{get}
use xnc.Rtv.Ticket.{
  Bytes, second, session_data_claims, session_data_ticket, mint, new_signer_from_key,
}
use xnc.Rtv.Ticket.Verifier.{Ticket, Verifier, ticket_of, valid, verify}
use xnc.Rtv.Ticket.Tests.SmallCodec.{codec, codec-IsCodec, write_claims, number_of}
use xnc.Relay.Router.{SessionRouter, Effect, agent_side, client_side, new_session_router, attach}
use xnc.Relay.Router.Legs.{leg_handler, connected}
use xnc.Relay.Router.Runs.{Runs, start, then_step, attaches}
use xnc.Relay.Router.Reports.{closes, opens, total, live, closes_le_opens}
use xnc.Relay.Router.Phases.{PhaseStep, phase, Step-PhaseStep}
use xnc.Relay.Router.Seats.{Seated}
use xnc.Relay.Router.Admission.{Fits, leg_handler-Fits, leg_handler-session_data_ticket}

abbrev ticket : Ticket
ticket =
    ticket_of
      (session_data_claims "session-1" "node-1" "relay-1" "agent" (600 * second) (50 * second))

-- The router with the agent's leg, and with both.
abbrev half : SessionRouter
half = (attach agent_side ticket 1 new_session_router).0

abbrev whole : SessionRouter
whole = (attach client_side ticket 2 half).0

abbrev half_effects : List Effect
half_effects = [] ++ (attach agent_side ticket 1 new_session_router).1

to_half : Runs new_session_router half_effects half
to_half = then_step start (attaches agent_side ticket 1 new_session_router)

to_whole : Runs new_session_router (half_effects ++ (attach client_side ticket 2 half).1) whole
to_whole = then_step to_half (attaches client_side ticket 2 half)

closes_le_opens_example :
    total (closes "session-1") (half_effects ++ (attach client_side ticket 2 half).1)
      + live "session-1" whole
    ≤ total (opens "session-1") (half_effects ++ (attach client_side ticket 2 half).1)
closes_le_opens_example =
    closes_le_opens "session-1" (half_effects ++ (attach client_side ticket 2 half).1) whole
      to_whole

Step-PhaseStep_example : PhaseStep (phase "session-1" half) (phase "session-1" whole)
Step-PhaseStep_example =
    Step-PhaseStep half_effects (attach client_side ticket 2 half).1 half whole "session-1" to_half
      (attaches client_side ticket 2 half)

abbrev server_key : Bytes
server_key = 7 ∷ []

abbrev relay : Verifier
relay = record { keys = server_key ∷ []; tomb = [] }

-- Version, sdata, node-1, session-1, relay-1, generation, agent and times, and the signature.
abbrev token : Bytes
token =
    48 ∷ 50 ∷ 51 ∷ 54 ∷ 53 ∷ 48 ∷ 56 ∷ 97 ∷ 697 ∷ 46 ∷ 46 ∷ 54 ∷ 48 ∷ 50 ∷ 51 ∷ 54 ∷ 53 ∷ 48 ∷ 56
    ∷ 97 ∷ 697 ∷ []

minted :
    session_data_ticket codec
      (new_signer_from_key server_key)
      "session-1"
      "node-1"
      "relay-1"
      "agent"
      (600 * second)
      (50 * second)
    ≡ some token
unfolding session_data_ticket mint write_claims number_of String_discrete
minted = refl

leg_handler-session_data_ticket_example :
    let result =
      leg_handler codec "relay-1" agent_side token ""
        (some 1)
        (60 * second)
        (relay, new_session_router) in
    (result.1 ≡ connected) × Seated agent_side "session-1" 1 new_session_router result.0.1 result.2
unfolding get
leg_handler-session_data_ticket_example =
    leg_handler-session_data_ticket codec (new_signer_from_key server_key) "session-1" "node-1"
      "relay-1" agent_side (600 * second) (50 * second) (60 * second) token "" 1 relay []
      new_session_router codec-IsCodec start minted (inl refl) (apart "session-1" "" refl)
      (apart "node-1" "" refl) (apart "relay-1" "" refl) (inl refl) (omega arith) (λ dead. dead)

leg_handler-Fits_example :
    let ((v', r'), reply, effects) =
      leg_handler codec "relay-1" client_side token "session-1"
        (some 2)
        (60 * second)
        (relay, half) in
    ((reply ≢ connected) × (r' ≡ half) × (effects ≡ []))
    ⊎ ((t : Ticket) × (c : ℕ) × (some 2 ≡ some c)
        × (◌≢◌ {A = String} "relay-1" "")
        × ((verify codec relay token (60 * second)).1 ≡ valid t)
        × Fits "relay-1" "session-1" "client" t
        × (r' ≡ (attach client_side t c half).0)
        × (effects ≡ (attach client_side t c half).1))
leg_handler-Fits_example =
    leg_handler-Fits codec "relay-1" client_side token "session-1" (some 2) (60 * second) relay half
