-- ===== src/Rtv/Ticket/Tests.antt =====
-- src/rtv/ticket.go with a small codec in the place of json, base64, hex and ed25519.
pub mod SmallCodec
use text.Mathlib.Text.{◌==◌}
use xnc.Prelude.{
  ℕ, ◌+◌, ◌*◌, ◌≤◌, ◌<◌, ◌≡◌, refl, inl, inr, String, Bool, true, false, Option, none, some, List,
  [], ◌∷◌, String_discrete, arith,
}
use xnc.Prelude.Map.{get, put}
use xnc.Rtv.Ticket.{
  Bytes, Claims, Codec, IsCodec, Signer, new_signer_from_key, mint, host_claims, viewer_claims,
  host_ticket_for, HostKey-discrete, renew, second, ticket_leeway, ticket_host,
}
use xnc.Rtv.Ticket.Tests.SmallCodec.{
  codec, codec-IsCodec, write_claims, read_claims, number_of, text_at,
}
use xnc.Rtv.Ticket.Verifier.{
  Verifier, Ticket, valid, verify, halves, signed_by_any, ticket_of, tomb_key, judge, check_tomb,
  verify_signed, index_dots, tombstone_horizon,
}
use xnc.Rtv.Ticket.Check.{Verdict, IsDead, verify-mint, verify-valid}
use xnc.Rtv.Ticket.Issue.{Request, requests}
use xnc.Rtv.Ticket.Life.{host_ticket_for-verify, verify-kill_other}

abbrev server_key : Bytes
server_key = 7 ∷ []

abbrev signer : Signer
signer = new_signer_from_key server_key

-- A relay that knows the key of the server.
abbrev relay : Verifier
relay = record { keys = (3 ∷ []) ∷ server_key ∷ []; tomb = [] }

abbrev host : Claims
host = host_claims "node-1" "relay-1" (50 * second)

abbrev host_token : Bytes
host_token =
    48 ∷ 48 ∷ 51 ∷ 47 ∷ 53 ∷ 48 ∷ 47 ∷ 97 ∷ 86497 ∷ 46 ∷ 46 ∷ 54 ∷ 48 ∷ 48 ∷ 51 ∷ 47 ∷ 53 ∷ 48 ∷ 47
    ∷ 97 ∷ 86497 ∷ []

host_minted : mint codec host server_key ≡ some host_token
unfolding mint write_claims number_of String_discrete
host_minted = refl

abbrev requested : List Request
requested = record { node = "node-2"; relay = "relay-1"; at = 20 * second } ∷ []

-- The signer after the two requests for host tickets.
abbrev served : Signer
served = record {
  priv = server_key;
  host_cache =
      (
        ("node-2", "relay-1"),
        record {
          tok =
              48 ∷ 48 ∷ 52 ∷ 47 ∷ 53 ∷ 48 ∷ 47 ∷ 67 ∷ 86467 ∷ 46 ∷ 46 ∷ 54 ∷ 48 ∷ 48 ∷ 52 ∷ 47 ∷ 53
              ∷ 48 ∷ 47 ∷ 67 ∷ 86467 ∷ [];
          exp_unix = 86420;
        },
      )
      ∷ (("node-1", "relay-1"), record { tok = host_token; exp_unix = 86450 })
      ∷ [];
}

abbrev guest : Claims
guest = viewer_claims "session-1" "node-1" "relay-1" "alice" true true (600 * second) (50 * second)

-- Version, viewer, node-1, session-1, relay-1, generation, alice, times and capabilities.
abbrev guest_token : Bytes
guest_token =
    48 ∷ 49 ∷ 51 ∷ 54 ∷ 53 ∷ 48 ∷ 55 ∷ 97 ∷ 697 ∷ 48 ∷ 48 ∷ 46 ∷ 46 ∷ 54 ∷ 48 ∷ 49 ∷ 51 ∷ 54 ∷ 53
    ∷ 48 ∷ 55 ∷ 97 ∷ 697 ∷ 48 ∷ 48 ∷ []

guest_minted : mint codec guest server_key ≡ some guest_token
unfolding mint write_claims number_of String_discrete
guest_minted = refl

verify-mint_example :
    Verdict relay host (60 * second) (verify codec relay host_token (60 * second)).1
verify-mint_example =
    verify-mint codec relay host server_key host_token (60 * second) codec-IsCodec (inr (inl refl))
      refl host_minted

verify-valid_example :
    (c : Claims) × (payload : Bytes) × (sig : Bytes) × (halves codec host_token
      ≡ some (payload, sig))
    × (codec.unmarshal payload ≡ some c)
    × (c.v ≡ 1)
    × (signed_by_any codec relay.keys payload sig ≡ true)
    × (60 * second ≤ c.exp * second + ticket_leeway)
    × (IsDead relay (tomb_key c) (60 * second) → ⊥)
    × (ticket_of host ≡ ticket_of c)
unfolding verify judge check_tomb verify_signed signed_by_any halves index_dots read_claims text_at
    get String_discrete
verify-valid_example = verify-valid codec relay host_token (60 * second) (ticket_of host) refl

host_ticket_for-verify_example :
    (then_ : ℕ) × ((verify codec relay host_token (200 * second)).1
      ≡ valid (ticket_of (host_claims "node-1" "relay-1" then_)))
unfolding host_ticket_for renew requests mint write_claims number_of get put String_discrete
    HostKey-discrete
host_ticket_for-verify_example =
    host_ticket_for-verify codec server_key requested served "node-1" "relay-1" (50 * second)
      (200 * second) host_token relay codec-IsCodec refl (inr (inl refl)) (omega arith)
      (λ dead. dead)
