-- ===== src/Rtv/Arbiter/Tests.antt =====
-- src/rtv/arbiter.go at concrete calls.
use xnc.Prelude.{
  ℕ, ◌*◌, ◌≡◌, ◌≢◌, refl, String, true, false, some, List, [], ◌∷◌, String_discrete, apart, arith,
}
use text.Mathlib.Text.{◌==◌}
use xnc.Prelude.Map.{get, put}
use xnc.Rtv.Arbiter.{Arbiter, new_arbiter, new_lease, second, take}
use xnc.Rtv.Arbiter.Moves.{
  Call, takes, apply, MayGain, MayLose, caller, owner-apply_gain, owner-apply_loss,
}
use xnc.Rtv.Arbiter.Control.{Attempt}

-- Alice's session holds the node since second 8.
abbrev alice_holds : Arbiter
alice_holds = record new_arbiter { leases = ("node", new_lease "alice" "Alice" (8 * second)) ∷ [] }

abbrev noon : ℕ
noon = 10 * second

abbrev bob_takes : Call
bob_takes = takes "bob" "Bob" true

abbrev carol_tries : List Attempt
carol_tries =
    record { session = "carol"; shown_name = "Carol"; capable = true; at = 11 * second }
    ∷ record { session = "alice"; shown_name = "Alice"; capable = true; at = 12 * second }
    ∷ []

apart_some : (s t : String) → (s == t) ≡ false → some s ≢ some t
apart_some s t e h = apart s t e (ground arith)

owner-apply_gain_example : (caller bob_takes ≡ "bob") × MayGain alice_holds "node" noon bob_takes
unfolding apply get put take String_discrete
owner-apply_gain_example =
    owner-apply_gain alice_holds "node" "bob" noon bob_takes (apart_some "alice" "bob" refl) refl

owner-apply_loss_example : MayLose "alice" bob_takes
unfolding apply get put take String_discrete
owner-apply_loss_example =
    owner-apply_loss alice_holds "node" "alice" noon bob_takes refl (apart_some "bob" "alice" refl)
