-- ===== src/Agent/Display/Ownership.antt =====
-- src/agent/display/display.go: a display is there for a session or for a manual order, never for
-- nothing and never for both.
use xnc.Prelude.{
  ℕ, ◌<◌, ◌≡◌, ◌≢◌, ◌⊎◌, true, false, Option, none, some, List, [], ◌∷◌, ◌+◌, All, arith,
}
use xnc.Agent.Display.{Backend, Display}
use xnc.Agent.Display.Manager.{
  new_manager, ensure_device, start_trigger, reconcile, session_started, session_ended, set_on,
  set_off,
}

pub record IsOwned (d : Display) : Type 0 where
  pub has_device : d.plugged ≡ true → d.handle ≢ 0
  pub has_owner : d.plugged ≡ true → (d.auto_active ≡ true) ⊎ (d.manual_active ≡ true)
  pub auto_shown : d.auto_active ≡ true → (d.plugged ≡ true) × (0 < d.session_refs)
  pub manual_shown : d.manual_active ≡ true → d.plugged ≡ true
  pub one_owner : d.auto_active ≡ true → d.manual_active ≡ false

-- A handle that startDevice returns is not 0, the value that stands for "no device".
abbrev pub RealHandle : Option ℕ → Type 0
RealHandle none = Unit
RealHandle (some h) = h ≢ 0

abbrev pub RealHandles : Backend → Type 0
RealHandles b = RealHandle b.start_device × RealHandle b.start_device_again

-- The events that reach the manager while the agent runs.
pub data Event : Type 0 where
  reconciles : Backend → Event
  starts : Backend → Event
  ends : Event
  turns_on : Backend → Event
  turns_off : Event

unfoldable pub handle_event : Display → Event → Display
handle_event d (reconciles b) = (reconcile b d).0
handle_event d (starts b) = (session_started b d).0
handle_event d ends = (session_ended d).0
handle_event d (turns_on b) = (set_on b d).0
handle_event d turns_off = (set_off d).0

unfoldable pub run : Display → List Event → Display
run d [] = d
run d (e ∷ es) = run (handle_event d e) es

abbrev pub Real : Event → Type 0
Real (reconciles b) = RealHandles b
Real (starts b) = RealHandles b
Real ends = Unit
Real (turns_on b) = RealHandles b
Real turns_off = Unit

reconcile-IsOwned :
    (b : Backend) (d : Display) → RealHandles b → IsOwned d → IsOwned (reconcile b d).0
unfolding reconcile
reconcile-IsOwned b d r w = ground arith

ensure_device-IsOwned :
    (b : Backend) (d : Display) → RealHandles b → IsOwned d → IsOwned (ensure_device b d).0
unfolding ensure_device
ensure_device-IsOwned b d r w = ground arith

ensure_device-session_refs :
    (b : Backend) (d : Display) → (ensure_device b d).0.session_refs ≡ d.session_refs
unfolding ensure_device
ensure_device-session_refs b d = ground arith

start_trigger-IsOwned :
    (b : Backend) (d : Display)
    → RealHandles b
    → 0 < d.session_refs
    → IsOwned d
    → IsOwned (start_trigger b d).0
unfolding start_trigger
start_trigger-IsOwned b d r pos w = ground arith

session_started-IsOwned :
    (b : Backend) (d : Display) → RealHandles b → IsOwned d → IsOwned (session_started b d).0
unfolding session_started
session_started-IsOwned b d r w =
    let d' : Display = record d { session_refs = d.session_refs + 1 } in
    let raised : IsOwned d' = ground arith in
    start_trigger-IsOwned b (ensure_device b d').0 r
      (omega (arith, ensure_device-session_refs b d')) (ensure_device-IsOwned b d' r raised)

session_ended-IsOwned : (d : Display) → IsOwned d → IsOwned (session_ended d).0
unfolding session_ended
session_ended-IsOwned d w = ground arith

set_on-IsOwned : (b : Backend) (d : Display) → RealHandles b → IsOwned d → IsOwned (set_on b d).0
unfolding set_on
set_on-IsOwned b d r w = ground arith

set_off-IsOwned : (d : Display) → IsOwned d → IsOwned (set_off d).0
unfolding set_off
set_off-IsOwned d w = ground arith

new_manager-IsOwned : (b : Backend) → RealHandles b → IsOwned (new_manager b).0
unfolding new_manager ensure_device
new_manager-IsOwned b r = ground arith

handle_event-IsOwned : (d : Display) (e : Event) → Real e → IsOwned d → IsOwned (handle_event d e)
unfolding handle_event
handle_event-IsOwned d (reconciles b) r w = reconcile-IsOwned b d r w
handle_event-IsOwned d (starts b) r w = session_started-IsOwned b d r w
handle_event-IsOwned d ends r w = session_ended-IsOwned d w
handle_event-IsOwned d (turns_on b) r w = set_on-IsOwned b d r w
handle_event-IsOwned d turns_off r w = set_off-IsOwned d w

run_from-IsOwned : (d : Display) (es : List Event) → All Real es → IsOwned d → IsOwned (run d es)
unfolding run
run_from-IsOwned d [] h w = w
run_from-IsOwned d (e ∷ es) h w =
    run_from-IsOwned (handle_event d e) es h.1 (handle_event-IsOwned d e h.0 w)

-- After any events a display that is plugged in has a device under it and exactly one owner, the
-- active sessions, of which there is one at least, or a manual order; and without a display
-- nothing claims to own one. The events are those of a running agent, from its start.
pub run-IsOwned :
    (b : Backend) (es : List Event)
    → RealHandles b
    → All Real es
    → IsOwned (run (new_manager b).0 es)
run-IsOwned b es r reals = run_from-IsOwned (new_manager b).0 es reals (new_manager-IsOwned b r)
