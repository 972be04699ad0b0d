-- ===== src/Agent/Display/Policy.antt =====
-- src/agent/display/display.go: the switch that turns the feature off, and the hysteresis.
use xnc.Prelude.{◌≡◌, ◌≢◌, ◌⊎◌, true, false, not, none, List, [], ◌∷◌, All, arith}
use xnc.Agent.Display.{Backend, Display, no_force, force_open}
use xnc.Agent.Display.Manager.{
  ensure_device, start_trigger, reconcile, session_started, session_ended, set_on, set_off,
}
use xnc.Agent.Display.Ownership.{
  Event, reconciles, starts, ends, turns_on, turns_off, handle_event, run,
}

-- The feature is switched off in all that the backend answers.
abbrev pub Off : Event → Type 0
Off (reconciles b) = b.feature_enabled ≡ false
Off (starts b) = b.feature_enabled ≡ false
Off ends = Unit
Off (turns_on b) = b.feature_enabled ≡ false
Off turns_off = Unit

-- No device and no display.
abbrev pub IsDark : Display → Type 0
IsDark d =
    (d.handle ≡ 0) × (d.plugged ≡ false) × (d.auto_active ≡ false) × (d.manual_active ≡ false)

session_started-IsDark :
    (b : Backend) (d : Display)
    → b.feature_enabled ≡ false
    → IsDark d
    → IsDark (session_started b d).0
unfolding session_started ensure_device start_trigger
session_started-IsDark b d off w = ground arith

handle_event-IsDark : (d : Display) (e : Event) → Off e → IsDark d → IsDark (handle_event d e)
unfolding handle_event
handle_event-IsDark d (reconciles b) off w = unfold reconcile in ground arith
handle_event-IsDark d (starts b) off w = session_started-IsDark b d off w
handle_event-IsDark d ends off w = unfold session_ended in ground arith
handle_event-IsDark d (turns_on b) off w = unfold set_on in ground arith
handle_event-IsDark d turns_off off w = unfold set_off in ground arith

-- From a state without a device and a display, while the feature is switched off, no event
-- creates either: not a session, not the lid, not a missing screen, not a manual order.
pub run-IsDark : (d : Display) (es : List Event) → All Off es → IsDark d → IsDark (run d es)
unfolding run
run-IsDark d [] off w = w
run-IsDark d (e ∷ es) off w =
    run-IsDark (handle_event d e) es off.1 (handle_event-IsDark d e off.0 w)

-- The physical outputs alone decide: the lid is not known, or the knob hides it.
abbrev pub OutputsDecide : Backend → Type 0
OutputsDecide b = ((b.force_lid ≡ no_force) × (b.lid_closed ≡ none)) ⊎ (b.force_lid ≡ force_open)

-- While the feature is on, a session is active and the physical outputs alone decide: a sample
-- that differs from the one before it neither plugs a display in nor removes one.
pub reconcile-flip :
    (b c : Backend) (d : Display)
    → OutputsDecide c
    → b.feature_enabled ≡ true
    → d.session_refs ≢ 0
    → c.physical_output_active ≡ not b.physical_output_active
    → let d' = (reconcile b d).0 in (reconcile c d').0.plugged ≡ d'.plugged
unfolding reconcile
reconcile-flip b c d h on active flip = ground arith
