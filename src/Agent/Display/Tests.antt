-- ===== src/Agent/Display/Tests.antt =====
-- src/agent/display/display.go at concrete events.
use xnc.Prelude.{true, false, none, some, [], ◌∷◌, arith}
use xnc.Agent.Display.{Backend, Display, no_force}
use xnc.Agent.Display.Manager.{no_display, new_manager}
use xnc.Agent.Display.Ownership.{
  IsOwned, reconciles, starts, ends, turns_on, turns_off, run, run-IsOwned,
}

-- A node without a screen, whose lid is not known.
abbrev headless : Backend
headless = record {
  feature_enabled = true;
  driver_installed = true;
  start_device = some 17;
  start_device_again = some 17;
  plug_monitor = true;
  physical_output_active = false;
  virtual_display_active = false;
  lid_closed = none;
  force_lid = no_force;
}

abbrev with_screen : Backend
with_screen = record headless { physical_output_active = true }

abbrev switched_off : Backend
switched_off = record headless { feature_enabled = false }

-- A session starts and the screen stays away: the second sample plugs the display in.
abbrev viewing : Display
viewing = record no_display { handle = 17; session_refs = 1; physical_absent_streak = 1 }

run-IsOwned_example : IsOwned (
    run
      (new_manager headless).0
      (starts headless ∷ reconciles headless ∷ turns_on headless ∷ ends ∷ turns_off ∷ []))
run-IsOwned_example =
    run-IsOwned headless
      (starts headless ∷ reconciles headless ∷ turns_on headless ∷ ends ∷ turns_off ∷ [])
      (ground arith) (ground arith)
