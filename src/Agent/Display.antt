-- ===== src/Agent/Display.antt =====
-- src/agent/display/display.go: when the virtual display is created and removed. The platform's
-- backend is not modelled: what it answers during one operation is a record `Backend`, and what
-- the manager orders from it is a list of effects. A handle is a number, 0 for none. The wait of
-- at most five seconds in `plugVirtualLocked` returns nil on both ways and has no other effect, so
-- it is left out; so is the limit of three seconds on the last unplug, whose outcome is ignored.
pub mod Manager
pub mod Ownership
pub mod Policy
mod Tests
use xnc.Prelude.{
  ℕ, ◌+◌, String, Bool, true, false, not, ◌&&◌, Option, none, some, List, [], ◌∷◌, leb, ◌==◌,
  if◌then◌else◌,
}

-- forceLid: "open", "closed", or any other text.
pub data ForceLid : Type 0 where
  force_open force_closed no_force : ForceLid

pub record Backend : Type 0 where
  pub feature_enabled : Bool
  pub driver_installed : Bool
  -- The first and the second call of startDevice in the operation; `none` is an error.
  pub start_device : Option ℕ
  pub start_device_again : Option ℕ
  pub plug_monitor : Bool
  pub physical_output_active : Bool
  pub virtual_display_active : Bool
  -- `none` is a lid that is not known.
  pub lid_closed : Option Bool
  pub force_lid : ForceLid

pub data Effect : Type 0 where
  started : ℕ → Effect
  stopped : ℕ → Effect
  plugged_in : ℕ → Effect
  unplugged : ℕ → Effect

pub data Error : Type 0 where
  disabled not_installed start_failed plug_failed : Error

pub record Display : Type 0 where
  pub handle : ℕ
  pub plugged : Bool
  pub session_refs : ℕ
  pub auto_active : Bool
  pub manual_active : Bool
  pub physical_absent_streak : ℕ
  pub physical_present_streak : ℕ

abbrev pub physical_hysteresis : ℕ
physical_hysteresis = 2

abbrev pub update_physical_streaks : Display → Bool → Display
update_physical_streaks d true = record d {
  physical_absent_streak = 0;
  physical_present_streak = d.physical_present_streak + 1;
}
update_physical_streaks d false = record d {
  physical_absent_streak = d.physical_absent_streak + 1;
  physical_present_streak = 0;
}

abbrev pub physical_trigger : Display → Bool → Bool
physical_trigger d physical = not physical && leb physical_hysteresis d.physical_absent_streak

abbrev pub physical_release : Display → Bool → Bool
physical_release d physical = physical && leb physical_hysteresis d.physical_present_streak

abbrev pub lid_trigger : Option Bool → Bool → Bool
lid_trigger (some true) trigger = true
lid_trigger _ trigger = trigger

abbrev pub force_trigger : ForceLid → Option Bool → Bool → Bool
force_trigger force_closed lid trigger = true
force_trigger force_open lid trigger = trigger
force_trigger no_force lid trigger = lid_trigger lid trigger

unfoldable pub trigger_with_physical : Backend → Display → Bool → Bool
trigger_with_physical b d physical =
    force_trigger b.force_lid b.lid_closed (physical_trigger d physical)

abbrev pub lid_release : Option Bool → Bool → Bool
lid_release (some closed) release = not closed
lid_release none release = release

abbrev pub force_release : ForceLid → Option Bool → Bool → Bool
force_release force_closed lid release = false
force_release force_open lid release = release
force_release no_force lid release = lid_release lid release

unfoldable pub release_with_physical : Backend → Display → Bool → Bool
release_with_physical b d physical =
    force_release b.force_lid b.lid_closed (physical_release d physical)
