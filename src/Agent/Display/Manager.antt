-- ===== src/Agent/Display/Manager.antt =====
-- src/agent/display/display.go: the methods of the manager, each under its mutex.
use xnc.Prelude.{
  ℕ, ◌+◌, ◌-◌, Bool, true, false, not, ◌&&◌, ◌||◌, Option, none, some, List, [], ◌∷◌, ◌++◌, ◌==◌,
  if◌then◌else◌,
}
use xnc.Agent.Display.{
  Backend, Effect, started, stopped, plugged_in, unplugged, Error, disabled, not_installed,
  start_failed, plug_failed, Display, update_physical_streaks, trigger_with_physical,
  release_with_physical,
}

abbrev pub no_display : Display
no_display = record {
  handle = 0;
  plugged = false;
  session_refs = 0;
  auto_active = false;
  manual_active = false;
  physical_absent_streak = 0;
  physical_present_streak = 0;
}

unfoldable pub ensure_device : Backend → Display → Display × List Effect
ensure_device b d =
    if not b.feature_enabled || (not (d.handle == 0) || not b.driver_installed)
    then (d, [])
    else elim b.start_device [ none ↦ (d, []) | some h ↦ (record d { handle = h }, started h ∷ []) ]

-- The plug itself, with the device at hand; the error of a failed plug drops the device.
abbrev pub plug_device : Backend → Display → Display × Option Error × List Effect
plug_device b d =
    if b.plug_monitor
    then (record d { plugged = true }, none, plugged_in d.handle ∷ [])
    else (record d { handle = 0 }, some plug_failed, stopped d.handle ∷ [])

-- `start` is the answer of startDevice, if it is called here.
unfoldable pub plug_virtual : Backend → Option ℕ → Display → Display × Option Error × List Effect
plug_virtual b start d =
    if not b.feature_enabled
    then (d, some disabled, [])
    else if not b.driver_installed
    then (d, some not_installed, [])
    else if d.handle == 0
    then elim start [
      | none ↦ (d, some start_failed, [])
      | some h ↦
          let (d', e, out) = plug_device b (record d { handle = h }) in (d', e, started h ∷ out)
    ]
    else plug_device b d

unfoldable pub unplug : Display → Display × List Effect
unplug d =
    if d.handle == 0 || not d.plugged
    then (record d { plugged = false }, [])
    else (record d { plugged = false }, unplugged d.handle ∷ [])

unfoldable pub teardown : Display → Display × List Effect
teardown d = if d.handle == 0 then (record d { plugged = false }, []) else (
  record d { plugged = false; handle = 0 },
  (if d.plugged then unplugged d.handle ∷ [] else []) ++ stopped d.handle ∷ [],
)

-- A plug on behalf of a session: it owns the display if the plug succeeds.
unfoldable pub auto_plug : Backend → Option ℕ → Display → Display × List Effect
unfolding plug_virtual
auto_plug b start d =
    let (d', e, out) = plug_virtual b start d in
    elim e [ none ↦ (record d' { auto_active = true }, out) | some x ↦ (d', out) ]

unfoldable pub auto_unplug : Display → Display × List Effect
unfolding unplug
auto_unplug d = let (d', out) = unplug d in (record d' { auto_active = false }, out)

-- NewManager
unfoldable pub new_manager : Backend → Display × List Effect
unfolding ensure_device
new_manager b = ensure_device b no_display

unfoldable pub reconcile : Backend → Display → Display × List Effect
unfolding auto_plug auto_unplug trigger_with_physical release_with_physical
reconcile b d =
    if not b.feature_enabled || d.session_refs == 0
    then (d, [])
    else (let physical = b.physical_output_active in
        let d' = update_physical_streaks d physical in
        if not d'.plugged && trigger_with_physical b d' physical
        then auto_plug b b.start_device d'
        else if d'.plugged
            && (d'.auto_active && (not d'.manual_active && release_with_physical b d' physical))
        then auto_unplug d'
        else (d', []))

-- The trigger is evaluated, with its sample of the physical output, only without a display.
unfoldable pub start_trigger : Backend → Display → Display × List Effect
unfolding auto_plug trigger_with_physical
start_trigger b d =
    if d.plugged
    then (d, [])
    else (let physical = b.physical_output_active in
        let d' = update_physical_streaks d physical in
        if trigger_with_physical b d' physical
        then auto_plug b b.start_device_again d'
        else (d', []))

unfoldable pub session_started : Backend → Display → Display × List Effect
session_started b d =
    let (d', out) = ensure_device b (record d { session_refs = d.session_refs + 1 }) in
    let (d'', out') = start_trigger b d' in (d'', out ++ out')

unfoldable pub session_ended : Display → Display × List Effect
unfolding auto_unplug
session_ended d =
    let d' = record d { session_refs = d.session_refs - 1 } in
    if d'.session_refs == 0 && (d'.auto_active && not d'.manual_active)
    then auto_unplug d'
    else (d', [])

abbrev pub owned_manually : Display → Display
owned_manually d = record d { auto_active = false; manual_active = true }

unfoldable pub set_on : Backend → Display → Display × Option Error × List Effect
unfolding plug_virtual
set_on b d =
    if not b.feature_enabled
    then (d, some disabled, [])
    else if d.plugged
    then (owned_manually d, none, [])
    else (let (d', e, out) = plug_virtual b b.start_device d in
        elim e [ none ↦ (owned_manually d', none, out) | some x ↦ (d', some x, out) ])

unfoldable pub set_off : Display → Display × List Effect
unfolding unplug
set_off d =
    let (d', out) = unplug d in (record d' { manual_active = false; auto_active = false }, out)

-- Close, on the exit of the agent.
unfoldable pub close : Display → Display × List Effect
unfolding teardown
close d = teardown d

pub record Status : Type 0 where
  pub driver_installed : Bool
  pub device_present : Bool
  pub virtual_active : Bool
  pub physical_active : Bool
  pub lid_state : Option Bool
  pub auto_active : Bool
  pub manual_active : Bool
  pub enabled : Bool

unfoldable pub snapshot : Backend → Display → Status
snapshot b d = record {
  driver_installed = b.driver_installed;
  device_present = not (d.handle == 0);
  virtual_active = b.virtual_display_active;
  physical_active = b.physical_output_active;
  lid_state = b.lid_closed;
  auto_active = d.auto_active;
  manual_active = d.manual_active;
  enabled = b.feature_enabled;
}
