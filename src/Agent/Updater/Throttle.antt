-- ===== src/Agent/Updater/Throttle.antt =====
-- src/agent/updater/updater.go: the failures of versions and the blacklist.
use xnc.Prelude.{
  ℕ, ◌+◌, ◌-◌, ◌*◌, String, Option, none, some, [], ◌∷◌, length, ltb, leb, ◌==◌, if◌then◌else◌,
}
use xnc.Prelude.Map.{Map, get, put, del}
use xnc.Agent.Updater.Version.{Text, is_empty}
use xnc.Agent.Updater.Disk.{Text-discrete, ThrottleFailure, Disk}

abbrev pub hour : ℕ
hour = 3600000000000

-- backoffSchedule: one hour, four hours, then a day.
abbrev pub backoff : (fails : ℕ) → ℕ
backoff fails = if leb fails 1 then hour else if fails == 2 then 4 * hour else 24 * hour

abbrev pub failure_of : Map Text ThrottleFailure → Text → ThrottleFailure
failure_of m version = elim (get Text-discrete version m) [
  | none ↦ record { fails = 0; next_try = 0 }
  | some f ↦ f
]

-- The version with the earliest next try, the first of them; `best` is the one so far.
unfoldable pub oldest : (best : Text) → (best_try : ℕ) → Map Text ThrottleFailure → Text
oldest best best_try [] = best
oldest best best_try ((v, f) ∷ m) =
    let earlier = ltb f.next_try best_try in
    oldest (if earlier then v else best) (if earlier then f.next_try else best_try) m

unfoldable pub drop_oldest : Map Text ThrottleFailure → Map Text ThrottleFailure
unfolding oldest
drop_oldest [] = []
drop_oldest ((v, f) ∷ m) = del Text-discrete (oldest v f.next_try m) ((v, f) ∷ m)

-- At most eight versions are kept.
unfoldable pub trim_failures : Map Text ThrottleFailure → Map Text ThrottleFailure
unfolding drop_oldest
trim_failures m = if ltb 8 (length m) then drop_oldest m else m

abbrev pub set_failures : Map Text ThrottleFailure → Disk → Disk
set_failures m d = record d { throttle = record d.throttle { failures = m } }

unfoldable pub record_failure : (version : Text) → (now : ℕ) → Disk → Disk
unfolding trim_failures
record_failure version now d =
    let fails = (failure_of d.throttle.failures version).fails + 1 in
    let f : ThrottleFailure = record { fails = fails; next_try = now + backoff fails } in
    if is_empty version
    then d
    else set_failures (trim_failures (put Text-discrete version f d.throttle.failures)) d

-- Throttled: the wait that is left.
unfoldable pub throttled : Disk → (version : Text) → (now : ℕ) → Option ℕ
throttled d version now = elim (get Text-discrete version d.throttle.failures) [
  | none ↦ none
  | some f ↦ if ltb now f.next_try then some (f.next_try - now) else none
]

unfoldable pub clear_throttle : (version : Text) → Disk → Disk
clear_throttle version d = elim (get Text-discrete version d.throttle.failures) [
  | none ↦ d
  | some f ↦ set_failures (del Text-discrete version d.throttle.failures) d
]

unfoldable pub blacklisted : Disk → (version : Text) → Option String
blacklisted d version = get Text-discrete version d.throttle.blacklist

unfoldable pub blacklist_version : (version : Text) → (reason : String) → Disk → Disk
blacklist_version version reason d = record d {
  throttle = record d.throttle {
    blacklist = put Text-discrete version reason d.throttle.blacklist;
  };
}
