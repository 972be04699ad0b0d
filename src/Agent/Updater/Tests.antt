-- ===== src/Agent/Updater/Tests.antt =====
-- src/agent/updater/updater.go on concrete versions, disks and answers.
use mathlib.Core.Path.{subst}
use Prim.Native.Nat.{compare, Ordering}
use xnc.Prelude.{
  ℕ, ◌+◌, ◌*◌, ◌≡◌, refl, sym, inl, inr, true, false, none, some, List, [], ◌∷◌, ◌++◌, ite, length,
  arith, ℕ_discrete,
}
use xnc.Prelude.Compare.{compare_lists}
use xnc.Prelude.Map.{get, put}
use xnc.Agent.Updater.Version.{Text, compare_int_strings, compare_versions}
use xnc.Agent.Updater.Numbers.{value, compare_int_strings-value}
use xnc.Agent.Updater.Disk.{
  SetupManifest, ThrottleFailure, File, Disk, Platform, Updater, Effect, Text-discrete, stable,
  load_pending, find_installer, find_name, find_suffix,
}
use xnc.Agent.Updater.Throttle.{record_failure, throttled, blacklisted, hour}
use xnc.Agent.Updater.Rollback.{fine}
use xnc.Agent.Updater.Apply.{Hash, World, orchestrate_trigger, may_update, second, staged_file}
use xnc.Agent.Updater.SelfCheck.{Rounds, unhealthy, poll, self_check, self_check-ends}
use xnc.Agent.Updater.Guards.{MayUpdate, IsGenuine, Launched, orchestrate_trigger-effects}
use xnc.Agent.Updater.Operations.{triggers, starts, step, life}
use xnc.Agent.Updater.Life.{trigger-after-failure}
use xnc.Agent.Updater.Backoff.{
  wait_until, wait_after, fail_all, Fits, throttled-record_failure, record_failure-forgets,
}
use xnc.Agent.Updater.Stash.{IsOpen}
use xnc.Agent.Updater.Restore.{Restores, orchestrate_trigger-restores}

abbrev platform : Platform
platform = record {
  installer_name = λ version channel. version ++ channel;
  installer_suffix = [];
  lower = λ name. name;
  has_suffix = λ name suffix. false;
  rollback_ready = λ version. false;
  has_fallback = false;
  is_supported = true;
}

abbrev hash : Hash
hash = record { sum = λ c. c ∷ []; same = λ got want. ite (Text-discrete got want) true false }

-- The versions 1 and 2.
abbrev one : Text
one = b'1' ∷ []

abbrev two : Text
two = b'2' ∷ []

abbrev updater : Updater
updater = record {
  own_version = one;
  channel = stable;
  pending_window = 10 * second;
  health_window = 4 * second;
}

abbrev manifest : SetupManifest
manifest = record { version = two; sha256 = 7 ∷ [] }

abbrev old_installer : File
old_installer = record { name = one ++ stable; contents = 5 }

abbrev world : World
world = record {
  now = 100;
  manifest = some manifest;
  download = some 7;
  readable = true;
  own_download = none;
  own_readable = true;
  copied = true;
  stashed = true;
  pending_saved = true;
  watchdog_set = true;
  installed = false;
  prune = λ files. [];
  back = record { online = true; restored = true };
}

abbrev disk : Disk
disk = record {
  pending = none;
  throttle = record { failures = []; blacklist = [] };
  audit_marker = none;
  cache = old_installer ∷ [];
  stash = [];
  staging = [];
}

may : may_update platform updater false false world.now manifest disk ≡ true
unfolding load_pending blacklisted throttled compare_versions get Text-discrete ℕ_discrete
    compare_lists
may = refl

cached : find_installer platform disk.cache one ≡ some old_installer
unfolding find_installer find_name find_suffix Text-discrete ℕ_discrete
cached = refl

uncached : find_installer platform [] one ≡ none
unfolding find_installer find_name find_suffix
uncached = refl

unstashed : IsOpen old_installer (find_installer platform disk.stash one)
unstashed = subst (IsOpen old_installer) (sym uncached) tt

orchestrate_trigger-restores_example :
    Restores platform updater world manifest
      (staged_file platform updater two 7)
      old_installer
      (orchestrate_trigger platform hash updater false false world manifest disk)
unfolding Text-discrete ℕ_discrete
orchestrate_trigger-restores_example =
    orchestrate_trigger-restores platform hash updater false false world manifest disk 7
      old_installer may (refl, refl, refl) (cached, unstashed, refl, refl, refl, refl, uncached)

broken :
    Restores platform updater world manifest
      (staged_file platform updater two 7)
      old_installer
      (orchestrate_trigger platform hash updater false false world manifest disk)
unfolding Text-discrete ℕ_discrete
broken =
    orchestrate_trigger-restores platform hash updater false false world manifest disk 7
      old_installer may (refl, refl, refl) (cached, unstashed, refl, refl, refl, refl, uncached)

orchestrate_trigger-effects_example :
    MayUpdate platform updater false false 100 manifest disk
    × ((c : ℕ) × IsGenuine hash world manifest c
        × Launched platform updater world manifest c
            (orchestrate_trigger platform hash updater false false world manifest disk).2)
orchestrate_trigger-effects_example =
    orchestrate_trigger-effects platform hash updater false false world manifest disk
      (let (cleared, out, effects) = broken in ground arith)

trigger-after-failure_example :
    let broken = triggers false false world manifest in
    let d =
      life platform hash
        ((updater, starts world.back 200) ∷ [])
        (step platform hash updater broken disk) in
    orchestrate_trigger platform hash updater false true world manifest d ≡ (d, fine, [])
trigger-after-failure_example =
    trigger-after-failure platform hash updater (triggers false false world manifest) disk
      ((updater, starts world.back 200) ∷ []) updater false true world manifest
      (let (cleared, out, effects) = broken in (refl, inl out))

-- The version 1 fails twice, with the version 2 in between.
abbrev failed : List (Text × ℕ)
failed = (one, 100) ∷ (two, 200) ∷ (one, 300) ∷ []

first_kept : length (record_failure one 100 disk).throttle.failures ≡ 1
unfolding record_failure get put Text-discrete ℕ_discrete
first_kept = refl

two_kept : length (record_failure two 200 (record_failure one 100 disk)).throttle.failures ≡ 2
unfolding record_failure get put Text-discrete ℕ_discrete
two_kept = refl

all_kept : length (fail_all failed disk).throttle.failures ≡ 2
unfolding record_failure get put Text-discrete ℕ_discrete
all_kept = refl

failed-Fits : Fits failed disk
failed-Fits = (
  λ e. ground arith,
  inr (omega arith),
  (
    λ e. ground arith,
    inr (omega (arith, first_kept)),
    (λ e. ground arith, inr (omega (arith, two_kept)), tt),
  ),
)

throttled-record_failure_example :
    throttled (record_failure one 400 (fail_all failed disk)) one 500
    ≡ ite
        (Text-discrete one one)
        (wait_until (400 + wait_after 2) 500)
        (throttled (fail_all failed disk) one 500)
unfolding get put Text-discrete ℕ_discrete
throttled-record_failure_example =
    throttled-record_failure failed one 400 disk one 500 (omega arith) refl failed-Fits
      (λ e. ground arith) (inr (omega (arith, all_kept)))

-- Eight versions that are each held back for a day from the time 100.
abbrev eight : List (Text × ThrottleFailure)
eight =
    let f : ThrottleFailure = record { fails = 3; next_try = 100 + 24 * hour } in
    (10 ∷ [], f)
    ∷ (11 ∷ [], f)
    ∷ (12 ∷ [], f)
    ∷ (13 ∷ [], f)
    ∷ (14 ∷ [], f)
    ∷ (15 ∷ [], f)
    ∷ (16 ∷ [], f)
    ∷ (17 ∷ [], f)
    ∷ []

abbrev full_disk : Disk
full_disk = record disk { throttle = record { failures = eight; blacklist = [] } }

record_failure-forgets_example : record_failure two 100 full_disk ≡ full_disk
unfolding get Text-discrete ℕ_discrete
record_failure-forgets_example = record_failure-forgets two 100 full_disk refl refl (ground arith)

-- Services that never get healthy, tested every two seconds.
abbrev rounds : Rounds
rounds = record {
  is_healthy = λ i. false;
  clock = λ i. i * (2 * second);
  is_done = λ i. false;
  is_done_waiting = λ i. false;
}

-- The marker of an update to the own version.
abbrev updated_disk : Disk
updated_disk = record disk {
  pending = some (record { from = two; to = one; started_at = 0; deadline = 0 });
}

self_check-ends_example :
    (done : Disk × List Effect) × (self_check 4 platform updater true world.back rounds 0
        updated_disk
      ≡ some done)
self_check-ends_example =
    self_check-ends 3 platform updater true world.back rounds 0 updated_disk (λ i. omega arith)
      (omega arith) (omega arith)

-- The loop runs three rounds and then gives up; a round less is not enough.
three_rounds : poll 4 rounds (4 * second) 0 ≡ some unhealthy
unfolding poll
three_rounds = refl

too_few : poll 3 rounds (4 * second) 0 ≡ none
unfolding poll
too_few = refl

-- 007 and 12.
compare_int_strings-value_example :
    compare_int_strings (b'0' ∷ b'0' ∷ b'7' ∷ []) (b'1' ∷ b'2' ∷ [])
    ≡ compare (value (b'0' ∷ b'0' ∷ b'7' ∷ [])) (value (b'1' ∷ b'2' ∷ []))
compare_int_strings-value_example =
    compare_int_strings-value (b'0' ∷ b'0' ∷ b'7' ∷ []) (b'1' ∷ b'2' ∷ []) refl refl

-- 1.10 is newer than 1.9, and 1.0 than 1.0-rc.
newer_minor :
    compare_versions (b'1' ∷ b'.' ∷ b'1' ∷ b'0' ∷ []) (b'1' ∷ b'.' ∷ b'9' ∷ []) ≡ Ordering.gt
unfolding compare_versions compare_lists
newer_minor = refl

newer_release :
    compare_versions (b'1' ∷ b'.' ∷ b'0' ∷ []) (b'1' ∷ b'-' ∷ b'r' ∷ b'c' ∷ []) ≡ Ordering.gt
unfolding compare_versions compare_lists
newer_release = refl
