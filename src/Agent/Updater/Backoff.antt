-- ===== src/Agent/Updater/Backoff.antt =====
-- src/agent/updater/updater.go: what the failures of versions do to their next tries.
use xnc.Prelude.{
  ℕ, zero, suc, ◌+◌, ◌-◌, ◌≤◌, ◌<◌, ◌≡◌, ◌≢◌, ◌⊎◌, refl, ap, ◌∙◌, List, inl, inr, Option, none,
  some, [], ◌∷◌, length, ltb, if◌then◌else◌, ite, arith, All,
}
use xnc.Prelude.Map.{Map, get, put, get-put, length-put, length-put_known}
use xnc.Agent.Updater.Trim.{length-drop_oldest, IsLater, trim_failures-forgets}
use xnc.Agent.Updater.Version.{Text}
use xnc.Agent.Updater.Disk.{ThrottleFailure, Disk, Text-discrete}
use xnc.Agent.Updater.Throttle.{backoff, failure_of, trim_failures, record_failure, throttled, hour}

-- The failures of a disk.
abbrev pub failures : Disk → Map Text ThrottleFailure
failures d = d.throttle.failures

-- The failure that is recorded for a version at a time.
abbrev pub next_failure : Map Text ThrottleFailure → Text → (now : ℕ) → ThrottleFailure
next_failure m v now =
    let fails = (failure_of m v).fails + 1 in
    record { fails = fails; next_try = now + backoff fails }

abbrev pub recorded : Text → ℕ → Disk → Map Text ThrottleFailure
recorded v now d = put Text-discrete v (next_failure (failures d) v now) (failures d)

-- The wait that is left of a backoff.
abbrev pub wait_until : (next_try now : ℕ) → Option ℕ
wait_until next_try now = if ltb now next_try then some (next_try - now) else none

failures-record_failure :
    (v : Text) (now : ℕ) (d : Disk)
    → v ≢ []
    → failures (record_failure v now d) ≡ trim_failures (recorded v now d)
unfolding record_failure
failures-record_failure [] now d named = absurd (named refl)
failures-record_failure (c ∷ v) now d named = refl

trim_failures-small : (m : Map Text ThrottleFailure) → length m ≤ 8 → trim_failures m ≡ m
unfolding trim_failures
trim_failures-small m le = ground arith

throttled-get :
    (d : Disk) (v : Text) (t : ℕ)
    → throttled d v t
      ≡ elim (get Text-discrete v (failures d)) [ none ↦ none | some f ↦ wait_until f.next_try t ]
unfolding throttled
throttled-get d v t = refl

throttled-step :
    (v : Text) (now : ℕ) (d : Disk) (other : Text) (t : ℕ)
    → v ≢ []
    → length (recorded v now d) ≤ 8
    → throttled (record_failure v now d) other t
      ≡ ite
          (Text-discrete v other)
          (wait_until (now + backoff ((failure_of (failures d) v).fails + 1)) t)
          (throttled d other t)
throttled-step v now d other t named room =
    let same : failures (record_failure v now d) ≡ recorded v now d =
      failures-record_failure v now d named ∙ trim_failures-small (recorded v now d) room in
    let found = get-put Text-discrete v other (next_failure (failures d) v now) (failures d) in
    let after = throttled-get (record_failure v now d) other t in
    let before = throttled-get d other t in rw (after, before, same, found) (ground arith)

length-trim_failures : (m : Map Text ThrottleFailure) → length m ≤ 9 → length (trim_failures m) ≤ 8
unfolding trim_failures
length-trim_failures m le = ground (arith, length-drop_oldest m)

-- No more than eight failures are ever kept.
pub length-failures :
    (v : Text) (now : ℕ) (d : Disk)
    → length (failures d) ≤ 8
    → length (failures (record_failure v now d)) ≤ 8
unfolding record_failure
length-failures [] now d le = ground arith
length-failures (c ∷ v) now d le = length-trim_failures (recorded (c ∷ v) now d) (
    ground (
      arith,
      length-put Text-discrete (c ∷ v) (next_failure (failures d) (c ∷ v) now) (failures d),
    ))

first_failure :
    (m : Map Text ThrottleFailure) (v : Text) (now : ℕ)
    → get Text-discrete v m ≡ none
    → next_failure m v now ≡ (record { fails = 1; next_try = now + hour })
first_failure m v now absent = ground arith

-- There is an entry for the version, or room for one more.
abbrev pub HasRoom : Text → Disk → Type 0
HasRoom v d = (get Text-discrete v (failures d) ≢ none) ⊎ (length (failures d) < 8)

recorded-fits :
    (v : Text) (now : ℕ) (d : Disk)
    → length (failures d) ≤ 8
    → HasRoom v d
    → length (recorded v now d) ≤ 8
recorded-fits v now d le (inl known) =
    ground (arith, length-put_known Text-discrete v (next_failure (failures d) v now) (failures d))
recorded-fits v now d le (inr room) =
    ground (arith, length-put Text-discrete v (next_failure (failures d) v now) (failures d))

-- Failures of versions at their times, one after the other.
abbrev pub fail_all : List (Text × ℕ) → Disk → Disk
fail_all [] d = d
fail_all ((v, now) ∷ es) d = fail_all es (record_failure v now d)

-- Each of them finds room.
abbrev pub Fits : List (Text × ℕ) → Disk → Type 0
Fits [] d = Unit
Fits ((v, now) ∷ es) d = (v ≢ []) × HasRoom v d × Fits es (record_failure v now d)

-- How many of them are of the version.
abbrev pub times : Text → List (Text × ℕ) → ℕ
times v [] = 0
times v ((w, now) ∷ es) = ite (Text-discrete w v) (suc (times v es)) (times v es)

-- The wait by the number of earlier failures: an hour, four hours, then a day, in nanoseconds.
abbrev pub wait_after : ℕ → ℕ
wait_after zero = 3_600_000_000_000
wait_after (suc zero) = 14_400_000_000_000
wait_after _ = 86_400_000_000_000

backoff-wait : (n : ℕ) → backoff (n + 1) ≡ wait_after n
backoff-wait zero = refl
backoff-wait (suc zero) = refl
backoff-wait (suc (suc n)) = ground arith

fails-record_failure :
    (w : Text) (now : ℕ) (d : Disk) (v : Text)
    → w ≢ []
    → length (failures d) ≤ 8
    → HasRoom w d
    → (failure_of (failures (record_failure w now d)) v).fails
      ≡ ite
          (Text-discrete w v)
          (suc (failure_of (failures d) w).fails)
          (failure_of (failures d) v).fails
fails-record_failure w now d v named le room =
    let fits = recorded-fits w now d le room in
    let same : failures (record_failure w now d) ≡ recorded w now d =
      failures-record_failure w now d named ∙ trim_failures-small (recorded w now d) fits in
    let found = get-put Text-discrete w v (next_failure (failures d) w now) (failures d) in
    rw (same) (ground arith)

length-fail_all :
    (es : List (Text × ℕ)) (d : Disk)
    → length (failures d) ≤ 8
    → length (failures (fail_all es d)) ≤ 8
length-fail_all [] d le = le
length-fail_all ((v, now) ∷ es) d le =
    length-fail_all es (record_failure v now d) (length-failures v now d le)

fails-fail_all :
    (es : List (Text × ℕ)) (d : Disk) (v : Text)
    → length (failures d) ≤ 8
    → Fits es d
    → (failure_of (failures (fail_all es d)) v).fails
      ≡ times v es + (failure_of (failures d) v).fails
fails-fail_all [] d v le fits = omega arith
fails-fail_all ((w, now) ∷ es) d v le (named, room, fits) =
    let one = fails-record_failure w now d v named le room in
    let more = fails-fail_all es (record_failure w now d) v (length-failures w now d le) fits in
    elim (Text-discrete w v) [ yes same ↦ ground arith | no other ↦ ground arith ]

-- In a state directory with eight failed versions at most, let a list of failures follow, and then a
-- failure of a version that had none before, and let none of them be of a ninth or an empty version. The last
-- failure holds its version back for exactly one hour if the list has no failure of it, four hours if it
-- has one, and a day if it has more; and it changes nothing for the other versions.
pub throttled-record_failure :
    (es : List (Text × ℕ)) (v : Text) (now : ℕ) (d : Disk) (other : Text) (t : ℕ)
    → length (failures d) ≤ 8
    → get Text-discrete v (failures d) ≡ none
    → Fits es d
    → v ≢ []
    → HasRoom v (fail_all es d)
    → throttled (record_failure v now (fail_all es d)) other t
      ≡ ite
          (Text-discrete v other)
          (wait_until (now + wait_after (times v es)) t)
          (throttled (fail_all es d) other t)
throttled-record_failure es v now d other t le fresh fits named room =
    let d' = fail_all es d in
    let step =
      throttled-step v now d' other t named
        (recorded-fits v now d' (length-fail_all es d le) room) in
    let none_before : (failure_of (failures d) v).fails ≡ 0 = ground arith in
    let count : (failure_of (failures d') v).fails ≡ times v es =
      fails-fail_all es d v le fits ∙ omega (arith, none_before) in
    let wait = ap (λ n. backoff (n + 1)) count ∙ backoff-wait (times v es) in
    step
    ∙ ap (λ b. ite (Text-discrete v other) (wait_until (now + b) t) (throttled d' other t)) wait

-- When eight versions have failed and each is held back for more than an hour yet, the first failure
-- of another version changes nothing: the version is not held back at all.
pub record_failure-forgets :
    (v : Text) (now : ℕ) (d : Disk)
    → length (failures d) ≡ 8
    → get Text-discrete v (failures d) ≡ none
    → All (IsLater (now + hour)) (failures d)
    → record_failure v now d ≡ d
unfolding record_failure
record_failure-forgets [] now d full absent later = ground arith
record_failure-forgets (c ∷ v) now d full absent later =
    let m = failures d in
    rw
      (
        first_failure m (c ∷ v) now absent,
        trim_failures-forgets (c ∷ v) (record { fails = 1; next_try = now + hour }) m full absent
            later,
      )
      refl
