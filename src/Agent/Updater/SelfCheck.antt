-- ===== src/Agent/Updater/SelfCheck.antt =====
-- src/agent/updater/updater.go: what an agent does with the marker of an update when it starts, and when
-- it is connected.
use xnc.Prelude.{
  ℕ, zero, suc, ◌+◌, ◌*◌, ◌≤◌, ◌<◌, ◌≡◌, ◌≢◌, inl, inr, Bool, not, ◌&&◌, ◌||◌, Option, none, some,
  List, [], ◌∷◌, ltb, if◌then◌else◌, Option-cases, arith,
}
use xnc.Agent.Updater.Disk.{
  PendingUpdate, Disk, Platform, Updater, Effect, watchdog_deleted, same_text, load_pending,
  delete_pending, find_installer, copy_to_cache, audit, update_ok,
}
use xnc.Agent.Updater.Throttle.{hour, clear_throttle}
use xnc.Agent.Updater.Rollback.{Answers, rollback}
use xnc.Agent.Updater.Apply.{second}

-- finalize
unfoldable pub finalize :
    Platform → (copied : Bool) → Answers → PendingUpdate → Disk → Disk × List Effect
finalize x copied a p d =
    let d1 : Disk = elim (find_installer x d.staging p.to) [
      | none ↦ d
      | some f ↦ copy_to_cache x f copied d
    ] in
    let d2 : Disk = record (delete_pending d1) { stash = [] } in
    let (d3, sent) = audit a.online (update_ok p.from p.to) (clear_throttle p.to d2) in
    (d3, watchdog_deleted ∷ sent)

-- The rounds of the wait for healthy services: what round `i` finds, the clock after its test,
-- whether the context is done then, and whether it is done in the wait of two seconds.
pub record Rounds : Type 0 where
  pub is_healthy : ℕ → Bool
  pub clock : ℕ → ℕ
  pub is_done : ℕ → Bool
  pub is_done_waiting : ℕ → Bool

pub data Polled : Type 0 where
  healthy unhealthy stopped : Polled

-- The loop of SelfCheck from round `i`; `none` is the end of the fuel.
unfoldable pub poll : (fuel : ℕ) → Rounds → (deadline i : ℕ) → Option Polled
poll zero r deadline i = none
poll (suc fuel) r deadline i =
    let rest = poll fuel r deadline (suc i) in
    if r.is_healthy i
    then some healthy
    else if ltb deadline (r.clock i) || r.is_done i
    then some (if r.is_done i then stopped else unhealthy)
    else if r.is_done_waiting i
    then some stopped
    else rest

unfoldable pub after_poll :
    Platform → (copied : Bool) → Answers → PendingUpdate → Disk → Polled → Disk × List Effect
unfolding finalize
after_poll x copied a p d healthy = finalize x copied a p d
after_poll x copied a p d unhealthy =
    let (d', out, effects) = rollback x a p "self-check: services unhealthy" d in (d', effects)
after_poll x copied a p d stopped = (d, [])

-- SelfCheck with fuel for the loop.
unfoldable pub self_check :
    (fuel : ℕ)
    → Platform
    → Updater
    → (copied : Bool) → Answers
    → Rounds
    → (start : ℕ) → Disk
    → Option (Disk × List Effect)
unfolding after_poll poll
self_check fuel x u copied a r start d = elim (load_pending d) [
  | none ↦ some (d, [])
  | some p ↦
      if not (same_text p.to u.own_version)
      then some (d, [])
      else elim (poll fuel r (start + u.health_window) 0) [
        | none ↦ none
        | some q ↦ some (after_poll x copied a p d q)
      ]
]

abbrev pub pending_max_age : ℕ
pending_max_age = 24 * hour

-- StartupPendingCheck
unfoldable pub startup_pending_check :
    Platform → Updater → Answers → (now : ℕ) → Disk → Disk × List Effect
startup_pending_check x u a now d = elim (load_pending d) [
  | none ↦ (d, [])
  | some p ↦
      if ltb (p.started_at + pending_max_age) now
      then (let (d', out, effects) = rollback x a p "pending expired >24h" d in (d', effects))
      else if not (same_text p.to u.own_version) && not (same_text p.from u.own_version)
      then (let (d', out, effects) = rollback x a p "version mismatch" d in (d', effects))
      else (d, [])
]

-- The wait between two rounds is two seconds at least.
abbrev pub Waits : Rounds → Type 0
Waits r = (i : ℕ) → r.clock i + 2 * second ≤ r.clock (suc i)

poll-ne-none :
    (fuel : ℕ) (r : Rounds) (deadline i : ℕ)
    → Waits r
    → deadline < r.clock i + fuel * (2 * second)
    → poll (suc fuel) r deadline i ≢ none
unfolding poll
poll-ne-none zero r deadline i w more = ground arith
poll-ne-none (suc fuel) r deadline i w more =
    ground (arith, w i, poll-ne-none fuel r deadline (suc i) w)

-- The wait for healthy services ends: where `fuel` waits of two seconds are longer than the health
-- window, one round more than `fuel` is enough for SelfCheck to give a result, whatever the rounds
-- find, if the clock starts no earlier than the wait and moves on by two seconds at least from a round
-- to the next.
pub self_check-ends :
    (fuel : ℕ) (x : Platform) (u : Updater) (copied : Bool) (a : Answers) (r : Rounds) (start : ℕ)
    (d : Disk)
    → Waits r
    → start ≤ r.clock 0
    → u.health_window < fuel * (2 * second)
    → (done : Disk × List Effect) × (self_check (suc fuel) x u copied a r start d ≡ some done)
unfolding self_check
self_check-ends fuel x u copied a r start d w le enough =
    elim (Option-cases (self_check (suc fuel) x u copied a r start d)) [
      | inl e ↦
          absurd (ground (arith, poll-ne-none fuel r (start + u.health_window) 0 w (omega arith)))
      | inr (done, e) ↦ (done, e)
    ]
