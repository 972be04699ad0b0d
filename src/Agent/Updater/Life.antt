-- ===== src/Agent/Updater/Life.antt =====
-- src/agent/updater/updater.go: what becomes of a version that failed.
use xnc.Prelude.{
  ◌+◌, ◌<◌, ℕ, ◌≡◌, ◌≢◌, ◌⊎◌, refl, inl, inr, String, Bool, true, false, some, List, [],
  Option-cases, arith,
}
use xnc.Agent.Updater.Version.{Text}
use xnc.Agent.Updater.Disk.{
  load_pending, SetupManifest, PendingUpdate, File, Disk, Platform, Updater, remove_file,
}
use xnc.Agent.Updater.Throttle.{blacklist_version, blacklisted}
use xnc.Agent.Updater.Rollback.{install_failed, fine, failed, Answers, rollback}
use xnc.Agent.Updater.Apply.{
  Hash, World, execute, launch, launch_checked, apply_update, fetch_own, ensure_rollback_source,
  stash_rollback_source, staged_file, stage, pending_of, may_update, orchestrate_trigger,
}
use xnc.Agent.Updater.SelfCheck.{
  pending_max_age, healthy, unhealthy, stopped, after_poll, startup_pending_check,
}
use xnc.Agent.Updater.Blacklist.{
  bans, is_listed, is_listed-blacklist_version, bans-rollback, record_failure-Keeps,
}
use xnc.Agent.Updater.Operations.{
  Operation, triggers, checks, polls, starts, reports, step, life, life-Keeps,
}

rollback-listed :
    (x : Platform) (a : Answers) (p : PendingUpdate) (r : String) (d : Disk)
    → is_listed (bans (rollback x a p r d).0) p.to ≡ true
rollback-listed x a p r d = rw (bans-rollback x a p r d) (is_listed-blacklist_version p.to r d)

execute-listed :
    (x : Platform) (w : World) (p : PendingUpdate) (f : File) (d : Disk)
    → (execute x w p f d).1 ≡ failed install_failed
    → is_listed (bans (execute x w p f d).0) p.to ≡ true
unfolding execute
execute-listed x w p f d e =
    let d1 : Disk = record d { cache = w.prune d.cache } in
    let listed =
      rollback-listed x w.back p "installer failed"
        (blacklist_version p.to "installer failed" d1) in
    ground (arith)

launch-listed :
    (x : Platform) (u : Updater) (w : World) (m : SetupManifest) (f : File) (d : Disk)
    → (launch x u w m f d).1 ≡ failed install_failed
    → is_listed (bans (launch x u w m f d).0) m.version ≡ true
unfolding launch
launch-listed x u w m f d e =
    let p = pending_of u w m in
    let listed = execute-listed x w p f (record d { pending = some p }) in ground (arith)

ensure_rollback_source-ne :
    (x : Platform) (h : Hash) (u : Updater) (w : World) (d : Disk)
    → (ensure_rollback_source x h u w d).1 ≢ some install_failed
unfolding ensure_rollback_source fetch_own
ensure_rollback_source-ne x h u w d e = ground arith

launch_checked-listed :
    (x : Platform) (h : Hash) (u : Updater) (w : World) (m : SetupManifest) (f : File) (d : Disk)
    → (launch_checked x h u w m f d).1 ≡ failed install_failed
    → is_listed (bans (launch_checked x h u w m f d).0) m.version ≡ true
unfolding launch_checked
launch_checked-listed x h u w m f d e =
    let d1 = (ensure_rollback_source x h u w d).0 in
    let other = ensure_rollback_source-ne x h u w d in
    let listed = launch-listed x u w m f (stash_rollback_source x u w d1) in ground (arith)

apply_update-listed :
    (x : Platform) (h : Hash) (u : Updater) (w : World) (m : SetupManifest) (d : Disk)
    → (apply_update x h u w m d).1 ≡ failed install_failed
    → is_listed (bans (apply_update x h u w m d).0) m.version ≡ true
unfolding apply_update
apply_update-listed x h u w m d e = elim (Option-cases w.download) [
  | inl none_left ↦ absurd (ground arith)
  | inr (c, got) ↦
      let f = staged_file x u m.version c in
      let listed = launch_checked-listed x h u w m f (stage f d) in ground (arith)
]

-- A way in which the target of an operation fails: its bytes do not match the manifest, its installer
-- fails, its services stay unhealthy, or its marker stands for more than a day.
abbrev pub Fails : Platform → Hash → Updater → Operation → Disk → Text → Type 0
Fails x h u (triggers busy force w m) d v =
    (v ≡ m.version)
    × (((orchestrate_trigger x h u busy force w m d).1 ≡ failed install_failed)
        ⊎ ((may_update x u busy force w.now m d ≡ true)
            × ((c : ℕ) × (w.download ≡ some c)
                × (w.readable ≡ true)
                × (h.same (h.sum c) m.sha256 ≡ false))))
Fails x h u (polls copied a p unhealthy) d v = v ≡ p.to
Fails x h u (starts a now) d v =
    (p : PendingUpdate) × (load_pending d ≡ some p)
    × (v ≡ p.to)
    × (p.started_at + pending_max_age < now)
Fails x h u o d v = true ≡ false

mismatch-listed :
    (x : Platform) (h : Hash) (u : Updater) (w : World) (m : SetupManifest) (d : Disk) (c : ℕ)
    → w.download ≡ some c
    → w.readable ≡ true
    → h.same (h.sum c) m.sha256 ≡ false
    → is_listed (bans (apply_update x h u w m d).0) m.version ≡ true
unfolding apply_update
mismatch-listed x h u w m d c got readable other =
    let f = staged_file x u m.version c in
    let d1 : Disk = record d { staging = remove_file f.name (stage f d).staging } in
    let d2 = blacklist_version m.version "sha256 mismatch" d1 in
    let listed = is_listed-blacklist_version m.version "sha256 mismatch" d1 in
    let kept = record_failure-Keeps m.version w.now d2 m.version listed in ground (arith)

trigger-listed :
    (x : Platform) (h : Hash) (u : Updater) (busy force : Bool) (w : World) (m : SetupManifest)
    (d : Disk)
    → Fails x h u (triggers busy force w m) d m.version
    → is_listed (bans (orchestrate_trigger x h u busy force w m d).0) m.version ≡ true
unfolding orchestrate_trigger
trigger-listed x h u busy force w m d (named, inl e) =
    let listed = apply_update-listed x h u w m d in ground (arith)
trigger-listed x h u busy force w m d (named, inr (may, (c, got, readable, other))) =
    rw (may) (mismatch-listed x h u w m d c got readable other)

startup-listed :
    (x : Platform) (u : Updater) (a : Answers) (now : ℕ) (d : Disk) (p : PendingUpdate)
    → load_pending d ≡ some p
    → p.started_at + pending_max_age < now
    → is_listed (bans (startup_pending_check x u a now d).0) p.to ≡ true
unfolding startup_pending_check
startup-listed x u a now d p found old =
    let listed = rollback-listed x a p "pending expired >24h" d in ground (arith)

unhealthy-listed :
    (x : Platform) (copied : Bool) (a : Answers) (p : PendingUpdate) (d : Disk)
    → is_listed (bans (after_poll x copied a p d unhealthy).0) p.to ≡ true
unfolding after_poll
unhealthy-listed x copied a p d = rollback-listed x a p "self-check: services unhealthy" d

Fails-listed :
    (x : Platform) (h : Hash) (u : Updater) (o : Operation) (d : Disk) (v : Text)
    → Fails x h u o d v
    → is_listed (bans (step x h u o d)) v ≡ true
unfolding step
Fails-listed x h u (triggers busy force w m) d v (e, fault) =
    rw (e) (trigger-listed x h u busy force w m d (refl, fault))
Fails-listed x h u (polls copied a p unhealthy) d v e = rw (e) (unhealthy-listed x copied a p d)
Fails-listed x h u (starts a now) d v (p, found, e, old) =
    rw (e) (startup-listed x u a now d p found old)
Fails-listed x h u (checks busy force latest w) d v e = absurd (ground arith)
Fails-listed x h u (polls copied a p healthy) d v e = absurd (ground arith)
Fails-listed x h u (polls copied a p stopped) d v e = absurd (ground arith)
Fails-listed x h u reports d v e = absurd (ground arith)

trigger-refused :
    (x : Platform) (h : Hash) (u : Updater) (busy force : Bool) (w : World) (m : SetupManifest)
    (d : Disk)
    → is_listed (bans d) m.version ≡ true
    → orchestrate_trigger x h u busy force w m d ≡ (d, fine, [])
unfolding orchestrate_trigger blacklisted
trigger-refused x h u busy force w m d listed = ground arith

-- Once a version has failed, because its bytes did not match the manifest, its installer failed, its
-- services stayed unhealthy or its marker stood for more than a day, no later trigger of it does
-- anything or changes the state directory, forced or not, by whatever agent, after whatever
-- operations of agents on that directory.
pub trigger-after-failure :
    (x : Platform) (h : Hash) (u : Updater) (o : Operation) (d : Disk)
    (later : List (Updater × Operation)) (again : Updater) (busy force : Bool) (w : World)
    (m : SetupManifest)
    → Fails x h u o d m.version
    → let d' = life x h later (step x h u o d) in
      orchestrate_trigger x h again busy force w m d' ≡ (d', fine, [])
trigger-after-failure x h u o d later again busy force w m fault =
    let d1 = step x h u o d in
    trigger-refused x h again busy force w m (life x h later d1)
      (life-Keeps x h later d1 m.version (Fails-listed x h u o d m.version fault))
