-- ===== src/Agent/Updater/Apply.antt =====
-- src/agent/updater/updater.go: an update, from its trigger to the run of the installer. What the
-- server, the network and the installer answer during one operation is the record `World`; the
-- readings of the clock within it are one reading. On the real path the installer stops the agent:
-- the operation then never ends and the next agent goes on from the disk.
use Prim.Native.Nat.{Ordering}
use xnc.Prelude.{
  ℕ, ◌+◌, ◌*◌, Bool, true, false, not, ◌&&◌, ◌||◌, Option, none, some, List, [], ◌∷◌, if◌then◌else◌,
}
use xnc.Agent.Updater.Version.{Text, is_empty, compare_versions}
use xnc.Agent.Updater.Disk.{
  SetupManifest, PendingUpdate, File, Disk, Platform, Updater, Effect, executed,
  watchdog_registered, same_text, load_pending, save_pending, delete_pending, write_file,
  remove_file, find_installer, copy_to_cache,
}
use xnc.Agent.Updater.Throttle.{record_failure, throttled, blacklisted, blacklist_version}
use xnc.Agent.Updater.Rollback.{
  Problem, fetch_failed, download_failed, hash_failed, hash_mismatch, no_rollback_source,
  save_failed, watchdog_failed, install_failed, Outcome, fine, failed, Answers, rollback,
}

-- SHA-256 of the contents, and the comparison that ignores case and surrounding space.
pub record Hash : Type 0 where
  pub sum : ℕ → Text
  pub same : (got want : Text) → Bool

pub record World : Type 0 where
  pub now : ℕ
  pub manifest : Option SetupManifest
  pub download : Option ℕ
  pub readable : Bool
  pub own_download : Option ℕ
  pub own_readable : Bool
  pub copied : Bool
  pub stashed : Bool
  pub pending_saved : Bool
  pub watchdog_set : Bool
  pub installed : Bool
  -- What the installer that runs makes of the cache.
  pub prune : List File → List File
  pub back : Answers

abbrev pub second : ℕ
second = 1000000000

abbrev pub restart_grace : ℕ
restart_grace = 120 * second

-- The file in the staging directory to which a download goes.
abbrev pub staged_file : Platform → Updater → (version : Text) → ℕ → File
staged_file x u version contents = record {
  name = x.installer_name version u.channel;
  contents = contents;
}

abbrev pub stage : File → Disk → Disk
stage f d = record d { staging = write_file f d.staging }

-- The download of the own version, for the cache.
unfoldable pub fetch_own : Platform → Hash → Updater → World → Disk → Disk × Option Problem
fetch_own x h u w d = elim w.manifest [
  | none ↦ (d, some fetch_failed)
  | some m ↦
      if not (same_text m.version u.own_version)
      then (d, some no_rollback_source)
      else elim w.own_download [
        | none ↦ (d, some download_failed)
        | some c ↦
            let d' = stage (staged_file x u m.version c) d in
            if not w.own_readable || not (h.same (h.sum c) m.sha256)
            then (d', some hash_mismatch)
            else if w.copied
            then (copy_to_cache x (staged_file x u m.version c) true d', none)
            else (d', some no_rollback_source)
      ]
]

unfoldable pub ensure_rollback_source :
    Platform → Hash → Updater → World → Disk → Disk × Option Problem
unfolding fetch_own
ensure_rollback_source x h u w d = elim (find_installer x d.cache u.own_version) [
  | some f ↦ (d, none)
  | none ↦
      if x.rollback_ready u.own_version
      then (d, none)
      else elim (find_installer x d.staging u.own_version) [
        | some f ↦
            if w.copied then (copy_to_cache x f true d, none) else (d, some no_rollback_source)
        | none ↦ fetch_own x h u w d
      ]
]

-- stashRollbackSource, whose error is dropped.
unfoldable pub stash_rollback_source : Platform → Updater → World → Disk → Disk
stash_rollback_source x u w d = elim (find_installer x d.cache u.own_version) [
  | none ↦ d
  | some f ↦ if w.stashed then record d { stash = write_file f d.stash } else d
]

abbrev pub pending_of : Updater → World → SetupManifest → PendingUpdate
pending_of u w m = record {
  from = u.own_version;
  to = m.version;
  started_at = w.now;
  deadline = w.now + u.pending_window;
}

-- The installer runs: its changes to the cache, and the way back if it fails.
unfoldable pub execute :
    Platform → World → PendingUpdate → File → Disk → Disk × Outcome × List Effect
execute x w p f d =
    let d1 = record d { cache = w.prune d.cache } in
    if w.installed
    then (d1, fine, executed f ∷ [])
    else (let d2 = blacklist_version p.to "installer failed" d1 in
        let (d3, out, effects) = rollback x w.back p "installer failed" d2 in
        (d3, failed install_failed, executed f ∷ effects))

-- The marker and the watchdog, and then the installer.
unfoldable pub launch :
    Platform → Updater → World → SetupManifest → File → Disk → Disk × Outcome × List Effect
unfolding execute
launch x u w m f d =
    let p = pending_of u w m in
    if not w.pending_saved
    then (d, failed save_failed, [])
    else (let d1 = save_pending p d in
        if not w.watchdog_set
        then (record_failure m.version w.now (delete_pending d1), failed watchdog_failed, [])
        else (let (d2, out, effects) = execute x w p f d1 in
            (d2, out, watchdog_registered (p.deadline + restart_grace) ∷ effects)))

-- Once the download passed its check.
unfoldable pub launch_checked :
    Platform → Hash → Updater → World → SetupManifest → File → Disk → Disk × Outcome × List Effect
unfolding launch ensure_rollback_source stash_rollback_source
launch_checked x h u w m f d =
    let (d1, problem) = ensure_rollback_source x h u w d in
    elim problem [
      | some e ↦ (record_failure m.version w.now d1, failed e, [])
      | none ↦ launch x u w m f (stash_rollback_source x u w d1)
    ]

unfoldable pub apply_update :
    Platform → Hash → Updater → World → SetupManifest → Disk → Disk × Outcome × List Effect
unfolding launch_checked
apply_update x h u w m d = elim w.download [
  | none ↦ (record_failure m.version w.now d, failed download_failed, [])
  | some c ↦
      let f = staged_file x u m.version c in
      let d1 = stage f d in
      if not w.readable
      then (record_failure m.version w.now d1, failed hash_failed, [])
      else if not (h.same (h.sum c) m.sha256)
      then (
        record_failure m.version w.now (
            blacklist_version m.version "sha256 mismatch"
              (record d1 { staging = remove_file f.name d1.staging })),
        failed hash_mismatch,
        [],
      )
      else launch_checked x h u w m f d1
]

abbrev pub is_newer : Text → Text → Bool
is_newer target own = elim (compare_versions target own) [ Ordering.gt ↦ true | _ ↦ false ]

abbrev pub is_throttled : Disk → Text → ℕ → Bool
is_throttled d version now = elim (throttled d version now) [ none ↦ false | some wait ↦ true ]

abbrev pub is_blacklisted : Disk → Text → Bool
is_blacklisted d version = elim (blacklisted d version) [ none ↦ false | some reason ↦ true ]

abbrev pub has_pending : Disk → Bool
has_pending d = elim (load_pending d) [ none ↦ false | some p ↦ true ]

-- The tests of orchestrateTrigger, in order; `busy` is the gate of the process.
abbrev pub may_update :
    Platform → Updater → (busy force : Bool) → (now : ℕ) → SetupManifest → Disk → Bool
may_update x u busy force now m d =
    not busy
    && (not (has_pending d)
        && (not (is_empty m.version || same_text m.version u.own_version)
            && (is_newer m.version u.own_version
                && (x.is_supported
                    && (not (is_blacklisted d m.version)
                        && (force || not (is_throttled d m.version now)))))))

unfoldable pub orchestrate_trigger :
    Platform
    → Hash
    → Updater
    → (busy force : Bool) → World
    → SetupManifest
    → Disk
    → Disk × Outcome × List Effect
orchestrate_trigger x h u busy force w m d =
    if may_update x u busy force w.now m d then apply_update x h u w m d else (d, fine, [])

-- CheckNow, and ForceCheck with `force`: `latest` is what the server answers.
unfoldable pub check :
    Platform
    → Hash
    → Updater
    → (busy force : Bool) → (latest : Option SetupManifest) → World
    → Disk
    → Disk × Outcome × List Effect
unfolding orchestrate_trigger
check x h u busy force latest w d = if has_pending d then (d, fine, []) else elim latest [
  | none ↦ (d, failed fetch_failed, [])
  | some m ↦ orchestrate_trigger x h u busy force w m d
]
