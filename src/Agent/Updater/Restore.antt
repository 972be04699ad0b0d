-- ===== src/Agent/Updater/Restore.antt =====
-- src/agent/updater/updater.go: the way back to the version before.
use xnc.Prelude.{
  ℕ, ◌+◌, ◌≡◌, ap, ◌∙◌, String, Bool, true, false, none, some, List, [], ◌∷◌, ◌++◌, if◌then◌else◌,
  arith,
}
use xnc.Agent.Updater.Disk.{
  SetupManifest, PendingUpdate, File, Disk, Platform, Updater, Effect, executed,
  watchdog_registered, watchdog_deleted, Audit, audited, audit, rolled_back, find_installer,
  write_file,
}
use xnc.Agent.Updater.Stash.{IsOpen, find_installer-write_file}
use xnc.Agent.Updater.Throttle.{blacklist_version}
use xnc.Agent.Updater.Rollback.{
  install_failed, Outcome, failed, Answers, rollback, rollback_from, rollback_source,
  restored_outcome,
}
use xnc.Agent.Updater.Apply.{
  Hash, World, execute, launch, launch_checked, apply_update, ensure_rollback_source,
  stash_rollback_source, staged_file, stage, pending_of, restart_grace, may_update,
  orchestrate_trigger,
}
use xnc.Agent.Updater.Guards.{IsGenuine}

abbrev pub reported : (online : Bool) → Audit → List Effect
reported online a = if online then audited a ∷ [] else []

rollback-stashed :
    (x : Platform) (a : Answers) (p : PendingUpdate) (r : String) (d : Disk) (g : File)
    → find_installer x d.cache p.from ≡ none
    → find_installer x d.stash p.from ≡ some g
    → ((rollback x a p r d).0.pending ≡ none)
      × ((rollback x a p r d).1 ≡ restored_outcome a.restored)
      × ((rollback x a p r d).2
          ≡ reported a.online (rolled_back p.from p.to r) ++ (watchdog_deleted ∷ executed g ∷ []))
unfolding rollback rollback_from rollback_source audit blacklist_version
rollback-stashed x a p r d g gone stashed = (ground arith, ground arith, ground arith)

execute-restores :
    (x : Platform) (w : World) (p : PendingUpdate) (f : File) (d : Disk) (g : File)
    → w.installed ≡ false
    → find_installer x (w.prune d.cache) p.from ≡ none
    → find_installer x d.stash p.from ≡ some g
    → ((execute x w p f d).0.pending ≡ none)
      × ((execute x w p f d).1 ≡ failed install_failed)
      × ((execute x w p f d).2
          ≡ executed f
            ∷ (reported w.back.online (rolled_back p.from p.to "installer failed")
                ++ (watchdog_deleted ∷ executed g ∷ [])))
unfolding execute audit blacklist_version
execute-restores x w p f d g broken gone stashed =
    let d1 : Disk = record d { cache = w.prune d.cache } in
    let d2 = blacklist_version p.to "installer failed" d1 in
    let (cleared, out, effects) =
      rollback-stashed x w.back p "installer failed" d2 g gone stashed in
    (ground arith, ground arith, ground arith)

-- The installer of the own version is in the cache before, and the stash has none of that version but
-- of the same name; the copy to the stash, the marker and the watchdog are made; the new installer runs,
-- fails, and leaves none of the own version in the cache.
abbrev pub BreaksDown : Platform → Updater → World → Disk → File → Type 0
BreaksDown x u w d g =
    (find_installer x d.cache u.own_version ≡ some g)
    × IsOpen g (find_installer x d.stash u.own_version)
    × (w.stashed ≡ true)
    × (w.pending_saved ≡ true)
    × (w.watchdog_set ≡ true)
    × (w.installed ≡ false)
    × (find_installer x (w.prune d.cache) u.own_version ≡ none)

-- What is done then, from the watchdog on to the old installer.
abbrev pub restore_effects : Platform → Updater → World → SetupManifest → (f g : File) → List Effect
restore_effects x u w m f g =
    watchdog_registered ((pending_of u w m).deadline + restart_grace)
    ∷ executed f
    ∷ (reported w.back.online (rolled_back u.own_version m.version "installer failed")
        ++ (watchdog_deleted ∷ executed g ∷ []))

launch-restores :
    (x : Platform) (u : Updater) (w : World) (m : SetupManifest) (f : File) (d : Disk) (g : File)
    → w.pending_saved ≡ true
    → w.watchdog_set ≡ true
    → w.installed ≡ false
    → find_installer x (w.prune d.cache) u.own_version ≡ none
    → find_installer x d.stash u.own_version ≡ some g
    → ((launch x u w m f d).0.pending ≡ none)
      × ((launch x u w m f d).1 ≡ failed install_failed)
      × ((launch x u w m f d).2 ≡ restore_effects x u w m f g)
unfolding launch
launch-restores x u w m f d g saved watched broken gone stashed =
    let p = pending_of u w m in
    let d1 : Disk = record d { pending = some p } in
    let (cleared, out, effects) = execute-restores x w p f d1 g broken gone stashed in
    (ground arith, ground arith, ground arith)

stash_rollback_source-cached :
    (x : Platform) (u : Updater) (w : World) (d : Disk) (g : File)
    → find_installer x d.cache u.own_version ≡ some g
    → w.stashed ≡ true
    → stash_rollback_source x u w d ≡ (record d { stash = write_file g d.stash })
unfolding stash_rollback_source
stash_rollback_source-cached x u w d g cached stashed = ground arith

ensure_rollback_source-cached :
    (x : Platform) (h : Hash) (u : Updater) (w : World) (d : Disk) (g : File)
    → find_installer x d.cache u.own_version ≡ some g
    → ensure_rollback_source x h u w d ≡ (d, none)
unfolding ensure_rollback_source
ensure_rollback_source-cached x h u w d g cached = ground arith

-- What a broken new version leaves: no marker, the failure as the answer, and the effects above.
abbrev pub Restores :
    Platform
    → Updater
    → World
    → SetupManifest
    → (f g : File) → Disk × Outcome × List Effect
    → Type 0
Restores x u w m f g (d', out, effects) =
    (d'.pending ≡ none) × (out ≡ failed install_failed) × (effects ≡ restore_effects x u w m f g)

launch_checked-cached :
    (x : Platform) (h : Hash) (u : Updater) (w : World) (m : SetupManifest) (f : File) (d : Disk)
    (g : File)
    → find_installer x d.cache u.own_version ≡ some g
    → w.stashed ≡ true
    → launch_checked x h u w m f d ≡ launch x u w m f (record d { stash = write_file g d.stash })
unfolding launch_checked
launch_checked-cached x h u w m f d g cached stashed =
    let source = ensure_rollback_source-cached x h u w d g cached in
    let stash = stash_rollback_source-cached x u w d g cached stashed in
    rw (launch_checked, source)
      (ap (λ r. launch x u w m f (stash_rollback_source x u w r.0)) source
        ∙ ap (launch x u w m f) stash)

launch_checked-restores :
    (x : Platform) (h : Hash) (u : Updater) (w : World) (m : SetupManifest) (f : File) (d : Disk)
    (g : File)
    → BreaksDown x u w d g
    → Restores x u w m f g (launch_checked x h u w m f d)
launch_checked-restores x h u w m f d g (cached, room, stashed, saved, watched, broken, gone) =
    rw (launch_checked-cached x h u w m f d g cached stashed) (
      launch-restores x u w m f (record d { stash = write_file g d.stash }) g saved watched broken
        gone (find_installer-write_file x d.cache d.stash u.own_version g cached room))

apply_update-open :
    (x : Platform) (h : Hash) (u : Updater) (w : World) (m : SetupManifest) (d : Disk) (c : ℕ)
    → IsGenuine h w m c
    → apply_update x h u w m d
      ≡ launch_checked x h u w m
          (staged_file x u m.version c)
          (stage (staged_file x u m.version c) d)
unfolding apply_update
apply_update-open x h u w m d c (got, readable, same) = ground arith

-- When a trigger goes ahead with a genuine installer, and that installer fails and leaves none of the
-- own version's installers in the cache, the agent goes back: after the watchdog and the new
-- installer it reports the rollback if it can, deletes the watchdog and runs the installer of the
-- own version that was in the cache before; the marker is gone and the answer is the failure. The
-- cache must have that installer before, the stash none of that version with another name, and the
-- writes of the stash and of the marker and the set-up of the watchdog must succeed.
pub orchestrate_trigger-restores :
    (x : Platform) (h : Hash) (u : Updater) (busy force : Bool) (w : World) (m : SetupManifest)
    (d : Disk) (c : ℕ) (g : File)
    → may_update x u busy force w.now m d ≡ true
    → IsGenuine h w m c
    → BreaksDown x u w d g
    → Restores x u w m (staged_file x u m.version c) g (orchestrate_trigger x h u busy force w m d)
unfolding orchestrate_trigger
orchestrate_trigger-restores x h u busy force w m d c g may genuine breaks =
    let f = staged_file x u m.version c in
    let result = launch_checked-restores x h u w m f (stage f d) g breaks in
    rw (orchestrate_trigger, may, apply_update-open x h u w m d c genuine) result
