-- ===== src/Agent/Updater/Rollback.antt =====
-- src/agent/updater/updater.go: going back to the version before. The
-- fixed words that the code puts before a reason are left out.
use xnc.Prelude.{String, Bool, Option, none, some, List, [], ◌∷◌, ◌++◌, if◌then◌else◌}
use xnc.Agent.Updater.Version.{Text}
use xnc.Agent.Updater.Disk.{
  PendingUpdate, File, Disk, Platform, Effect, executed, watchdog_deleted, version_restored,
  rolled_back, audit, delete_pending, find_installer, or_else,
}
use xnc.Agent.Updater.Throttle.{blacklist_version}

pub data Problem : Type 0 where
  fetch_failed download_failed hash_failed hash_mismatch no_rollback_source save_failed : Problem
  watchdog_failed install_failed rollback_failed : Problem

-- What an operation answers: nil, or an error.
pub data Outcome : Type 0 where
  fine : Outcome
  failed : Problem → Outcome

-- The answers of the outside world to a rollback: the report was sent, the old installer ended well.
pub record Answers : Type 0 where
  pub online : Bool
  pub restored : Bool

-- The installer of the version: in the cache, in its copy, or in the staging directory.
unfoldable pub rollback_source : Platform → Disk → (version : Text) → Option File
rollback_source x d version =
    or_else (find_installer x d.cache version)
      (or_else (find_installer x d.stash version) (find_installer x d.staging version))

abbrev pub restored_outcome : Bool → Outcome
restored_outcome ok = if ok then fine else failed rollback_failed

unfoldable pub rollback_from :
    Platform → Answers → PendingUpdate → Option File → Disk → Disk × Outcome × List Effect
rollback_from x a p (some src) d =
    (delete_pending d, restored_outcome a.restored, watchdog_deleted ∷ executed src ∷ [])
rollback_from x a p none d =
    if x.has_fallback
    then (
      delete_pending d,
      restored_outcome a.restored,
      watchdog_deleted ∷ version_restored p.from ∷ [],
    )
    else (d, failed no_rollback_source, [])

unfoldable pub rollback :
    Platform → Answers → PendingUpdate → (reason : String) → Disk → Disk × Outcome × List Effect
unfolding rollback_from rollback_source
rollback x a p reason d =
    let (d1, sent) = audit a.online (rolled_back p.from p.to reason) d in
    let d2 = blacklist_version p.to reason d1 in
    let (d3, out, effects) = rollback_from x a p (rollback_source x d2 p.from) d2 in
    (d3, out, sent ++ effects)
