-- ===== src/Agent/Updater/Guards.antt =====
-- src/agent/updater/updater.go: what holds when an installer is run.
use Prim.Native.Nat.{Ordering}
use xnc.Prelude.{
  ℕ, ◌+◌, ◌≡◌, ◌≢◌, ◌⊎◌, inl, inr, Bool, true, false, none, some, List, [], ◌∷◌, Option-cases,
  arith,
}
use xnc.Agent.Updater.Version.{compare_versions}
use xnc.Agent.Updater.Disk.{
  SetupManifest, PendingUpdate, File, Disk, Platform, Updater, Effect, executed,
  watchdog_registered, load_pending,
}
use xnc.Agent.Updater.Throttle.{throttled, blacklisted}
use xnc.Agent.Updater.Apply.{
  Hash, World, staged_file, pending_of, restart_grace, stage, ensure_rollback_source,
  stash_rollback_source, execute, launch, launch_checked, apply_update, may_update,
  orchestrate_trigger,
}

-- The effects of an update that goes as far as its installer.
abbrev pub Launched : Platform → Updater → World → SetupManifest → ℕ → List Effect → Type 0
Launched x u w m c out =
    (w.pending_saved ≡ true)
    × (w.watchdog_set ≡ true)
    × ((rest : List Effect) × (out
          ≡ watchdog_registered ((pending_of u w m).deadline + restart_grace)
            ∷ executed (staged_file x u m.version c)
            ∷ rest))

abbrev rest_of : List Effect → List Effect
rest_of [] = []
rest_of (e ∷ es) = es

execute-effects :
    (x : Platform) (w : World) (p : PendingUpdate) (f : File) (d : Disk)
    → (execute x w p f d).2 ≡ executed f ∷ rest_of (execute x w p f d).2
unfolding execute
execute-effects x w p f d = ground arith

launch-Launched :
    (x : Platform) (u : Updater) (w : World) (m : SetupManifest) (c : ℕ) (d : Disk)
    → (launch x u w m (staged_file x u m.version c) d).2 ≢ []
    → Launched x u w m c (launch x u w m (staged_file x u m.version c) d).2
unfolding launch
launch-Launched x u w m c d some_effect =
    let p = pending_of u w m in
    let f = staged_file x u m.version c in
    let d' : Disk = record d { pending = some p } in
    let e = execute-effects x w p f d' in
    (ground arith, ground arith, (rest_of (execute x w p f d').2, ground arith))

launch_checked-Launched :
    (x : Platform) (h : Hash) (u : Updater) (w : World) (m : SetupManifest) (c : ℕ) (d : Disk)
    → (launch_checked x h u w m (staged_file x u m.version c) d).2 ≢ []
    → Launched x u w m c (launch_checked x h u w m (staged_file x u m.version c) d).2
unfolding launch_checked
launch_checked-Launched x h u w m c d some_effect =
    elim (Option-cases (ensure_rollback_source x h u w d).1) [
      | inl e ↦
          rw (launch_checked, e)
            (launch-Launched x u w m c
              (stash_rollback_source x u w (ensure_rollback_source x h u w d).0) (ground arith))
      | inr (problem, e) ↦ absurd (ground arith)
    ]

-- The installer was downloaded, and its bytes are those of the manifest.
abbrev pub IsGenuine : Hash → World → SetupManifest → ℕ → Type 0
IsGenuine h w m c = (w.download ≡ some c) × (w.readable ≡ true) × (h.same (h.sum c) m.sha256 ≡ true)

apply_update-Launched :
    (x : Platform) (h : Hash) (u : Updater) (w : World) (m : SetupManifest) (d : Disk)
    → (apply_update x h u w m d).2 ≢ []
    → (c : ℕ) × IsGenuine h w m c × Launched x u w m c (apply_update x h u w m d).2
unfolding apply_update
apply_update-Launched x h u w m d some_effect = elim (Option-cases w.download) [
  | inl e ↦ absurd (ground arith)
  | inr (c, e) ↦
      let readable : w.readable ≡ true = ground arith in
      let same : h.same (h.sum c) m.sha256 ≡ true = ground arith in
      (
        c,
        (e, readable, same),
        rw (apply_update, e, readable, same)
            (launch_checked-Launched x h u w m c (stage (staged_file x u m.version c) d)
              (ground arith)),
      )
]

-- The state in which a trigger may go on: see `trigger-effects`.
abbrev pub MayUpdate : Platform → Updater → Bool → Bool → ℕ → SetupManifest → Disk → Type 0
MayUpdate x u busy force now m d =
    (busy ≡ false)
    × (load_pending d ≡ none)
    × (compare_versions m.version u.own_version ≡ Ordering.gt)
    × (x.is_supported ≡ true)
    × (blacklisted d m.version ≡ none)
    × ((force ≡ true) ⊎ (throttled d m.version now ≡ none))

-- A trigger does something outside the state directory only if no other update runs, no marker of
-- an update stands, the target is newer, the platform is supported, the target is not blacklisted
-- and, unless forced, not throttled; the bytes of the installer are those of the manifest; and the
-- first things done are, in this order, to register the watchdog and to run that installer, once
-- the marker is saved.
pub orchestrate_trigger-effects :
    (x : Platform) (h : Hash) (u : Updater) (busy force : Bool) (w : World) (m : SetupManifest)
    (d : Disk)
    → (orchestrate_trigger x h u busy force w m d).2 ≢ []
    → MayUpdate x u busy force w.now m d
      × ((c : ℕ) × IsGenuine h w m c
          × Launched x u w m c (orchestrate_trigger x h u busy force w m d).2)
unfolding orchestrate_trigger
orchestrate_trigger-effects x h u busy force w m d some_effect =
    let may : may_update x u busy force w.now m d ≡ true = ground arith in
    (ground arith, rw (orchestrate_trigger, may) (apply_update-Launched x h u w m d (ground arith)))
