-- ===== src/Agent/Updater/Blacklist.antt =====
-- src/agent/updater/updater.go: a version that failed is not tried again.
use xnc.Prelude.{
  ℕ, ◌≡◌, refl, ◌∙◌, inl, inr, String, Bool, true, false, none, some, List, Option-cases,
  Bool-cases, arith,
}
use xnc.Prelude.Map.{Map, get, get-put}
use xnc.Agent.Updater.Version.{Text}
use xnc.Agent.Updater.Disk.{
  SetupManifest, PendingUpdate, File, Disk, Platform, Updater, Text-discrete, audit, copy_to_cache,
  remove_file,
}
use xnc.Agent.Updater.Throttle.{record_failure, clear_throttle, blacklist_version}
use xnc.Agent.Updater.Rollback.{Answers, rollback, rollback_from}
use xnc.Agent.Updater.Apply.{
  Hash, World, execute, launch, launch_checked, apply_update, fetch_own, ensure_rollback_source,
  stash_rollback_source, staged_file, stage, pending_of,
}

-- The blacklist alone, and the blacklist of a disk.
abbrev pub bans : Disk → Map Text String
bans d = d.throttle.blacklist

abbrev pub is_listed : Map Text String → Text → Bool
is_listed m v = elim (get Text-discrete v m) [ none ↦ false | some reason ↦ true ]

-- No version leaves the blacklist.
abbrev pub Keeps : Disk → Disk → Type 0
Keeps d d' = (v : Text) → is_listed (bans d) v ≡ true → is_listed (bans d') v ≡ true

pub Keeps-same : (d d' : Disk) → bans d' ≡ bans d → Keeps d d'
Keeps-same d d' e v h = rw (e) h

pub Keeps-trans : (d d' d'' : Disk) → Keeps d d' → Keeps d' d'' → Keeps d d''
Keeps-trans d d' d'' k l v h = l v (k v h)

pub blacklist_version-Keeps : (v : Text) (r : String) (d : Disk) → Keeps d (blacklist_version v r d)
unfolding blacklist_version
blacklist_version-Keeps v r d k h = grind (arith, get-put Text-discrete v k r (bans d))

pub is_listed-blacklist_version :
    (v : Text) (r : String) (d : Disk) → is_listed (bans (blacklist_version v r d)) v ≡ true
unfolding blacklist_version
is_listed-blacklist_version v r d = grind (arith, get-put Text-discrete v v r (bans d))

bans-record_failure : (v : Text) (now : ℕ) (d : Disk) → bans (record_failure v now d) ≡ bans d
unfolding record_failure
bans-record_failure v now d = ground arith

pub bans-clear_throttle : (v : Text) (d : Disk) → bans (clear_throttle v d) ≡ bans d
unfolding clear_throttle
bans-clear_throttle v d = ground arith

pub bans-rollback :
    (x : Platform) (a : Answers) (p : PendingUpdate) (r : String) (d : Disk)
    → bans (rollback x a p r d).0 ≡ bans (blacklist_version p.to r d)
unfolding rollback rollback_from audit blacklist_version
bans-rollback x a p r d = ground arith

pub rollback-Keeps :
    (x : Platform) (a : Answers) (p : PendingUpdate) (r : String) (d : Disk)
    → Keeps d (rollback x a p r d).0
rollback-Keeps x a p r d =
    Keeps-trans d (blacklist_version p.to r d) (rollback x a p r d).0
      (blacklist_version-Keeps p.to r d)
      (Keeps-same (blacklist_version p.to r d) (rollback x a p r d).0 (bans-rollback x a p r d))

pub record_failure-Keeps : (v : Text) (now : ℕ) (d : Disk) → Keeps d (record_failure v now d)
record_failure-Keeps v now d = Keeps-same d (record_failure v now d) (bans-record_failure v now d)

-- With the blacklisting of the target, and the way back.
failed_install-Keeps :
    (x : Platform) (w : World) (p : PendingUpdate) (d : Disk)
    → let d1 : Disk = blacklist_version p.to "installer failed" d in
      Keeps d (rollback x w.back p "installer failed" d1).0
failed_install-Keeps x w p d =
    let d1 : Disk = blacklist_version p.to "installer failed" d in
    Keeps-trans d d1 (rollback x w.back p "installer failed" d1).0
      (blacklist_version-Keeps p.to "installer failed" d)
      (rollback-Keeps x w.back p "installer failed" d1)

execute-Keeps :
    (x : Platform) (w : World) (p : PendingUpdate) (f : File) (d : Disk)
    → Keeps d (execute x w p f d).0
unfolding execute
execute-Keeps x w p f d = elim (Bool-cases w.installed) [
  | inl e ↦ rw (e) (Keeps-same d (record d { cache = w.prune d.cache }) refl)
  | inr e ↦ rw (e) (failed_install-Keeps x w p (record d { cache = w.prune d.cache }))
]

launch-Keeps :
    (x : Platform) (u : Updater) (w : World) (m : SetupManifest) (f : File) (d : Disk)
    → Keeps d (launch x u w m f d).0
unfolding launch
launch-Keeps x u w m f d = elim (Bool-cases w.pending_saved) [
  | inl e ↦ elim (Bool-cases w.watchdog_set) [
    | inl g ↦
        rw (e, g)
          (execute-Keeps x w (pending_of u w m) f (record d { pending = some (pending_of u w m) }))
    | inr g ↦ rw (e, g) (record_failure-Keeps m.version w.now (record d { pending = none }))
  ]
  | inr e ↦ rw (e) (Keeps-same d d refl)
]

bans-ensure_rollback_source :
    (x : Platform) (h : Hash) (u : Updater) (w : World) (d : Disk)
    → bans (ensure_rollback_source x h u w d).0 ≡ bans d
unfolding ensure_rollback_source fetch_own copy_to_cache
bans-ensure_rollback_source x h u w d = ground arith

bans-stash_rollback_source :
    (x : Platform) (u : Updater) (w : World) (d : Disk)
    → bans (stash_rollback_source x u w d) ≡ bans d
unfolding stash_rollback_source
bans-stash_rollback_source x u w d = ground arith

launch_checked-Keeps :
    (x : Platform) (h : Hash) (u : Updater) (w : World) (m : SetupManifest) (f : File) (d : Disk)
    → Keeps d (launch_checked x h u w m f d).0
unfolding launch_checked
launch_checked-Keeps x h u w m f d =
    let d1 = (ensure_rollback_source x h u w d).0 in
    let sourced = Keeps-same d d1 (bans-ensure_rollback_source x h u w d) in
    elim (Option-cases (ensure_rollback_source x h u w d).1) [
      | inl e ↦
          let d2 = stash_rollback_source x u w d1 in
          rw (launch_checked, e)
            (Keeps-trans d d2 (launch x u w m f d2).0
              (Keeps-same d d2
                (bans-stash_rollback_source x u w d1 ∙ bans-ensure_rollback_source x h u w d))
              (launch-Keeps x u w m f d2))
      | inr (problem, e) ↦
          rw (launch_checked, e)
            (Keeps-trans d d1 (record_failure m.version w.now d1) sourced
              (record_failure-Keeps m.version w.now d1))
    ]

-- What a wrong hash leaves.
mismatch-Keeps :
    (v : Text) (now : ℕ) (files : List File) (d : Disk)
    → Keeps d (
        record_failure v now (blacklist_version v "sha256 mismatch" (record d { staging = files })))
mismatch-Keeps v now files d =
    let d1 : Disk = record d { staging = files } in
    let d2 = blacklist_version v "sha256 mismatch" d1 in
    Keeps-trans d d2 (record_failure v now d2) (blacklist_version-Keeps v "sha256 mismatch" d1)
      (record_failure-Keeps v now d2)

pub apply_update-Keeps :
    (x : Platform) (h : Hash) (u : Updater) (w : World) (m : SetupManifest) (d : Disk)
    → Keeps d (apply_update x h u w m d).0
unfolding apply_update
apply_update-Keeps x h u w m d = elim (Option-cases w.download) [
  | inl e ↦ rw (apply_update, e) (record_failure-Keeps m.version w.now d)
  | inr (c, e) ↦
      let f = staged_file x u m.version c in
      elim (Bool-cases w.readable) [
        | inr g ↦ rw (apply_update, e, g) (record_failure-Keeps m.version w.now (stage f d))
        | inl g ↦ elim (Bool-cases (h.same (h.sum c) m.sha256)) [
          | inl same ↦ rw (apply_update, e, g, same) (launch_checked-Keeps x h u w m f (stage f d))
          | inr other ↦
              rw (apply_update, e, g, other)
                (mismatch-Keeps m.version w.now (remove_file f.name (stage f d).staging) d)
        ]
      ]
]
