-- ===== src/Agent/Updater/Operations.antt =====
-- src/agent/updater/updater.go: the operations of an agent on its state directory, in any order.
use xnc.Prelude.{
  ltb, ◌+◌, ℕ, ◌≡◌, ◌⊎◌, refl, inl, inr, String, Bool, not, ◌&&◌, Option, none, some, List, [], ◌∷◌,
  Option-cases, Bool-cases, arith,
}
use xnc.Agent.Updater.Disk.{
  load_pending, same_text, SetupManifest, PendingUpdate, Disk, Platform, Updater, audit,
  consume_audit_marker, copy_to_cache,
}
use xnc.Agent.Updater.Throttle.{clear_throttle}
use xnc.Agent.Updater.Rollback.{Answers, rollback}
use xnc.Agent.Updater.Apply.{has_pending, Hash, World, may_update, orchestrate_trigger, check}
use xnc.Agent.Updater.SelfCheck.{
  pending_max_age, Polled, healthy, unhealthy, stopped, finalize, after_poll, startup_pending_check,
}
use xnc.Agent.Updater.Blacklist.{
  bans, Keeps, Keeps-same, Keeps-trans, rollback-Keeps, apply_update-Keeps,
}

orchestrate_trigger-Keeps :
    (x : Platform) (h : Hash) (u : Updater) (busy force : Bool) (w : World) (m : SetupManifest)
    (d : Disk)
    → Keeps d (orchestrate_trigger x h u busy force w m d).0
unfolding orchestrate_trigger
orchestrate_trigger-Keeps x h u busy force w m d =
    elim (Bool-cases (may_update x u busy force w.now m d)) [
      | inl e ↦ rw (orchestrate_trigger, e) (apply_update-Keeps x h u w m d)
      | inr e ↦ rw (orchestrate_trigger, e) (Keeps-same d d refl)
    ]

check-cases :
    (x : Platform) (h : Hash) (u : Updater) (busy force : Bool) (latest : Option SetupManifest)
    (w : World) (d : Disk)
    → ((check x h u busy force latest w d).0 ≡ d)
      ⊎ ((m : SetupManifest) × ((check x h u busy force latest w d).0
            ≡ (orchestrate_trigger x h u busy force w m d).0))
unfolding check
check-cases x h u busy force none w d = inl (ground arith)
check-cases x h u busy force (some m) w d = elim (Bool-cases (has_pending d)) [
  | inl e ↦ inl (ground arith)
  | inr e ↦ inr (m, ground arith)
]

check-Keeps :
    (x : Platform) (h : Hash) (u : Updater) (busy force : Bool) (latest : Option SetupManifest)
    (w : World) (d : Disk)
    → Keeps d (check x h u busy force latest w d).0
check-Keeps x h u busy force latest w d = elim (check-cases x h u busy force latest w d) [
  | inl e ↦ rw (e) (Keeps-same d d refl)
  | inr (m, e) ↦ rw (e) (orchestrate_trigger-Keeps x h u busy force w m d)
]

bans-finalize :
    (x : Platform) (copied : Bool) (a : Answers) (p : PendingUpdate) (d : Disk)
    → bans (finalize x copied a p d).0 ≡ bans d
unfolding finalize copy_to_cache clear_throttle audit
bans-finalize x copied a p d = ground arith

after_poll-Keeps :
    (x : Platform) (copied : Bool) (a : Answers) (p : PendingUpdate) (d : Disk) (q : Polled)
    → Keeps d (after_poll x copied a p d q).0
unfolding after_poll
after_poll-Keeps x copied a p d healthy =
    Keeps-same d (finalize x copied a p d).0 (bans-finalize x copied a p d)
after_poll-Keeps x copied a p d unhealthy = rollback-Keeps x a p "self-check: services unhealthy" d
after_poll-Keeps x copied a p d stopped = Keeps-same d d refl

startup_pending_check-cases :
    (x : Platform) (u : Updater) (a : Answers) (now : ℕ) (d : Disk)
    → ((startup_pending_check x u a now d).0 ≡ d)
      ⊎ ((p : PendingUpdate) × (r : String) × ((startup_pending_check x u a now d).0
            ≡ (rollback x a p r d).0))
unfolding startup_pending_check
startup_pending_check-cases x u a now d = elim (Option-cases (load_pending d)) [
  | inl e ↦ inl (ground arith)
  | inr (p, e) ↦ elim (Bool-cases (ltb (p.started_at + pending_max_age) now)) [
    | inl old ↦ inr (p, "pending expired >24h", ground arith)
    | inr young ↦
        elim (Bool-cases
          (not (same_text p.to u.own_version) && not (same_text p.from u.own_version))) [
            | inl other ↦ inr (p, "version mismatch", ground arith)
            | inr own ↦ inl (ground arith)
          ]
  ]
]

startup_pending_check-Keeps :
    (x : Platform) (u : Updater) (a : Answers) (now : ℕ) (d : Disk)
    → Keeps d (startup_pending_check x u a now d).0
startup_pending_check-Keeps x u a now d = elim (startup_pending_check-cases x u a now d) [
  | inl e ↦ rw (e) (Keeps-same d d refl)
  | inr (p, r, e) ↦ rw (e) (rollback-Keeps x a p r d)
]

-- What an agent does with its state directory over its life.
pub data Operation : Type 0 where
  -- HandlePush, and a trigger within a check.
  triggers : (busy force : Bool) → World → SetupManifest → Operation
  checks : (busy force : Bool) → Option SetupManifest → World → Operation
  polls : (copied : Bool) → Answers → PendingUpdate → Polled → Operation
  starts : Answers → (now : ℕ) → Operation
  reports : Operation

unfoldable pub step : Platform → Hash → Updater → Operation → Disk → Disk
step x h u (triggers busy force w m) d = (orchestrate_trigger x h u busy force w m d).0
step x h u (checks busy force latest w) d = (check x h u busy force latest w d).0
step x h u (polls copied a p q) d = (after_poll x copied a p d q).0
step x h u (starts a now) d = (startup_pending_check x u a now d).0
step x h u reports d = (consume_audit_marker d).0

-- The operations in order, by agents of any versions.
unfoldable pub life : Platform → Hash → List (Updater × Operation) → Disk → Disk
unfolding step
life x h [] d = d
life x h ((u, o) ∷ os) d = life x h os (step x h u o d)

bans-consume_audit_marker : (d : Disk) → bans (consume_audit_marker d).0 ≡ bans d
unfolding consume_audit_marker
bans-consume_audit_marker d = ground arith

step-Keeps :
    (x : Platform) (h : Hash) (u : Updater) (o : Operation) (d : Disk) → Keeps d (step x h u o d)
unfolding step
step-Keeps x h u (triggers busy force w m) d = orchestrate_trigger-Keeps x h u busy force w m d
step-Keeps x h u (checks busy force latest w) d = check-Keeps x h u busy force latest w d
step-Keeps x h u (polls copied a p q) d = after_poll-Keeps x copied a p d q
step-Keeps x h u (starts a now) d = startup_pending_check-Keeps x u a now d
step-Keeps x h u reports d = Keeps-same d (consume_audit_marker d).0 (bans-consume_audit_marker d)

pub life-Keeps :
    (x : Platform) (h : Hash) (os : List (Updater × Operation)) (d : Disk) → Keeps d (life x h os d)
unfolding life
life-Keeps x h [] d = Keeps-same d d refl
life-Keeps x h ((u, o) ∷ os) d =
    Keeps-trans d (step x h u o d) (life x h os (step x h u o d)) (step-Keeps x h u o d)
      (life-Keeps x h os (step x h u o d))
