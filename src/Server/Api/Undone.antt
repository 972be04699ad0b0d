-- ===== src/Server/Api/Undone.antt =====
-- src/server/internal/api: an error reply leaves the tables as they were, in the handlers that write
-- once or in a transaction.
pub mod Handlers
use xnc.Prelude.{◌≡◌, refl, ◌∙◌, String, Bool, true, false, Option, none, some, if◌then◌else◌}
use xnc.Server.Db.{AuditLog, Store, Result, done, unique, failed}
use xnc.Server.Db.Audit.{insert_audit_log}
use xnc.Server.Api.{
  Env, ApiError, Action, Outcome, go, halt, Written, wrote, violates, broken, pure, error, query,
  exec, or_error, error_if, written, written_unique, audit, atomically, rolled_back, settle, site,
  ◌>>=◌, ◌>>◌,
}
use xnc.Server.Api.Writes.{next}

abbrev IsGo : {A : Type 0} → Outcome A × Store → Type 0
IsGo (go a, d') = Unit
IsGo (halt r, d') = ⊥

abbrev pub Halted : {A : Type 0} → Outcome A × Store → Store → Type 0
Halted (go a, d') d = Unit
Halted (halt r, d') d = d' ≡ d

-- A part that changes nothing, one that never ends the handler, and one whose errors change nothing.
pub record Reads {A : Type 0} (m : Action A) : Type 0 where
  pub reads : (d : Store) → (m d).1 ≡ d

pub record Total {A : Type 0} (m : Action A) : Type 0 where
  pub total : (d : Store) → IsGo (m d)

pub record Undone {A : Type 0} (m : Action A) : Type 0 where
  pub undone : (d : Store) → Halted (m d) d

pub pure-Reads : {A : Type 0} (a : A) → Reads (pure a)
pure-Reads a = record { reads = λ d. refl }

pub error-Reads : {A : Type 0} (x : ApiError) → Reads {A = A} (error x)
error-Reads x = record { reads = λ d. refl }

pub query-Reads :
    {A : Type 0} (e : Env) (place : String) (q : Store → Option A) → Reads (query e place q)
query-Reads e place q = record { reads = λ d. refl }

pub or_error-Reads : {A : Type 0} (x : ApiError) (o : Option A) → Reads (or_error x o)
or_error-Reads x none = record { reads = λ d. refl }
or_error-Reads x (some a) = record { reads = λ d. refl }

pub error_if-Reads : (b : Bool) (x : ApiError) → Reads (error_if b x)
error_if-Reads true x = record { reads = λ d. refl }
error_if-Reads false x = record { reads = λ d. refl }

pub if-Reads :
    {A : Type 0} (b : Bool) {m k : Action A} → Reads m → Reads k → Reads (if b then m else k)
if-Reads true h g = h
if-Reads false h g = g

pub pure-Total : {A : Type 0} (a : A) → Total (pure a)
pure-Total a = record { total = λ d. tt }

module _ {A B : Type 0} where
  read-next :
      (o : Outcome A × Store) (f : A → Action B) (d : Store)
      → o.1 ≡ d
      → ((a : A) → Reads (f a))
      → (next o f).1 ≡ d
  read-next (go a, d') f d e k = (k a).reads d' ∙ e
  read-next (halt r, d') f d e k = e

  pub bind-Reads :
      {m : Action A} {f : A → Action B} → Reads m → ((a : A) → Reads (f a)) → Reads (m >>= f)
  bind-Reads {m} {f} h k = record { reads = λ d. read-next (m d) f d (h.reads d) k }

  undone-next :
      (o : Outcome A × Store) (f : A → Action B) (d : Store)
      → o.1 ≡ d
      → ((a : A) → Undone (f a))
      → Halted (next o f) d
  undone-next (go a, d') f d e k = rw e ((k a).undone d)
  undone-next (halt r, d') f d e k = e

  pub read-Undone :
      {m : Action A} {f : A → Action B} → Reads m → ((a : A) → Undone (f a)) → Undone (m >>= f)
  read-Undone {m} {f} h k = record { undone = λ d. undone-next (m d) f d (h.reads d) k }

  total-next :
      (o : Outcome A × Store) (f : A → Action B) (d : Store)
      → Halted o d
      → ((a : A) → Total (f a))
      → Halted (next o f) d
  total-next (halt r, d') f d e k = e
  total-next (go a, d') f d e k = went (f a d') ((k a).total d')
    where
      went : (o : Outcome B × Store) → IsGo o → Halted o d
      went (go b, d'') h = tt
      went (halt r, d'') h = absurd h

  pub Total-Undone :
      {m : Action A} {f : A → Action B} → Undone m → ((a : A) → Total (f a)) → Undone (m >>= f)
  Total-Undone {m} {f} h k = record { undone = λ d. total-next (m d) f d (h.undone d) k }

  go-next :
      (o : Outcome A × Store) (f : A → Action B)
      → IsGo o
      → ((a : A) → Total (f a))
      → IsGo (next o f)
  go-next (go a, d') f h k = (k a).total d'
  go-next (halt r, d') f h k = absurd h

  pub bind-Total :
      {m : Action A} {f : A → Action B} → Total m → ((a : A) → Total (f a)) → Total (m >>= f)
  bind-Total {m} {f} h k = record { total = λ d. go-next (m d) f (h.total d) k }

module _ {A : Type 0} where
  back : (o : Outcome A × Store) (d : Store) → Halted (rolled_back o d) d
  back (go a, d') d = tt
  back (halt r, d') d = refl

  pub atomically-Undone : (m : Action A) → Undone (atomically m)
  atomically-Undone m = record { undone = λ d. back (m d) d }

  settled : (b : Bool) (r : Result A) (d : Store) → IsGo (if b then (go broken, d) else settle r d)
  settled true r d = tt
  settled false (done a d') d = tt
  settled false (unique c) d = tt
  settled false failed d = tt

  pub exec-Total : (e : Env) (place : String) (w : Store → Result A) → Total (exec e place w)
  exec-Total e place w = record { total = λ d. settled (e.fails (site place 0)) (w d) d }

went_on : {B : Type 0} (o : Outcome B × Store) (d : Store) → IsGo o → Halted o d
went_on (go b, d') d h = tt
went_on (halt r, d') d h = absurd h

module _ {A B : Type 0} where
  write_unique :
      (x y : ApiError) (k : A → Action B) (b : Bool) (r : Result A) (d : Store)
      → ((a : A) → Total (k a))
      → Halted (next (if b then (go broken, d) else settle r d) (λ v. written_unique x y v >>= k)) d
  write_unique x y k true r d h = refl
  write_unique x y k false (done a d') d h = went_on (k a d') d ((h a).total d')
  write_unique x y k false (unique c) d h = refl
  write_unique x y k false failed d h = refl

  write :
      (x : ApiError) (k : A → Action B) (b : Bool) (r : Result A) (d : Store)
      → ((a : A) → Total (k a))
      → Halted (next (if b then (go broken, d) else settle r d) (λ v. written x v >>= k)) d
  write x k true r d h = refl
  write x k false (done a d') d h = went_on (k a d') d ((h a).total d')
  write x k false (unique c) d h = refl
  write x k false failed d h = refl

  -- A single statement, the errors for what went wrong with it, and what cannot fail.
  pub write_unique-Undone :
      (e : Env) (place : String) (w : Store → Result A) (x y : ApiError) (k : A → Action B)
      → ((a : A) → Total (k a))
      → Undone (exec e place w >>= λ v. written_unique x y v >>= k)
  write_unique-Undone e place w x y k h = record {
    undone = λ d. write_unique x y k (e.fails (site place 0)) (w d) d h;
  }

  pub write-Undone :
      (e : Env) (place : String) (w : Store → Result A) (x : ApiError) (k : A → Action B)
      → ((a : A) → Total (k a))
      → Undone (exec e place w >>= λ v. written x v >>= k)
  write-Undone e place w x k h = record {
    undone = λ d. write x k (e.fails (site place 0)) (w d) d h;
  }

pub audit-Total : (e : Env) (a : AuditLog) → Total (audit e a)
audit-Total e a = bind-Total (exec-Total e "audit" (insert_audit_log a)) λ w. pure-Total tt

-- The rules that take a handler apart.
pub ruleset undoing = (
  read-Undone, Total-Undone, atomically-Undone, write_unique-Undone, write-Undone, bind-Reads,
  pure-Reads, error-Reads, query-Reads, or_error-Reads, error_if-Reads, if-Reads, bind-Total,
  pure-Total, audit-Total,
)
