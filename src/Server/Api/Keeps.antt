-- ===== src/Server/Api/Keeps.antt =====
-- src/server/internal/api: a part of a handler that keeps a property of the tables.
use xnc.Prelude.{String, Bool, true, false, Option, none, some}
use xnc.Server.Db.{Store, Result}
use xnc.Server.Api.{
  Env, ApiError, Action, Written, wrote, violates, broken, pure, error, query, exec, or_error,
  error_if, written, ◌>>=◌,
}
use xnc.Server.Api.Writes.{after, next-keeps, exec-keeps}

pub record Keeps (P : Store → Type 0) {A : Type 0} (m : Action A) : Type 0 where
  pub keeps : (d : Store) → P d → P (m d).1

module _ {P : Store → Type 0} where
  pub bind-Keeps :
      {A B : Type 0} {m : Action A} {f : A → Action B}
      → Keeps P m
      → ((a : A) → Keeps P (f a))
      → Keeps P (m >>= f)
  bind-Keeps {m} {f} h k = record {
    keeps = λ d p. next-keeps P (m d) f (h.keeps d p) (λ a d' p'. (k a).keeps d' p');
  }

  pub pure-Keeps : {A : Type 0} (a : A) → Keeps P (pure a)
  pure-Keeps a = record { keeps = λ d p. p }

  pub error-Keeps : {A : Type 0} (x : ApiError) → Keeps P {A = A} (error x)
  error-Keeps x = record { keeps = λ d p. p }

  pub query-Keeps :
      {A : Type 0} (e : Env) (place : String) (q : Store → Option A) → Keeps P (query e place q)
  query-Keeps e place q = record { keeps = λ d p. p }

  pub or_error-Keeps : {A : Type 0} (x : ApiError) (o : Option A) → Keeps P (or_error x o)
  or_error-Keeps x none = record { keeps = λ d p. p }
  or_error-Keeps x (some a) = record { keeps = λ d p. p }

  pub error_if-Keeps : (b : Bool) (x : ApiError) → Keeps P (error_if b x)
  error_if-Keeps true x = record { keeps = λ d p. p }
  error_if-Keeps false x = record { keeps = λ d p. p }

  pub written-Keeps : {A : Type 0} (x : ApiError) (w : Written A) → Keeps P (written x w)
  written-Keeps x (wrote a) = record { keeps = λ d p. p }
  written-Keeps x (violates c) = record { keeps = λ d p. p }
  written-Keeps x broken = record { keeps = λ d p. p }

  pub exec-Keeps :
      {A : Type 0} (e : Env) (place : String) (w : Store → Result A)
      → ((d : Store) → P d → P (after (w d) d))
      → Keeps P (exec e place w)
  exec-Keeps e place w h = record { keeps = λ d p. exec-keeps P e place w d p (h d p) }

-- The rules that take a handler apart.
pub ruleset keeping = (
  bind-Keeps, pure-Keeps, error-Keeps, query-Keeps, or_error-Keeps, error_if-Keeps, written-Keeps,
  exec-Keeps,
)
