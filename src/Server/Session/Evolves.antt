-- ===== src/Server/Session/Evolves.antt =====
-- How the methods of src/server/internal/session/manager.go other than `Create` change the table:
-- they update a session and keep its node and kind, or they remove one.
pub mod Methods
use xnc.Prelude.{
  not, ◌&&◌, if◌then◌else◌, ℕ, ◌+◌, ◌≤◌, ◌≡◌, ◌⊎◌, refl, ap, sym, ◌∙◌, String, Bool, true, false,
  Option, none, some, List, [], ◌∷◌, Option-cases, Bool-cases, inl, inr, arith,
}
use xnc.Prelude.Map.{Map, lookup, insert, delete, lookup-insert}
use xnc.Server.Session.{Session, Manager, set_session, desktop, is_kind}
use xnc.Server.Session.Attach.{
  Side, agent, client, unknown, attach, attach_id, attach_to, with_ws, glue, attach_client_rtv,
  glue_rtv, touch_activity, mark_relay_routed, session_by_agent_token, session_by_client_token,
}
use xnc.Server.Session.Close.{
  close, notify_close, expire, reclaim, set_finish_fn, set_notify_fn, shut,
}
use xnc.Server.Session.Control.{take_desktop_control, release_desktop_control}
use xnc.Server.Session.Sweep.{close_all, sweep, sweep_leases, expirations}
use xnc.Server.Session.Table.{
  IsKeyed, lookup-id, insert-IsKeyed, delete-IsKeyed, session_by_client_token-lookup,
}

-- The same session in a later state.
abbrev pub SameSession : Session → Session → Type 0
SameSession old s = (s.id ≡ old.id) × (s.node_id ≡ old.node_id) × (s.kind ≡ old.kind)

pub data Evolves : Map String Session → Map String Session → Type 0 where
  same : {m n : Map String Session} → n ≡ m → Evolves m n
  update :
      {m n : Map String Session} (old s : Session)
      → lookup s.id m ≡ some old
      → SameSession old s
      → n ≡ insert s.id s m
      → Evolves m n
  remove : {m n : Map String Session} (k : String) → n ≡ delete k m → Evolves m n
  chain : {m n o : Map String Session} → Evolves m o → Evolves o n → Evolves m n

-- The table is as it was, or a session that was found under `k` is replaced by its state `s`.
abbrev pub Outcome : Map String Session → Session → Map String Session → Type 0
Outcome m s n = (n ≡ m) ⊎ (n ≡ insert s.id s m)

pub of_outcome :
    (m n : Map String Session) (k : String) (old s : Session)
    → IsKeyed m
    → lookup k m ≡ some old
    → SameSession old s
    → Outcome m s n
    → Evolves m n
of_outcome m n k old s w e v (inl eq) = same eq
of_outcome m n k old s w e v (inr eq) =
    let here : s.id ≡ k = v.0 ∙ lookup-id m k old w e in
    update old s (ap (λ j. lookup j m) here ∙ e) v eq

-- The table after the session under `k`, if there is one, is replaced.
abbrev pub replace : String → (Session → Session) → Map String Session → Map String Session
replace k f m = elim (lookup k m) [ none ↦ m | some s ↦ insert (f s).id (f s) m ]

pub replace-Evolves :
    (k : String) (f : Session → Session) (m n : Map String Session)
    → ((s : Session) → SameSession s (f s))
    → IsKeyed m
    → n ≡ replace k f m
    → Evolves m n
replace-Evolves k f m n v w eq = elim (Option-cases (lookup k m)) [
  | inl e ↦ same (ground arith)
  | inr (s, e) ↦ of_outcome m n k s (f s) w e (v s) (inr (ground arith))
]
