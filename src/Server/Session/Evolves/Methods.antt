-- ===== src/Server/Session/Evolves/Methods.antt =====
-- Each method of src/server/internal/session/manager.go but `Create` lets the table evolve.
use xnc.Prelude.{
  not, ◌&&◌, if◌then◌else◌, ℕ, ◌≡◌, ◌⊎◌, refl, String, true, false, none, some, List, [], ◌∷◌,
  Option-cases, Bool-cases, inl, inr, arith,
}
use xnc.Prelude.Map.{lookup, delete, lookup-insert}
use xnc.Server.Session.{Session, Manager, set_session, desktop, is_kind}
use xnc.Server.Session.Attach.{
  Side, agent, client, unknown, attach, attach_id, attach_to, with_ws, glue, attach_client_rtv,
  glue_rtv, touch_activity, mark_relay_routed, session_by_agent_token, session_by_client_token,
}
use xnc.Server.Session.Close.{close, notify_close, expire, set_finish_fn, set_notify_fn, shut}
use xnc.Server.Session.Control.{take_desktop_control, release_desktop_control}
use xnc.Server.Session.Sweep.{close_all, sweep, sweep_leases, expirations}
use xnc.Server.Session.Table.{IsKeyed, insert-IsKeyed, session_by_client_token-lookup}
use xnc.Server.Session.Evolves.{
  SameSession, Evolves, same, remove, chain, Outcome, of_outcome, replace-Evolves,
}

with_ws-SameSession :
    (side : Side) (ws : ℕ) (s : Session) → SameSession s (glue (with_ws side ws s))
with_ws-SameSession agent ws s = ground arith
with_ws-SameSession client ws s = ground arith
with_ws-SameSession (unknown x) ws s = ground arith

attach_to-Outcome :
    (m : Manager) (side : Side) (token : String) (ws now : ℕ) (s : Session)
    → Outcome m.sessions (glue (with_ws side ws s)) (attach_to m side token ws now s).0.sessions
unfolding attach_to
attach_to-Outcome m side token ws now s = ground arith

pub attach_id-Evolves :
    (m : Manager) (side : Side) (id token : String) (ws now : ℕ)
    → IsKeyed m.sessions
    → Evolves m.sessions (attach_id m side id token ws now).0.sessions
attach_id-Evolves m side id token ws now w = elim (Option-cases (lookup id m.sessions)) [
  | inl e ↦ unfold attach_id in rw (e, attach_id) (same refl)
  | inr (s, e) ↦
      of_outcome m.sessions _ id s (glue (with_ws side ws s)) w e (with_ws-SameSession side ws s)
        (unfold attach_id in rw (e, attach_id) (attach_to-Outcome m side token ws now s))
]

attach-as_id :
    (m : Manager) (side : Side) (id token : String) (ws now : ℕ)
    → let after = (attach m side id token ws now).0 in
      (after ≡ m)
      ⊎ (after ≡ (attach_id m side (session_by_agent_token m.sessions token) token ws now).0)
      ⊎ (after ≡ (attach_id m side id token ws now).0)
unfolding attach
attach-as_id m side id token ws now = ground arith

pub attach-Evolves :
    (m : Manager) (side : Side) (id token : String) (ws now : ℕ)
    → IsKeyed m.sessions
    → Evolves m.sessions (attach m side id token ws now).0.sessions
attach-Evolves m side id token ws now w = elim (attach-as_id m side id token ws now) [
  | inl e ↦ rw e (same refl)
  | inr (inl e) ↦ rw e (attach_id-Evolves m side _ token ws now w)
  | inr (inr e) ↦ rw e (attach_id-Evolves m side id token ws now w)
]

attach_client_rtv-found :
    (m : Manager) (token : String) (now : ℕ) (s : Session)
    → session_by_client_token m.sessions token ≡ some s
    → Outcome m.sessions (glue_rtv now s) (attach_client_rtv m token now).0.sessions
unfolding attach_client_rtv
attach_client_rtv-found m token now s e = ground arith

glue_rtv-SameSession : (now : ℕ) (s : Session) → SameSession s (glue_rtv now s)
glue_rtv-SameSession now s = ground arith

attach_client_rtv-absent :
    (m : Manager) (token : String) (now : ℕ)
    → session_by_client_token m.sessions token ≡ none
    → (attach_client_rtv m token now).0 ≡ m
unfolding attach_client_rtv
attach_client_rtv-absent m token now e = ground arith

pub attach_client_rtv-Evolves :
    (m : Manager) (token : String) (now : ℕ)
    → IsKeyed m.sessions
    → Evolves m.sessions (attach_client_rtv m token now).0.sessions
attach_client_rtv-Evolves m token now w =
    elim (Option-cases (session_by_client_token m.sessions token)) [
      | inl e ↦ rw (attach_client_rtv-absent m token now e) (same refl)
      | inr (s, e) ↦
          of_outcome m.sessions _ s.id s (glue_rtv now s) w
            (session_by_client_token-lookup m.sessions token s w e) (glue_rtv-SameSession now s)
            (attach_client_rtv-found m token now s e)
    ]

abbrev touched : ℕ → Session → Session
touched now s =
    if not s.glued && is_kind s.kind desktop
    then record s { glued = true; last_activity = now }
    else record s { last_activity = now }

pub touch_activity-Evolves :
    (m : Manager) (id : String) (now : ℕ)
    → IsKeyed m.sessions
    → Evolves m.sessions (touch_activity m id now).sessions
unfolding touch_activity
touch_activity-Evolves m id now w =
    replace-Evolves id (touched now) m.sessions _ (λ s. ground arith) w (ground arith)

pub mark_relay_routed-Evolves :
    (m : Manager) (id : String)
    → IsKeyed m.sessions
    → Evolves m.sessions (mark_relay_routed m id).sessions
unfolding mark_relay_routed
mark_relay_routed-Evolves m id w =
    replace-Evolves id (λ s. record s { relay_routed = true; glued = true; ttl_armed = false })
      m.sessions _ (λ s. (refl, refl, refl)) w (ground arith)

pub set_finish_fn-Evolves :
    (m : Manager) (id : String)
    → IsKeyed m.sessions
    → Evolves m.sessions (set_finish_fn m id).sessions
unfolding set_finish_fn
set_finish_fn-Evolves m id w =
    replace-Evolves id (λ s. record s { has_finish = true }) m.sessions _ (λ s. (refl, refl, refl))
      w (ground arith)

pub set_notify_fn-Evolves :
    (m : Manager) (id : String)
    → IsKeyed m.sessions
    → Evolves m.sessions (set_notify_fn m id).sessions
unfolding set_notify_fn
set_notify_fn-Evolves m id w =
    replace-Evolves id (λ s. record s { has_notify = true }) m.sessions _ (λ s. (refl, refl, refl))
      w (ground arith)

notify_close-sessions :
    (m : Manager) (id reason : String)
    → ((notify_close m id reason).0.sessions ≡ m.sessions)
      ⊎ ((s : Session) × (lookup id m.sessions ≡ some s)
          × ((notify_close m id reason).0.sessions ≡ delete s.id m.sessions))
notify_close-sessions m id reason = elim (Option-cases (lookup id m.sessions)) [
  | inl e ↦ inl (unfold notify_close in ground arith)
  | inr (s, e) ↦ elim (Bool-cases s.closed) [
    | inl done ↦ inl (unfold notify_close in ground arith)
    | inr open_yet ↦ inr (s, e, unfold notify_close in ground arith)
  ]
]

pub notify_close-Evolves :
    (m : Manager) (id reason : String) → Evolves m.sessions (notify_close m id reason).0.sessions
notify_close-Evolves m id reason = elim (notify_close-sessions m id reason) [
  | inl e ↦ same e
  | inr (s, _, e) ↦ remove s.id e
]

close_all-Evolves :
    (m : Manager) (es : List (String × String)) → Evolves m.sessions (close_all m es).0.sessions
unfolding close_all
close_all-Evolves m [] = same refl
close_all-Evolves m ((id, reason) ∷ es) =
    chain (notify_close-Evolves m id reason) (close_all-Evolves (notify_close m id reason).0 es)

pub sweep-Evolves : (m : Manager) (now : ℕ) → Evolves m.sessions (sweep m now).0.sessions
unfolding sweep
sweep-Evolves m now =
    close_all-Evolves (record m { desktop_leases = sweep_leases m now m.desktop_leases })
      (expirations now m.sessions)

close_kept-Outcome :
    (m : Manager) (s : Session) (reason : String)
    → Outcome m.sessions (shut s) (close m s reason false).0.sessions
unfolding close
close_kept-Outcome m s reason = ground arith

expire-absent :
    (m : Manager) (id : String) (now : ℕ)
    → lookup id m.sessions ≡ none
    → (expire m id now).0.sessions ≡ m.sessions
unfolding expire
expire-absent m id now e = ground arith

expire-as_close :
    (m : Manager) (id : String) (now : ℕ) (s : Session)
    → lookup id m.sessions ≡ some s
    → let s' = record s { expires_at = now } in
      ((expire m id now).0 ≡ m)
      ⊎ ((expire m id now).0 ≡ (close (set_session m s') s' "opening-timeout" false).0)
unfolding expire
expire-as_close m id now s e = ground arith

pub expire-Evolves :
    (m : Manager) (id : String) (now : ℕ)
    → IsKeyed m.sessions
    → Evolves m.sessions (expire m id now).0.sessions
expire-Evolves m id now w = elim (Option-cases (lookup id m.sessions)) [
  | inl e ↦ same (expire-absent m id now e)
  | inr (s, e) ↦
      let s' : Session = record s { expires_at = now } in
      elim (expire-as_close m id now s e) [
        | inl eq ↦ rw eq (same refl)
        | inr eq ↦
            let first : Evolves m.sessions (set_session m s').sessions =
              of_outcome m.sessions _ id s s' w e (refl, refl, refl) (inr refl) in
            let found : lookup s'.id (set_session m s').sessions ≡ some s' =
              ground (arith, lookup-insert s'.id s'.id s' m.sessions) in
            rw eq (
              chain first (
                of_outcome (set_session m s').sessions _ s'.id s' (shut s')
                  (insert-IsKeyed m.sessions s' w) found (refl, refl, refl)
                  (close_kept-Outcome (set_session m s') s' "opening-timeout")))
      ]
]

pub lease_methods-sessions :
    (m : Manager) (node session lease_id : String) (now : ℕ)
    → ((take_desktop_control m node session lease_id now).0.sessions ≡ m.sessions)
      × ((release_desktop_control m node session).sessions ≡ m.sessions)
unfolding take_desktop_control release_desktop_control
lease_methods-sessions m node session lease_id now = (ground arith, ground arith)
