-- ===== src/Server/Session/Limits/Calls.antt =====
-- src/server/internal/session/manager.go: each call keeps the limits of the nodes.
use xnc.Prelude.{
  ℕ, ◌+◌, ◌≤◌, ◌≡◌, refl, sym, ap, ◌∙◌, ◌⊎◌, inl, inr, String, Bool, true, false, ◌&&◌, [], ◌∷◌,
  List, ltb, leb, ite, String_discrete, Bool-cases, arith,
}
use xnc.Prelude.Map.{Map, insert}
use xnc.Server.Session.{
  Session, Manager, Kind, shell, desktop, is_kind, matches, count_where, count_by_node,
}
use xnc.Server.Session.Create.{Fresh, create, admit, governed, base_session, over_limit}
use xnc.Server.Session.Table.{insert-IsKeyed}
use xnc.Server.Session.Evolves.{SameSession, Evolves, same, remove}
use xnc.Server.Session.Evolves.Methods.{
  attach-Evolves, attach_client_rtv-Evolves, touch_activity-Evolves, mark_relay_routed-Evolves,
  set_finish_fn-Evolves, set_notify_fn-Evolves, notify_close-Evolves, sweep-Evolves, expire-Evolves,
  lease_methods-sessions,
}
use xnc.Server.Session.Close.{reclaim}
use xnc.Server.Session.Run.{
  Call, creates, attaches, attaches_rtv, touches, marks, takes, releases, closes, expires, reclaims,
  sets_finish, sets_notify, sweeps, step, run, limits, step-limits,
}
use xnc.Server.Session.Limits.{
  one_if, count-insert, Evolves-count, Evolves-IsKeyed, Within, WithinLimits,
}

matches_same :
    (node : String) (kind : Kind) (old s : Session)
    → SameSession old s
    → matches node kind old ≡ matches node kind s
matches_same node kind old s h =
    λ i. ite (String_discrete (sym h.1 i) node) (is_kind (sym h.2 i) kind) false

Within-le : {l l' n n' : ℕ} → l' ≡ l → n' ≤ n → Within l n → Within l' n'
Within-le e le (inl z) = inl (e ∙ z)
Within-le e le (inr b) = inr (omega arith)

Evolves-WithinLimits :
    (m n : Manager)
    → Evolves m.sessions n.sessions
    → limits n ≡ limits m
    → WithinLimits m
    → WithinLimits n
Evolves-WithinLimits m n e same_limits w = record {
  keyed = Evolves-IsKeyed w.keyed e;
  shells = λ node.
      Within-le (ap (λ p. p.0) same_limits) (Evolves-count _ (matches_same node shell) e)
        (w.shells node);
  desktops = λ node.
      Within-le (ap (λ p. p.1) same_limits) (Evolves-count _ (matches_same node desktop) e)
        (w.desktops node);
}

-- An insert adds one at most, and nothing to a count that does not match the session.
count-insert-le :
    (p : Session → Bool) (m : Map String Session) (k : String) (v : Session)
    → count_where p (insert k v m) ≤ one_if (p v) + count_where p m
count-insert-le p m k v = ground (arith, count-insert p m k v)

admit-sessions :
    (m : Manager) (f : Fresh) (s : Session) (now : ℕ)
    → (admit m f s now).0.sessions ≡ insert s.id s m.sessions
unfolding admit
admit-sessions m f s now = ground arith

-- A room test that is passed leaves room for one more.
room : (limit n : ℕ) → Within limit n → (ltb 0 limit && leb limit n) ≡ false → Within limit (1 + n)
room limit n w h = ground arith

admitted_count :
    (p : Session → Bool) (m : Map String Session) (s : Session) (limit : ℕ)
    → Within limit (count_where p m)
    → (p s ≡ true → (ltb 0 limit && leb limit (count_where p m)) ≡ false)
    → Within limit (count_where p (insert s.id s m))
admitted_count p m s limit w free = elim (Bool-cases (p s)) [
  | inl yes_p ↦
      Within-le refl (ground (arith, count-insert-le p m s.id s))
        (room limit (count_where p m) w (free yes_p))
  | inr no_p ↦ Within-le refl (ground (arith, count-insert-le p m s.id s)) w
]

shell_room :
    (m : Manager) (node node' : String) (kind : Kind)
    → over_limit m node kind ≡ false
    → ite (String_discrete node node') (is_kind kind shell) false ≡ true
    → (ltb 0 m.shell_per_node && leb m.shell_per_node (count_by_node m.sessions node' shell))
      ≡ false
shell_room m node node' shell free hit = elim (String_discrete node node') [
  | yes e ↦ rw (← e) free
  | no n ↦ ground arith
]
shell_room m node node' _ free hit = ground arith

desktop_room :
    (m : Manager) (node node' : String) (kind : Kind)
    → over_limit m node kind ≡ false
    → ite (String_discrete node node') (is_kind kind desktop) false ≡ true
    → (ltb 0 m.desktop_per_node && leb m.desktop_per_node (count_by_node m.sessions node' desktop))
      ≡ false
desktop_room m node node' desktop free hit = elim (String_discrete node node') [
  | yes e ↦ rw (← e) free
  | no n ↦ ground arith
]
desktop_room m node node' _ free hit = ground arith

governed_fields :
    (m : Manager) (kind : Kind) (now : ℕ) (s : Session)
    → ((governed m kind now s).node_id ≡ s.node_id) × ((governed m kind now s).kind ≡ s.kind)
governed_fields m shell now s = (refl, refl)
governed_fields m _ now s = (refl, refl)

create-cases :
    (m : Manager) (online : Bool) (f : Fresh) (node user : String) (kind : Kind) (params : String)
    (now : ℕ)
    → ((create m online f node user kind params now).0 ≡ m)
      ⊎ ((over_limit m node kind ≡ false)
          × ((create m online f node user kind params now).0
              ≡ (admit m f (governed m kind now (base_session f node user kind params now)) now).0))
unfolding create
create-cases m false f node user kind params now = inl refl
create-cases m true f node user kind params now = elim (Bool-cases (over_limit m node kind)) [
  | inl full ↦ inl (rw full refl)
  | inr free ↦ inr (free, rw free refl)
]

admit-WithinLimits :
    (m : Manager) (f : Fresh) (s : Session) (now : ℕ)
    → over_limit m s.node_id s.kind ≡ false
    → WithinLimits m
    → limits (admit m f s now).0 ≡ limits m
    → WithinLimits (admit m f s now).0
admit-WithinLimits m f s now free w same_limits = record {
  keyed = rw (admit-sessions m f s now) (insert-IsKeyed m.sessions s w.keyed);
  shells = λ node. rw (admit-sessions m f s now) (
      Within-le (ap (λ p. p.0) same_limits) (omega arith) (
        admitted_count _ m.sessions s _ (w.shells node) (shell_room m s.node_id node s.kind free)));
  desktops = λ node. rw (admit-sessions m f s now) (
      Within-le (ap (λ p. p.1) same_limits) (omega arith) (
        admitted_count _ m.sessions s _ (w.desktops node)
          (desktop_room m s.node_id node s.kind free)));
}

admit-limits :
    (m : Manager) (f : Fresh) (s : Session) (now : ℕ) → limits (admit m f s now).0 ≡ limits m
unfolding admit
admit-limits m f s now = ground arith

create-WithinLimits :
    (m : Manager) (online : Bool) (f : Fresh) (node user : String) (kind : Kind) (params : String)
    (now : ℕ)
    → WithinLimits m
    → WithinLimits (create m online f node user kind params now).0
create-WithinLimits m online f node user kind params now w =
    let s : Session = governed m kind now (base_session f node user kind params now) in
    let (en, ek) = governed_fields m kind now (base_session f node user kind params now) in
    elim (create-cases m online f node user kind params now) [
      | inl e ↦ rw e w
      | inr (free, e) ↦ rw e (
          admit-WithinLimits m f s now ((λ i. over_limit m (en i) (ek i)) ∙ free) w
            (admit-limits m f s now))
    ]

kept :
    (m : Manager) (c : Call)
    → WithinLimits m
    → Evolves m.sessions (step m c).sessions
    → WithinLimits (step m c)
kept m c w e = Evolves-WithinLimits m (step m c) e (step-limits m c) w

-- Every call of a method keeps the table keyed and every node within its limits.
step-WithinLimits : (m : Manager) (c : Call) → WithinLimits m → WithinLimits (step m c)
unfolding step reclaim
step-WithinLimits m (creates online f node user kind params now) w =
    create-WithinLimits m online f node user kind params now w
step-WithinLimits m (attaches side id token ws now) w =
    kept m (attaches side id token ws now) w (attach-Evolves m side id token ws now w.keyed)
step-WithinLimits m (attaches_rtv token now) w =
    kept m (attaches_rtv token now) w (attach_client_rtv-Evolves m token now w.keyed)
step-WithinLimits m (touches id now) w =
    kept m (touches id now) w (touch_activity-Evolves m id now w.keyed)
step-WithinLimits m (marks id) w = kept m (marks id) w (mark_relay_routed-Evolves m id w.keyed)
step-WithinLimits m (takes node session lease_id now) w =
    kept m (takes node session lease_id now) w
      (same (lease_methods-sessions m node session lease_id now).0)
step-WithinLimits m (releases node session) w =
    kept m (releases node session) w (same (lease_methods-sessions m node session "" 0).1)
step-WithinLimits m (closes id reason) w =
    kept m (closes id reason) w (notify_close-Evolves m id reason)
step-WithinLimits m (expires id now) w = kept m (expires id now) w (expire-Evolves m id now w.keyed)
step-WithinLimits m (reclaims id) w = kept m (reclaims id) w (remove id refl)
step-WithinLimits m (sets_finish id) w =
    kept m (sets_finish id) w (set_finish_fn-Evolves m id w.keyed)
step-WithinLimits m (sets_notify id) w =
    kept m (sets_notify id) w (set_notify_fn-Evolves m id w.keyed)
step-WithinLimits m (sweeps now) w = kept m (sweeps now) w (sweep-Evolves m now)

-- From a manager that is within its limits, as a new one is, no sequence of calls of its methods
-- brings a node over the limit of shell or of desktop sessions; a limit of 0 is no limit.
pub run-WithinLimits : (m : Manager) (cs : List Call) → WithinLimits m → WithinLimits (run m cs)
unfolding run
run-WithinLimits m [] w = w
run-WithinLimits m (c ∷ cs) w = run-WithinLimits (step m c) cs (step-WithinLimits m c w)
