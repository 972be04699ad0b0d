-- ===== src/Server/Session/Limits.antt =====
-- src/server/internal/session/manager.go: a node never has more shell or desktop sessions in the
-- table than the manager allows, whatever the methods do.
pub mod Calls
use xnc.Prelude.{
  ℕ, suc, ◌+◌, ◌≤◌, ◌≡◌, refl, sym, ap, ◌∙◌, ◌⊎◌, inl, inr, String, Bool, true, false, ◌&&◌, Option,
  none, some, [], ◌∷◌, List, ltb, leb, if◌then◌else◌, ite, String_discrete, Option-cases,
  Bool-cases, arith,
}
use xnc.Prelude.Map.{Map, lookup, insert, delete, get, put, del}
use xnc.Server.Session.{
  Session, Manager, Kind, exec, shell, file, tunnel, screen, desktop, other, is_kind, matches,
  count_where, count_by_node, new_manager,
}
use xnc.Server.Session.Create.{
  Fresh, create, admit, grant_desktop_lease, governed, base_session, over_limit,
}
use xnc.Server.Session.Table.{IsKeyed, insert-IsKeyed, delete-IsKeyed}
use xnc.Server.Session.Evolves.{SameSession, Evolves, same, update, remove, chain}
use xnc.Server.Session.Evolves.Methods.{
  attach-Evolves, attach_client_rtv-Evolves, touch_activity-Evolves, mark_relay_routed-Evolves,
  set_finish_fn-Evolves, set_notify_fn-Evolves, notify_close-Evolves, sweep-Evolves, expire-Evolves,
  lease_methods-sessions,
}
use xnc.Server.Session.Close.{reclaim}
use xnc.Server.Session.Run.{
  Call, creates, attaches, attaches_rtv, touches, marks, takes, releases, closes, expires, reclaims,
  sets_finish, sets_notify, sweeps, step, run, limits, step-limits,
}

abbrev pub one_if : Bool → ℕ
one_if b = if b then 1 else 0

-- The count after an insert: of a new key, and of a key that held `old`.
abbrev Counts : (Session → Bool) → Map String Session → String → Session → Option Session → Type 0
Counts p m k v none = count_where p (insert k v m) ≡ one_if (p v) + count_where p m
Counts p m k v (some old) =
    one_if (p old) + count_where p (insert k v m) ≡ one_if (p v) + count_where p m

pub count-insert :
    (p : Session → Bool) (m : Map String Session) (k : String) (v : Session)
    → Counts p m k v (lookup k m)
unfolding count_where get put
count-insert p [] k v = ground arith
count-insert p ((j, w) ∷ m) k v = ground (arith, count-insert p m k v)

count-delete-le :
    (p : Session → Bool) (m : Map String Session) (k : String)
    → count_where p (delete k m) ≤ count_where p m
unfolding count_where del
count-delete-le p [] k = omega arith
count-delete-le p ((j, w) ∷ m) k = ground (arith, count-delete-le p m k)

-- Replacing a session by one that counts no more keeps the count from growing.
count-update-le :
    (p : Session → Bool) (m : Map String Session) (k : String) (old v : Session)
    → lookup k m ≡ some old
    → p old ≡ p v
    → count_where p (insert k v m) ≡ count_where p m
count-update-le p m k old v e eq = ground (arith, count-insert p m k v)

pub Evolves-count :
    {m n : Map String Session} (p : Session → Bool)
    → ((old s : Session) → SameSession old s → p old ≡ p s)
    → Evolves m n
    → count_where p n ≤ count_where p m
Evolves-count p v (same e) = rw e (omega arith)
Evolves-count {m} p v (update old s e h eq) =
    rw (eq, count-update-le p m s.id old s e (v old s h)) (omega arith)
Evolves-count {m} p v (remove k eq) = rw eq (count-delete-le p m k)
Evolves-count p v (chain a b) = omega (arith, Evolves-count p v a, Evolves-count p v b)

pub Evolves-IsKeyed : {m n : Map String Session} → IsKeyed m → Evolves m n → IsKeyed n
Evolves-IsKeyed w (same e) = rw e w
Evolves-IsKeyed {m} w (update old s e h eq) = rw eq (insert-IsKeyed m s w)
Evolves-IsKeyed {m} w (remove k eq) = rw eq (delete-IsKeyed m k w)
Evolves-IsKeyed w (chain a b) = Evolves-IsKeyed (Evolves-IsKeyed w a) b

-- A limit of 0 is no limit.
abbrev pub Within : ℕ → ℕ → Type 0
Within limit n = (limit ≡ 0) ⊎ (n ≤ limit)

pub record WithinLimits (m : Manager) : Type 0 where
  pub keyed : IsKeyed m.sessions
  pub shells : (node : String) → Within m.shell_per_node (count_by_node m.sessions node shell)
  pub desktops : (node : String) → Within m.desktop_per_node (count_by_node m.sessions node desktop)
