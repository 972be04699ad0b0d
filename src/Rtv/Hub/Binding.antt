-- ===== src/Rtv/Hub/Binding.antt =====
-- src/rtv/relay.go: which viewers a host session has.
use xnc.Prelude.{
  ℕ, suc, ◌+◌, ◌≡◌, ◌≢◌, ◌⊎◌, inl, inr, sym, ap, ◌∙◌, String, Bool, true, false, none, some, [],
  ◌∷◌, ite, String_discrete, ℕ_discrete, arith, Option-cases, if◌then◌else◌,
}
use xnc.Prelude.Map.{
  Map, get, put, lookup, lookup-insert, lookup-insert_same, lookup-insert_other, get-put,
}
use xnc.Rtv.Hub.{
  Viewer, HostSession, Hub, put_viewers, viewers_of, is_viewer_bound, register_host, split_viewers,
  in_session, drop_for_kill, after_drop, count_up, count_viewers, count_hosts, active_sessions,
}

-- The number of a session in the counts, and the number of its viewers.
abbrev pub counted : String → Map String ℕ → ℕ
counted s m = elim (lookup s m) [ none ↦ 0 | some n ↦ n ]

abbrev pub one_of : String → Viewer → ℕ
one_of s w = if in_session s w then 1 else 0

abbrev pub viewers_in : String → Map ℕ Viewer → ℕ
viewers_in s [] = 0
viewers_in s ((id, w) ∷ ws) = one_of s w + viewers_in s ws

abbrev pub hosted_in : String → Map String HostSession → ℕ
hosted_in s [] = 0
hosted_in s ((node, h) ∷ hs) = viewers_in s h.viewers + hosted_in s hs

counted-count_up :
    (s : String) (w : Viewer) (m : Map String ℕ)
    → counted s (count_up w.session m) ≡ one_of s w + counted s m
counted-count_up s w m = elim (Option-cases (lookup w.session m)) [
  | inl e ↦ grind (arith, lookup-insert w.session s 1 m)
  | inr (n, e) ↦ grind (arith, lookup-insert w.session s (suc n) m)
]

counted-count_viewers :
    (s : String) (ws : Map ℕ Viewer) (m : Map String ℕ)
    → counted s (count_viewers ws m) ≡ viewers_in s ws + counted s m
counted-count_viewers s [] m = omega arith
counted-count_viewers s ((id, w) ∷ ws) m =
    let here = counted-count_up s w m in
    let rest = counted-count_viewers s ws (count_up w.session m) in omega arith

counted-count_hosts :
    (s : String) (hs : Map String HostSession) (m : Map String ℕ)
    → counted s (count_hosts hs m) ≡ hosted_in s hs + counted s m
counted-count_hosts s [] m = omega arith
counted-count_hosts s ((node, h) ∷ hs) m =
    let here = counted-count_viewers s h.viewers m in
    let rest = counted-count_hosts s hs (count_viewers h.viewers m) in omega arith

-- The count that the relay reports for a session is the number of its viewers on all hosts.
pub counted-active_sessions :
    (s : String) (g : Hub) → counted s (active_sessions g) ≡ hosted_in s g.hosts
unfolding active_sessions get
counted-active_sessions s g = let total = counted-count_hosts s g.hosts [] in omega arith

-- The table of a host's viewers holds each under its own id.
abbrev pub IsKeyed : Map ℕ Viewer → Type 0
IsKeyed [] = Unit
IsKeyed ((id, w) ∷ ws) = (w.id ≡ id) × IsKeyed ws

abbrev has_viewer : ℕ → Map ℕ Viewer → Bool
has_viewer id m = elim (get ℕ_discrete id m) [ none ↦ false | some v ↦ true ]

has_viewer-empty : (id : ℕ) → has_viewer id [] ≡ true → ⊥
unfolding get
has_viewer-empty id e = ground arith

has_viewer-put :
    (id : ℕ) (w : Viewer) (m : Map ℕ Viewer)
    → has_viewer id m ≡ true
    → has_viewer id (put ℕ_discrete w.id w m) ≡ true
has_viewer-put id w m e = grind (arith, get-put ℕ_discrete w.id id w m)

has_viewer-put_self :
    (w : Viewer) (m : Map ℕ Viewer) → has_viewer w.id (put ℕ_discrete w.id w m) ≡ true
has_viewer-put_self w m = grind (arith, get-put ℕ_discrete w.id w.id w m)

has_viewer-cons :
    (id i : ℕ) (w : Viewer) (ws : Map ℕ Viewer)
    → has_viewer id ((i, w) ∷ ws) ≡ true
    → (i ≡ id) ⊎ (has_viewer id ws ≡ true)
unfolding get
has_viewer-cons id i w ws e = elim (ℕ_discrete i id) [
  | yes same ↦ inl same
  | no other ↦ inr (grind arith)
]

has_viewer-put_viewers :
    (id : ℕ) (ws m : Map ℕ Viewer)
    → IsKeyed ws
    → (has_viewer id ws ≡ true) ⊎ (has_viewer id m ≡ true)
    → has_viewer id (put_viewers ws m) ≡ true
has_viewer-put_viewers id [] m keyed (inl e) = absurd (has_viewer-empty id e)
has_viewer-put_viewers id [] m keyed (inr e) = e
has_viewer-put_viewers id ((i, w) ∷ ws) m keyed (inr e) =
    has_viewer-put_viewers id ws (put ℕ_discrete w.id w m) keyed.1 (inr (has_viewer-put id w m e))
has_viewer-put_viewers id ((i, w) ∷ ws) m keyed (inl e) = elim (has_viewer-cons id i w ws e) [
  | inl same ↦
      has_viewer-put_viewers id ws (put ℕ_discrete w.id w m) keyed.1
        (inr (rw⁻¹ (keyed.0 ∙ same) (has_viewer-put_self w m)))
  | inr later ↦ has_viewer-put_viewers id ws (put ℕ_discrete w.id w m) keyed.1 (inl later)
]

abbrev taken_over : String → HostSession → Hub → HostSession
taken_over node h g = record h {
  viewers = put_viewers (viewers_of (lookup node g.hosts)) h.viewers;
}

lookup-register_host :
    (node : String) (h : HostSession) (g : Hub)
    → lookup node (register_host node h g).0.hosts ≡ some (taken_over node h g)
unfolding register_host
lookup-register_host node h g = lookup-insert_same node (taken_over node h g) g.hosts

lookup-register_other :
    (node n : String) (h : HostSession) (g : Hub)
    → (node ≡ n → ⊥)
    → lookup n (register_host node h g).0.hosts ≡ lookup n g.hosts
unfolding register_host
lookup-register_other node n h g other =
    lookup-insert_other node n (taken_over node h g) g.hosts other

-- When a new connection of a host takes the place of an old one, every viewer that was bound to a
-- node stays bound to it, on this node and on all others; the tables of the viewers' ids must be in
-- order.
pub is_viewer_bound-register_host :
    (node n : String) (h : HostSession) (w : Viewer) (g : Hub)
    → IsKeyed (viewers_of (lookup node g.hosts))
    → is_viewer_bound n w g ≡ true
    → is_viewer_bound n w (register_host node h g).0 ≡ true
unfolding is_viewer_bound
is_viewer_bound-register_host node n h w g keyed bound = elim (String_discrete node n) [
  | yes same ↦
      let moved =
        has_viewer-put_viewers w.id (viewers_of (lookup node g.hosts)) h.viewers keyed
          (inl (ap (λ k. has_viewer w.id (viewers_of (lookup k g.hosts))) same ∙ bound)) in
      ap (λ o. has_viewer w.id (viewers_of o))
        (ap (λ k. lookup k (register_host node h g).0.hosts) (sym same)
          ∙ lookup-register_host node h g)
      ∙ moved
  | no other ↦
      ap (λ o. has_viewer w.id (viewers_of o)) (lookup-register_other node n h g other) ∙ bound
]

viewers_in-split_viewers :
    (session s : String) (ws : Map ℕ Viewer)
    → viewers_in s (split_viewers session ws).1
      ≡ ite (String_discrete session s) 0 (viewers_in s ws)
unfolding split_viewers
viewers_in-split_viewers session s [] = ground arith
viewers_in-split_viewers session s ((id, w) ∷ ws) =
    grind (arith, viewers_in-split_viewers session s ws)

after_drop-host :
    (node session : String) (h : HostSession) (doomed : Map ℕ Viewer) (g : Hub)
    → lookup node (after_drop node session h doomed g).0.hosts ≡ some h
after_drop-host node session h [] g = lookup-insert_same node h g.hosts
after_drop-host node session h (w ∷ ws) g = lookup-insert_same node h g.hosts

drop_for_kill-session :
    (node session : String) (g : Hub) (h : HostSession)
    → session ≢ ""
    → lookup node g.hosts ≡ some h
    → drop_for_kill node session g
      ≡ after_drop node session
          (record h { viewers = (split_viewers session h.viewers).1 })
          (split_viewers session h.viewers).0
          g
unfolding drop_for_kill
drop_for_kill-session node session g h some_name found = grind arith

-- The kill of a session on a node leaves none of its viewers there, and every other session as many
-- as it had.
pub viewers_in-drop_for_kill :
    (node session s : String) (g : Hub) (h : HostSession)
    → session ≢ ""
    → lookup node g.hosts ≡ some h
    → viewers_in s (viewers_of (lookup node (drop_for_kill node session g).0.hosts))
      ≡ ite (String_discrete session s) 0 (viewers_in s h.viewers)
viewers_in-drop_for_kill node session s g h some_name found =
    let (doomed, kept) = split_viewers session h.viewers in
    ap (λ o. viewers_in s (viewers_of (lookup node o.0.hosts)))
      (drop_for_kill-session node session g h some_name found)
    ∙ ap (λ o. viewers_in s (viewers_of o))
        (after_drop-host node session (record h { viewers = kept }) doomed g)
    ∙ viewers_in-split_viewers session s h.viewers
