-- ===== src/Rtv/Hub/Control.antt =====
-- src/rtv/relay.go and src/rtv/arbiter.go: who can send input to a host.
use mathlib.Core.Path.{subst}
use xnc.Prelude.{
  ℕ, ◌≡◌, ◌≢◌, ◌⊎◌, inl, inr, refl, sym, ap, ◌∙◌, String, Bool, true, false, none, some, List, [],
  ◌∷◌, All, arith, Bool-cases, Option-cases, ◌≤◌, ◌+◌, if◌then◌else◌,
}
use xnc.Prelude.Map.{Map, lookup, delete, lookup-delete_same}
use xnc.Rtv.Arbiter.{Arbiter, CtrlLease, lease_alive, holder, drop_session, take, release}
use xnc.Rtv.Arbiter.Moves.{Call}
use xnc.Rtv.Arbiter.Away.{Abstains, run_calls, run_calls-IsAway, drop_session-IsAway, holder-IsAway}
use xnc.Rtv.Hub.{
  Viewer, HostSession, Hub, ClientMessage, input, take_control, release_control, other_message,
  Message, forwarded, Effect, sent_host, send_host, gate_input_for, forward_to_host, remove_viewer,
  register_host, unregister_host, handle_take_control, handle_release_control, broadcast,
  viewers_of, control_state_msg,
}

-- Two viewers that pass the gate of one node at one time are of one session.
pub gate_input_for_exclusive :
    (g : Hub) (v v' : Viewer) (now : ℕ)
    → v.node ≡ v'.node
    → gate_input_for g v now ≡ true
    → gate_input_for g v' now ≡ true
    → v.session ≡ v'.session
unfolding gate_input_for
gate_input_for_exclusive g v v' now same e e' = grind arith

gate_shut :
    (g : Hub) (v : Viewer) (now : ℕ)
    → ((holder g.arbiter v.node now).0 ≡ v.session → v.session ≡ "")
    → gate_input_for g v now ≡ false
unfolding gate_input_for
gate_shut g v now shut = grind arith

gate-arbiter :
    (g g' : Hub) (v : Viewer) (now : ℕ)
    → g'.arbiter ≡ g.arbiter
    → gate_input_for g' v now ≡ gate_input_for g v now
unfolding gate_input_for
gate-arbiter g g' v now e = rw (e) refl

arbiter-remove_viewer :
    (g : Hub) (node : String) (v : Viewer) (h : HostSession)
    → lookup node g.hosts ≡ some h
    → (remove_viewer node v g).0.arbiter ≡ drop_session g.arbiter node v.session
unfolding remove_viewer
arbiter-remove_viewer g node v h found = ground arith

remove_viewer-absent :
    (g : Hub) (node : String) (v : Viewer)
    → lookup node g.hosts ≡ none
    → remove_viewer node v g ≡ (g, [])
unfolding remove_viewer
remove_viewer-absent g node v absent = ground arith

unregister_host-found :
    (g : Hub) (node : String) (h : HostSession)
    → lookup node g.hosts ≡ some h
    → (unregister_host node h.serial g).0 ≡ (record g { hosts = delete node g.hosts })
unfolding unregister_host
unregister_host-found g node h found = ground arith

-- Once a viewer leaves a node whose host is connected, no viewer of its session passes the gate of
-- that node, at any time, after any calls of the arbiter's methods on any nodes that neither grant the
-- node to that session nor take it for that session.
pub gate_input_for-remove_viewer :
    (g k : Hub) (node : String) (v v' : Viewer) (h : HostSession) (cs : List (String × ℕ × Call))
    (now : ℕ)
    → lookup node g.hosts ≡ some h
    → v'.node ≡ node
    → v'.session ≡ v.session
    → All (Abstains node v.session) cs
    → k.arbiter ≡ run_calls cs (remove_viewer node v g).0.arbiter
    → gate_input_for k v' now ≡ false
gate_input_for-remove_viewer g k node v v' h cs now found at same calls after =
    let dropped = drop_session g.arbiter node v.session in
    let away =
      run_calls-IsAway node v.session cs dropped calls
        (drop_session-IsAway node v.session g.arbiter) in
    let now_there = after ∙ ap (run_calls cs) (arbiter-remove_viewer g node v h found) in
    gate_shut k v' now (λ held.
      same
      ∙ holder-IsAway node v.session (run_calls cs dropped) now away (
          ap (λ a. (holder a node now).0) (sym now_there)
          ∙ ap (λ n. (holder k.arbiter n now).0) (sym at)
          ∙ held
          ∙ same))

-- A lease outlives its viewer where the host went first: when the host of a node disconnects, then
-- the viewer, and a host comes back, the gate of the viewer's session stands as before.
pub gate_input_for-offline :
    (g : Hub) (node : String) (v v' : Viewer) (h h' : HostSession) (now : ℕ)
    → lookup node g.hosts ≡ some h
    → gate_input_for
        (register_host node h' (remove_viewer node v (unregister_host node h.serial g).0).0).0
        v'
        now
      ≡ gate_input_for g v' now
unfolding register_host
gate_input_for-offline g node v v' h h' now found =
    let g1 = (unregister_host node h.serial g).0 in
    let gone = unregister_host-found g node h found in
    let absent : lookup node g1.hosts ≡ none =
      ap (λ o. lookup node o.hosts) gone ∙ lookup-delete_same node g.hosts in
    let left = ap (λ o. o.0) (remove_viewer-absent g1 node v absent) in
    gate-arbiter g (register_host node h' (remove_viewer node v g1).0).0 v' now
      (ap (λ o. o.arbiter) left ∙ ap (λ o. o.arbiter) gone)

abbrev pub Among : Effect → List Effect → Type 0
Among e [] = ⊥
Among e (f ∷ fs) = (e ≡ f) ⊎ Among e fs

not-broadcast :
    (serial : ℕ) (m n : Message) (ws : Map ℕ Viewer)
    → Among (sent_host serial m) (broadcast n ws)
    → ⊥
not-broadcast serial m n [] among = among
not-broadcast serial m n ((id, w) ∷ ws) (inl e) = ground arith
not-broadcast serial m n ((id, w) ∷ ws) (inr among) = not-broadcast serial m n ws among

Among-send_host :
    (serial : ℕ) (m n : Message) (h : HostSession)
    → Among (sent_host serial m) (send_host h n)
    → (serial ≡ h.serial) × (m ≡ n)
Among-send_host serial m n h among = ground arith

not-take_control :
    (serial : ℕ) (m : Message) (v : Viewer) (now : ℕ) (g : Hub)
    → Among (sent_host serial m) (handle_take_control v now g).1
    → ⊥
unfolding handle_take_control
not-take_control serial m v now g among =
    let a = take g.arbiter v.node v.session v.display_name v.can_control now in
    let g' : Hub = record g { arbiter = a.0 } in
    let silent =
      not-broadcast serial m (control_state_msg g' v.node now)
        (viewers_of (lookup v.node g.hosts)) in
    ground arith

not-release_control :
    (serial : ℕ) (m : Message) (v : Viewer) (now : ℕ) (g : Hub)
    → Among (sent_host serial m) (handle_release_control v now g).1
    → ⊥
unfolding handle_release_control
not-release_control serial m v now g among =
    let g' : Hub = record g { arbiter = release g.arbiter v.node v.session } in
    not-broadcast serial m (control_state_msg g' v.node now) (viewers_of (lookup v.node g.hosts))
      among

-- The gate as a statement.
gate_input_for-held :
    (g : Hub) (v : Viewer) (now : ℕ)
    → gate_input_for g v now ≡ true
    → ((holder g.arbiter v.node now).0 ≡ v.session) × (v.session ≢ "") × (v.can_input ≡ true)
unfolding gate_input_for
gate_input_for-held g v now e = (grind arith, (λ empty. grind arith), grind arith)

-- Input that passes the gate.
input-gated :
    (h : HostSession) (b body serial : ℕ) (v : Viewer) (now : ℕ) (g : Hub)
    → Among (sent_host serial (forwarded (input body))) (forward_to_host h (input b) v now g).1
    → (gate_input_for g v now ≡ true)
      × Among (sent_host serial (forwarded (input body))) (send_host h (forwarded (input b)))
unfolding forward_to_host
input-gated h b body serial v now g among =
    let sent = sent_host serial (forwarded (input body)) in
    let result : Bool → Hub × List Effect =
      λ gate. if gate then (g, send_host h (forwarded (input b))) else (g, []) in
    elim (Bool-cases (gate_input_for g v now)) [
      | inl e ↦ (e, subst (λ gate. Among sent (result gate).1) e among)
      | inr e ↦ absurd (subst (λ gate. Among sent (result gate).1) e among)
    ]

forwarded-input : (b c : ℕ) → forwarded (input b) ≡ forwarded (input c) → input c ≡ input b
forwarded-input b c e = ground arith

-- A lease of the node that the session keeps alive: its last activity is no longer ago than the TTL.
abbrev pub HasLease : Arbiter → (node session : String) → (now : ℕ) → Type 0
HasLease a node s now =
    (l : CtrlLease) × (lookup node a.leases ≡ some l)
    × (l.session_id ≡ s)
    × (now ≤ l.last_activity + a.ttl)

holder-HasLease :
    (a : Arbiter) (node s : String) (now : ℕ)
    → (holder a node now).0 ≡ s
    → s ≢ ""
    → HasLease a node s now
unfolding holder
holder-HasLease a node s now e some_name = elim (Option-cases (lookup node a.leases)) [
  | inl gone ↦ absurd (some_name (ground arith))
  | inr (l, found) ↦ elim (Bool-cases (lease_alive a.ttl l now)) [
    | inl alive ↦ (l, found, ground arith, ground arith)
    | inr lapsed ↦ absurd (some_name (ground arith))
  ]
]

-- Input reaches a host only from a viewer who holds the live lease of the node in its session and
-- whose ticket allows input, as the message that the viewer sent; whatever else a viewer sends, no
-- input comes of it.
pub forward_to_host-input :
    (h : HostSession) (m : ClientMessage) (v : Viewer) (now : ℕ) (g : Hub) (serial body : ℕ)
    → Among (sent_host serial (forwarded (input body))) (forward_to_host h m v now g).1
    → (m ≡ input body)
      × (serial ≡ h.serial)
      × ((holder g.arbiter v.node now).0 ≡ v.session)
      × (v.session ≢ "")
      × (v.can_input ≡ true)
      × HasLease g.arbiter v.node v.session now
unfolding forward_to_host
forward_to_host-input h (input b) v now g serial body among =
    let (gate, sent) = input-gated h b body serial v now g among in
    let (to, same) = Among-send_host serial (forwarded (input body)) (forwarded (input b)) h sent in
    let (held, some_name, can) = gate_input_for-held g v now gate in
    let lease = holder-HasLease g.arbiter v.node v.session now held some_name in
    (forwarded-input body b same, to, held, some_name, can, lease)
forward_to_host-input h take_control v now g serial body among =
    absurd (not-take_control serial (forwarded (input body)) v now g among)
forward_to_host-input h release_control v now g serial body among =
    absurd (not-release_control serial (forwarded (input body)) v now g among)
forward_to_host-input h (other_message b) v now g serial body among =
    let sent =
      Among-send_host serial (forwarded (input body)) (forwarded (other_message b)) h among in
    absurd (ground arith)
