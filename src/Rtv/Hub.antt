-- ===== src/Rtv/Hub.antt =====
-- src/rtv/relay.go: the table of hosts and viewers of a relay. A host connection is known by its
-- `serial`, a viewer by its id. Each method is one step, though it takes the lock of the table and that of a host one after the
-- other. The JSON texts are messages; what is sent, closed or reported to `events` is an effect. Media
-- has the media packets and their counters; the counters of control messages are left out. A host session that gets a message is taken to be registered,
-- so that its `hub` is set.
pub mod Control
pub mod Binding
pub mod Media
mod Tests
use xnc.Prelude.{
  ℕ, suc, ◌+◌, String, Bool, true, false, not, ◌&&◌, Option, none, some, List, [], ◌∷◌, ◌++◌, map,
  length, ◌==◌, if◌then◌else◌, ite, String_discrete, ℕ_discrete,
}
use xnc.Prelude.Map.{Map, get, put, del, lookup, insert, delete}
use xnc.Rtv.Arbiter.{Arbiter, Reason, new_arbiter, take, release, holder, touch, drop_session}

pub record Viewer : Type 0 where
  pub id : ℕ
  pub node : String
  pub session : String
  pub can_control : Bool
  pub can_input : Bool
  pub display_name : String

pub record HostSession : Type 0 where
  pub serial : ℕ
  -- The function that writes to the host is set.
  pub sends_control : Bool
  pub viewers : Map ℕ Viewer
  pub last_config : Option ℕ

pub record Hub : Type 0 where
  pub hosts : Map String HostSession
  pub arbiter : Arbiter

-- The messages of a viewer: `type` is "input", "takeControl", "releaseControl" or another.
pub data ClientMessage : Type 0 where
  input other_message : (body : ℕ) → ClientMessage
  take_control release_control : ClientMessage

pub data LossReason : Type 0 where
  host_restart new_viewer : LossReason

pub data Message : Type 0 where
  host_offline : (node : String) → Message
  control_state : (holder_session holder_name : String) → Message
  control_denied : Reason → Message
  config : ℕ → Message
  viewer_count : ℕ → Message
  frame_loss : LossReason → Message
  forwarded : ClientMessage → Message

pub data Event : Type 0 where
  host_register host_unregister viewer_joined viewer_left : Event

pub data Effect : Type 0 where
  sent_viewer : (id : ℕ) → Message → Effect
  sent_host : (serial : ℕ) → Message → Effect
  host_closed viewer_closed : ℕ → Effect
  emitted : Event → (node session : String) → Effect

abbrev pub new_hub : Hub
new_hub = record { hosts = []; arbiter = new_arbiter }

abbrev pub set_host : String → HostSession → Hub → Hub
set_host node h g = record g { hosts = insert node h g.hosts }

-- forwardToHostNoGate
abbrev pub send_host : HostSession → Message → List Effect
send_host h m = if h.sends_control then sent_host h.serial m ∷ [] else []

abbrev pub notify_viewers : HostSession → List Effect
notify_viewers h = send_host h (viewer_count (length h.viewers))

abbrev pub broadcast : Message → Map ℕ Viewer → List Effect
broadcast m [] = []
broadcast m ((id, w) ∷ ws) = sent_viewer w.id m ∷ broadcast m ws

abbrev pub put_viewers : Map ℕ Viewer → Map ℕ Viewer → Map ℕ Viewer
put_viewers [] m = m
put_viewers ((id, w) ∷ ws) m = put_viewers ws (put ℕ_discrete w.id w m)

abbrev pub cache_config : ℕ → HostSession → HostSession
cache_config c h = record h { last_config = some c }

abbrev pub viewers_of : Option HostSession → Map ℕ Viewer
viewers_of none = []
viewers_of (some h) = h.viewers

-- What the host is told of the viewers that moved to it.
abbrev pub migration_notice : Map ℕ Viewer → HostSession → List Effect
migration_notice [] h = []
migration_notice (w ∷ ws) h = notify_viewers h ++ send_host h (frame_loss host_restart)

unfoldable pub register_host : String → HostSession → Hub → Hub × List Effect
register_host node h g =
    let old = lookup node g.hosts in
    let closed : List Effect = elim old [ none ↦ [] | some o ↦ host_closed o.serial ∷ [] ] in
    let h' : HostSession = record h { viewers = put_viewers (viewers_of old) h.viewers } in
    (
      set_host node h' g,
      closed ++ (migration_notice (viewers_of old) h' ++ (emitted host_register node "" ∷ [])),
    )

-- `serial` is that of the host session that ends.
unfoldable pub unregister_host : String → (serial : ℕ) → Hub → Hub × List Effect
unregister_host node serial g = elim (lookup node g.hosts) [
  | none ↦ (g, [])
  | some h ↦
      if h.serial == serial
      then (
        record g { hosts = delete node g.hosts },
        broadcast (host_offline node) h.viewers ++ (emitted host_unregister node "" ∷ []),
      )
      else (g, [])
]

unfoldable pub is_viewer_bound : String → Viewer → Hub → Bool
is_viewer_bound node w g = elim (get ℕ_discrete w.id (viewers_of (lookup node g.hosts))) [
  | none ↦ false
  | some v ↦ true
]

abbrev pub control_state_msg : Hub → String → (now : ℕ) → Message
control_state_msg g node now =
    let (session, name) = holder g.arbiter node now in control_state session name

abbrev pub send_config : Viewer → Option ℕ → List Effect
send_config w none = []
send_config w (some c) = sent_viewer w.id (config c) ∷ []

unfoldable pub add_viewer : String → Viewer → (now : ℕ) → Hub → Hub × List Effect
add_viewer node w now g = elim (lookup node g.hosts) [
  | none ↦ (g, sent_viewer w.id (host_offline node) ∷ [])
  | some h ↦
      let h' : HostSession = record h { viewers = put ℕ_discrete w.id w h.viewers } in
      (
        set_host node h' g,
        send_config w h.last_config
            ++ (sent_viewer w.id (control_state_msg g node now)
                ∷ (notify_viewers h'
                    ++ (send_host h' (frame_loss new_viewer)
                        ++ (emitted viewer_joined node w.session ∷ [])))),
      )
]

unfoldable pub remove_viewer : String → Viewer → Hub → Hub × List Effect
remove_viewer node w g = elim (lookup node g.hosts) [
  | none ↦ (g, [])
  | some h ↦
      let h' : HostSession = record h { viewers = del ℕ_discrete w.id h.viewers } in
      (
        record (set_host node h' g) { arbiter = drop_session g.arbiter node w.session },
        notify_viewers h' ++ (emitted viewer_left node w.session ∷ []),
      )
]

abbrev pub in_session : String → Viewer → Bool
in_session session w = ite (String_discrete w.session session) true false

-- The viewers of a session, and the others.
unfoldable pub split_viewers : String → Map ℕ Viewer → Map ℕ Viewer × Map ℕ Viewer
split_viewers session [] = ([], [])
split_viewers session ((id, w) ∷ ws) =
    let (doomed, kept) = split_viewers session ws in
    if in_session session w then ((id, w) ∷ doomed, kept) else (doomed, (id, w) ∷ kept)

abbrev pub close_viewers : Map ℕ Viewer → List Effect
close_viewers [] = []
close_viewers ((id, w) ∷ ws) = viewer_closed w.id ∷ close_viewers ws

-- With the viewers that were dropped: none changes nothing else.
abbrev pub after_drop :
    String → (session : String) → HostSession → (doomed : Map ℕ Viewer) → Hub → Hub × List Effect
after_drop node session h [] g = (set_host node h g, [])
after_drop node session h (w ∷ ws) g = (
  record (set_host node h g) { arbiter = drop_session g.arbiter node session },
  close_viewers (w ∷ ws) ++ notify_viewers h,
)

unfoldable pub drop_for_kill : String → (session : String) → Hub → Hub × List Effect
unfolding unregister_host split_viewers
drop_for_kill node session g = elim (lookup node g.hosts) [
  | none ↦ (g, [])
  | some h ↦
      ite (String_discrete session "")
        (let (g', effects) = unregister_host node h.serial g in
          (g', effects ++ (host_closed h.serial ∷ [])))
        (let (doomed, kept) = split_viewers session h.viewers in
          after_drop node session (record h { viewers = kept }) doomed g)
]

-- gateInputFor
unfoldable pub gate_input_for : Hub → Viewer → (now : ℕ) → Bool
gate_input_for g v now =
    let (session, name) = holder g.arbiter v.node now in
    not (ite (String_discrete session "") true false)
    && (ite (String_discrete session v.session) true false && v.can_input)

abbrev pub touch_viewer : String → (session : String) → (now : ℕ) → Hub → Hub
touch_viewer node session now g = record g { arbiter = touch g.arbiter node session now }

abbrev pub broadcast_control_state : Hub → String → (now : ℕ) → List Effect
broadcast_control_state g node now =
    broadcast (control_state_msg g node now) (viewers_of (lookup node g.hosts))

unfoldable pub handle_take_control : Viewer → (now : ℕ) → Hub → Hub × List Effect
handle_take_control v now g =
    let (a, ok, reason) = take g.arbiter v.node v.session v.display_name v.can_control now in
    let g' = record g { arbiter = a } in
    if ok then (g', broadcast_control_state g' v.node now) else (
      g',
      sent_viewer v.id (control_denied reason)
          ∷ sent_viewer v.id (control_state_msg g' v.node now)
          ∷ [],
    )

unfoldable pub handle_release_control : Viewer → (now : ℕ) → Hub → Hub × List Effect
handle_release_control v now g =
    let g' = record g { arbiter = release g.arbiter v.node v.session } in
    (g', broadcast_control_state g' v.node now)

-- A message of a viewer to the host session `h`.
unfoldable pub forward_to_host :
    HostSession → ClientMessage → Viewer → (now : ℕ) → Hub → Hub × List Effect
forward_to_host h (input body) v now g =
    if gate_input_for g v now then (g, send_host h (forwarded (input body))) else (g, [])
forward_to_host h take_control v now g = handle_take_control v now g
forward_to_host h release_control v now g = handle_release_control v now g
forward_to_host h (other_message body) v now g = (g, send_host h (forwarded (other_message body)))

abbrev pub count_up : String → Map String ℕ → Map String ℕ
count_up session m = elim (lookup session m) [
  | none ↦ insert session 1 m
  | some n ↦ insert session (suc n) m
]

abbrev pub count_viewers : Map ℕ Viewer → Map String ℕ → Map String ℕ
count_viewers [] m = m
count_viewers ((id, w) ∷ ws) m = count_viewers ws (count_up w.session m)

abbrev pub count_hosts : Map String HostSession → Map String ℕ → Map String ℕ
count_hosts [] m = m
count_hosts ((node, h) ∷ hs) m = count_hosts hs (count_viewers h.viewers m)

unfoldable pub active_sessions : Hub → Map String ℕ
active_sessions g = count_hosts g.hosts []
