-- ===== src/Rtv/Hub/Tests.antt =====
-- src/rtv/relay.go on a hub with one host and two viewers.
use xnc.Prelude.{
  List, ℕ, ◌≡◌, ◌≢◌, inl, refl, true, false, none, some, [], ◌∷◌, String, apart, inr,
  String_discrete, ℕ_discrete,
}
use xnc.Prelude.Map.{get, lookup}
use xnc.Rtv.Arbiter.{holder, new_arbiter}
use xnc.Rtv.Arbiter.Moves.{Call, takes, releases, touches}
use xnc.Rtv.Arbiter.Away.{run_calls}
use xnc.Rtv.Hub.{
  Viewer, HostSession, Hub, input, gate_input_for, forward_to_host, remove_viewer, register_host,
  unregister_host, is_viewer_bound,
}
use xnc.Rtv.Hub.Control.{
  HasLease, gate_input_for-remove_viewer, gate_input_for-offline, forward_to_host-input,
}
use xnc.Rtv.Hub.Media.{MediaStats, fanout_media}
use xnc.Rtv.Hub.Binding.{is_viewer_bound-register_host}

abbrev alice : Viewer
alice = record {
  id = 1;
  node = "node";
  session = "s1";
  can_control = true;
  can_input = true;
  display_name = "Alice";
}

-- The same session in a second tab, and another session.
abbrev tab : Viewer
tab = record alice { id = 2 }

abbrev bob : Viewer
bob = record alice { id = 3; session = "s2"; display_name = "Bob" }

abbrev host : HostSession
host = record {
  serial = 10;
  sends_control = true;
  viewers = (1, alice) ∷ (2, tab) ∷ (3, bob) ∷ [];
  last_config = none;
}

abbrev fresh_host : HostSession
fresh_host = record { serial = 11; sends_control = true; viewers = []; last_config = none }

-- Alice has the control since the time 5.
abbrev hub : Hub
hub = record {
  hosts = ("node", host) ∷ [];
  arbiter = record new_arbiter {
    leases =
        (
          "node",
          record {
            session_id = "s1";
            name = "Alice";
            taken_at = 5;
            last_activity = 5;
            last_steal_at = 0;
          },
        )
        ∷ [];
  };
}

found : lookup "node" hub.hosts ≡ some host
unfolding get String_discrete
found = refl

-- Bob takes the node and gives it up, and the session of Alice tries to keep its lease.
abbrev later : List (String × ℕ × Call)
later =
    ("node", 6, takes "s2" "Bob" true) ∷ ("node", 7, releases "s2") ∷ ("node", 8, touches "s1") ∷ []

abbrev later_hub : Hub
later_hub =
    let g = (remove_viewer "node" alice hub).0 in record g { arbiter = run_calls later g.arbiter }

gate_input_for-remove_viewer_example : gate_input_for later_hub tab 9 ≡ false
gate_input_for-remove_viewer_example =
    gate_input_for-remove_viewer hub later_hub "node" alice tab host later 9 found refl refl
      (inr (apart "s2" "s1" refl), (tt, (tt, tt))) refl

gate_input_for-offline_example :
    gate_input_for
      (register_host "node" fresh_host
        (remove_viewer "node" alice (unregister_host "node" 10 hub).0).0).0
      tab
      6
    ≡ gate_input_for hub tab 6
gate_input_for-offline_example = gate_input_for-offline hub "node" alice tab host fresh_host 6 found

forward_to_host-input_example :
    (input 9 ≡ input 9)
    × (host.serial ≡ host.serial)
    × ((holder hub.arbiter "node" 6).0 ≡ alice.session)
    × (alice.session ≢ "")
    × (alice.can_input ≡ true)
    × HasLease hub.arbiter "node" "s1" 6
unfolding forward_to_host gate_input_for holder get String_discrete
forward_to_host-input_example = forward_to_host-input host (input 9) alice 6 hub 10 9 (inl refl)

is_viewer_bound-register_host_example :
    is_viewer_bound "node" alice (register_host "node" fresh_host hub).0 ≡ true
unfolding is_viewer_bound get String_discrete ℕ_discrete
is_viewer_bound-register_host_example =
    is_viewer_bound-register_host "node" "node" fresh_host alice hub (refl, (refl, (refl, tt))) refl

abbrev stats : MediaStats
stats = record {
  rx_packets = 0;
  rx_bytes = 0;
  tx_packets = 0;
  tx_bytes = 0;
  frames_seen = 0;
  last_capture = 0;
  latency_ema = 800;
}

-- A packet whose header tells the capture time 1000, at the time 1400.
abbrev packet : List ℕ
packet =
    0 ∷ 0 ∷ 0 ∷ 0 ∷ 0 ∷ 0 ∷ 0 ∷ 0 ∷ 0 ∷ 0 ∷ 0 ∷ 0 ∷ 0 ∷ 0 ∷ 0 ∷ 0 ∷ 0 ∷ 0 ∷ 0 ∷ 0 ∷ 0 ∷ 0 ∷ 0 ∷ 0
    ∷ 232 ∷ 3 ∷ 0 ∷ 0 ∷ 0 ∷ 0 ∷ 0 ∷ 0 ∷ 9 ∷ []

fanout_latency : (fanout_media packet 1400 (λ id. true) host.viewers stats).0.latency_ema ≡ 750
unfolding fanout_media
fanout_latency = refl
