-- ===== src/Server/RtvPool/Tests.antt =====
-- src/server/internal/rtvpool/pool.go at a pool of two relays.
use xnc.Prelude.{ℕ, ◌*◌, ◌≡◌, refl, true, some, [], ◌∷◌, String_discrete}
use xnc.Prelude.Int.{pos}
use xnc.Prelude.Map.{lookup, get}
use xnc.Server.RtvPool.{
  RelayConn, Pool, second, assign, assignment_of, eligible, keep, pick, sticky_conn, find_id,
  least_loaded, load_num, load_den,
}
use xnc.Server.RtvPool.Choice.{Chosen, assign_lem}

abbrev east : RelayConn
east = record {
  serial = 1;
  id = "east";
  status = "active";
  region = "e";
  max_sess = 10;
  max_mbps = 100;
  endpoints = record { transport = "sdata"; host = "east.example"; port = 443 } ∷ [];
  last_beat = 100 * second;
  sessions = 5;
  live_sess = 5;
  probe_fails = 0;
  drift = pos 0;
}

-- Less loaded.
abbrev west : RelayConn
west = record east { serial = 2; id = "west"; sessions = 4 }

abbrev both : Pool
both = record {
  conns = ("east", east) ∷ ("west", west) ∷ [];
  sticky = ("old", "east") ∷ [];
  data_sticky = [];
}

abbrev noon : ℕ
noon = 110 * second

assign_lem_example :
    (c : RelayConn) × (assignment_of west ≡ assignment_of c)
    × (eligible noon c ≡ true)
    × Chosen both.sticky "new" (keep (eligible noon) both.conns) c
    × (lookup "new" (assign both "new" noon).0.sticky ≡ some c.id)
unfolding assign pick sticky_conn find_id least_loaded load_num load_den keep eligible get
    String_discrete
assign_lem_example = assign_lem both "new" noon (assignment_of west) refl

abbrev east_again : RelayConn
east_again = record east { serial = 3 }
