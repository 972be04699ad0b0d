-- ===== src/Server/RtvPool/Health.antt =====
-- src/server/internal/rtvpool/pool.go: when a relay takes part in the choice, and which connection of
-- a relay counts.
use xnc.Prelude.{ℕ, ◌+◌, ◌≤◌, ◌<◌, ◌≡◌, ◌≢◌, ◌↔◌, refl, String, true, false, none, some, arith}
use xnc.Prelude.Int.{pos_part, neg_part}
use xnc.Prelude.Map.{lookup, lookup-insert, lookup-delete}
use xnc.Server.RtvPool.{RelayConn, Pool, eligible, heartbeat_wait, drift_limit}
use xnc.Server.RtvPool.Control.{attach, detach, probed}

-- A relay takes part in the choice exactly if it is active, its last two probes did not both fail,
-- its clock is within the limit on either side, and it was heard of within the waiting time.
pub eligible_iff :
    (now : ℕ) (c : RelayConn)
    → (eligible now c ≡ true) ↔ (
        (c.status ≡ "active")
        × (c.probe_fails < 2)
        × (pos_part c.drift ≤ drift_limit)
        × (neg_part c.drift ≤ drift_limit)
        × (now < c.last_beat + heartbeat_wait))
unfolding eligible
eligible_iff now c = ((λ h. ground arith), λ h. ground arith)

-- Two failed probes in a row take a connected relay out of the choice, at any time, and one good
-- probe after them lets the rest of the conditions decide again.
pub probed-eligible :
    (m : Pool) (id : String) (c : RelayConn)
    → lookup id m.conns ≡ some c
    → let m' = probed (probed m id false) id false in
      (out back : RelayConn) × (lookup id m'.conns ≡ some out)
      × ((now : ℕ) → eligible now out ≡ false)
      × (lookup id (probed m' id true).conns ≡ some back)
      × ((now : ℕ) → eligible now back ≡ eligible now (record c { probe_fails = 0 }))
unfolding probed eligible
probed-eligible m id c e = (
  record c { probe_fails = c.probe_fails + 1 + 1 },
  record c { probe_fails = 0 },
  grind (arith, lookup-insert),
  λ now. ground arith,
  grind (arith, lookup-insert),
  λ now. refl,
)

-- A relay that connects again replaces its connection; the end of the old connection then changes
-- nothing, and the end of the new one removes the relay.
pub detach-attach :
    (m : Pool) (old new : RelayConn)
    → old.id ≡ new.id
    → old.serial ≢ new.serial
    → let m' = (attach m new).0 in
      (detach m' old ≡ m') × (lookup new.id (detach m' new).conns ≡ none)
unfolding attach detach
detach-attach m old new same apart =
    (grind (arith, lookup-insert), grind (arith, lookup-insert, lookup-delete))
