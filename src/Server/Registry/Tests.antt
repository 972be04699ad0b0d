-- ===== src/Server/Registry/Tests.antt =====
-- src/server/internal/registry/registry.go at concrete connections.
use xnc.Prelude.{true}
use xnc.Server.Registry.{NodeConn}

abbrev old_conn : NodeConn
old_conn = record { serial = 1; node_id = "node"; has_cancel = true; last_beat = 0; beats = 4 }

abbrev new_conn : NodeConn
new_conn = record { serial = 2; node_id = "node"; has_cancel = true; last_beat = 9; beats = 0 }
