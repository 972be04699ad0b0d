-- ===== src/Server/Api/Uses.antt =====
-- src/server/internal/api: what an enrollment token pays for.
use xnc.Prelude.{◌≡◌, Bool, List, ltb}
use xnc.Prelude.Rows.{count}
use xnc.Server.Db.{EnrollmentToken}

abbrev pub overused : EnrollmentToken → Bool
overused t = ltb t.max_uses t.used_count

-- No token was used more often than it may be.
abbrev pub WithinUses : List EnrollmentToken → Type 0
WithinUses ts = count overused ts ≡ 0
