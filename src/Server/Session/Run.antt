-- ===== src/Server/Session/Run.antt =====
-- Any sequence of calls of the methods of src/server/internal/session/manager.go.
use xnc.Prelude.{ℕ, ◌≡◌, refl, String, Bool, List, [], ◌∷◌, arith}
use xnc.Server.Session.{Manager, Kind}
use xnc.Server.Session.Create.{Fresh, create, admit}
use xnc.Server.Session.Attach.{
  Side, attach, attach_id, attach_client_rtv, touch_activity, mark_relay_routed,
}
use xnc.Server.Session.Control.{take_desktop_control, release_desktop_control}
use xnc.Server.Session.Close.{notify_close, expire, reclaim, set_finish_fn, set_notify_fn}
use xnc.Server.Session.Sweep.{close_all, sweep}

pub data Call : Type 0 where
  creates :
      (online : Bool) (f : Fresh) (node user : String) (kind : Kind) (params : String) (now : ℕ)
      → Call
  attaches : (side : Side) (id token : String) (ws now : ℕ) → Call
  attaches_rtv : (token : String) (now : ℕ) → Call
  touches : (id : String) (now : ℕ) → Call
  marks : (id : String) → Call
  takes : (node session lease_id : String) (now : ℕ) → Call
  releases : (node session : String) → Call
  closes : (id reason : String) → Call
  expires : (id : String) (now : ℕ) → Call
  reclaims : (id : String) → Call
  sets_finish : (id : String) → Call
  sets_notify : (id : String) → Call
  sweeps : (now : ℕ) → Call

unfoldable pub step : Manager → Call → Manager
step m (creates online f node user kind params now) =
    (create m online f node user kind params now).0
step m (attaches side id token ws now) = (attach m side id token ws now).0
step m (attaches_rtv token now) = (attach_client_rtv m token now).0
step m (touches id now) = touch_activity m id now
step m (marks id) = mark_relay_routed m id
step m (takes node session lease_id now) = (take_desktop_control m node session lease_id now).0
step m (releases node session) = release_desktop_control m node session
step m (closes id reason) = (notify_close m id reason).0
step m (expires id now) = (expire m id now).0
step m (reclaims id) = reclaim m id
step m (sets_finish id) = set_finish_fn m id
step m (sets_notify id) = set_notify_fn m id
step m (sweeps now) = (sweep m now).0

unfoldable pub run : Manager → List Call → Manager
run m [] = m
run m (c ∷ cs) = run (step m c) cs

-- The limits that `Create` tests are not changed by any method.
abbrev pub limits : Manager → ℕ × ℕ
limits m = (m.shell_per_node, m.desktop_per_node)

close_all-limits :
    (m : Manager) (es : List (String × String)) → limits (close_all m es).0 ≡ limits m
unfolding close_all notify_close
close_all-limits m [] = refl
close_all-limits m ((id, reason) ∷ es) =
    ground (arith, close_all-limits (notify_close m id reason).0 es)

pub step-limits : (m : Manager) (c : Call) → limits (step m c) ≡ limits m
unfolding step
step-limits m (creates online f node user kind params now) = unfold create admit in ground arith
step-limits m (attaches side id token ws now) = unfold attach attach_id in ground arith
step-limits m (attaches_rtv token now) = unfold attach_client_rtv in ground arith
step-limits m (touches id now) = unfold touch_activity in ground arith
step-limits m (marks id) = unfold mark_relay_routed in ground arith
step-limits m (takes node session lease_id now) = unfold take_desktop_control in ground arith
step-limits m (releases node session) = unfold release_desktop_control in ground arith
step-limits m (closes id reason) = unfold notify_close in ground arith
step-limits m (expires id now) = unfold expire in ground arith
step-limits m (reclaims id) = unfold reclaim in refl
step-limits m (sets_finish id) = unfold set_finish_fn in ground arith
step-limits m (sets_notify id) = unfold set_notify_fn in ground arith
step-limits m (sweeps now) = unfold sweep in close_all-limits _ _
