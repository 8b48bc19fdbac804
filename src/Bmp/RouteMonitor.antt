-- ===== src/Bmp/RouteMonitor.antt =====
-- pkg/bmp/route-monitor.go
use gobmp.Prelude.{Option, none, some, ltb, ◌==◌, if◌then◌else◌}
use gobmp.Go.{malformed, Res, ok, ◌>>=◌, ◌>>◌, fail_if, Slice, index, slice_from}
use gobmp.Bgp.Attributes.{Formats}
use gobmp.Bgp.Update.{Update, unmarshal_update}

-- `Update` is nil for a message that is no UPDATE.
pub record RouteMonitor : Type 0 where
  pub update : Option Update

pub unmarshal_route_monitor : Formats → Slice → Res RouteMonitor
unmarshal_route_monitor fmt b = do
  fail_if (ltb b.len 19) malformed
  t ← index b 18
  if t == 2
      then (do
        rest ← slice_from b 19
        u ← unmarshal_update fmt rest
        ok (record { update = some u }))
      else ok (record { update = none })
