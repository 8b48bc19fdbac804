-- ===== src/Parser.antt =====
-- pkg/parser/parser.go: `parsingWorker`, from the bytes of a read to the messages for the producer.
pub mod Progress
pub mod Reports
mod Tests
use gobmp.Prelude.{
  ℕ, zero, suc, ◌+◌, ◌-◌, ◌%◌, ◌^◌, true, false, List, [], ◌∷◌, Option, none, some, ltb, leb, ◌==◌,
  if◌then◌else◌,
}
use gobmp.Go.{Error, Res, ok, err, panic, spin, ◌>>=◌, ◌>>◌, panic_if, Slice, slice, slice_from}
use gobmp.Bgp.Attributes.{Formats}
use gobmp.Bmp.CommonHeader.{CommonHeader, unmarshal_common_header}
use gobmp.Bmp.PeerHeader.{PeerHeader, unmarshal_peer_header, is_remote_peer_ipv6}
use gobmp.Bmp.Info.{
  StatsReport, unmarshal_stats_report, PeerDown, unmarshal_peer_down, unmarshal_initiation,
}
use gobmp.Bmp.PeerUp.{PeerUp, unmarshal_peer_up}
use gobmp.Bmp.RouteMonitor.{RouteMonitor, unmarshal_route_monitor}

-- `bmp.Message`: the peer's header and the payload, by the payload's type.
pub data Message : Type 0 where
  route_monitor : PeerHeader → RouteMonitor → Message
  stats_report : PeerHeader → StatsReport → Message
  peer_down : PeerHeader → PeerDown → Message
  peer_up : PeerHeader → PeerUp → Message

-- `b[p : p+int(ch.MessageLength)-6]`: a negative length panics.
pub body : Slice → ℕ → ℕ → ℕ → Res Slice
body b from p l = do panic_if (leb (2 ^ 31) l); panic_if (ltb (p + l) 6); slice b from (p + l - 6)

-- `b[p : p+int(ch.MessageLength-6)]`, where the difference wraps as an int32.
pub body32 : Slice → ℕ → ℕ → Res Slice
body32 b p l = do let n = (l + (2 ^ 32 - 6)) % 2 ^ 32; panic_if (leb (2 ^ 31) n); slice b p (p + n)

-- `p += int(ch.MessageLength) - 6` with the length as an int32; `none` is a negative position.
pub moved : ℕ → ℕ → Option ℕ
moved p l =
    if ltb l (2 ^ 31)
    then (if ltb (p + l) 6 then none else some (p + l - 6))
    else if ltb p (2 ^ 32 - l + 6)
    then none
    else some (p - (2 ^ 32 - l + 6))

-- What a run of the worker comes to: the messages that it published, and how it ended.
pub data Ending : Type 0 where
  done crashed running : Ending
  stopped : Error → Ending

abbrev pub Run : Type 0
Run = List Message × Ending

abbrev pub publish : Option Message → Run → Run
publish none r = r
publish (some m) (ms, e) = (m ∷ ms, e)

-- `none` as the position: the next slice of `b` panics.
abbrev pub follow : (ℕ → Run) → Option ℕ → Run
follow loop none = ([], crashed)
follow loop (some p) = loop p

abbrev pub after : (ℕ → Run) → Res (Option Message × Option ℕ) → Run
after loop (ok (m, p)) = publish m (follow loop p)
after loop (err e) = ([], stopped e)
after loop panic = ([], crashed)
after loop spin = ([], running)

module _ (fmt : Formats) where
  -- The `switch` on the message type, with `p` behind the common header: what is published, and the
  -- position to which `MessageLength - 6` is still added.
  pub dispatch : Slice → ℕ → ℕ → ℕ → Res (Option Message × ℕ)
  dispatch b p t l =
      if t == 0
      then (do
        hs ← slice b p (p + 42)
        h ← unmarshal_peer_header hs
        s ← body b (p + 42) p l
        m ← unmarshal_route_monitor fmt s
        ok (some (route_monitor h m), p + 42))
      else if t == 1
      then (do
        hs ← body32 b p l
        h ← unmarshal_peer_header hs
        s ← slice_from b (p + 42)
        m ← unmarshal_stats_report s
        ok (some (stats_report h m), p + 42))
      else if t == 2
      then (do
        hs ← body32 b p l
        h ← unmarshal_peer_header hs
        s ← body b (p + 42) p l
        m ← unmarshal_peer_down s
        ok (some (peer_down h m), p + 42))
      else if t == 3
      then (do
        hs ← body32 b p l
        h ← unmarshal_peer_header hs
        s ← body b (p + 42) p l
        m ← unmarshal_peer_up fmt s (is_remote_peer_ipv6 h)
        ok (some (peer_up h m), p + 42))
      else if t == 4
      then (do s ← body b p p l; tlvs ← unmarshal_initiation s; ok (none, p))
      else ok (none, p)

  -- One turn of the loop at `p`: what it publishes and the next position.
  pub worker_turn : Slice → ℕ → Res (Option Message × Option ℕ)
  worker_turn b p = do
    hs ← slice b p (p + 6)
    ch ← unmarshal_common_header hs
    (m, q) ← dispatch b (p + 6) ch.message_type ch.message_length
    ok (m, moved q ch.message_length)

  -- `running` where the fuel is gone before the loop has ended.
  pub worker : ℕ → Slice → ℕ → Run
  worker zero b p = ([], running)
  worker (suc fuel) b p = elim (ltb p b.len) [
    | false ↦ ([], done)
    | true ↦ after (worker fuel b) (worker_turn b p)
  ]
