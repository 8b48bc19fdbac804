-- ===== src/Producer/Worker/Speaker.antt =====
-- The speaker that the messages of one worker name.
use gobmp.Prelude.{ℕ, ◌≡◌, true, List, [], ◌∷◌, Option, none, some, All}
use gobmp.Go.{Res}
use gobmp.Go.Gives.{Gives, Gives-ok, Gives-bind}
use gobmp.Bgp.Update.{Update}
use gobmp.Bgp.MpNlri.{MpNlri}
use gobmp.Bmp.PeerHeader.{PeerHeader}
use gobmp.Parser.{Message, route_monitor, stats_report, peer_down, peer_up}
use gobmp.Producer.Services.{Services, Producer}
use gobmp.Producer.Unicast.Named.{IsSpeaker}
use gobmp.Producer.Peer.{produce_peer_up, produce_peer_down}
use gobmp.Producer.Peer.Named.{produce_peer_up-Learned, produce_peer_down-IsNamed}
use gobmp.Producer.Stats.{Stats, produce_stats_message}
use gobmp.Producer.Stats.Counting.{produce_stats_message-IsNamed}
use gobmp.Producer.RouteMonitor.{Sent}
use gobmp.Producer.RouteMonitor.Named.{IsSent, produce_route_monitor_message-All}
use gobmp.Producer.Worker.{
  Publication, route, peer_state_change, stats, prefixes, optional, producing_worker,
}

-- The hash that a message names its router by, if it has one, is that of the address that it names.
abbrev pub IsNamed : Services → Publication → Type 0
IsNamed s (route t m) = gobmp.Producer.RouteMonitor.Named.IsNamed s m
IsNamed s (peer_state_change m) = m.router_hash ≡ s.md5_text m.router_ip
IsNamed s (stats m) = m.router_hash ≡ s.md5_text m.router_ip

-- What is true of the producer and of what it has published.
abbrev pub IsRun : Services → Producer × List Publication → Type 0
IsRun s (p, out) = IsSpeaker s p × All (IsNamed s) out

module _ (s : Services) (other : MpNlri → ℕ → PeerHeader → Update → Sent → Res Sent) where
  prefixes-All : (sent : Sent) → All (IsSent s) sent → All (IsNamed s) (prefixes sent)
  unfolding prefixes
  prefixes-All [] h = tt
  prefixes-All ((t, m) ∷ sent) (hm, hs) = (hm, prefixes-All sent hs)

  optional-All :
      (o : Option Stats) → gobmp.Producer.Stats.Counting.IsNamed s o → All (IsNamed s) (optional o)
  unfolding optional
  optional-All none h = tt
  optional-All (some m) h = (h, tt)

  module _
      (good : (n : MpNlri) (op : ℕ) (ph : PeerHeader) (u : Update) (sent : Sent)
        → All (IsSent s) sent
        → Gives (All (IsSent s)) (other n op ph u sent)) where
    producing_worker-IsRun :
        (depth : ℕ) (p : Producer) (m : Message)
        → IsSpeaker s p
        → Gives (IsRun s) (producing_worker s other depth p m)
    unfolding producing_worker
    producing_worker-IsRun depth p (peer_up ph m) w =
        Gives-bind _ (IsRun s) (produce_peer_up s ph m p) _ (produce_peer_up-Learned s ph p m)
          (λ r h. Gives-ok (IsRun s) _ (h.0, (h.1, tt)))
    producing_worker-IsRun depth p (peer_down ph m) w =
        Gives-bind _ (IsRun s) (produce_peer_down s ph m p) _ (produce_peer_down-IsNamed s ph p m w)
          (λ c h. Gives-ok (IsRun s) _ (w, (h, tt)))
    producing_worker-IsRun depth p (route_monitor ph m) w =
        Gives-bind (All (IsSent s)) (IsRun s) _ _
          (produce_route_monitor_message-All s (λ sent m. true) other good p w depth ph m [] tt)
          (λ ms h. Gives-ok (IsRun s) _ (w, prefixes-All ms h))
    producing_worker-IsRun depth p (stats_report ph m) w =
        Gives-bind _ (IsRun s) (produce_stats_message s ph m p) _
          (produce_stats_message-IsNamed s ph m p w)
          (λ c h. Gives-ok (IsRun s) _ (w, optional-All c h))
