-- ===== src/Producer/Worker.antt =====
-- pkg/message/producer.go: `producingWorker`, the run of one goroutine while no other writes the producer;
-- Race has what happens where others do.
pub mod Speaker
pub mod Race
use gobmp.Prelude.{ℕ, Bool, true, List, [], ◌∷◌, ◌++◌, Option, none, some, map}
use gobmp.Go.{Res, ok, ◌>>=◌}
use gobmp.Bgp.Update.{Update}
use gobmp.Bgp.MpNlri.{MpNlri}
use gobmp.Bmp.PeerHeader.{PeerHeader}
use gobmp.Parser.{Message, route_monitor, stats_report, peer_down, peer_up}
use gobmp.Producer.Services.{Services, Producer}
use gobmp.Producer.Unicast.{UnicastPrefix}
use gobmp.Producer.Peer.{PeerStateChange, produce_peer_up, produce_peer_down}
use gobmp.Producer.Stats.{Stats, produce_stats_message}
use gobmp.Producer.RouteMonitor.{Topic, RouteMessage, Sent, produce_route_monitor_message}

-- What goes to the publisher.
pub data Publication : Type 0 where
  route : Topic → RouteMessage → Publication
  peer_state_change : PeerStateChange → Publication
  stats : Stats → Publication

pub prefixes : Sent → List Publication
prefixes [] = []
prefixes ((t, m) ∷ ms) = route t m ∷ prefixes ms

pub optional : Option Stats → List Publication
optional none = []
optional (some m) = stats m ∷ []

-- The publisher takes every message here. `other` is as in `process_mp_update`.
module _ (s : Services) (other : MpNlri → ℕ → PeerHeader → Update → Sent → Res Sent) where
  -- `producingWorker`: what it makes of the producer that it finds, and what it publishes.
  pub producing_worker : ℕ → Producer → Message → Res (Producer × List Publication)
  producing_worker depth p (peer_up ph m) = do
    (p', c) ← produce_peer_up s ph m p
    ok (p', peer_state_change c ∷ [])
  producing_worker depth p (peer_down ph m) = do
    c ← produce_peer_down s ph m p
    ok (p, peer_state_change c ∷ [])
  producing_worker depth p (route_monitor ph m) = do
    ms ← produce_route_monitor_message s (λ sent m. true) other depth p (some ph) m []
    ok (p, prefixes ms)
  producing_worker depth p (stats_report ph m) = do
    c ← produce_stats_message s ph m p
    ok (p, optional c)
