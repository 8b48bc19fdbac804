-- ===== src/Producer.antt =====
-- pkg/message/peer.go: the add-path negotiation of a Peer Up message.
pub mod Negotiation
pub mod Services
pub mod Unicast
pub mod L3Vpn
pub mod Evpn
pub mod Flowspec
pub mod RouteMonitor
pub mod Peer
pub mod Stats
pub mod Worker
pub mod Samples
mod Tests
use gobmp.Prelude.{List, [], ◌∷◌, Option, none, some}
use gobmp.Bgp.Open.{OpenMessage}
use gobmp.Bgp.Open.AddPath.{PathMap, lookup, insert, add_path_capability}

-- `for k := range lAddPath`: what is in both maps is set to what the remote speaker says.
pub negotiate : PathMap → PathMap → PathMap → PathMap
negotiate [] remote capable = capable
negotiate ((k, v) ∷ l) remote capable =
    negotiate l remote (elim (lookup k remote) [ none ↦ capable | some w ↦ insert k w capable ])

-- The producer's `addPathCapable` after a Peer Up with the two OPEN messages.
pub agree_add_path : OpenMessage → OpenMessage → PathMap → PathMap
agree_add_path sent received capable = elim (add_path_capability sent) [
  | [] ↦ capable
  | e ∷ l ↦ elim (add_path_capability received) [
    | [] ↦ capable
    | f ∷ r ↦ negotiate (e ∷ l) (f ∷ r) capable
  ]
]
