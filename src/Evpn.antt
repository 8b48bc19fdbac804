-- ===== src/Evpn.antt =====
-- pkg/evpn: the routes of an EVPN NLRI, by type.
pub mod Accessors
pub mod Routes
pub mod RoundTrip
mod Tests
use gobmp.Prelude.{
  ℕ, zero, suc, ◌+◌, ◌/◌, Bool, true, false, not, List, [], ◌∷◌, Option, none, some, ltb, ◌==◌,
  if◌then◌else◌,
}
use gobmp.Go.{empty_nlri, unknown_type, Res, ok, err, ◌>>=◌, ◌>>◌, fail_if, Slice, index, slice}
use gobmp.Go.Scan.{Turn, next, scan}
use gobmp.Base.Label.{Label}
use gobmp.Evpn.Routes.{
  EthAutoDiscovery, MacIpAdvertisement, InclusiveMulticastEthTag, EthernetSegment, IpPrefix,
  unmarshal_eth_auto_discovery, unmarshal_mac_ip_advertisement,
  unmarshal_inclusive_multicast_eth_tag, unmarshal_ethernet_segment, unmarshal_ip_prefix,
}

-- `RouteTypeSpec`, by its five implementations.
pub data RouteTypeSpec : Type 0 where
  eth_auto_discovery : EthAutoDiscovery → RouteTypeSpec
  mac_ip_advertisement : MacIpAdvertisement → RouteTypeSpec
  inclusive_multicast_eth_tag : InclusiveMulticastEthTag → RouteTypeSpec
  ethernet_segment : EthernetSegment → RouteTypeSpec
  ip_prefix : IpPrefix → RouteTypeSpec

pub record Nlri : Type 0 where
  pub route_type : ℕ
  pub length : ℕ
  pub spec : RouteTypeSpec

-- The switch on the route type, for the `l` bytes from `p` on.
pub route_type_spec : ℕ → ℕ → Slice → ℕ → Res RouteTypeSpec
route_type_spec t l b p =
    let body = slice b p (p + l) in
    if t == 1
    then (do s ← body; x ← unmarshal_eth_auto_discovery s; ok (eth_auto_discovery x))
    else if t == 2
    then (do s ← body; x ← unmarshal_mac_ip_advertisement s; ok (mac_ip_advertisement x))
    else if t == 3
    then (do
      s ← body
      x ← unmarshal_inclusive_multicast_eth_tag s
      ok (inclusive_multicast_eth_tag x))
    else if t == 4
    then (do s ← body; x ← unmarshal_ethernet_segment s; ok (ethernet_segment x))
    else if t == 5
    then (do s ← body; x ← unmarshal_ip_prefix s l; ok (ip_prefix x))
    else err unknown_type

-- One turn of the loop of `UnmarshalEVPNNLRI`.
pub evpn_turn : Slice → ℕ → Res (Turn Nlri)
evpn_turn b p = do
  t ← index b p
  l ← index b (p + 1)
  x ← route_type_spec t l b (p + 1 + 1)
  ok (next (record { route_type = t; length = l; spec = x }) (p + 1 + 1 + l))

pub unmarshal_evpn : Slice → Res (List Nlri)
unmarshal_evpn b = do fail_if (b.len == 0) empty_nlri; scan evpn_turn (suc b.len) b 0

-- `GetEVPNESI`, `GetEVPNTAG` and the other accessors; `none` and [] stand for nil. Only two of the
-- types that have a tag give it.
abbrev pub get_evpn_esi : Nlri → Option (List ℕ)
get_evpn_esi n = elim n.spec [
  | eth_auto_discovery x ↦ some x.esi
  | mac_ip_advertisement x ↦ some x.esi
  | inclusive_multicast_eth_tag x ↦ none
  | ethernet_segment x ↦ some x.esi
  | ip_prefix x ↦ some x.esi
]

abbrev pub get_evpn_tag : Nlri → Option (List ℕ)
get_evpn_tag n = elim n.spec [
  | eth_auto_discovery x ↦ some x.eth_tag
  | mac_ip_advertisement x ↦ none
  | inclusive_multicast_eth_tag x ↦ some x.eth_tag
  | ethernet_segment x ↦ none
  | ip_prefix x ↦ none
]

abbrev pub get_evpn_label : Nlri → List Label
get_evpn_label n = elim n.spec [
  | eth_auto_discovery x ↦ x.label
  | mac_ip_advertisement x ↦ x.label
  | inclusive_multicast_eth_tag x ↦ []
  | ethernet_segment x ↦ []
  | ip_prefix x ↦ x.label
]
