-- ===== src/Evpn/Accessors.antt =====
-- The accessors of an EVPN route in pkg/evpn, by its type; `none` and [] stand for nil.
use Prim.Native.String.{String}
use gobmp.Prelude.{ℕ, List, Option, none, some}
use gobmp.Go.{Res}
use gobmp.Bgp.Texts.{Texts}
use gobmp.Base.Rd.{rd_text}
use gobmp.Evpn.{
  Nlri, eth_auto_discovery, mac_ip_advertisement, inclusive_multicast_eth_tag, ethernet_segment,
  ip_prefix,
}

abbrev pub get_evpn_rd : Texts → Nlri → Res String
get_evpn_rd t n = elim n.spec [
  | eth_auto_discovery x ↦ rd_text t x.rd
  | mac_ip_advertisement x ↦ rd_text t x.rd
  | inclusive_multicast_eth_tag x ↦ rd_text t x.rd
  | ethernet_segment x ↦ rd_text t x.rd
  | ip_prefix x ↦ rd_text t x.rd
]

abbrev pub get_evpn_mac : Nlri → Option (List ℕ)
get_evpn_mac n = elim n.spec [
  | eth_auto_discovery x ↦ none
  | mac_ip_advertisement x ↦ x.mac_addr
  | inclusive_multicast_eth_tag x ↦ none
  | ethernet_segment x ↦ none
  | ip_prefix x ↦ none
]

abbrev pub get_evpn_mac_length : Nlri → Option ℕ
get_evpn_mac_length n = elim n.spec [
  | eth_auto_discovery x ↦ none
  | mac_ip_advertisement x ↦ some x.mac_addr_length
  | inclusive_multicast_eth_tag x ↦ none
  | ethernet_segment x ↦ none
  | ip_prefix x ↦ none
]

abbrev pub get_evpn_ip_addr : Nlri → Option (List ℕ)
get_evpn_ip_addr n = elim n.spec [
  | eth_auto_discovery x ↦ none
  | mac_ip_advertisement x ↦ x.ip_addr
  | inclusive_multicast_eth_tag x ↦ x.ip_addr
  | ethernet_segment x ↦ x.ip_addr
  | ip_prefix x ↦ some x.ip_addr
]

abbrev pub get_evpn_ip_length : Nlri → Option ℕ
get_evpn_ip_length n = elim n.spec [
  | eth_auto_discovery x ↦ none
  | mac_ip_advertisement x ↦ some x.ip_addr_length
  | inclusive_multicast_eth_tag x ↦ some x.ip_addr_length
  | ethernet_segment x ↦ some x.ip_addr_length
  | ip_prefix x ↦ some x.ip_addr_length
]

abbrev pub get_evpn_gw_addr : Nlri → Option (List ℕ)
get_evpn_gw_addr n = elim n.spec [
  | eth_auto_discovery x ↦ none
  | mac_ip_advertisement x ↦ none
  | inclusive_multicast_eth_tag x ↦ none
  | ethernet_segment x ↦ none
  | ip_prefix x ↦ some x.gw_ip_addr
]
