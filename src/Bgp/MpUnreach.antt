-- ===== src/Bgp/MpUnreach.antt =====
-- pkg/bgp/mp-unreach-nlri.go: the attribute MP_UNREACH_NLRI.
pub mod Meaning
mod Tests
use Prim.Native.String.{String}
use gobmp.Prelude.{ℕ, ◌+◌, Bool, true, false, ◌&&◌, ◌||◌, List, ◌==◌, if◌then◌else◌}
use gobmp.Go.{
  empty_nlri, not_found, Res, ok, err, ◌>>=◌, ◌>>◌, fail_if, Slice, bytes, of_list, index,
  slice_from, uint16_at,
}
use gobmp.Base.Route.{Route}
use gobmp.Nlri.Unicast.{unmarshal_unicast, unmarshal_labeled}
use gobmp.Evpn.{Nlri, unmarshal_evpn}
use gobmp.Flowspec.{Spec, FlowspecNlri, unmarshal_flowspec}
use gobmp.Nlri.L3Vpn.{unmarshal_l3vpn}
use gobmp.Bgp.Nlri.{nlri_message_type}
use gobmp.Bgp.Open.AddPath.{PathMap, entry}

pub record MpUnreach : Type 0 where
  pub address_family_id : ℕ
  pub sub_address_family_id : ℕ
  pub withdrawn_routes : List ℕ
  pub add_path : PathMap

-- `UnmarshalMPUnReachNLRI`
pub unmarshal_mp_unreach : Slice → PathMap → Res MpUnreach
unmarshal_mp_unreach b paths = do
  fail_if (b.len == 0) empty_nlri
  afi ← uint16_at b 0
  safi ← index b 2
  rest ← slice_from b 3
  ok (record {
    address_family_id = afi;
    sub_address_family_id = safi;
    withdrawn_routes = bytes rest;
    add_path = paths;
  })

-- `GetAFISAFIType`
pub get_afi_safi_type : MpUnreach → ℕ
get_afi_safi_type mp = nlri_message_type mp.address_family_id mp.sub_address_family_id

abbrev pub is_ipv6_nlri : MpUnreach → Bool
is_ipv6_nlri mp = mp.address_family_id == 2

-- There is no next hop.
pub get_next_hop : MpUnreach → String
get_next_hop mp = ""

abbrev pub is_next_hop_ipv6 : MpUnreach → Bool
is_next_hop_ipv6 mp = false

-- The address family is IPv4 or IPv6, and the subsequent one is `s`.
pub is_ip : MpUnreach → ℕ → Bool
is_ip mp s =
    (mp.address_family_id == 1 || mp.address_family_id == 2) && mp.sub_address_family_id == s

-- `mp.addPath[NLRIMessageType(mp.AddressFamilyID, mp.SubAddressFamilyID)]`
pub path_id_flag : MpUnreach → Bool
path_id_flag mp = entry mp.add_path (get_afi_safi_type mp)

-- `GetNLRIUnicast`, `GetNLRILU` and `GetNLRIL3VPN`, the last one for IPv4 only and without the SRv6
-- flag. `depth` bounds the retries of the parsers.
pub get_nlri_unicast : ℕ → MpUnreach → Res (List Route)
get_nlri_unicast depth mp =
    if is_ip mp 1
    then unmarshal_unicast depth (of_list mp.withdrawn_routes) (path_id_flag mp)
    else err not_found

abbrev pub get_nlri_lu : ℕ → MpUnreach → Res (List Route)
get_nlri_lu depth mp =
    if is_ip mp 4
    then unmarshal_labeled depth (of_list mp.withdrawn_routes) (path_id_flag mp)
    else err not_found

pub get_nlri_l3vpn : ℕ → MpUnreach → Res (List Route)
get_nlri_l3vpn depth mp =
    if mp.address_family_id == 1 && mp.sub_address_family_id == 128
    then unmarshal_l3vpn depth false (of_list mp.withdrawn_routes) (path_id_flag mp)
    else err not_found

-- `GetNLRIEVPN`
abbrev pub get_nlri_evpn : MpUnreach → Res (List Nlri)
get_nlri_evpn mp =
    if mp.address_family_id == 25 && mp.sub_address_family_id == 70
    then unmarshal_evpn (of_list mp.withdrawn_routes)
    else err not_found

-- `GetFlowspecNLRI`, for any address family.
abbrev pub get_flowspec_nlri : (List Spec → String) → MpUnreach → Res FlowspecNlri
get_flowspec_nlri hash mp =
    if mp.sub_address_family_id == 133
    then unmarshal_flowspec hash (of_list mp.withdrawn_routes)
    else err not_found
