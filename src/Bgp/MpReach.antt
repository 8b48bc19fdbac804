-- ===== src/Bgp/MpReach.antt =====
-- pkg/bgp/mp-reach-nlri.go: the attribute MP_REACH_NLRI.
pub mod RoundTrip
pub mod Vpn
use Prim.Native.String.{String}
use gobmp.Prelude.{ℕ, ◌+◌, Bool, true, false, ◌&&◌, ◌||◌, List, ◌==◌, if◌then◌else◌}
use gobmp.Go.{
  empty_nlri, not_found, Res, ok, err, ◌>>=◌, ◌>>◌, fail_if, Slice, bytes, of_list, index, slice,
  slice_from, uint16_at, copy_at,
}
use gobmp.Base.Route.{Route}
use gobmp.Nlri.Unicast.{unmarshal_unicast, unmarshal_labeled}
use gobmp.Evpn.{Nlri, unmarshal_evpn}
use gobmp.Flowspec.{Spec, FlowspecNlri, unmarshal_flowspec}
use gobmp.Nlri.L3Vpn.{unmarshal_l3vpn}
use gobmp.Bgp.Texts.{Texts, ◌<>◌}
use gobmp.Bgp.Nlri.{nlri_message_type}
use gobmp.Bgp.Open.AddPath.{PathMap, entry}

pub record MpReach : Type 0 where
  pub address_family_id : ℕ
  pub sub_address_family_id : ℕ
  pub next_hop_address_length : ℕ
  pub next_hop_address : List ℕ
  pub nlri : List ℕ
  pub srv6 : Bool
  pub add_path : PathMap

-- `UnmarshalMPReachNLRI`. The byte behind the next hop is skipped.
pub unmarshal_mp_reach : Slice → Bool → PathMap → Res MpReach
unmarshal_mp_reach b srv6 paths = do
  fail_if (b.len == 0) empty_nlri
  afi ← uint16_at b 0
  safi ← index b 2
  n ← index b 3
  hop ← copy_at b 4 n
  rest ← slice_from b (4 + n + 1)
  ok (record {
    address_family_id = afi;
    sub_address_family_id = safi;
    next_hop_address_length = n;
    next_hop_address = hop;
    nlri = bytes rest;
    srv6 = srv6;
    add_path = paths;
  })

-- `GetAFISAFIType`
unfoldable pub get_afi_safi_type : MpReach → ℕ
get_afi_safi_type mp = nlri_message_type mp.address_family_id mp.sub_address_family_id

abbrev pub is_ipv6_nlri : MpReach → Bool
is_ipv6_nlri mp = mp.address_family_id == 2

abbrev pub is_next_hop_ipv6 : MpReach → Bool
is_next_hop_ipv6 mp =
    mp.next_hop_address_length == 16
    || mp.next_hop_address_length == 32
    || mp.next_hop_address_length == 24
    || mp.next_hop_address_length == 48

-- `GetNextHop`
unfoldable pub get_next_hop : Texts → MpReach → Res String
get_next_hop t mp =
    let n = mp.next_hop_address_length in
    let hop = of_list mp.next_hop_address in
    if n == 4
    then ok (t.ip4 mp.next_hop_address)
    else if n == 8
    then (do a ← slice_from hop 4; ok (t.ip4 (bytes a)))
    else if n == 12
    then (do a ← slice_from hop 8; ok (t.ip4 (bytes a)))
    else if n == 16
    then ok (t.ip16 mp.next_hop_address)
    else if n == 24
    then (do a ← slice_from hop 8; ok (t.ip16 (bytes a)))
    else if n == 32
    then (do
      a ← slice hop 0 16
      l ← slice_from hop 16
      ok (t.ip16 (bytes a) <> "," <> t.ip16 (bytes l)))
    else ok "invalid"

-- The address family is IPv4 or IPv6, and the subsequent one is `s`.
pub is_ip : MpReach → ℕ → Bool
is_ip mp s =
    (mp.address_family_id == 1 || mp.address_family_id == 2) && mp.sub_address_family_id == s

-- `mp.addPath[NLRIMessageType(mp.AddressFamilyID, mp.SubAddressFamilyID)]`
unfoldable pub path_id_flag : MpReach → Bool
path_id_flag mp = entry mp.add_path (get_afi_safi_type mp)

-- `GetNLRIUnicast`, `GetNLRILU` and `GetNLRIL3VPN`. `depth` bounds the retries of the parsers.
pub get_nlri_unicast : ℕ → MpReach → Res (List Route)
get_nlri_unicast depth mp =
    if is_ip mp 1
    then unmarshal_unicast depth (of_list mp.nlri) (path_id_flag mp)
    else err not_found

abbrev pub get_nlri_lu : ℕ → MpReach → Res (List Route)
get_nlri_lu depth mp =
    if is_ip mp 4
    then unmarshal_labeled depth (of_list mp.nlri) (path_id_flag mp)
    else err not_found

pub get_nlri_l3vpn : ℕ → MpReach → Res (List Route)
get_nlri_l3vpn depth mp =
    if is_ip mp 128
    then unmarshal_l3vpn depth mp.srv6 (of_list mp.nlri) (path_id_flag mp)
    else err not_found

-- `GetNLRIEVPN`
abbrev pub get_nlri_evpn : MpReach → Res (List Nlri)
get_nlri_evpn mp =
    if mp.address_family_id == 25 && mp.sub_address_family_id == 70
    then unmarshal_evpn (of_list mp.nlri)
    else err not_found

-- `GetFlowspecNLRI`, for any address family.
abbrev pub get_flowspec_nlri : (List Spec → String) → MpReach → Res FlowspecNlri
get_flowspec_nlri hash mp =
    if mp.sub_address_family_id == 133
    then unmarshal_flowspec hash (of_list mp.nlri)
    else err not_found
