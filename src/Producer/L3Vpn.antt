-- ===== src/Producer/L3Vpn.antt =====
-- pkg/message/l3-vpn.go: a message for each VPN route of an update.
pub mod Named
pub mod Announced
use Prim.Native.String.{String}
use gobmp.Prelude.{ℕ, Bool, not, List, Option, none, some, if◌then◌else◌}
use gobmp.Go.{Res, ok, panic, ◌>>=◌, padded}
use gobmp.Base.Route.{Route}
use gobmp.Base.Rd.{Rd, rd_text}
use gobmp.Bgp.Texts.{Texts}
use gobmp.Bgp.Attributes.{BaseAttributes}
use gobmp.Bgp.Update.{Update}
use gobmp.Bgp.MpNlri.{MpNlri, get_nlri_l3vpn, get_next_hop, is_ipv6_nlri, is_next_hop_ipv6}
use gobmp.Bmp.PeerHeader.{
  PeerHeader, PeerType, is_adj_rib_in_post, is_adj_rib_out_post, is_loc_rib_filtered,
}
use gobmp.PrefixSid.{PSid, get_attr_prefix_sid}
use gobmp.Producer.Services.{
  Services, Producer, get_peer_hash, get_peer_timestamp, get_peer_addr_string, flag_or_false,
  some_or_none,
}
use gobmp.Producer.Unicast.{operation, origin_as, each, label_values}

-- `L3VPNPrefix`, without the fields that no code sets; the int32 fields by their 32 bits.
pub record L3VpnPrefix : Type 0 where
  pub action : String
  pub router_hash : String
  pub router_ip : String
  pub base_attributes : BaseAttributes
  pub peer_hash : String
  pub peer_ip : String
  pub peer_type : PeerType
  pub peer_asn : ℕ
  pub timestamp : String
  pub prefix : String
  pub prefix_len : ℕ
  pub is_ipv4 : Bool
  pub origin_as : ℕ
  pub nexthop : String
  pub is_nexthop_ipv4 : Bool
  pub path_id : ℕ
  pub labels : List ℕ
  pub vpn_rd : String
  pub vpn_rd_type : ℕ
  pub prefix_sid : Option PSid
  pub is_adj_rib_in_post : Bool
  pub is_adj_rib_out_post : Bool
  pub is_loc_rib_filtered : Bool

-- `e.RD.String()` and `e.RD.Type`; a nil pointer panics.
pub rd_parts : Texts → Option Rd → Res (String × ℕ)
rd_parts t none = panic
rd_parts t (some rd) = do x ← rd_text t rd; ok (x, rd.rd_type)

module _ (s : Services) where
  -- One turn of the loop of `l3vpn`.
  pub l3vpn_message : Producer → String → MpNlri → PeerHeader → Update → Route → Res L3VpnPrefix
  l3vpn_message p action n ph u e = do
    ts ← get_peer_timestamp s ph
    hop ← get_next_hop s.texts n
    ip ← get_peer_addr_string s ph
    (rd, rd_type) ← rd_parts s.texts e.rd
    sid ← some_or_none (get_attr_prefix_sid s.texts u)
    ok (record {
      action = action;
      router_hash = p.speaker_hash;
      router_ip = p.speaker_ip;
      base_attributes = u.base_attributes;
      peer_hash = get_peer_hash s ph;
      peer_ip = ip;
      peer_type = ph.peer_type;
      peer_asn = ph.peer_as;
      timestamp = ts;
      prefix =
          if is_ipv6_nlri n
          then s.texts.ip16 (padded 16 e.prefix)
          else s.texts.ip4 (padded 4 e.prefix);
      prefix_len = e.length;
      is_ipv4 = not (is_ipv6_nlri n);
      origin_as = origin_as u.base_attributes.as_path;
      nexthop = hop;
      is_nexthop_ipv4 = not (is_next_hop_ipv6 n);
      path_id = e.path_id;
      labels = label_values e.label;
      vpn_rd = rd;
      vpn_rd_type = rd_type;
      prefix_sid = sid;
      is_adj_rib_in_post = flag_or_false (is_adj_rib_in_post ph);
      is_adj_rib_out_post = flag_or_false (is_adj_rib_out_post ph);
      is_loc_rib_filtered = flag_or_false (is_loc_rib_filtered ph);
    })

  pub l3vpn : ℕ → Producer → MpNlri → ℕ → PeerHeader → Update → Res (List L3VpnPrefix)
  l3vpn depth p n op ph u = do
    rs ← get_nlri_l3vpn depth n
    action ← operation op
    each (l3vpn_message p action n ph u) rs
