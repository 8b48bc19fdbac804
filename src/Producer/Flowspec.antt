-- ===== src/Producer/Flowspec.antt =====
-- pkg/message/flowspec.go: the message for the flow specification rules of an update.
use Prim.Native.String.{String}
use gobmp.Prelude.{ℕ, Bool, not, List, [], ◌∷◌}
use gobmp.Go.{Res, ok, ◌>>=◌}
use gobmp.Bgp.Attributes.{BaseAttributes}
use gobmp.Bgp.Update.{Update}
use gobmp.Bgp.MpNlri.{MpNlri, get_flowspec_nlri, get_next_hop, is_ipv6_nlri, is_next_hop_ipv6}
use gobmp.Bmp.PeerHeader.{
  PeerHeader, PeerType, is_adj_rib_in_post, is_adj_rib_out_post, is_loc_rib_filtered,
}
use gobmp.Flowspec.{Spec}
use gobmp.Producer.Services.{
  Services, Producer, get_peer_timestamp, get_peer_addr_string, flag_or_false,
}
use gobmp.Producer.Unicast.{operation, origin_as}

-- `Flowspec`, without the fields that no code sets; the int32 field by its 32 bits. It has no hash of
-- the router.
pub record FlowspecMessage : Type 0 where
  pub action : String
  pub router_ip : String
  pub base_attributes : BaseAttributes
  pub peer_ip : String
  pub peer_type : PeerType
  pub peer_asn : ℕ
  pub timestamp : String
  pub is_ipv4 : Bool
  pub origin_as : ℕ
  pub nexthop : String
  pub is_nexthop_ipv4 : Bool
  pub spec_hash : String
  pub spec : List Spec
  pub is_adj_rib_in_post : Bool
  pub is_adj_rib_out_post : Bool
  pub is_loc_rib_filtered : Bool

module _ (s : Services) where
  -- One message for all rules.
  pub flowspec : Producer → MpNlri → ℕ → PeerHeader → Update → Res (List FlowspecMessage)
  flowspec p n op ph u = do
    action ← operation op
    fs ← get_flowspec_nlri s.spec_hash n
    ts ← get_peer_timestamp s ph
    hop ← get_next_hop s.texts n
    ip ← get_peer_addr_string s ph
    ok (
        (record {
          action = action;
          router_ip = p.speaker_ip;
          base_attributes = u.base_attributes;
          peer_ip = ip;
          peer_type = ph.peer_type;
          peer_asn = ph.peer_as;
          timestamp = ts;
          is_ipv4 = not (is_ipv6_nlri n);
          origin_as = origin_as u.base_attributes.as_path;
          nexthop = hop;
          is_nexthop_ipv4 = not (is_next_hop_ipv6 n);
          spec_hash = fs.spec_hash;
          spec = fs.spec;
          is_adj_rib_in_post = flag_or_false (is_adj_rib_in_post ph);
          is_adj_rib_out_post = flag_or_false (is_adj_rib_out_post ph);
          is_loc_rib_filtered = flag_or_false (is_loc_rib_filtered ph);
        })
        ∷ [])
