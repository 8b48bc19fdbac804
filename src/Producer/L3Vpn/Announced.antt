-- ===== src/Producer/L3Vpn/Announced.antt =====
-- The messages that VPN routes become, written out.
use Prim.Native.String.{String}
use gobmp.Prelude.{
  ℕ, ◌≡◌, refl, Bool, false, not, List, [], ◌∷◌, none, All, map, if◌then◌else◌, ◌==◌, Bool-cases,
  inl, inr,
}
use gobmp.Go.{ok, err, not_found, padded}
use gobmp.Base.Rd.Words.{rd_words, rd_text-rd_words}
use gobmp.Nlri.L3Vpn.RoundTrip.{Vpn, IsVpn, vpn_route}
use gobmp.Bgp.PathAttribute.{PathAttribute, has_prefix_sid}
use gobmp.Bgp.Texts.{Texts}
use gobmp.Bgp.Update.{Update}
use gobmp.Bgp.MpNlri.{MpNlri, get_nlri_l3vpn, get_next_hop, is_ipv6_nlri, is_next_hop_ipv6}
use gobmp.Bmp.PeerHeader.{PeerHeader, is_adj_rib_in_post, is_adj_rib_out_post, is_loc_rib_filtered}
use gobmp.PrefixSid.{prefix_sid_of, get_attr_prefix_sid}
use gobmp.Producer.Services.{Services, Producer, get_peer_hash, flag_or_false, some_or_none}
use gobmp.Producer.Unicast.{operation, origin_as}
use gobmp.Producer.Unicast.Announced.{Peer, each-map, label_values-map}
use gobmp.Producer.L3Vpn.{L3VpnPrefix, l3vpn, l3vpn_message, rd_parts}

-- An update without the attribute has no Prefix SID.
prefix_sid_of_none :
    (t : Texts) (attrs : List PathAttribute)
    → has_prefix_sid attrs ≡ false
    → prefix_sid_of t attrs ≡ err not_found
unfolding has_prefix_sid prefix_sid_of
prefix_sid_of_none t [] h = refl
prefix_sid_of_none t (a ∷ attrs) h = elim (Bool-cases (a.attribute_type == 40)) [
  | inl e ↦ cc
  | inr e ↦ rw e (prefix_sid_of_none t attrs (rw e at h))
]

module _ (s : Services) (p : Producer) (ph : PeerHeader) (t : Peer s ph) where
  -- The message of a VPN route.
  abbrev pub vpn_announced : String → Update → MpNlri → String → Bool → Vpn → L3VpnPrefix
  vpn_announced action u n hop flag x = record {
    action = action;
    router_hash = p.speaker_hash;
    router_ip = p.speaker_ip;
    base_attributes = u.base_attributes;
    peer_hash = get_peer_hash s ph;
    peer_ip = t.ip;
    peer_type = ph.peer_type;
    peer_asn = ph.peer_as;
    timestamp = t.time;
    prefix =
        if is_ipv6_nlri n
        then s.texts.ip16 (padded 16 x.prefix)
        else s.texts.ip4 (padded 4 x.prefix);
    prefix_len = (vpn_route flag x).length;
    is_ipv4 = not (is_ipv6_nlri n);
    origin_as = origin_as u.base_attributes.as_path;
    nexthop = hop;
    is_nexthop_ipv4 = not (is_next_hop_ipv6 n);
    path_id = if flag then x.path_id else 0;
    labels = map (λ l. l.value) x.stack;
    vpn_rd = rd_words s.texts x.rd;
    vpn_rd_type = x.rd.rd_type;
    prefix_sid = none;
    is_adj_rib_in_post = flag_or_false (is_adj_rib_in_post ph);
    is_adj_rib_out_post = flag_or_false (is_adj_rib_out_post ph);
    is_loc_rib_filtered = flag_or_false (is_loc_rib_filtered ph);
  }

  module _ (action : String) (u : Update) (n : MpNlri) (hop : String) (flag : Bool)
      (no_sid : has_prefix_sid u.path_attributes ≡ false)
      (has_hop : get_next_hop s.texts n ≡ ok hop) where
    l3vpn_message-vpn_announced :
        (x : Vpn)
        → IsVpn x
        → l3vpn_message s p action n ph u (vpn_route flag x)
          ≡ ok (vpn_announced action u n hop flag x)
    unfolding l3vpn_message rd_parts get_attr_prefix_sid some_or_none
    l3vpn_message-vpn_announced x h = rw (
      t.has_time,
      has_hop,
      t.has_ip,
      label_values-map x.stack,
      rd_text-rd_words s.texts x.rd h.rd_known,
      prefix_sid_of_none s.texts u.path_attributes no_sid,
    )

    pub l3vpn-vpn_announced :
        (depth op : ℕ) (xs : List Vpn)
        → operation op ≡ ok action
        → get_nlri_l3vpn depth n ≡ ok (map (vpn_route flag) xs)
        → All IsVpn xs
        → l3vpn s depth p n op ph u ≡ ok (map (vpn_announced action u n hop flag) xs)
    unfolding l3vpn
    l3vpn-vpn_announced depth op xs o e h =
        rw (e, o)
          (each-map IsVpn (vpn_route flag) (l3vpn_message s p action n ph u)
            (vpn_announced action u n hop flag) l3vpn_message-vpn_announced xs h)
