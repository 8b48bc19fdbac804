-- ===== src/Producer/RouteMonitor/Vpn/Tests.antt =====
-- An update of 10.1.0.0/16 in the VPN 0:100:100, behind the next hop 192.0.2.1.
use gobmp.Prelude.{◌≡◌, refl, arith, [], ◌∷◌, some, true, false, inl, map}
use gobmp.Go.{ok, slice_from}
use gobmp.Go.Scan.{encode_all}
use gobmp.Nlri.L3Vpn.RoundTrip.{Vpn, IsVpn, encode_vpn}
use gobmp.Bgp.Attributes.{no_attributes}
use gobmp.Bgp.Nlri.{nlri_message_type}
use gobmp.Bgp.PathAttribute.{get_nlri_type, nlri_type_from, has_prefix_sid}
use gobmp.Bgp.Update.{Update}
use gobmp.Bgp.MpReach.{MpReach, path_id_flag, get_afi_safi_type}
use gobmp.Bgp.MpReach.RoundTrip.{encode_mp_reach}
use gobmp.Bgp.MpNlri.{reach, get_next_hop}
use gobmp.Bgp.Open.AddPath.{entry, lookup}
use gobmp.Producer.Samples.{plain_services, speaker, peer, peer_texts, no_other}
use gobmp.Producer.L3Vpn.Announced.{vpn_announced}
use gobmp.Producer.RouteMonitor.{l3vpn_prefix, attribute_at, produce_route_monitor_message}
use gobmp.Producer.RouteMonitor.Published.{published, topic_shown}
use gobmp.Producer.RouteMonitor.Vpn.{produce_route_monitor_message-vpn}

abbrev vpn_16 : Vpn
vpn_16 = record {
  path_id = 0;
  stack = (record { value = 100; exp = 0; bos = true }) ∷ [];
  rd = record { rd_type = 0; value = 0 ∷ 100 ∷ 0 ∷ 0 ∷ 0 ∷ 100 ∷ [] };
  bits = 16;
  prefix = 10 ∷ 1 ∷ [];
}

vpn_16-IsVpn : IsVpn vpn_16
vpn_16-IsVpn = record {
  labels_known =
      ((record { value_bound = omega arith; exp_bound = omega arith }, refl), λ e. omega arith);
  rd_known = record { known = omega arith; six = refl };
  sized = refl;
  byte = omega arith;
}

abbrev vpn_reach : MpReach
vpn_reach = record {
  address_family_id = 1;
  sub_address_family_id = 128;
  next_hop_address_length = 12;
  next_hop_address = 0 ∷ 0 ∷ 0 ∷ 0 ∷ 0 ∷ 0 ∷ 0 ∷ 0 ∷ 192 ∷ 0 ∷ 2 ∷ 1 ∷ [];
  nlri = encode_all (encode_vpn false) (vpn_16 ∷ []);
  srv6 = false;
  add_path = [];
}

abbrev vpn_update : Update
vpn_update = record {
  withdrawn_routes_length = 0;
  withdrawn_routes = [];
  total_path_attribute_length = 0;
  path_attributes =
      (record {
        flags = 128;
        attribute_type = 14;
        length = 32;
        attribute = encode_mp_reach 0 vpn_reach;
      })
      ∷ [];
  nlri = [];
  base_attributes = no_attributes;
}

no_flag : path_id_flag vpn_reach ≡ false
unfolding path_id_flag get_afi_safi_type entry lookup nlri_message_type
no_flag = refl

produce_route_monitor_message-vpn_example :
    produce_route_monitor_message plain_services
      (λ sent m. true)
      no_other
      1
      speaker
      (some peer)
      (record { update = some vpn_update })
      []
    ≡ ok (
        published (topic_shown speaker) (
          map l3vpn_prefix (
            map
              (vpn_announced plain_services speaker peer peer_texts "add" vpn_update
                (reach vpn_reach)
                "ip4"
                (path_id_flag vpn_reach))
              (vpn_16 ∷ []))))
unfolding get_nlri_type nlri_type_from attribute_at has_prefix_sid get_next_hop
    gobmp.Bgp.MpReach.get_next_hop slice_from
produce_route_monitor_message-vpn_example =
    produce_route_monitor_message-vpn plain_services no_other speaker peer peer_texts vpn_update
      vpn_reach 0 0 "ip4" vpn_16 [] 0 [] refl refl refl refl refl refl (inl refl) refl (rw no_flag)
      (vpn_16-IsVpn, tt) refl
